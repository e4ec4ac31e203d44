-- ===== src/Results/Acceptance.antt =====
-- The criteria of an accepting review (backend/app/services/result_service.py).
use tasktrack.Prelude.{
  ℕ, String, ◌≡◌, refl, ap, ◌∙◌, sym, subst, Bool, true, false, not, ◌&&◌, none, some, str_eq, any,
  collect, List, [], ◌∷◌, arith, is_nil, select, All, if◌then◌else◌,
}
use tasktrack.Model.Enums.{is_accepted_verdict}
use tasktrack.Model.{ResultProposal, Review, ReviewCriterion, WorkPackage, PackageCriterion, Tables}
use tasktrack.Query.{Context, ok}
use tasktrack.Exec.{Session}
use tasktrack.Results.{find_proposal, knows, keys_of, required_keys}
use tasktrack.Results.Lifecycle.{review_proposal-HasReviewed}
use tasktrack.Results.Reviews.{ReviewCreate, review_proposal, missing_keys, met_keys, package_of}

-- Where nothing is left over, everything passes.
is_nil-select {ℓ} :
    {A : Type ℓ} (q : A → Bool) (l : List A)
    → is_nil (select (λ a. not (q a)) l) ≡ true
    → All (λ a. q a ≡ true) l
unfolding select
is_nil-select q [] h = tt
is_nil-select q (x ∷ xs) h = (ground arith, is_nil-select q xs (ground arith))

-- The review marks the criterion of this key as met.
unfoldable pub marks_met : Review → String → Bool
marks_met review key = any (λ c. str_eq c.key key && c.is_met) review.criteria

knows-met_keys :
    (cs : List ReviewCriterion) (key : String)
    → knows (met_keys cs) key ≡ any (λ c. str_eq c.key key && c.is_met) cs
unfolding knows met_keys collect select any
knows-met_keys [] key = refl
knows-met_keys (c ∷ cs) key = ground (arith, knows-met_keys cs key)

All-head :
    (Q : String → Type 0) (b : Bool) (c : PackageCriterion) (l : List PackageCriterion)
    → All Q (keys_of (if b then c ∷ l else l))
    → (b ≡ true → Q c.key) × All Q (keys_of l)
unfolding collect
All-head Q true c l (here, rest) = ((λ _. here), rest)
All-head Q false c l h = ((λ asked. absurd (ground (arith, asked))), h)

All-required :
    (Q : String → Type 0) (cs : List PackageCriterion)
    → All Q (keys_of (select (λ c. c.required) cs))
    → All (λ c. c.required ≡ true → Q c.key) cs
unfolding select
All-required Q [] h = tt
All-required Q (c ∷ cs) h =
    let (here, rest) = All-head Q c.required c (select (λ c. c.required) cs) h in
    (here, All-required Q cs rest)

All-collect :
    {A : Type 0} (Q : String → Type 0) (f : A → String) (cs : List A)
    → All Q (collect f cs)
    → All (λ c. Q (f c)) cs
unfolding collect
All-collect Q f [] h = tt
All-collect Q f (c ∷ cs) (here, rest) = (here, All-collect Q f cs rest)

All-weaken :
    {A : Type 0} (P Q : A → Type 0) (l : List A) → ((a : A) → P a → Q a) → All P l → All Q l
All-weaken P Q [] weak h = tt
All-weaken P Q (a ∷ l) weak (here, rest) = (weak a here, All-weaken P Q l weak rest)

-- What an accepting review of the proposal marks: each required criterion of its assignment, or each
-- of its own criteria where it has no assignment.
pub record MeetsRequired (review : Review) (p : ResultProposal) (t : Tables) : Type 0 where
  pub packaged :
      (pkg : WorkPackage)
      → package_of p t ≡ some pkg
      → All (λ c. c.required ≡ true → marks_met review c.key ≡ true) pkg.content.criteria
  pub own : package_of p t ≡ none → All (λ c. marks_met review c.key ≡ true) p.criteria

missing-MeetsRequired :
    (dto : ReviewCreate) (review : Review) (p : ResultProposal) (t : Tables)
    → review.criteria ≡ dto.criteria
    → is_nil (missing_keys (package_of p t) p dto) ≡ true
    → MeetsRequired review p t
unfolding missing_keys required_keys marks_met
missing-MeetsRequired dto review p t same h =
    let Q : String → Type 0 = λ k. marks_met review k ≡ true in
    let met : All Q (required_keys (package_of p t) p) =
      All-weaken (λ k. knows (met_keys dto.criteria) k ≡ true) Q (required_keys (package_of p t) p)
        (λ k known.
          ap (any λ c. str_eq c.key k && c.is_met) same
          ∙ sym (knows-met_keys dto.criteria k)
          ∙ known)
        (is_nil-select (knows (met_keys dto.criteria)) (required_keys (package_of p t) p) h) in
    record {
      packaged = λ pkg there.
          All-required Q pkg.content.criteria (subst (λ o. All Q (required_keys o p)) there met);
      own = λ nowhere.
          All-collect Q (λ c. c.key) p.criteria
            (subst (λ o. All Q (required_keys o p)) nowhere met);
    }

-- A review that accepts marks as met each required criterion of the proposal's package, or each
-- criterion of the proposal where it has no package.
pub accepting_review-MeetsRequired :
    (ctx : Context) (new_id id : ℕ) (dto : ReviewCreate) (s s' : Session) (review : Review)
    → review_proposal ctx new_id id dto s ≡ (ok review, s')
    → is_accepted_verdict review.verdict ≡ true
    → (p : ResultProposal) × (find_proposal id s.tables ≡ some p) × MeetsRequired review p s.tables
accepting_review-MeetsRequired ctx new_id id dto s s' review h accepts =
    let done = review_proposal-HasReviewed ctx new_id id dto s s' review h in
    let verdict : dto.verdict ≡ review.verdict = ap (λ r. r.verdict) (sym done.result) in
    (
      done.proposal,
      done.found,
      missing-MeetsRequired dto review done.proposal s.tables (ap (λ r. r.criteria) done.result) (
          done.reviewable.required_met
            (subst (λ v. is_accepted_verdict v ≡ true) (sym verdict) accepts)),
    )
