-- ===== src/Packages/Normal.antt =====
-- What `normalize` keeps and makes (backend/app/services/work_package_service.py).
use Prim.Native.String.{String}
use tasktrack.Prelude.{
  ℕ, suc, ◌≡◌, refl, sym, subst, inl, inr, Bool-cases, true, false, none, some, List, [], ◌∷◌,
  str_eq, arith, length, any, collect, Option-cases,
}
use text.Mathlib.TextPositions.{eq_refl}
use tasktrack.Model.{Criterion, WorkPackageContent}
use tasktrack.Packages.Content.{
  knows, criterion_key, free_number, given_keys, with_key, keyed, normalize,
}
use tasktrack.Packages.Keys.{AreDistinct, keys, str_eq→≡, free_number-free}

-- A key that is taken and that no criterion brings is given to none.
keyed-unknown :
    (n : ℕ) (taken : List String) (cs : List Criterion) (key : String)
    → knows taken key ≡ true
    → knows (given_keys cs) key ≡ false
    → knows (keys (keyed n taken cs)) key ≡ false
unfolding keyed given_keys knows any collect
keyed-unknown n taken [] key held new = refl
keyed-unknown n taken (c ∷ cs) key held new = elim (Option-cases c.key) [
  | inr (own, given) ↦ ground (arith, given, keyed-unknown n taken cs key)
  | inl omitted ↦
      let m = free_number (suc (length taken)) (suc n) taken in
      let free = free_number-free (suc n) taken in
      let rest =
        keyed-unknown m (criterion_key m ∷ taken) cs key (ground (arith, held))
          (ground (arith, omitted, new)) in
      elim (Bool-cases (str_eq (criterion_key m) key)) [
        | inr apart ↦ ground (arith, omitted, apart, rest)
        | inl same ↦ absurd (
            let e =
              subst (λ k. knows taken k ≡ true) (sym (str_eq→≡ (criterion_key m) key same)) held in
            ground (arith, e, free))
      ]
]

keyed-given :
    (n : ℕ) (taken : List String) (c : Criterion) (cs : List Criterion) (own : String)
    → c.key ≡ some own
    → (keyed n taken (c ∷ cs) ≡ with_key own c ∷ keyed n taken cs)
      × (given_keys (c ∷ cs) ≡ own ∷ given_keys cs)
unfolding keyed given_keys
keyed-given n taken c cs own given = ground (arith, given)

keyed-omitted :
    (n : ℕ) (taken : List String) (c : Criterion) (cs : List Criterion)
    → c.key ≡ none
    → let m = free_number (suc (length taken)) (suc n) taken in
      (keyed n taken (c ∷ cs) ≡ with_key (criterion_key m) c ∷ keyed m (criterion_key m ∷ taken) cs)
      × (given_keys (c ∷ cs) ≡ given_keys cs)
unfolding keyed given_keys
keyed-omitted n taken c cs omitted = ground (arith, omitted)

keyed-AreDistinct :
    (n : ℕ) (taken : List String) (cs : List Criterion)
    → ((key : String) → knows (given_keys cs) key ≡ true → knows taken key ≡ true)
    → AreDistinct (given_keys cs)
    → AreDistinct (keys (keyed n taken cs))
unfolding keyed given_keys knows any collect AreDistinct
keyed-AreDistinct n taken [] within distinct = tt
keyed-AreDistinct n taken (c ∷ cs) within distinct = elim (Option-cases c.key) [
  | inr (own, given) ↦
      let (row, brought) = keyed-given n taken c cs own given in
      let (apart, rest) = subst AreDistinct brought distinct in
      let held =
        within own (subst (λ l. knows l own ≡ true) (sym brought) (ground (arith, eq_refl own))) in
      subst (λ l. AreDistinct (keys l)) (sym row)
        (
          keyed-unknown n taken cs own held apart,
          keyed-AreDistinct n taken cs
              (λ key k.
                within key (subst (λ l. knows l key ≡ true) (sym brought) (ground (arith, k))))
              rest,
        )
  | inl omitted ↦
      let m = free_number (suc (length taken)) (suc n) taken in
      let key = criterion_key m in
      let (row, brought) = keyed-omitted n taken c cs omitted in
      let rest = subst AreDistinct brought distinct in
      let inside : (k : String) → knows (given_keys cs) k ≡ true → knows taken k ≡ true =
        λ k h. within k (subst (λ l. knows l k ≡ true) (sym brought) h) in
      let new : knows (given_keys cs) key ≡ false = elim (Bool-cases (knows (given_keys cs) key)) [
        | inr new ↦ new
        | inl old ↦
            absurd (let e = inside key old in ground (arith, e, free_number-free (suc n) taken))
      ] in
      subst (λ l. AreDistinct (keys l)) (sym row)
        (
          keyed-unknown m (key ∷ taken) cs key (ground (arith, eq_refl key)) new,
          keyed-AreDistinct m (key ∷ taken) cs (λ k h. ground (arith, inside k h)) rest,
        )
]

-- `normalize` gives every criterion a key of its own, where no two criteria of the draft bring the same
-- key.
pub normalize-AreDistinct :
    (draft : WorkPackageContent)
    → AreDistinct (given_keys draft.criteria)
    → AreDistinct (keys (normalize draft).criteria)
unfolding normalize
normalize-AreDistinct draft distinct =
    keyed-AreDistinct 0 (given_keys draft.criteria) draft.criteria (λ key k. k) distinct
