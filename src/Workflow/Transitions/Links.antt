-- ===== src/Workflow/Transitions/Links.antt =====
-- The ends of transitions (backend/app/services/workflow_service.py).
use tasktrack.Prelude.{
  ℕ, ◌≡◌, sym, subst, inl, inr, Bool, Bool-cases, true, not, ◌&&◌, some, List, [], ◌∷◌, ◌++◌, ◌==◌,
  arith, first, select, modify, All,
}
use tasktrack.Model.{Status, Transition, Workflow, Tables}
use tasktrack.Query.{Context, Error, ok, err, Result-cases, ◌>>=◌}
use tasktrack.Exec.{Session}
use tasktrack.Workflow.{find_status}
use tasktrack.Workflow.Transitions.{
  TransitionCreate, TransitionUpdate, belongs_to, checked_ends, new_transition, create_transition,
  managed_transition, with_fields, update_transition, delete_transition,
}

-- Both ends of a transition are statuses of its workflow.
unfoldable pub joins : List Status → Transition → Bool
joins statuses tr =
    belongs_to tr.workflow_id (first (λ s. s.id == tr.from_status_id) statuses)
    && belongs_to tr.workflow_id (first (λ s. s.id == tr.to_status_id) statuses)

-- Every transition is one.
unfoldable pub IsLinked : Tables → Type 0
IsLinked t = All (λ tr. joins t.statuses tr ≡ true) t.transitions

All-append {ℓ} :
    {A : Type ℓ} (q : A → Bool) (l r : List A)
    → All (λ a. q a ≡ true) l
    → All (λ a. q a ≡ true) r
    → All (λ a. q a ≡ true) (l ++ r)
All-append q [] r h k = k
All-append q (x ∷ xs) r (h, hs) k = (h, All-append q xs r hs k)

All-select {ℓ} :
    {A : Type ℓ} (q p : A → Bool) (l : List A)
    → All (λ a. q a ≡ true) l
    → All (λ a. q a ≡ true) (select p l)
unfolding select
All-select q p [] h = tt
All-select q p (x ∷ xs) (h, hs) = elim (Bool-cases (p x)) [
  | inl e ↦ rw e (h, All-select q p xs hs)
  | inr e ↦ rw e (All-select q p xs hs)
]

All-modify {ℓ} :
    {A : Type ℓ} (q p : A → Bool) (b : A) (l : List A)
    → q b ≡ true
    → All (λ a. q a ≡ true) l
    → All (λ a. q a ≡ true) (modify p (λ _. b) l)
unfolding modify
All-modify q p b [] t h = tt
All-modify q p b (x ∷ xs) t (h, hs) = (ground (arith, t, h), All-modify q p b xs t hs)

pub All-first {ℓ} :
    {A : Type ℓ} (q p : A → Bool) (l : List A) {a : A}
    → All (λ x. q x ≡ true) l
    → first p l ≡ some a
    → q a ≡ true
unfolding first
All-first q p [] h found = absurd (ground arith)
All-first q p (x ∷ xs) {a} (h, hs) found = ground (arith, h, All-first q p xs {a = a} hs)

-- What `joins` reads.
IsLinked-same :
    (t u : Tables) (l : List Transition)
    → u.statuses ≡ t.statuses
    → u.transitions ≡ l
    → All (λ tr. joins t.statuses tr ≡ true) l
    → IsLinked u
unfolding IsLinked
IsLinked-same t u l statuses transitions h =
    subst (λ ss. All (λ tr. joins ss tr ≡ true) u.transitions) (sym statuses)
      (subst (λ ts. All (λ tr. joins t.statuses tr ≡ true) ts) (sym transitions) h)

checked_ends-ok :
    (ctx : Context) (new_id id : ℕ) (dto : TransitionCreate) (t : Tables) (wf : Workflow)
    → checked_ends ctx id dto t ≡ ok wf
    → joins t.statuses (new_transition new_id id dto) ≡ true
unfolding checked_ends ◌>>=◌ joins find_status
checked_ends-ok ctx new_id id dto t wf h = ground arith

create_transition_refused :
    (ctx : Context) (new_id id : ℕ) (dto : TransitionCreate) (s : Session) {e : Error}
    → checked_ends ctx id dto s.tables ≡ err e
    → create_transition ctx new_id id dto s ≡ (err e, s)
unfolding create_transition
create_transition_refused ctx new_id id dto s h = ground arith

create_transition_effect :
    (ctx : Context) (new_id id : ℕ) (dto : TransitionCreate) (s : Session) (wf : Workflow)
    → checked_ends ctx id dto s.tables ≡ ok wf
    → let u = (create_transition ctx new_id id dto s).1.tables in
      (u.statuses ≡ s.tables.statuses)
      × (u.transitions ≡ s.tables.transitions ++ new_transition new_id id dto ∷ [])
unfolding create_transition
create_transition_effect ctx new_id id dto s wf h = ground arith

-- Whether it succeeds or raises, `create_transition` keeps every transition between statuses of its
-- own workflow.
pub create_transition-IsLinked :
    (ctx : Context) (new_id id : ℕ) (dto : TransitionCreate) (s : Session)
    → IsLinked s.tables
    → IsLinked (create_transition ctx new_id id dto s).1.tables
unfolding IsLinked
create_transition-IsLinked ctx new_id id dto s h =
    elim (Result-cases (checked_ends ctx id dto s.tables)) [
      | inr (e, failed) ↦
          subst (λ r. IsLinked r.1.tables)
            (sym (create_transition_refused ctx new_id id dto s failed)) h
      | inl (wf, passed) ↦
          let tr = new_transition new_id id dto in
          let (statuses, transitions) = create_transition_effect ctx new_id id dto s wf passed in
          IsLinked-same s.tables (create_transition ctx new_id id dto s).1.tables
            (s.tables.transitions ++ tr ∷ []) statuses transitions
            (All-append (joins s.tables.statuses) s.tables.transitions (tr ∷ []) h
              (checked_ends-ok ctx new_id id dto s.tables wf passed, tt))
    ]

managed_transition-ok :
    (ctx : Context) (id : ℕ) (t : Tables) (tr : Transition) (wf : Workflow)
    → managed_transition ctx id t ≡ ok (tr, wf)
    → first (λ r. r.id == id) t.transitions ≡ some tr
unfolding managed_transition ◌>>=◌
managed_transition-ok ctx id t tr wf h = ground arith

update_transition_refused :
    (ctx : Context) (id : ℕ) (dto : TransitionUpdate) (s : Session) {e : Error}
    → managed_transition ctx id s.tables ≡ err e
    → update_transition ctx id dto s ≡ (err e, s)
unfolding update_transition
update_transition_refused ctx id dto s h = ground arith

update_transition_effect :
    (ctx : Context) (id : ℕ) (dto : TransitionUpdate) (s : Session) (tr : Transition)
    (wf : Workflow)
    → managed_transition ctx id s.tables ≡ ok (tr, wf)
    → let u = (update_transition ctx id dto s).1.tables in
      (u.statuses ≡ s.tables.statuses)
      × (u.transitions ≡ modify (λ r. r.id == tr.id) (λ _. with_fields dto tr) s.tables.transitions)
unfolding update_transition with_fields
update_transition_effect ctx id dto s tr wf h = ground arith

-- Whether it succeeds or raises, `update_transition` keeps every transition between statuses of its
-- own workflow.
pub update_transition-IsLinked :
    (ctx : Context) (id : ℕ) (dto : TransitionUpdate) (s : Session)
    → IsLinked s.tables
    → IsLinked (update_transition ctx id dto s).1.tables
unfolding IsLinked
update_transition-IsLinked ctx id dto s h =
    elim (Result-cases (managed_transition ctx id s.tables)) [
      | inr (e, failed) ↦
          subst (λ r. IsLinked r.1.tables) (sym (update_transition_refused ctx id dto s failed)) h
      | inl ((tr, wf), passed) ↦
          let found = managed_transition-ok ctx id s.tables tr wf passed in
          let (statuses, transitions) = update_transition_effect ctx id dto s tr wf passed in
          let old : joins s.tables.statuses tr ≡ true =
            All-first (joins s.tables.statuses) (λ r. r.id == id) s.tables.transitions h found in
          IsLinked-same s.tables (update_transition ctx id dto s).1.tables
            (modify (λ r. r.id == tr.id) (λ _. with_fields dto tr) s.tables.transitions) statuses
            transitions
            (All-modify (joins s.tables.statuses) (λ r. r.id == tr.id) (with_fields dto tr)
              s.tables.transitions (unfold joins with_fields in old) h)
    ]

delete_transition_refused :
    (ctx : Context) (id : ℕ) (s : Session) {e : Error}
    → managed_transition ctx id s.tables ≡ err e
    → delete_transition ctx id s ≡ (err e, s)
unfolding delete_transition
delete_transition_refused ctx id s h = ground arith

delete_transition_effect :
    (ctx : Context) (id : ℕ) (s : Session) (tr : Transition) (wf : Workflow)
    → managed_transition ctx id s.tables ≡ ok (tr, wf)
    → let u = (delete_transition ctx id s).1.tables in
      (u.statuses ≡ s.tables.statuses)
      × (u.transitions ≡ select (λ r. not (r.id == tr.id)) s.tables.transitions)
unfolding delete_transition
delete_transition_effect ctx id s tr wf h = ground arith

-- Whether it succeeds or raises, `delete_transition` keeps every transition between statuses of its
-- own workflow.
pub delete_transition-IsLinked :
    (ctx : Context) (id : ℕ) (s : Session)
    → IsLinked s.tables
    → IsLinked (delete_transition ctx id s).1.tables
unfolding IsLinked
delete_transition-IsLinked ctx id s h = elim (Result-cases (managed_transition ctx id s.tables)) [
  | inr (e, failed) ↦
      subst (λ r. IsLinked r.1.tables) (sym (delete_transition_refused ctx id s failed)) h
  | inl ((tr, wf), passed) ↦
      let (statuses, transitions) = delete_transition_effect ctx id s tr wf passed in
      IsLinked-same s.tables (delete_transition ctx id s).1.tables
        (select (λ r. not (r.id == tr.id)) s.tables.transitions) statuses transitions
        (All-select (joins s.tables.statuses) (λ r. not (r.id == tr.id)) s.tables.transitions h)
]
