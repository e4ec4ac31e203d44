-- ===== src/Workflow/Statuses/Defaults.antt =====
-- The default status of a workflow (backend/app/services/workflow_service.py, `update_status`).
use tasktrack.Prelude.{
  sym, subst, first_sound, ==→≡, Bool-cases, inl, inr, refl, first-modify_unseen, ℕ, ◌≤◌, ◌≡◌, refl,
  ◌⊎◌, Bool, true, false, Option, none, some, List, [], ◌∷◌, ◌++◌, not, ◌&&◌, ◌==◌, arith,
  if◌then◌else◌, first, modify, count, count-replace, count-first, count-append,
}
use tasktrack.Model.Enums.{is_initial}
use tasktrack.Model.{Status, Workflow, Tables}
use tasktrack.Query.{Context, ok, err, Error, Result-cases}
use tasktrack.Exec.{Session}
use tasktrack.Workflow.{managed_status, find_status}
use tasktrack.Workflow.Statuses.{
  StatusUpdate, unset_default_status, save_status, with_fields, update_status,
}

-- The default statuses of a workflow.
unfoldable pub defaults : ℕ → List Status → ℕ
defaults workflow_id = count (λ s. s.workflow_id == workflow_id && s.is_default)

-- Default statuses that are not initial.
unfoldable pub misplaced : List Status → ℕ
misplaced = count (λ s. s.is_default && not (is_initial s.category))

pub record IsSound (l : List Status) : Type 0 where
  pub one_default : (workflow_id : ℕ) → defaults workflow_id l ≤ 1
  pub initial_default : misplaced l ≡ 0
  pub unique_ids : (id : ℕ) → count (λ s. s.id == id) l ≤ 1

pub defaults-unset :
    (workflow_id other : ℕ) (l : List Status)
    → defaults other (unset_default_status workflow_id l)
      ≡ (if other == workflow_id then 0 else defaults other l)
unfolding defaults unset_default_status count modify
defaults-unset workflow_id other [] = ground arith
defaults-unset workflow_id other (s ∷ l) = ground (arith, defaults-unset workflow_id other l)

misplaced-unset :
    (workflow_id : ℕ) (l : List Status)
    → misplaced (unset_default_status workflow_id l) ≤ misplaced l
unfolding misplaced unset_default_status count modify
misplaced-unset workflow_id [] = omega arith
misplaced-unset workflow_id (s ∷ l) = ground (arith, misplaced-unset workflow_id l)

pub ids-unset :
    (workflow_id id : ℕ) (l : List Status)
    → count (λ s. s.id == id) (unset_default_status workflow_id l) ≡ count (λ s. s.id == id) l
unfolding unset_default_status count modify
ids-unset workflow_id id [] = refl
ids-unset workflow_id id (s ∷ l) = ground (arith, ids-unset workflow_id id l)

pub unset-IsSound :
    (workflow_id : ℕ) {l : List Status} → IsSound l → IsSound (unset_default_status workflow_id l)
unset-IsSound workflow_id {l} h = record {
  one_default = λ w. ground (arith, defaults-unset workflow_id w l, h.one_default w);
  initial_default = omega (arith, misplaced-unset workflow_id l, h.initial_default);
  unique_ids = λ i. rw (ids-unset workflow_id i l) (h.unique_ids i);
}

-- `s` takes the place of the row that was read for it.
save-IsSound :
    (s old : Status) {l : List Status}
    → IsSound l
    → first (λ r. r.id == s.id) l ≡ some old
    → (s.is_default ≡ true
        → (is_initial s.category ≡ true) × (old.is_default ≡ true ⊎ (defaults s.workflow_id l ≡ 0)))
    → s.workflow_id ≡ old.workflow_id
    → IsSound (save_status s l)
unfolding defaults misplaced save_status
save-IsSound s old {l} h found allowed same_workflow = record {
  one_default = λ w. ground (
    arith,
    h.one_default w,
    h.unique_ids s.id,
    count-replace (λ r. r.workflow_id == w && r.is_default) (λ r. r.id == s.id) s l {a = old},
  );
  initial_default = ground (
    arith,
    h.initial_default,
    h.unique_ids s.id,
    count-replace (λ r. r.is_default && not (is_initial r.category)) (λ r. r.id == s.id) s l
        {a = old},
  );
  unique_ids = λ i. ground (
    arith,
    h.unique_ids i,
    h.unique_ids s.id,
    first_sound (λ r. r.id == s.id) l {a = old},
    count-replace (λ r. r.id == i) (λ r. r.id == s.id) s l {a = old},
  );
}

-- A new row with an id of its own.
pub append-IsSound :
    (s : Status) {l : List Status}
    → IsSound l
    → count (λ r. r.id == s.id) l ≡ 0
    → (s.is_default ≡ true → (is_initial s.category ≡ true) × (defaults s.workflow_id l ≡ 0))
    → IsSound (l ++ s ∷ [])
unfolding defaults misplaced count
append-IsSound s {l} h fresh allowed = record {
  one_default = λ w.
      ground
        (arith, h.one_default w, count-append (λ r. r.workflow_id == w && r.is_default) l (s ∷ []));
  initial_default = ground (
    arith,
    h.initial_default,
    count-append (λ r. r.is_default && not (is_initial r.category)) l (s ∷ []),
  );
  unique_ids = λ i. ground (arith, h.unique_ids i, count-append (λ r. r.id == i) l (s ∷ []));
}

-- What `update_status` makes of the row, and whom it robs of the mark.
abbrev marked : Option Bool → Status → Status
marked none s = s
marked (some b) s = record s { is_default = b }

abbrev pub robbed : Option Bool → ℕ → List Status → List Status
robbed (some true) workflow_id l = unset_default_status workflow_id l
robbed _ workflow_id l = l

abbrev takes_default : Option Bool → Bool
takes_default (some true) = true
takes_default _ = false

abbrev refused : StatusUpdate → Status → Bool
refused dto old = takes_default dto.is_default && not (is_initial (with_fields dto old).category)

-- The statuses after `update_status`, where the checks pass.
update_status_effect :
    (ctx : Context) (id : ℕ) (dto : StatusUpdate) (s : Session) (old : Status) (wf : Workflow)
    → managed_status ctx id s.tables ≡ ok (old, wf)
    → (update_status ctx id dto s).1.tables.statuses ≡ (
        if refused dto old
        then s.tables.statuses
        else save_status
            (marked dto.is_default (with_fields dto old))
            (robbed dto.is_default (with_fields dto old).workflow_id s.tables.statuses))
unfolding update_status
update_status_effect ctx id dto s old wf h = ground arith

update_status_refused :
    (ctx : Context) (id : ℕ) (dto : StatusUpdate) (s : Session) {e : Error}
    → managed_status ctx id s.tables ≡ err e
    → (update_status ctx id dto s).1 ≡ s
unfolding update_status
update_status_refused ctx id dto s h = ground arith

managed_status-found :
    (ctx : Context) (id : ℕ) (t : Tables) (old : Status) (wf : Workflow)
    → managed_status ctx id t ≡ ok (old, wf)
    → first (λ r. r.id == id) t.statuses ≡ some old
unfolding managed_status find_status
managed_status-found ctx id t old wf h = ground arith

managed_status-found_self :
    (ctx : Context) (id : ℕ) (t : Tables) (old : Status) (wf : Workflow)
    → managed_status ctx id t ≡ ok (old, wf)
    → first (λ r. r.id == old.id) t.statuses ≡ some old
managed_status-found_self ctx id t old wf h =
    let found = managed_status-found ctx id t old wf h in
    subst (λ k. first (λ r. r.id == k) t.statuses ≡ some old)
      (sym (==→≡ old.id id (first_sound (λ r. r.id == id) t.statuses found))) found

-- A default status that was read is initial.
default_is_initial :
    {l : List Status} (id : ℕ) (old : Status)
    → IsSound l
    → first (λ r. r.id == id) l ≡ some old
    → old.is_default ≡ true
    → is_initial old.category ≡ true
unfolding misplaced
default_is_initial {l} id old h found d = ground (
  arith,
  h.initial_default,
  count-first (λ r. r.is_default && not (is_initial r.category)) (λ r. r.id == id) l {a = old},
)

read_after_unset :
    (old : Status) (l : List Status)
    → first (λ r. r.id == old.id) l ≡ some old
    → first (λ r. r.id == old.id) (unset_default_status old.workflow_id l)
      ≡ some (
          if old.workflow_id == old.workflow_id && old.is_default
          then record old { is_default = false }
          else old)
unfolding unset_default_status
read_after_unset old l found = ground (
  arith,
  first-modify_unseen (λ r. r.id == old.id) (λ r. r.workflow_id == old.workflow_id && r.is_default)
      (λ r. record r { is_default = false }) l (λ x. refl),
)

-- The three cases of `data.is_default`.
marked-IsSound :
    (dto : StatusUpdate) (b : Option Bool) (old : Status) (l : List Status)
    → IsSound l
    → first (λ r. r.id == old.id) l ≡ some old
    → (takes_default b && not (is_initial (with_fields dto old).category)) ≡ false
    → IsSound (
        save_status (marked b (with_fields dto old)) (robbed b (with_fields dto old).workflow_id l))
unfolding with_fields
marked-IsSound dto none old l h found allowed =
    save-IsSound (with_fields dto old) old h found
      (λ d. (ground (arith, default_is_initial old.id old h found), inl (ground arith))) refl
marked-IsSound dto (some false) old l h found allowed =
    save-IsSound (record (with_fields dto old) { is_default = false }) old h found (λ d. cc) refl
marked-IsSound dto (some true) old l h found allowed =
    save-IsSound (record (with_fields dto old) { is_default = true })
      (if old.workflow_id == old.workflow_id && old.is_default
        then record old { is_default = false }
        else old)
      (unset-IsSound old.workflow_id h) (read_after_unset old l found)
      (λ d. (ground arith, inr (rw defaults-unset (ground arith)))) (ground arith)

update_status_checked :
    (ctx : Context) (id : ℕ) (dto : StatusUpdate) (l : List Status) (old : Status)
    → IsSound l
    → first (λ r. r.id == old.id) l ≡ some old
    → IsSound (
        if refused dto old
        then l
        else save_status
            (marked dto.is_default (with_fields dto old))
            (robbed dto.is_default (with_fields dto old).workflow_id l))
update_status_checked ctx id dto l old h found = elim (Bool-cases (refused dto old)) [
  | inl r ↦ rw r h
  | inr a ↦ rw a (marked-IsSound dto dto.is_default old l h found a)
]

-- Whether it succeeds or raises, `update_status` leaves at most one default status in each workflow,
-- and only initial ones.
pub update_status-IsSound :
    (ctx : Context) (id : ℕ) (dto : StatusUpdate) (s : Session)
    → IsSound s.tables.statuses
    → IsSound (update_status ctx id dto s).1.tables.statuses
update_status-IsSound ctx id dto s h = elim (Result-cases (managed_status ctx id s.tables)) [
  | inr (e, failed) ↦ rw (update_status_refused ctx id dto s failed) h
  | inl ((old, wf), passed) ↦ rw (update_status_effect ctx id dto s old wf passed) (
      update_status_checked ctx id dto s.tables.statuses old h
        (managed_status-found_self ctx id s.tables old wf passed))
]
