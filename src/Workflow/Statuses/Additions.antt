-- ===== src/Workflow/Statuses/Additions.antt =====
-- A new status and the defaults (backend/app/services/workflow_service.py).
use tasktrack.Prelude.{
  Bool-cases, inl, inr, refl, ℕ, ◌≡◌, refl, Bool, true, false, some, List, [], ◌∷◌, ◌++◌, not, ◌&&◌,
  ◌==◌, arith, if◌then◌else◌, count,
}
use tasktrack.Model.Enums.{is_initial}
use tasktrack.Model.{Status, Workflow}
use tasktrack.Query.{Context, ok, err, Error, Result-cases}
use tasktrack.Exec.{Session}
use tasktrack.Workflow.{managed_workflow}
use tasktrack.Workflow.Statuses.{StatusCreate, create_status}
use tasktrack.Workflow.Statuses.Defaults.{
  defaults-unset, ids-unset, unset-IsSound, append-IsSound, robbed, IsSound,
}

-- The statuses after `create_status`, where the checks pass.
abbrev created : ℕ → ℕ → StatusCreate → List Status → List Status
created new_id workflow_id dto l =
    robbed (some dto.is_default) workflow_id l
    ++ record {
      id = new_id;
      workflow_id = workflow_id;
      name = dto.name;
      category = dto.category;
      is_default = dto.is_default;
      position = dto.position;
      color = dto.color;
    }
      ∷ []

create_status_effect :
    (ctx : Context) (new_id workflow_id : ℕ) (dto : StatusCreate) (s : Session) (wf : Workflow)
    → managed_workflow ctx workflow_id s.tables ≡ ok wf
    → (create_status ctx new_id workflow_id dto s).1.tables.statuses ≡ (
        if dto.is_default && not (is_initial dto.category)
        then s.tables.statuses
        else created new_id workflow_id dto s.tables.statuses)
unfolding create_status
create_status_effect ctx new_id workflow_id dto s wf h = ground arith

create_status_refused :
    (ctx : Context) (new_id workflow_id : ℕ) (dto : StatusCreate) (s : Session) {e : Error}
    → managed_workflow ctx workflow_id s.tables ≡ err e
    → (create_status ctx new_id workflow_id dto s).1 ≡ s
unfolding create_status
create_status_refused ctx new_id workflow_id dto s h = ground arith

created-IsSound :
    (new_id workflow_id : ℕ) (dto : StatusCreate) (b : Bool) (l : List Status)
    → dto.is_default ≡ b
    → (b && not (is_initial dto.category)) ≡ false
    → count (λ r. r.id == new_id) l ≡ 0
    → IsSound l
    → IsSound (created new_id workflow_id dto l)
created-IsSound new_id workflow_id dto false l e allowed fresh h =
    rw e (append-IsSound _ h fresh (λ d. cc))
created-IsSound new_id workflow_id dto true l e allowed fresh h = rw e (
    append-IsSound _ (unset-IsSound workflow_id h) (rw (ids-unset workflow_id new_id l) fresh)
      (λ d. (ground arith, rw defaults-unset (ground arith))))

-- Whether it succeeds or raises, `create_status`, given an id that no status has, leaves at most one
-- default status in each workflow, and only initial ones.
pub create_status-IsSound :
    (ctx : Context) (new_id workflow_id : ℕ) (dto : StatusCreate) (s : Session)
    → count (λ r. r.id == new_id) s.tables.statuses ≡ 0
    → IsSound s.tables.statuses
    → IsSound (create_status ctx new_id workflow_id dto s).1.tables.statuses
create_status-IsSound ctx new_id workflow_id dto s fresh h =
    elim (Result-cases (managed_workflow ctx workflow_id s.tables)) [
      | inr (e, failed) ↦ rw (create_status_refused ctx new_id workflow_id dto s failed) h
      | inl (wf, passed) ↦
          rw (create_status_effect ctx new_id workflow_id dto s wf passed)
            (elim (Bool-cases (dto.is_default && not (is_initial dto.category))) [
              | inl r ↦ rw r h
              | inr a ↦ rw a (
                  created-IsSound new_id workflow_id dto dto.is_default s.tables.statuses refl a
                    fresh h)
            ])
    ]
