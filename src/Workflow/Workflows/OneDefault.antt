-- ===== src/Workflow/Workflows/OneDefault.antt =====
-- The default workflow of a project (backend/app/services/workflow_service.py).
use tasktrack.Prelude.{
  ℕ, ◌≡◌, ◌≤◌, ◌+◌, refl, sym, subst, inl, inr, Bool, true, false, Option, none, some, List, [],
  ◌∷◌, ◌++◌, ◌==◌, arith, if◌then◌else◌, first, modify, count, count-append, count-replace,
  count-modify, first-modify_unseen, first_sound, ==→≡, ==_refl,
}
use tasktrack.Model.{Workflow, Tables, ProjectMember}
use tasktrack.Query.{Context, Error, ok, err, Result-cases, ◌>>=◌}
use tasktrack.Exec.{Session}
use tasktrack.Permissions.{require_manager}
use tasktrack.Workflow.{find_workflow, get_workflow_or_404, managed_workflow}
use tasktrack.Workflow.Workflows.{
  WorkflowCreate, WorkflowUpdate, create_workflow, is_default_of, unset_default, unset_for,
  with_fields, save_workflow, update_workflow,
}

-- Each project has at most one default workflow, and ids are unique.
pub record HasOneDefault (l : List Workflow) : Type 0 where
  pub one : (project_id : ℕ) → count (is_default_of project_id) l ≤ 1
  pub unique : (id : ℕ) → count (λ w. w.id == id) l ≤ 1

count-unset_default :
    (p other : ℕ) (l : List Workflow)
    → count (is_default_of other) (unset_default p l)
      ≡ (if other == p then 0 else count (is_default_of other) l)
unfolding unset_default is_default_of count modify
count-unset_default p other [] = ground arith
count-unset_default p other (w ∷ l) = ground (arith, count-unset_default p other l)

ids-unset_for :
    (d : Option Bool) (p : Option ℕ) (id : ℕ) (l : List Workflow)
    → count (λ w. w.id == id) (unset_for d p l) ≡ count (λ w. w.id == id) l
unfolding unset_default
ids-unset_for (some true) (some p) id l =
    count-modify (λ w. w.id == id) (is_default_of p) (λ w. record w { is_default = false }) l
      (λ x. refl)
ids-unset_for (some true) none id l = refl
ids-unset_for (some false) p id l = refl
ids-unset_for none p id l = refl

-- The row of the workflow, once the previous default is unset.
unset_row : Option Bool → Option ℕ → Workflow → Workflow
unset_row (some true) (some p) w = if is_default_of p w then record w { is_default = false } else w
unset_row _ _ w = w

first-unset_for :
    (d : Option Bool) (p : Option ℕ) (l : List Workflow) {wf : Workflow}
    → first (λ w. w.id == wf.id) l ≡ some wf
    → first (λ w. w.id == wf.id) (unset_for d p l) ≡ some (unset_row d p wf)
unfolding unset_default unset_row
first-unset_for (some true) (some p) l {wf} found = ground (
  arith,
  found,
  first-modify_unseen (λ w. w.id == wf.id) (is_default_of p) (λ w. record w { is_default = false })
      l (λ x. refl),
)
first-unset_for (some true) none l found = found
first-unset_for (some false) p l found = found
first-unset_for none p l found = found

-- Only the project whose default is unset gains one.
balance :
    (d : Option Bool) (p : Option ℕ) (dto : WorkflowUpdate) (wf : Workflow) (other : ℕ)
    (l : List Workflow)
    → dto.is_default ≡ d
    → wf.project_id ≡ p
    → count (is_default_of other) l ≤ 1
    → count (is_default_of other) (unset_for d p l)
        + (if is_default_of other (with_fields dto wf) then 1 else 0)
      ≤ 1 + (if is_default_of other (unset_row d p wf) then 1 else 0)
unfolding unset_row with_fields is_default_of
balance (some true) (some p) dto wf other l e f h =
    ground (arith, e, f, count-unset_default p other l)
balance (some true) none dto wf other l e f h = ground (arith, e, f)
balance (some false) p dto wf other l e f h = ground (arith, e, f)
balance none p dto wf other l e f h = ground (arith, e, f)

-- What a project counts after an update of `wf`.
saved_defaults :
    (dto : WorkflowUpdate) (wf : Workflow) (l : List Workflow) (other : ℕ)
    → HasOneDefault l
    → first (λ w. w.id == wf.id) l ≡ some wf
    → count
        (is_default_of other)
        (save_workflow (with_fields dto wf) (unset_for dto.is_default wf.project_id l))
      ≤ 1
unfolding save_workflow with_fields
saved_defaults dto wf l other h found =
    let u = unset_for dto.is_default wf.project_id l in
    let there = first-unset_for dto.is_default wf.project_id l found in
    let counted =
      count-replace (is_default_of other) (λ w. w.id == wf.id) (with_fields dto wf) u there
        (rw (ids-unset_for dto.is_default wf.project_id wf.id l) (h.unique wf.id)) in
    omega
      (arith, counted, balance dto.is_default wf.project_id dto wf other l refl refl (h.one other))

update_workflow_refused :
    (ctx : Context) (id : ℕ) (dto : WorkflowUpdate) (s : Session) {e : Error}
    → managed_workflow ctx id s.tables ≡ err e
    → update_workflow ctx id dto s ≡ (err e, s)
unfolding update_workflow
update_workflow_refused ctx id dto s h = ground arith

update_workflow_effect :
    (ctx : Context) (id : ℕ) (dto : WorkflowUpdate) (s : Session) (wf : Workflow)
    → managed_workflow ctx id s.tables ≡ ok wf
    → (update_workflow ctx id dto s).1.tables.workflows
      ≡ save_workflow
          (with_fields dto wf)
          (unset_for dto.is_default wf.project_id s.tables.workflows)
unfolding update_workflow
update_workflow_effect ctx id dto s wf h = ground arith

managed_workflow-own :
    (ctx : Context) (id : ℕ) (t : Tables) (wf : Workflow)
    → managed_workflow ctx id t ≡ ok wf
    → first (λ w. w.id == wf.id) t.workflows ≡ some wf
unfolding managed_workflow ◌>>=◌ get_workflow_or_404 find_workflow
managed_workflow-own ctx id t wf h =
    let found : first (λ w. w.id == id) t.workflows ≡ some wf = ground arith in
    subst (λ k. first (λ w. w.id == k) t.workflows ≡ some wf)
      (sym (==→≡ wf.id id (first_sound (λ w. w.id == id) t.workflows found))) found

-- Where each project has at most one default workflow and ids are unique, each project has at most one
-- after `update_workflow` too, whether it succeeds or raises.
pub update_workflow-HasOneDefault :
    (ctx : Context) (id project_id : ℕ) (dto : WorkflowUpdate) (s : Session)
    → HasOneDefault s.tables.workflows
    → count (is_default_of project_id) (update_workflow ctx id dto s).1.tables.workflows ≤ 1
update_workflow-HasOneDefault ctx id project_id dto s h =
    elim (Result-cases (managed_workflow ctx id s.tables)) [
      | inr (e, failed) ↦ rw (update_workflow_refused ctx id dto s failed) (h.one project_id)
      | inl (wf, passed) ↦ rw (update_workflow_effect ctx id dto s wf passed) (
          saved_defaults dto wf s.tables.workflows project_id h
            (managed_workflow-own ctx id s.tables wf passed))
    ]

create_workflow_effect :
    (ctx : Context) (new_id project_id : ℕ) (dto : WorkflowCreate) (s : Session)
    (member : ProjectMember)
    → require_manager ctx project_id s.tables ≡ ok member
    → (create_workflow ctx new_id project_id dto s).1.committed.workflows
      ≡ s.tables.workflows
        ++ record {
          id = new_id;
          project_id = some project_id;
          name = dto.name;
          is_default = dto.is_default;
        }
          ∷ []
unfolding create_workflow
create_workflow_effect ctx new_id project_id dto s member h = ground arith

-- A manager who creates a default workflow leaves the project with one default workflow more than it
-- had.
pub create_workflow_adds_default :
    (ctx : Context) (new_id project_id : ℕ) (dto : WorkflowCreate) (s : Session)
    (member : ProjectMember)
    → require_manager ctx project_id s.tables ≡ ok member
    → dto.is_default ≡ true
    → count
        (is_default_of project_id)
        (create_workflow ctx new_id project_id dto s).1.committed.workflows
      ≡ count (is_default_of project_id) s.tables.workflows + 1
unfolding is_default_of count
create_workflow_adds_default ctx new_id project_id dto s member h default = ground (
  arith,
  create_workflow_effect ctx new_id project_id dto s member h,
  default,
  ==_refl project_id,
  count-append (is_default_of project_id) s.tables.workflows (
      record {
        id = new_id;
        project_id = some project_id;
        name = dto.name;
        is_default = dto.is_default;
      }
      ∷ []),
)
