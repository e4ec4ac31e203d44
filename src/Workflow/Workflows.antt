-- ===== src/Workflow/Workflows.antt =====
-- `create_workflow`, `update_workflow` and `delete_workflow` of backend/app/services/workflow_service.py.
pub mod OneDefault
pub mod Removal
use tasktrack.Prelude.{
  ℕ, String, Bool, true, false, Option, none, some, List, [], ◌∷◌, ◌++◌, not, ◌&&◌, ◌||◌, ◌==◌, leb,
  is_some_of, if◌then◌else◌, select, modify, any, count, collect, first,
}
use tasktrack.Json.{Dict}
use tasktrack.Model.{Workflow, Status, Transition, TaskType, Tables}
use tasktrack.Query.{
  Context, Query, select_from, http, integrity_error, workflow_is_default, workflow_has_tasks,
}
use tasktrack.Exec.{Exec, pure, ask, require, write, commit, ◌>>=◌, ◌>>◌}
use tasktrack.Audit
use tasktrack.Audit.{workflow_snapshot}
use tasktrack.Permissions.{require_manager}
use tasktrack.Workflow.{managed_workflow}

pub record WorkflowCreate : Type 0 where
  pub name : String
  pub is_default : Bool

pub record WorkflowUpdate : Type 0 where
  pub name : Option String
  pub is_default : Option Bool

abbrev workflow_entry : Context → Workflow → String → Option Dict → Option Dict → Exec (Unit {0})
workflow_entry ctx wf action before after = Audit.log ctx (record {
  project_id = wf.project_id;
  task_id = none;
  entity_type = "workflow";
  entity_id = wf.id;
  action = action;
  before = before;
  after = after;
})

unfoldable pub create_workflow : Context → ℕ → ℕ → WorkflowCreate → Exec Workflow
unfolding ◌>>=◌
create_workflow ctx new_id project_id dto = do
  ask (require_manager ctx project_id)
  let wf : Workflow = record {
    id = new_id;
    project_id = some project_id;
    name = dto.name;
    is_default = dto.is_default;
  }
  write (λ t. record t { workflows = t.workflows ++ wf ∷ [] })
  workflow_entry ctx wf "created" none (some (workflow_snapshot wf))
  commit
  pure wf

-- The default workflows of a project.
unfoldable pub is_default_of : ℕ → Workflow → Bool
is_default_of project_id w = is_some_of w.project_id project_id && w.is_default

-- The `UPDATE` that unsets the previous default.
unfoldable pub unset_default : ℕ → List Workflow → List Workflow
unfolding is_default_of
unset_default project_id = modify (is_default_of project_id) (λ w. record w { is_default = false })

abbrev pub unset_for : Option Bool → Option ℕ → List Workflow → List Workflow
unset_for (some true) (some project_id) l = unset_default project_id l
unset_for _ _ l = l

abbrev or_old {ℓ} : {A : Type ℓ} → Option A → A → A
or_old none old = old
or_old (some new) old = new

unfoldable pub with_fields : WorkflowUpdate → Workflow → Workflow
with_fields dto wf = record wf {
  name = or_old dto.name wf.name;
  is_default = or_old dto.is_default wf.is_default;
}

-- The flush of a changed row.
unfoldable pub save_workflow : Workflow → List Workflow → List Workflow
save_workflow wf = modify (λ w. w.id == wf.id) (λ _. wf)

unfoldable pub update_workflow : Context → ℕ → WorkflowUpdate → Exec Workflow
unfolding ◌>>=◌
update_workflow ctx workflow_id dto = do
  wf ← ask (managed_workflow ctx workflow_id)
  let wf' = with_fields dto wf
  write (λ t. record t {
    workflows = save_workflow wf' (unset_for dto.is_default wf.project_id t.workflows);
  })
  let changes = Audit.diff (workflow_snapshot wf) (workflow_snapshot wf')
  workflow_entry ctx wf' "updated" (some changes.0) (some changes.1)
  commit
  pure wf'

-- A task on the workflow, deleted or not.
unfoldable pub count_tasks : ℕ → Tables → ℕ
count_tasks workflow_id t = count (λ task. task.workflow_id == workflow_id) t.tasks

-- The status is one of the workflow's.
unfoldable pub is_status_of : ℕ → List Status → ℕ → Bool
is_status_of workflow_id l id = any (λ s. s.id == id && s.workflow_id == workflow_id) l

unfoldable pub is_cut : ℕ → List Status → Transition → Bool
is_cut workflow_id l tr =
    tr.workflow_id == workflow_id
    || is_status_of workflow_id l tr.from_status_id
    || is_status_of workflow_id l tr.to_status_id

-- ON DELETE SET NULL.
unfoldable pub without_default : TaskType → TaskType
without_default ty = record ty { default_workflow_id = none }

-- The workflow with its statuses and transitions, and what the foreign keys do with the rows that
-- refer to them.
unfoldable pub without_workflow : ℕ → Tables → Tables
without_workflow id t = record t {
  workflows = select (λ w. not (w.id == id)) t.workflows;
  statuses = select (λ s. not (s.workflow_id == id)) t.statuses;
  transitions = select (λ tr. not (is_cut id t.statuses tr)) t.transitions;
  type_configs = select (λ c. not (c.workflow_id == id)) t.type_configs;
  column_statuses = select (λ m. not (is_status_of id t.statuses m.status_id)) t.column_statuses;
  task_types = modify (λ ty. is_some_of ty.default_workflow_id id) without_default t.task_types;
}

-- The foreign key of `tasks.current_status_id` has no ON DELETE.
unfoldable pub is_held : ℕ → Tables → Bool
is_held id t = any (λ task. is_status_of id t.statuses task.current_status_id) t.tasks

unfoldable pub delete_workflow : Context → ℕ → Exec (Unit {0})
unfolding ◌>>=◌
delete_workflow ctx workflow_id = do
  wf ← ask (managed_workflow ctx workflow_id)
  require (not wf.is_default) (http 409 workflow_is_default)
  task_count ← ask (select_from (count_tasks workflow_id))
  require (leb task_count 0) (http 409 workflow_has_tasks)
  workflow_entry ctx wf "deleted" (some (workflow_snapshot wf)) none
  held ← ask (select_from (is_held wf.id))
  require (not held) integrity_error
  write (without_workflow wf.id)
  commit
