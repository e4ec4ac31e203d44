-- ===== src/Workflow/Statuses.antt =====
-- The statuses of a workflow: `create_status`, `update_status`, `delete_status`, `migrate_status`.
pub mod Defaults
pub mod Additions
pub mod Requests
pub mod Removal
pub mod Retained
use tasktrack.Prelude.{
  ℕ, String, Bool, true, false, Option, none, some, List, [], ◌∷◌, ◌++◌, not, ◌&&◌, ◌||◌, ◌==◌, leb,
  if◌then◌else◌, is_some, select, modify, any, count,
}
use tasktrack.Json
use tasktrack.Json.{Json, Dict, entry, empty}
use tasktrack.Model.Enums.{StatusCategory, is_initial}
use tasktrack.Model.{Status, Transition, Task, Workflow, Tables}
use tasktrack.Query.{
  Context, select_from, http, integrity_error, status_default_must_be_initial,
  status_has_active_tasks, status_workflow_mismatch,
}
use tasktrack.Exec.{Exec, pure, ask, require, write, commit, ◌>>=◌, ◌>>◌}
use tasktrack.Audit
use tasktrack.Audit.{status_snapshot}
use tasktrack.Workflow.{
  get_workflow_or_404, get_status_or_404, require_manager_of, managed_status, managed_workflow,
}

pub record StatusCreate : Type 0 where
  pub name : String
  pub category : StatusCategory
  pub is_default : Bool
  pub position : ℕ
  pub color : Option String

pub record StatusUpdate : Type 0 where
  pub name : Option String
  pub category : Option StatusCategory
  pub position : Option ℕ
  pub is_default : Option Bool
  pub color : Option String

abbrev or_old {ℓ} : {A : Type ℓ} → Option A → A → A
or_old none old = old
or_old (some new) old = new

-- `_unset_default_status`
unfoldable pub unset_default_status : ℕ → List Status → List Status
unset_default_status workflow_id =
    modify (λ s. s.workflow_id == workflow_id && s.is_default)
      (λ s. record s { is_default = false })

-- The flush of a changed row.
unfoldable pub save_status : Status → List Status → List Status
save_status s = modify (λ r. r.id == s.id) (λ _. s)

abbrev entry_of : Context → Workflow → Status → String → Option Dict → Option Dict → Exec (Unit {0})
entry_of ctx wf s action before after = Audit.log ctx (record {
  project_id = wf.project_id;
  task_id = none;
  entity_type = "status";
  entity_id = s.id;
  action = action;
  before = before;
  after = after;
})

abbrev unset_if : Bool → ℕ → Exec (Unit {0})
unset_if true workflow_id =
    write (λ t. record t { statuses = unset_default_status workflow_id t.statuses })
unset_if false workflow_id = pure tt

unfoldable pub create_status : Context → ℕ → ℕ → StatusCreate → Exec Status
unfolding ◌>>=◌
create_status ctx new_id workflow_id dto = do
  wf ← ask (managed_workflow ctx workflow_id)
  require (not dto.is_default || is_initial dto.category) (http 400 status_default_must_be_initial)
  unset_if dto.is_default workflow_id
  let s : Status = record {
    id = new_id;
    workflow_id = workflow_id;
    name = dto.name;
    category = dto.category;
    is_default = dto.is_default;
    position = dto.position;
    color = dto.color;
  }
  write (λ t. record t { statuses = t.statuses ++ s ∷ [] })
  entry_of ctx wf s "created" none (some (status_snapshot s))
  commit
  pure s

-- The fields of the update, but for `is_default`; a default status that leaves `initial` is no
-- longer the default.
abbrev keeps_default : Option StatusCategory → Bool → Bool
keeps_default none is_default = is_default
keeps_default (some c) is_default = if not (is_initial c) && is_default then false else is_default

unfoldable pub with_fields : StatusUpdate → Status → Status
with_fields dto s = record s {
  name = or_old dto.name s.name;
  category = or_old dto.category s.category;
  is_default = keeps_default dto.category s.is_default;
  position = or_old dto.position s.position;
  color = elim dto.color [ none ↦ s.color | some c ↦ some c ];
}

-- The branch on `data.is_default`.
abbrev pub set_default : Option Bool → Status → Exec Status
set_default none s = pure s
set_default (some is_default) s = do
  require (not (is_default && not (is_initial s.category)))
      (http 400 status_default_must_be_initial)
  unset_if is_default s.workflow_id
  pure (record s { is_default = is_default })

unfoldable pub update_status : Context → ℕ → StatusUpdate → Exec Status
unfolding ◌>>=◌
update_status ctx status_id dto = do
  (old, wf) ← ask (managed_status ctx status_id)
  s ← set_default dto.is_default (with_fields dto old)
  write (λ t. record t { statuses = save_status s t.statuses })
  let changes = Audit.diff (status_snapshot old) (status_snapshot s)
  entry_of ctx wf s "updated" (some changes.0) (some changes.1)
  commit
  pure s

-- `_count_tasks_in_status`
unfoldable pub count_tasks_in_status : ℕ → Tables → ℕ
count_tasks_in_status status_id t =
    count (λ task. task.current_status_id == status_id && not (is_some task.deleted_at)) t.tasks

-- The foreign key `tasks.current_status_id` has no ON DELETE action: a row that still names the
-- status refuses its deletion.
unfoldable pub is_referenced : ℕ → Tables → Bool
is_referenced status_id t = any (λ task. task.current_status_id == status_id) t.tasks

-- `_delete_status_with_transitions`; the board's rows go by ON DELETE CASCADE.
unfoldable pub without_status : ℕ → Tables → Tables
without_status id t = record t {
  transitions = select (λ tr. not (tr.from_status_id == id || tr.to_status_id == id)) t.transitions;
  statuses = select (λ s. not (s.id == id)) t.statuses;
  column_statuses = select (λ m. not (m.status_id == id)) t.column_statuses;
}

unfoldable pub delete_status_with_transitions : Status → Exec (Unit {0})
unfolding ◌>>=◌
delete_status_with_transitions s = do
  referenced ← ask (select_from (is_referenced s.id))
  require (not referenced) integrity_error
  write (without_status s.id)
  commit

unfoldable pub delete_status : Context → ℕ → Exec (Unit {0})
unfolding ◌>>=◌ delete_status_with_transitions
delete_status ctx status_id = do
  (s, wf) ← ask (managed_status ctx status_id)
  tasks ← ask (select_from (count_tasks_in_status status_id))
  require (leb tasks 0) (http 409 status_has_active_tasks)
  entry_of ctx wf s "deleted" (some (status_snapshot s)) none
  delete_status_with_transitions s

-- The `UPDATE` of `migrate_status`.
unfoldable pub move_tasks : ℕ → ℕ → List Task → List Task
move_tasks from to =
    modify (λ task. task.current_status_id == from && not (is_some task.deleted_at))
      (λ task. record task { current_status_id = to })

unfoldable pub migrate_status : Context → ℕ → ℕ → Exec (Unit {0})
unfolding ◌>>=◌ delete_status_with_transitions
migrate_status ctx status_id target_status_id = do
  (s, wf) ← ask (managed_status ctx status_id)
  target ← ask (get_status_or_404 target_status_id)
  require (target.workflow_id == s.workflow_id) (http 400 status_workflow_mismatch)
  moved ← ask (select_from (count_tasks_in_status status_id))
  write (λ t. record t { tasks = move_tasks status_id target_status_id t.tasks })
  let after =
      entry "migrated_to" (Json.uuid target_status_id) (entry "tasks_moved" (Json.int moved) empty)
  entry_of ctx wf s "deleted" (some (status_snapshot s)) (some after)
  delete_status_with_transitions s
