-- ===== src/Tasks/Updates.antt =====
-- `update_task` and `delete_task` of backend/app/services/task_service.py.
pub mod Locking
use tasktrack.Prelude.{
  ℕ, ◌+◌, String, Bool, true, false, Option, none, some, List, not, ◌&&◌, ◌==◌, is_some_of, is_some,
  if◌then◌else◌,
}
use tasktrack.Json
use tasktrack.Json.{Dict}
use tasktrack.Model.Enums.{TaskPriority}
use tasktrack.Model.{Task, TaskType, Tables}
use tasktrack.Query.{Context, Query, integrity_error, select_from, require, ◌>>=◌, ◌>>◌}
use tasktrack.Query
use tasktrack.References.{is_user_or_null}
use tasktrack.Exec
use tasktrack.Exec.{Exec, ask, write, commit}
use tasktrack.Audit
use tasktrack.Bus
use tasktrack.Audit.{task_snapshot}
use tasktrack.Notifications.{notify_task_assigned}
use tasktrack.Permissions.{require_writer}
use tasktrack.Reviewers.{validate_designated_reviewer}
use tasktrack.Workflow.{find_task_type}
use tasktrack.Tasks.{get_task, save_task, task_entry, publish_task, check_version, validate_meta}

-- A field is `none` where `model_fields_set` lacks it, and `some none` where the request has a null.
pub record TaskUpdate : Type 0 where
  pub title : Option (Option String)
  pub description : Option (Option String)
  pub priority : Option (Option TaskPriority)
  pub assignee_id : Option (Option ℕ)
  pub start_date : Option (Option ℕ)
  pub due_date : Option (Option ℕ)
  pub duration_days : Option (Option ℕ)
  pub meta : Option (Option Dict)
  pub reviewer_id : Option (Option ℕ)
  pub version : ℕ

-- `if f in fs: task.f = data.f`
abbrev assigned {ℓ} : {A : Type ℓ} → Option A → A → A
assigned none old = old
assigned (some new) old = new

-- `if f in fs and data.f is not None: task.f = data.f`
abbrev assigned_value {ℓ} : {A : Type ℓ} → Option (Option A) → A → A
assigned_value (some (some new)) old = new
assigned_value _ old = old

-- `data.f`, which is None where the field is not set
abbrev given {ℓ} : {A : Type ℓ} → Option (Option A) → Option A
given none = none
given (some v) = v

abbrev same_id : Option ℕ → Option ℕ → Bool
same_id none none = true
same_id (some a) (some b) = a == b
same_id _ _ = false

abbrev merged : Option (Option Dict) → Dict → Dict
merged (some (some new)) old = Json.merge old new
merged _ old = old

-- The assignments before the checks of `meta` and of the reviewer.
unfoldable pub with_fields : TaskUpdate → Task → Task
with_fields dto task = record task {
  title = assigned_value dto.title task.title;
  description = assigned dto.description task.description;
  priority = assigned_value dto.priority task.priority;
  assignee_id = assigned dto.assignee_id task.assignee_id;
  start_date = assigned dto.start_date task.start_date;
  due_date = assigned dto.due_date task.due_date;
  duration_days = assigned dto.duration_days task.duration_days;
  meta = merged dto.meta task.meta;
}

abbrev schema_of : Option TaskType → Option Dict
schema_of none = none
schema_of (some y) = y.meta_schema

abbrev check_meta : Context → TaskUpdate → Task → Query (Unit {0})
check_meta ctx dto task = do
  task_type ← select_from (find_task_type task.task_type_id)
  if is_some (given dto.meta)
      then validate_meta ctx (schema_of task_type) task.meta
      else Query.pure tt

abbrev check_reviewer : Context → Option (Option ℕ) → Task → Query (Unit {0})
check_reviewer ctx none task = Query.pure tt
check_reviewer ctx (some reviewer_id) task =
    if same_id reviewer_id task.reviewer_id
    then Query.pure tt
    else validate_designated_reviewer ctx task reviewer_id

-- The task after `task.version += 1`.
unfoldable pub updated : TaskUpdate → Task → Task
unfolding with_fields
updated dto task = record (with_fields dto task) {
  reviewer_id = assigned dto.reviewer_id task.reviewer_id;
  version = task.version + 1;
}

-- The checks of `update_task`, in its order, with the foreign key of the assignee, which the flush
-- checks.
unfoldable pub checked_update : Context → ℕ → TaskUpdate → Query Task
checked_update ctx task_id dto = do
  task ← get_task ctx task_id
  require_writer ctx task.project_id
  check_version task dto.version
  check_meta ctx dto (with_fields dto task)
  check_reviewer ctx dto.reviewer_id (with_fields dto task)
  user_known ← select_from (is_user_or_null (with_fields dto task).assignee_id)
  require user_known integrity_error
  Query.pure task

-- `data.assignee_id and data.assignee_id != old_assignee and data.assignee_id != user.id`
unfoldable pub is_new_assignee : Context → Option ℕ → Option ℕ → Bool
is_new_assignee ctx none old_assignee = false
is_new_assignee ctx (some assignee_id) old_assignee =
    not (is_some_of old_assignee assignee_id) && not (assignee_id == ctx.user.id)

unfoldable pub update_task : Context → ℕ → TaskUpdate → Exec Task
unfolding Exec.◌>>=◌
update_task ctx task_id dto = Exec.◌>>=◌ (ask (checked_update ctx task_id dto)) λ task.
    let task' = updated dto task in
    let changes = Audit.diff (task_snapshot task) (task_snapshot task') in
    Exec.◌>>=◌ (write (save_task task')) λ _.
      Exec.◌>>=◌ (task_entry ctx task' "updated" (some changes.0) (some changes.1)) λ _.
        Exec.◌>>=◌
          (write (λ t.
            if is_new_assignee ctx (given dto.assignee_id) task.assignee_id
            then notify_task_assigned task' t
            else t))
          λ _.
            Exec.◌>>=◌ commit
              λ _. Exec.◌>>=◌ (publish_task "task.updated" task') λ _. Exec.pure task'

unfoldable pub checked_delete : Context → ℕ → Query Task
checked_delete ctx task_id = do
  task ← get_task ctx task_id
  require_writer ctx task.project_id
  Query.pure task

unfoldable pub delete_task : Context → ℕ → Exec (Unit {0})
unfolding Exec.◌>>=◌
delete_task ctx task_id = Exec.◌>>=◌ (ask (checked_delete ctx task_id)) λ task.
    Exec.◌>>=◌ (write (save_task (record task { deleted_at = some ctx.now }))) λ _.
      Exec.◌>>=◌ (task_entry ctx task "deleted" (some (task_snapshot task)) none) λ _.
        Exec.◌>>=◌ commit λ _. Exec.with_bus (
          Bus.publish task.project_id (record {
            type = "task.deleted";
            project_id = task.project_id;
            task_id = task.id;
            task = none;
          }))
