-- ===== src/Tasks/Creation.antt =====
-- `create_task` of backend/app/services/task_service.py.
pub mod Numbering
use Prim.Native.String.{◌++◌ as joined}
use tasktrack.Prelude.{
  ℕ, ◌+◌, String, Bool, true, false, Option, none, some, List, [], ◌∷◌, ◌++◌, not, ◌&&◌, ◌==◌,
  str_eq, is_some, is_some_of, if◌then◌else◌, first, modify, str,
}
use tasktrack.Json.{Dict}
use tasktrack.Model.Enums.{TaskPriority, ResultState}
use tasktrack.Model.{Project, Task, TaskType, Status, Workflow, Tables}
use tasktrack.Query.{
  Context, Query, http, project_not_found, task_type_not_found, workflow_no_default_status,
  integrity_error, select_from, or_raise, require, ◌>>=◌, ◌>>◌,
}
use tasktrack.Query
use tasktrack.References.{is_user_or_null, is_task_or_null}
use tasktrack.Exec
use tasktrack.Exec.{Exec, ask, write, commit}
use tasktrack.Audit.{task_snapshot}
use tasktrack.Notifications.{notify_task_assigned}
use tasktrack.Permissions.{find_project, require_writer}
use tasktrack.Workflow.{find_workflow, get_workflow_for_task_type}
use tasktrack.Workflow.Boards.{map_workflow_to_boards}
use tasktrack.Tasks.{task_entry, publish_task, validate_meta}

pub record TaskCreate : Type 0 where
  pub title : String
  pub description : Option String
  pub task_type_key : String
  pub priority : TaskPriority
  pub workflow_id : Option ℕ
  pub assignee_id : Option ℕ
  pub parent_task_id : Option ℕ
  pub start_date : Option ℕ
  pub due_date : Option ℕ
  pub duration_days : Option ℕ
  pub meta : Dict

abbrev or_else {ℓ} : {A : Type ℓ} → Option A → Option A → Option A
or_else none b = b
or_else (some a) b = some a

-- The project's own type of this key, else the system's.
unfoldable pub find_type_by_key : String → ℕ → Tables → Option TaskType
find_type_by_key key project_id t =
    or_else (first (λ y. str_eq y.key key && is_some_of y.project_id project_id) t.task_types)
      (first (λ y. str_eq y.key key && not (is_some y.project_id)) t.task_types)

-- `_resolve_task_type`
unfoldable pub resolve_task_type : String → ℕ → Query TaskType
resolve_task_type key project_id = do
  found ← select_from (find_type_by_key key project_id)
  or_raise found (http 400 task_type_not_found)

unfoldable pub chosen_workflow : Option ℕ → ℕ → ℕ → Query ℕ
chosen_workflow (some workflow_id) project_id task_type_id = Query.pure workflow_id
chosen_workflow none project_id task_type_id = do
  wf ← get_workflow_for_task_type project_id task_type_id
  Query.pure wf.id

unfoldable pub find_default_status : ℕ → Tables → Option Status
find_default_status workflow_id t =
    first (λ s. s.workflow_id == workflow_id && s.is_default) t.statuses

-- The foreign keys of the new row that hold ids of the request: the flush of the insert fails.
unfoldable pub check_references : TaskCreate → Query (Unit {0})
check_references dto = do
  user_known ← select_from (is_user_or_null dto.assignee_id)
  require user_known integrity_error
  task_known ← select_from (is_task_or_null dto.parent_task_id)
  require task_known integrity_error

-- The reads and checks of `create_task`, in its order, down to the numbering, with those of the
-- insert, which roll the numbering back. The project is there, since `require_writer` has read it.
unfoldable pub checked_creation : Context → ℕ → TaskCreate → Query (Project × TaskType × ℕ × Status)
checked_creation ctx project_id dto = do
  require_writer ctx project_id
  found ← select_from (find_project project_id)
  project ← or_raise found (http 404 project_not_found)
  task_type ← resolve_task_type dto.task_type_key project_id
  validate_meta ctx task_type.meta_schema dto.meta
  workflow_id ← chosen_workflow dto.workflow_id project_id task_type.id
  default ← select_from (find_default_status workflow_id)
  status ← or_raise default (http 400 workflow_no_default_status)
  check_references dto
  Query.pure (project, task_type, workflow_id, status)

-- `f"{project.key}-{seq}"`
unfoldable pub task_key : String → ℕ → String
task_key project_key seq = joined project_key (joined "-" (str seq))

-- `UPDATE … SET task_seq = task_seq + 1`
unfoldable pub next_number : ℕ → Tables → Tables
next_number project_id t = record t {
  projects =
      modify (λ p. p.id == project_id) (λ p. record p { task_seq = p.task_seq + 1 }) t.projects;
}

unfoldable pub new_task : Context → ℕ → TaskCreate → Project → TaskType → ℕ → Status → Task
unfolding task_key
new_task ctx new_id dto project task_type workflow_id status = record {
  id = new_id;
  project_id = project.id;
  workflow_id = workflow_id;
  task_type_id = task_type.id;
  reporter_id = ctx.user.id;
  assignee_id = dto.assignee_id;
  parent_task_id = dto.parent_task_id;
  current_status_id = status.id;
  key = task_key project.key (project.task_seq + 1);
  title = dto.title;
  description = dto.description;
  priority = dto.priority;
  meta = dto.meta;
  start_date = dto.start_date;
  due_date = dto.due_date;
  duration_days = none;
  deleted_at = none;
  version = 1;
  work_package_draft = none;
  work_package_version = none;
  reviewer_id = none;
  result_state = ResultState.unpresented;
  delivery = none;
  recipient_acceptance = none;
}

abbrev is_system_workflow : Option Workflow → Bool
is_system_workflow none = false
is_system_workflow (some w) = not (is_some w.project_id)

-- The statuses of a system workflow are shown on the project's boards.
unfoldable pub show_process : ℕ → ℕ → Tables → Tables
unfolding map_workflow_to_boards
show_process project_id workflow_id t =
    if is_system_workflow (find_workflow workflow_id t)
    then map_workflow_to_boards project_id workflow_id t
    else t

-- `data.assignee_id and data.assignee_id != user.id`
abbrev for_another : Context → Option ℕ → Bool
for_another ctx none = false
for_another ctx (some assignee_id) = not (assignee_id == ctx.user.id)

unfoldable pub notify_if_assigned : Context → Task → Tables → Tables
notify_if_assigned ctx task t =
    if for_another ctx task.assignee_id then notify_task_assigned task t else t

unfoldable pub create_task : Context → ℕ → ℕ → TaskCreate → Exec Task
unfolding Exec.◌>>=◌
create_task ctx new_id project_id dto =
    Exec.◌>>=◌ (ask (checked_creation ctx project_id dto)) λ found.
      let task = new_task ctx new_id dto found.0 found.1 found.2 found.3 in
      Exec.◌>>=◌ (write (next_number project_id)) λ _.
        Exec.◌>>=◌ (write (λ t. record t { tasks = t.tasks ++ task ∷ [] })) λ _.
          Exec.◌>>=◌ (task_entry ctx task "created" none (some (task_snapshot task))) λ _.
            Exec.◌>>=◌ (write (show_process project_id found.2)) λ _.
              Exec.◌>>=◌ (write (notify_if_assigned ctx task)) λ _.
                Exec.◌>>=◌ commit
                  λ _. Exec.◌>>=◌ (publish_task "task.created" task) λ _. Exec.pure task
