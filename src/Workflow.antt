-- ===== src/Workflow.antt =====
-- backend/app/services/workflow_service.py: what its operations look up, the transition that a move
-- needs and the workflow that a new task runs on. The operations stand in the modules below.
pub mod Statuses
pub mod Boards
pub mod Workflows
pub mod TypeConfigs
pub mod Transitions
use tasktrack.Prelude.{
  ℕ, String, Bool, true, false, Option, none, some, ◌&&◌, ◌||◌, ◌==◌, str_eq, is_some, is_some_of,
  first,
}
use tasktrack.Model.{
  Workflow, Status, Transition, ProjectTaskTypeConfig, TaskType, ProjectMember, Tables,
}
use tasktrack.Query.{
  Context, Query, http, project_not_found, workflow_not_found, status_not_found,
  no_default_workflow, pure, raise, select_from, or_raise, ◌>>=◌, ◌>>◌,
}
use tasktrack.Permissions.{require_manager}

unfoldable pub find_workflow : ℕ → Tables → Option Workflow
find_workflow id t = first (λ w. w.id == id) t.workflows

unfoldable pub find_status : ℕ → Tables → Option Status
find_status id t = first (λ s. s.id == id) t.statuses

-- `_get_workflow_or_404`
unfoldable pub get_workflow_or_404 : ℕ → Query Workflow
unfolding ◌>>=◌ find_workflow
get_workflow_or_404 id = do
  found ← select_from (find_workflow id)
  or_raise found (http 404 workflow_not_found)

-- `_get_status_or_404`
unfoldable pub get_status_or_404 : ℕ → Query Status
unfolding ◌>>=◌ find_status
get_status_or_404 id = do
  found ← select_from (find_status id)
  or_raise found (http 404 status_not_found)

-- `require_manager` of the project of a workflow; a system workflow has none, and no project has
-- that id.
unfoldable pub require_manager_of : Context → Option ℕ → Query ProjectMember
require_manager_of ctx none = raise (http 404 project_not_found)
require_manager_of ctx (some project_id) = require_manager ctx project_id

-- The workflow, and a manager of its project.
unfoldable pub managed_workflow : Context → ℕ → Query Workflow
unfolding ◌>>=◌ get_workflow_or_404
managed_workflow ctx workflow_id = do
  wf ← get_workflow_or_404 workflow_id
  require_manager_of ctx wf.project_id
  pure wf

-- The status, its workflow, and a manager of the workflow's project: how `update_status`,
-- `delete_status` and `migrate_status` begin.
unfoldable pub managed_status : Context → ℕ → Query (Status × Workflow)
unfolding ◌>>=◌ get_status_or_404 get_workflow_or_404
managed_status ctx status_id = do
  s ← get_status_or_404 status_id
  wf ← get_workflow_or_404 s.workflow_id
  require_manager_of ctx wf.project_id
  pure (s, wf)

-- `get_transition`
unfoldable pub find_transition : ℕ → ℕ → ℕ → Tables → Option Transition
find_transition workflow_id from_status_id to_status_id t =
    first
      (λ tr.
        tr.workflow_id == workflow_id
        && (tr.from_status_id == from_status_id && tr.to_status_id == to_status_id))
      t.transitions

unfoldable pub find_type_config : ℕ → ℕ → Tables → Option ProjectTaskTypeConfig
find_type_config project_id task_type_id t =
    first (λ c. c.project_id == project_id && c.task_type_id == task_type_id) t.type_configs

unfoldable pub find_task_type : ℕ → Tables → Option TaskType
find_task_type id t = first (λ y. y.id == id) t.task_types

-- `key in PROCESS_KEYS` (backend/app/models/task_type.py)
unfoldable pub is_process_key : String → Bool
is_process_key key = str_eq key "execution" || (str_eq key "research" || str_eq key "migration")

-- The project's default workflow.
unfoldable pub find_default : ℕ → Tables → Option Workflow
find_default project_id t =
    first (λ w. is_some_of w.project_id project_id && w.is_default) t.workflows

-- The workflow that a process type runs on by default.
unfoldable pub process_workflow : Option TaskType → Option ℕ
unfolding is_process_key
process_workflow none = none
process_workflow (some y) = elim (y.is_system && is_process_key y.key) [
  | true ↦ y.default_workflow_id
  | false ↦ none
]

-- The last two links of the chain in `get_workflow_for_task_type`.
unfoldable pub fallback_workflow : ℕ → Option ℕ → Query Workflow
unfolding ◌>>=◌ get_workflow_or_404 find_default
fallback_workflow project_id (some workflow_id) = get_workflow_or_404 workflow_id
fallback_workflow project_id none = do
  found ← select_from (find_default project_id)
  or_raise found (http 400 no_default_workflow)

unfoldable pub configured_workflow : ℕ → ℕ → Option ProjectTaskTypeConfig → Query Workflow
unfolding ◌>>=◌ get_workflow_or_404 fallback_workflow process_workflow find_task_type
configured_workflow project_id task_type_id (some config) = get_workflow_or_404 config.workflow_id
configured_workflow project_id task_type_id none = do
  task_type ← select_from (find_task_type task_type_id)
  fallback_workflow project_id (process_workflow task_type)

unfoldable pub get_workflow_for_task_type : ℕ → ℕ → Query Workflow
unfolding ◌>>=◌ configured_workflow find_type_config
get_workflow_for_task_type project_id task_type_id = do
  config ← select_from (find_type_config project_id task_type_id)
  configured_workflow project_id task_type_id config
