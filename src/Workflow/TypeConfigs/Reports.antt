-- ===== src/Workflow/TypeConfigs/Reports.antt =====
-- What the settings report of a task type (backend/app/services/workflow_service.py).
use tasktrack.Prelude.{ℕ, ◌≡◌, some, is_some, is_some_of, not, ◌||◌}
use tasktrack.Model.{Workflow, TaskType, Tables}
use tasktrack.Workflow.{find_type_config, process_workflow}
use tasktrack.Workflow.TypeConfigs.{reported}

Agrees : ℕ → TaskType → Tables → Workflow → Type 0
Agrees project_id ty t wf = is_some_of (reported project_id t ty).workflow_id wf.id ≡ (
    is_some (find_type_config project_id ty.id t)
    || (not (is_some ty.default_workflow_id)
        || (is_some (process_workflow (some ty)) || is_some_of ty.default_workflow_id wf.id)))
