-- ===== src/Projects/Opening.antt =====
-- A new project and its first task (backend/app/services/project_service.py and task_service.py).
use tasktrack.Prelude.{ℕ, ◌≡◌, none, some}
use tasktrack.Model.{TaskType, Tables}
use tasktrack.Query.{Context}
use tasktrack.Permissions.{find_member, find_project}
use tasktrack.Tasks.Creation.{find_default_status}
use tasktrack.Workflow.{find_type_config, find_task_type, process_workflow, find_default}
use tasktrack.Projects.{todo, ProjectCreate, NewIds, new_project, owner, basic}

-- No row has the new ids yet.
pub record AreFresh (ids : NewIds) (user_id : ℕ) (t : Tables) : Type 0 where
  pub no_project : find_project ids.project t ≡ none
  pub no_member : find_member ids.project user_id t ≡ none
  pub no_default : find_default ids.project t ≡ none
  pub no_status : find_default_status ids.workflow t ≡ none

-- What the first task needs to find.
record Has (ctx : Context) (ids : NewIds) (dto : ProjectCreate) (u : Tables) : Type 0 where
  project : find_project ids.project u ≡ some (new_project ctx ids dto)
  member : find_member ids.project ctx.user.id u ≡ some (owner ctx ids)
  workflow : find_default ids.project u ≡ some (basic ids)
  status : find_default_status ids.workflow u ≡ some (todo ids)

-- The task type has no configuration in the project and no process of its own.
pub record IsPlain (project_id : ℕ) (ty : TaskType) (t : Tables) : Type 0 where
  pub unconfigured : find_type_config project_id ty.id t ≡ none
  pub no_process : process_workflow (find_task_type ty.id t) ≡ none
  pub no_schema : ty.meta_schema ≡ none
