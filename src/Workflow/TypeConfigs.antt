-- ===== src/Workflow/TypeConfigs.antt =====
-- The workflows that projects configure for task types (backend/app/services/workflow_service.py).
pub mod Effect
pub mod Reports
use tasktrack.Prelude.{
  ℕ, String, Bool, true, false, Option, none, some, List, [], ◌∷◌, ◌++◌, not, ◌&&◌, ◌||◌, ◌==◌,
  is_some_of, first, select, modify, collect, if◌then◌else◌,
}
use tasktrack.Json.{Dict}
use tasktrack.Model.{Workflow, TaskType, ProjectTaskTypeConfig, Tables}
use tasktrack.Query.{
  Context, Query, http, workflow_not_accessible, integrity_error, select_from, or_raise, require,
  ◌>>=◌, ◌>>◌,
}
use tasktrack.Query
use tasktrack.References.{is_task_type}
use tasktrack.Exec
use tasktrack.Exec.{Exec, ask, write, commit}
use tasktrack.Audit
use tasktrack.Audit.{type_config_snapshot}
use tasktrack.Permissions.{require_manager}
use tasktrack.Workflow.{find_workflow, find_type_config, find_default}

-- `wf.project_id is None or wf.project_id == project_id`
abbrev is_accessible : ℕ → Workflow → Bool
is_accessible project_id wf = elim wf.project_id [ none ↦ true | some id ↦ id == project_id ]

unfoldable pub checked_config : Context → ℕ → ℕ → Query Workflow
checked_config ctx project_id workflow_id = do
  require_manager ctx project_id
  found ← select_from (find_workflow workflow_id)
  wf ← or_raise found (http 400 workflow_not_accessible)
  require (is_accessible project_id wf) (http 400 workflow_not_accessible)
  Query.pure wf

abbrev pub new_config : ℕ → ℕ → ℕ → ℕ → ProjectTaskTypeConfig
new_config new_id project_id task_type_id workflow_id = record {
  id = new_id;
  project_id = project_id;
  task_type_id = task_type_id;
  workflow_id = workflow_id;
}

abbrev config_entry : Context → ℕ → ℕ → String → Option Dict → Option Dict → Exec (Unit {0})
config_entry ctx project_id id action before after = Audit.log ctx (record {
  project_id = some project_id;
  task_id = none;
  entity_type = "task_type_config";
  entity_id = id;
  action = action;
  before = before;
  after = after;
})

unfoldable pub replace_config : ProjectTaskTypeConfig → Tables → Tables
replace_config c t = record t { type_configs = modify (λ r. r.id == c.id) (λ _. c) t.type_configs }

-- The foreign key of a new configuration: the flush of the insert fails.
unfoldable pub check_task_type : ℕ → Query (Unit {0})
unfolding ◌>>=◌
check_task_type task_type_id = do
  known ← select_from (is_task_type task_type_id)
  require known integrity_error

-- The configuration is changed, or added where there is none.
unfoldable pub write_config :
    Context → ℕ → ℕ → ℕ → ℕ → Option ProjectTaskTypeConfig → Exec ProjectTaskTypeConfig
unfolding Exec.◌>>=◌
write_config ctx new_id project_id task_type_id workflow_id (some existing) =
    let config = record existing { workflow_id = workflow_id } in
    let changes = Audit.diff (type_config_snapshot existing) (type_config_snapshot config) in
    Exec.◌>>=◌ (write (replace_config config)) λ _.
      Exec.◌>>=◌ (config_entry ctx project_id config.id "updated" (some changes.0) (some changes.1))
        λ _. Exec.◌>>=◌ commit λ _. Exec.pure config
write_config ctx new_id project_id task_type_id workflow_id none =
    let config = new_config new_id project_id task_type_id workflow_id in
    Exec.◌>>=◌ (ask (check_task_type task_type_id)) λ _.
      Exec.◌>>=◌ (write (λ t. record t { type_configs = t.type_configs ++ config ∷ [] })) λ _.
        Exec.◌>>=◌
          (config_entry ctx project_id new_id "created" none (some (type_config_snapshot config)))
          λ _. Exec.◌>>=◌ commit λ _. Exec.pure config

unfoldable pub set_task_type_workflow : Context → ℕ → ℕ → ℕ → ℕ → Exec ProjectTaskTypeConfig
unfolding Exec.◌>>=◌ write_config
set_task_type_workflow ctx new_id project_id task_type_id workflow_id =
    Exec.◌>>=◌ (ask (checked_config ctx project_id workflow_id)) λ _.
      Exec.◌>>=◌ (ask (select_from (find_type_config project_id task_type_id)))
        (write_config ctx new_id project_id task_type_id workflow_id)

unfoldable pub remove_config : Context → ℕ → Option ProjectTaskTypeConfig → Exec (Unit {0})
unfolding Exec.◌>>=◌
remove_config ctx project_id none = Exec.pure tt
remove_config ctx project_id (some config) =
    Exec.◌>>=◌
      (config_entry ctx project_id config.id "deleted" (some (type_config_snapshot config)) none)
      λ _.
        Exec.◌>>=◌
          (write
            (λ t. record t { type_configs = select (λ r. not (r.id == config.id)) t.type_configs }))
          λ _. commit

unfoldable pub reset_task_type_workflow : Context → ℕ → ℕ → Exec (Unit {0})
unfolding Exec.◌>>=◌ remove_config
reset_task_type_workflow ctx project_id task_type_id =
    Exec.◌>>=◌ (ask (require_manager ctx project_id)) λ _.
      Exec.◌>>=◌ (ask (select_from (find_type_config project_id task_type_id)))
        (remove_config ctx project_id)

abbrev id_of : Option Workflow → Option ℕ
id_of none = none
id_of (some wf) = some wf.id

-- A row of `get_task_type_configs`.
pub record TaskTypeWorkflow : Type 0 where
  pub task_type_id : ℕ
  pub task_type_key : String
  pub task_type_name : String
  pub workflow_id : Option ℕ
  pub workflow_name : Option String
  pub is_project_override : Bool

abbrev name_of : Option Workflow → Option String
name_of none = none
name_of (some wf) = some wf.name

-- The row of a task type with the workflow that it reports.
unfoldable pub row_of : TaskType → Option ℕ → Option String → Bool → TaskTypeWorkflow
row_of ty workflow_id workflow_name is_project_override = record {
  task_type_id = ty.id;
  task_type_key = ty.key;
  task_type_name = ty.name;
  workflow_id = workflow_id;
  workflow_name = workflow_name;
  is_project_override = is_project_override;
}

-- The body of the loop. A project has one configuration of a type at most.
unfoldable pub reported : ℕ → Tables → TaskType → TaskTypeWorkflow
unfolding row_of
reported project_id t ty = elim (find_type_config project_id ty.id t) [
  | some config ↦
      row_of ty (some config.workflow_id) (name_of (find_workflow config.workflow_id t)) true
  | none ↦ elim ty.default_workflow_id [
    | some workflow_id ↦ row_of ty (some workflow_id) (name_of (find_workflow workflow_id t)) false
    | none ↦
        row_of ty (id_of (find_default project_id t)) (name_of (find_default project_id t)) false
  ]
]

-- The system's task types and the project's own.
unfoldable pub is_listed : ℕ → TaskType → Bool
is_listed project_id ty = ty.is_system || is_some_of ty.project_id project_id

-- The rows, but for their order.
unfoldable pub get_task_type_configs : ℕ → Tables → List TaskTypeWorkflow
unfolding reported is_listed
get_task_type_configs project_id t =
    collect (reported project_id t) (select (is_listed project_id) t.task_types)
