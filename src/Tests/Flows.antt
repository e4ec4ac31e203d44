-- ===== src/Tests/Flows.antt =====
-- Examples of workflows and transitions.
use tasktrack.Prelude.{
  first, ℕ, List, ◌+◌, ◌≡◌, ◌≤◌, refl, none, some, true, false, [], ◌∷◌, count, arith,
}
use tasktrack.Query.{Context, ok}
use tasktrack.Permissions.{require_manager}
use tasktrack.Exec.{Session}
use tasktrack.Model.{Workflow, TaskType, Tables}
use tasktrack.Workflow.{
  find_workflow, find_type_config, find_default, managed_workflow, get_workflow_for_task_type,
}
use tasktrack.Workflow.TypeConfigs.{new_config, set_task_type_workflow}
use tasktrack.Workflow.TypeConfigs.Effect.{set_task_type_workflow-takes_effect}
use tasktrack.Workflow.Workflows.{delete_workflow}
use tasktrack.Workflow.Workflows.Removal.{IsRemoved, delete_workflow-IsRemoved}
use tasktrack.Tests.{flow, plain, lead, world, opened, request_of}
use tasktrack.Workflow.Transitions.{TransitionCreate, TransitionUpdate}
use tasktrack.Workflow.Transitions.Links.{IsLinked}
use tasktrack.Workflow.Transitions.Requests.{Request, run, run-IsLinked}
use tasktrack.Workflow.Workflows.{
  WorkflowCreate, WorkflowUpdate, create_workflow, update_workflow, is_default_of,
}
use tasktrack.Workflow.Workflows.OneDefault.{
  HasOneDefault, update_workflow-HasOneDefault, create_workflow_adds_default,
}

flows-HasOneDefault : HasOneDefault world.workflows
unfolding is_default_of count
flows-HasOneDefault = record { one = λ p. ground arith; unique = λ id. ground arith }

abbrev chosen : WorkflowUpdate
chosen = record { name = none; is_default = some true }

update_workflow-HasOneDefault_example :
    count
      (is_default_of 1)
      (update_workflow (request_of 7) 2 chosen (opened world)).1.tables.workflows
    ≤ 1
update_workflow-HasOneDefault_example =
    update_workflow-HasOneDefault (request_of 7) 2 1 chosen (opened world) flows-HasOneDefault

abbrev second : WorkflowCreate
second = record { name = "Second"; is_default = true }

lead_manages : require_manager (request_of 7) 1 world ≡ ok lead
unfolding require_manager tasktrack.Prelude.first
lead_manages = refl

create_workflow_adds_default_example :
    count
      (is_default_of 1)
      (create_workflow (request_of 7) 9 1 second (opened world)).1.committed.workflows
    ≡ count (is_default_of 1) world.workflows + 1
create_workflow_adds_default_example =
    create_workflow_adds_default (request_of 7) 9 1 second (opened world) lead lead_manages refl

transitions-IsLinked : IsLinked world
unfolding IsLinked tasktrack.Workflow.Transitions.Links.joins
    tasktrack.Workflow.Transitions.belongs_to tasktrack.Prelude.first
transitions-IsLinked = (refl, tt)

abbrev finish : TransitionCreate
finish = record {
  from_status_id = 21;
  to_status_id = 22;
  required_role = none;
  required_fields = [];
}

abbrev stricter : TransitionUpdate
stricter = record { required_role = some (some "manager"); required_fields = none }

abbrev changes : List (Context × Request)
changes =
    (request_of 7, Request.create 41 2 finish)
    ∷ (request_of 7, Request.update 40 stricter)
    ∷ (request_of 8, Request.delete 41)
    ∷ (request_of 7, Request.delete 40)
    ∷ []

run-IsLinked_example : IsLinked (run changes (opened world)).tables
run-IsLinked_example = run-IsLinked changes (opened world) transitions-IsLinked

abbrev after_setting : Session
after_setting = (set_task_type_workflow (request_of 7) 80 1 3 2 (opened world)).1

setting_succeeds :
    set_task_type_workflow (request_of 7) 80 1 3 2 (opened world)
    ≡ (ok (new_config 80 1 3 2), after_setting)
unfolding set_task_type_workflow tasktrack.Workflow.TypeConfigs.checked_config tasktrack.Query.◌>>=◌
    require_manager tasktrack.Prelude.first find_workflow find_type_config
    tasktrack.Workflow.TypeConfigs.check_task_type tasktrack.References.is_task_type
    tasktrack.Prelude.any
setting_succeeds = refl

set_task_type_workflow-takes_effect_example :
    (wf : Workflow) × (find_workflow 2 world ≡ some wf)
    × (get_workflow_for_task_type 1 3 after_setting.committed ≡ ok wf)
set_task_type_workflow-takes_effect_example =
    set_task_type_workflow-takes_effect (request_of 7) 80 1 3 2 (opened world) after_setting
      (new_config 80 1 3 2) setting_succeeds

abbrev bug : TaskType
bug = record plain { key = "bug"; default_workflow_id = some 9 }

abbrev with_bug : Tables
with_bug = record world { task_types = bug ∷ [] }

bug_unconfigured : find_type_config 1 3 with_bug ≡ none
unfolding find_type_config tasktrack.Prelude.first
bug_unconfigured = refl

abbrev spare : Workflow
spare = record { id = 9; project_id = some 1; name = "Spare"; is_default = false }

abbrev with_spare : Tables
with_spare = record with_bug { workflows = flow ∷ spare ∷ [] }

abbrev after_deletion : Session
after_deletion = (delete_workflow (request_of 7) 9 (opened with_spare)).1

deletion_succeeds : delete_workflow (request_of 7) 9 (opened with_spare) ≡ (ok tt, after_deletion)
unfolding delete_workflow managed_workflow tasktrack.Prelude.first
    tasktrack.Workflow.require_manager_of require_manager tasktrack.Workflow.Workflows.count_tasks
    count tasktrack.Workflow.Workflows.is_held tasktrack.Prelude.any
    tasktrack.Workflow.Workflows.is_status_of
deletion_succeeds = refl

delete_workflow-IsRemoved_example :
    (wf : Workflow) × (managed_workflow (request_of 7) 9 with_spare ≡ ok wf)
    × (wf.is_default ≡ false)
    × (after_deletion.committed.tasks ≡ with_spare.tasks)
    × IsRemoved 9 after_deletion.committed
delete_workflow-IsRemoved_example =
    delete_workflow-IsRemoved (request_of 7) 9 (opened with_spare) after_deletion deletion_succeeds
