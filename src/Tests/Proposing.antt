-- ===== src/Tests/Proposing.antt =====
-- Examples of decisions on work proposals.
use tasktrack.Prelude.{ℕ, ◌==◌, ◌≡◌, refl, none, some, List, [], ◌∷◌, true, false, any}
use tasktrack.Json.{empty}
use tasktrack.Model.Enums.{TaskPriority}
use tasktrack.Model.{
  Task, ExternalObject, WorkProposal, WorkProposalState, WorkProposalVersion, Tables,
}
use tasktrack.Query.{Context, ok}
use tasktrack.Exec.{Session, Server}
use tasktrack.Tasks.Creation.{TaskCreate, create_task, new_task}
use tasktrack.WorkProposals.{
  decide, Action, WorkProposalDecide, find_work_proposal, checked_decision, conversion_order,
}
use tasktrack.WorkProposals.Standing.{
  finish_conversion, Decision, run, run-decided, convert_stores_task_first,
}
use tasktrack.Tests.{site, plain, todo, world, opened, request_of}

abbrev letter : ExternalObject
letter = record { id = 60; provider_id = 61; namespace = "office"; type = "letter"; ext_id = "L-1" }

abbrev wish : WorkProposal
wish = record {
  id = 70;
  project_id = 1;
  stage = "pilot";
  work_kind = "page";
  basis_object_id = 60;
  work_scope_key = "s";
  state = WorkProposalState.undecided;
  task_id = none;
  merged_into_id = none;
  decision_reason = none;
  decided_by = none;
  decided_at = none;
  current_version = 1;
  updated_since_decision = false;
}

abbrev wish_version : WorkProposalVersion
wish_version = record {
  id = 71;
  proposal_id = 70;
  version = 1;
  basis_revision = "r1";
  verification_plan_object_id = none;
  verification_plan_revision = none;
  expected_output = "A page";
  result_scope = none;
  reason = "Asked for";
  registered_by = 7;
}

abbrev asked : Tables
asked = record world {
  objects = letter ∷ [];
  work_proposals = wish ∷ [];
  work_proposal_versions = wish_version ∷ [];
}

abbrev decision_of : Action → WorkProposalDecide
decision_of action = record {
  action = action;
  reason = some "Agreed";
  task_id = some 100;
  merge_into_id = none;
  title = none;
  task_type_key = "task";
}

abbrev order : TaskCreate
order = record {
  title = "page: letter/L-1 (s)";
  description = some "A page\n\nПричина: Asked for";
  task_type_key = "task";
  priority = TaskPriority.medium;
  workflow_id = none;
  assignee_id = none;
  parent_task_id = none;
  start_date = none;
  due_date = none;
  duration_days = none;
  meta = empty;
}

abbrev form : Task
form = new_task (request_of 7) 104 order site plain 2 todo

abbrev between : Session
between = (create_task (request_of 7) 104 1 order (opened asked)).1

decision_passes :
    checked_decision (request_of 7) 70 (decision_of Action.create_task) asked ≡ ok wish
unfolding checked_decision tasktrack.Query.◌>>=◌ tasktrack.WorkProposals.load_work_proposal
    find_work_proposal tasktrack.Prelude.first tasktrack.Permissions.require_project_access
    tasktrack.Permissions.require_manager
decision_passes = refl

order_found : conversion_order (decision_of Action.create_task) wish asked ≡ ok order
unfolding conversion_order tasktrack.Query.◌>>=◌ tasktrack.WorkProposals.title_of
    tasktrack.Packages.Bases.find_object tasktrack.Prelude.first
    tasktrack.WorkProposals.find_version
order_found = refl

creation_succeeds : create_task (request_of 7) 104 1 order (opened asked) ≡ (ok form, between)
unfolding create_task tasktrack.Tasks.Creation.checked_creation tasktrack.Query.◌>>=◌
    tasktrack.Permissions.require_writer tasktrack.Prelude.first
    tasktrack.Tasks.Creation.resolve_task_type tasktrack.Tasks.Creation.find_type_by_key
    tasktrack.Tasks.Creation.chosen_workflow tasktrack.Workflow.get_workflow_for_task_type
    tasktrack.Tasks.Creation.find_default_status tasktrack.Tasks.Creation.check_references
    tasktrack.References.is_user_or_null tasktrack.References.is_task_or_null
creation_succeeds = refl

rejection_passes : checked_decision (request_of 7) 70 (decision_of Action.reject) asked ≡ ok wish
unfolding checked_decision tasktrack.Query.◌>>=◌ tasktrack.WorkProposals.load_work_proposal
    find_work_proposal tasktrack.Prelude.first tasktrack.Permissions.require_project_access
    tasktrack.Permissions.require_manager
rejection_passes = refl

convert_stores_task_first_example :
    (decide (request_of 7) 104 105 70 (decision_of Action.create_task) (opened asked)
      ≡ finish_conversion (request_of 7) 105 (decision_of Action.create_task) wish form between)
    × (any (λ r. r.id == 104) between.committed.tasks ≡ true)
    × (find_work_proposal 70 between.committed ≡ some wish)
    × (checked_decision (request_of 7) 70 (decision_of Action.reject) between.committed ≡ ok wish)
unfolding new_task
convert_stores_task_first_example =
    convert_stores_task_first (request_of 7) (request_of 7) 104 105 70
      (decision_of Action.create_task) (decision_of Action.reject) (opened asked) between wish order
      form refl decision_passes order_found creation_succeeds rejection_passes

abbrev rejected_wish : WorkProposal
rejected_wish = record wish { state = WorkProposalState.rejected }

abbrev office : Server
office = record { tables = record asked { work_proposals = rejected_wish ∷ [] }; bus = [] }

abbrev decisions : List Decision
decisions =
    record {
      ctx = request_of 7;
      new_id = 104;
      basis_id = 105;
      proposal_id = 70;
      dto = decision_of Action.create_task;
    }
    ∷ record {
      ctx = request_of 7;
      new_id = 106;
      basis_id = 107;
      proposal_id = 70;
      dto = decision_of Action.link;
    }
    ∷ []

rejection_found : find_work_proposal 70 office.tables ≡ some rejected_wish
unfolding find_work_proposal tasktrack.Prelude.first
rejection_found = refl

run-decided_example : find_work_proposal 70 (run decisions office).tables ≡ some rejected_wish
run-decided_example = run-decided decisions 70 office rejected_wish rejection_found refl
