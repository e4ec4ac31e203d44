-- ===== src/Tests/Moves.antt =====
-- Examples of moving, editing and creating tasks.
use tasktrack.Prelude.{ℕ, String, inl, arith, ◌+◌, ◌≡◌, ◌≢◌, refl, none, some, true, false}
use tasktrack.Json.{empty}
use tasktrack.Model.Enums.{TaskPriority, ProjectMemberRole}
use tasktrack.Model.{Task}
use tasktrack.Query.{ok}
use tasktrack.Exec.{Session}
use tasktrack.Tests.{page, site, author, begin, plain, todo, world, opened, request_of}
use tasktrack.Workflow.{find_status}
use tasktrack.Workflow.Transitions.{belongs_to}
use tasktrack.Workflow.Transitions.Links.{IsLinked}
use tasktrack.Workflow.Transitions.Staying.{transition_status_stays}
use tasktrack.Tasks.{TaskStatusTransition, checked_move, find_task, get_task}
use tasktrack.Tasks.Creation.{TaskCreate, create_task, new_task, task_key}
use tasktrack.Tasks.Creation.Numbering.{HasCreated, create_task-HasCreated}
use tasktrack.Permissions.{rank}
use tasktrack.Permissions.Laws.{can_read}
use tasktrack.Tasks.Moves.{IsVersion, IsAllowed}
use tasktrack.Tasks.Rules.{IsRoleMet}
use tasktrack.Tasks.Transitions.{
  transition_status, HasMoved, transition_status-HasMoved, moved, allowed_move_succeeds,
}
use tasktrack.Tasks.Updates.{TaskUpdate, update_task, updated}
use tasktrack.Tasks.Updates.Locking.{second_update_refused}

abbrev start : TaskStatusTransition
start = record { status_id = 21; version = some 5 }

abbrev after_move : Session
after_move = (transition_status (request_of 8) 100 start (opened world)).1

start_moves :
    transition_status (request_of 8) 100 start (opened world) ≡ (ok (moved page 21), after_move)
unfolding transition_status checked_move tasktrack.Query.◌>>=◌ get_task tasktrack.Prelude.first
    tasktrack.Permissions.require_project_access tasktrack.Permissions.require_writer
    tasktrack.Tasks.may_move tasktrack.Workflow.find_transition
    tasktrack.Tasks.check_transition_role tasktrack.Tasks.missing_fields tasktrack.Prelude.select
    tasktrack.Tasks.check_review_before_final tasktrack.Workflow.find_task_type
    tasktrack.Workflow.find_status tasktrack.Tasks.check_ready_to_start
    tasktrack.Tasks.check_decision_task_unblocked
start_moves = refl

transition_status-HasMoved_example :
    HasMoved (request_of 8) 100 start (opened world) (moved page 21) after_move
transition_status-HasMoved_example =
    transition_status-HasMoved (request_of 8) 100 start (opened world) after_move (moved page 21)
      start_moves

transitions-IsLinked : IsLinked world
unfolding IsLinked tasktrack.Workflow.Transitions.Links.joins belongs_to tasktrack.Prelude.first
transitions-IsLinked = (refl, tt)

transition_status_stays_example : belongs_to 2 (find_status 21 world) ≡ true
transition_status_stays_example =
    transition_status_stays (request_of 8) 100 start (opened world) after_move (moved page 21)
      transitions-IsLinked start_moves

page_found : find_task 100 world ≡ some page
unfolding find_task tasktrack.Prelude.first
page_found = refl

start-IsAllowed : IsAllowed (request_of 8) page author begin 21 world
unfolding can_read rank tasktrack.Prelude.first tasktrack.Permissions.find_member
    tasktrack.Permissions.find_project tasktrack.Workflow.find_transition
    tasktrack.Workflow.find_task_type tasktrack.Workflow.find_status tasktrack.Prelude.any
    tasktrack.Tasks.role_of_text
start-IsAllowed = record {
  reader = refl;
  of_project = refl;
  writer = omega arith;
  mover = inl refl;
  edge = refl;
  role = IsRoleMet.reached "member" ProjectMemberRole.member author refl (omega arith);
  filled = tt;
  reviewed = record { met = λ ty target typed asks there final. absurd (ground arith) };
  ready = record { met = λ current target here starts there leaves. refl };
  unblocked = record { met = λ ty typed decides. refl };
}

allowed_move_succeeds_example :
    (transition_status (request_of 8) 100 start (opened world)).0
    ≡ ok (record page { current_status_id = 21; version = 6 })
allowed_move_succeeds_example =
    allowed_move_succeeds (request_of 8) 100 start (opened world) page author begin page_found refl
      (IsVersion.current 5) start-IsAllowed

abbrev retitle : String → TaskUpdate
retitle title = record {
  title = some (some title);
  description = none;
  priority = none;
  assignee_id = none;
  start_date = none;
  due_date = none;
  duration_days = none;
  meta = none;
  reviewer_id = none;
  version = 5;
}

abbrev after_update : Session
after_update = (update_task (request_of 8) 100 (retitle "Home") (opened world)).1

update_succeeds :
    update_task (request_of 8) 100 (retitle "Home") (opened world)
    ≡ (ok (updated (retitle "Home") page), after_update)
unfolding update_task tasktrack.Tasks.Updates.checked_update tasktrack.Query.◌>>=◌ get_task
    tasktrack.Prelude.first tasktrack.Permissions.require_project_access
    tasktrack.Permissions.require_writer tasktrack.References.is_user_or_null
    tasktrack.References.is_user tasktrack.Tasks.Updates.with_fields tasktrack.Prelude.any
update_succeeds = refl

second_update_refused_example :
    update_task (request_of 7) 100 (retitle "Main") (opened after_update.committed)
    ≢ (ok (updated (retitle "Main") page), after_update)
second_update_refused_example =
    second_update_refused (request_of 8) (request_of 7) 100 (retitle "Home") (retitle "Main")
      (opened world) after_update (opened after_update.committed) after_update
      (updated (retitle "Home") page) (updated (retitle "Main") page) update_succeeds refl refl

abbrev order : TaskCreate
order = record {
  title = "Form";
  description = none;
  task_type_key = "task";
  priority = TaskPriority.low;
  workflow_id = none;
  assignee_id = some 8;
  parent_task_id = none;
  start_date = none;
  due_date = none;
  duration_days = none;
  meta = empty;
}

abbrev form : Task
form = new_task (request_of 7) 101 order site plain 2 todo

abbrev after_creation : Session
after_creation = (create_task (request_of 7) 101 1 order (opened world)).1

creation_succeeds :
    create_task (request_of 7) 101 1 order (opened world) ≡ (ok form, after_creation)
unfolding create_task tasktrack.Tasks.Creation.checked_creation tasktrack.Query.◌>>=◌
    tasktrack.Permissions.require_writer tasktrack.Prelude.first
    tasktrack.Tasks.Creation.resolve_task_type tasktrack.Tasks.Creation.find_type_by_key
    tasktrack.Tasks.Creation.chosen_workflow tasktrack.Workflow.get_workflow_for_task_type
    tasktrack.Tasks.Creation.find_default_status tasktrack.Tasks.Creation.check_references
    tasktrack.References.is_user_or_null tasktrack.References.is_task_or_null
    tasktrack.References.is_user tasktrack.Prelude.any
creation_succeeds = refl

is_new : find_task 101 world ≡ none
unfolding find_task tasktrack.Prelude.first
is_new = refl

create_task-HasCreated_example :
    HasCreated (request_of 7) 101 1 order (opened world) after_creation form
create_task-HasCreated_example =
    create_task-HasCreated (request_of 7) 101 1 order (opened world) after_creation form is_new
      creation_succeeds
