-- ===== src/Tasks.antt =====
-- backend/app/services/task_service.py: `get_task` and the checks that the operations share. The
-- operations stand in the modules below.
pub mod Creation
pub mod Updates
pub mod Rules
pub mod Moves
pub mod Transitions
use tasktrack.Prelude.{
  ◌≡◌, ◌∙◌, first_sound, ==→≡, first-modify_self, arith, ℕ, String, Bool, true, false, Option, none,
  some, List, [], ◌∷◌, not, ◌&&◌, ◌||◌, ◌==◌, str_eq, is_nil, is_some, is_some_of, if◌then◌else◌,
  first, select, modify, any,
}
use tasktrack.Json
use tasktrack.Json.{Dict}
use tasktrack.Model.Enums.{ProjectMemberRole, ResultState, is_initial, is_final, is_unpresented}
use tasktrack.Model.{Task, TaskType, Status, ProjectMember, Transition, Tables}
use tasktrack.Query.{
  Context, Query, ok, http, task_not_found, permission_denied, workflow_transition_not_allowed,
  transition_fields_required, version_conflict, transition_role_required, task_not_ready,
  task_type_not_found, meta_invalid, result_not_reviewed, task_blocked_by_subtasks, pure, raise,
  select_from, or_raise, require, ◌>>=◌, ◌>>◌,
}
use tasktrack.Bus
use tasktrack.Bus.{publish}
use tasktrack.Exec.{Exec, with_bus}
use tasktrack.Audit
use tasktrack.Permissions.{has_role, require_project_access, require_writer}
use tasktrack.Workflow.{find_status, find_task_type, find_transition}

unfoldable pub find_task : ℕ → Tables → Option Task
find_task id t = first (λ task. task.id == id) t.tasks

-- `get_task`: with `for_update` it also locks the row.
unfoldable pub get_task : Context → ℕ → Query Task
unfolding ◌>>=◌ find_task
get_task ctx task_id = do
  found ← select_from (find_task task_id)
  task ← or_raise found (http 404 task_not_found)
  require (not (is_some task.deleted_at)) (http 404 task_not_found)
  require_project_access ctx task.project_id
  pure task

-- The flush of a changed row.
unfoldable pub save_task : Task → Tables → Tables
save_task task t = record t { tasks = modify (λ r. r.id == task.id) (λ _. task) t.tasks }

-- `_audit`
abbrev pub task_entry : Context → Task → String → Option Dict → Option Dict → Exec (Unit {0})
task_entry ctx task action before after = Audit.log ctx (record {
  project_id = some task.project_id;
  task_id = some task.id;
  entity_type = "task";
  entity_id = task.id;
  action = action;
  before = before;
  after = after;
})

-- `event_bus.publish(…, make_task_event(…))`
abbrev pub publish_task : String → Task → Exec (Unit {0})
publish_task type task = with_bus (
    publish task.project_id
      (record { type = type; project_id = task.project_id; task_id = task.id; task = some task }))

-- `_check_version`
abbrev pub check_version : Task → ℕ → Query (Unit {0})
check_version task version =
    require (version == task.version) (http 409 (version_conflict task.version))

-- `ProjectMemberRole(required_role)`, `none` for a ValueError
unfoldable pub role_of_text : String → Option ProjectMemberRole
role_of_text text =
    if str_eq text "admin"
    then some ProjectMemberRole.admin
    else if str_eq text "manager"
    then some ProjectMemberRole.manager
    else if str_eq text "member"
    then some ProjectMemberRole.member
    else if str_eq text "viewer"
    then some ProjectMemberRole.viewer
    else none

abbrev meets : Option ProjectMemberRole → ProjectMember → Bool
meets none member = false
meets (some minimum) member = has_role (some member) minimum

-- `_check_transition_role`: an empty text asks for no role.
unfoldable pub check_transition_role : Option String → ProjectMember → Query (Unit {0})
unfolding role_of_text
check_transition_role none member = pure tt
check_transition_role (some required_role) member =
    require (str_eq required_role "" || meets (role_of_text required_role) member)
      (http 403 (transition_role_required required_role))

-- `missing_fields` of meta_schema.py
unfoldable pub missing_fields : List String → Dict → List String
unfolding Json.get Json.is_blank
missing_fields required meta = select (λ f. Json.is_blank (Json.get f meta)) required

-- `validate_meta` of meta_schema.py: an absent or empty schema allows everything.
abbrev pub validate_meta : Context → Option Dict → Dict → Query (Unit {0})
validate_meta ctx none meta = pure tt
validate_meta ctx (some Dict.empty) meta = pure tt
validate_meta ctx (some schema) meta =
    require (is_nil (ctx.schema_errors schema meta)) (http 422 meta_invalid)

-- `require_ready` of portfolio_service.py
abbrev pub require_ready : Context → Task → Query (Unit {0})
require_ready ctx task t = require (is_nil (ctx.not_ready t task)) (http 409 task_not_ready) t

abbrev leaves_initial : Option Status → Option Status → Bool
leaves_initial (some current) (some target) =
    is_initial current.category && not (is_initial target.category)
leaves_initial _ _ = false

-- `_check_ready_to_start`
unfoldable pub check_ready_to_start : Context → Task → ℕ → Query (Unit {0})
unfolding ◌>>=◌
check_ready_to_start ctx task target_status_id = do
  current ← select_from (find_status task.current_status_id)
  target ← select_from (find_status target_status_id)
  if leaves_initial current target then require_ready ctx task else pure tt

-- `REVIEWED_STATES` of result_service.py
abbrev pub is_reviewed : ResultState → Bool
is_reviewed ResultState.accepted = true
is_reviewed ResultState.rejected = true
is_reviewed _ = false

abbrev needs_review : Option TaskType → Bool
needs_review none = false
needs_review (some y) = y.requires_review

abbrev leads_to_final : Option Status → Bool
leads_to_final none = false
leads_to_final (some target) = is_final target.category

-- `_check_review_before_final`
unfoldable pub check_review_before_final : Task → ℕ → Query (Unit {0})
unfolding ◌>>=◌
check_review_before_final task to_status_id = do
  task_type ← select_from (find_task_type task.task_type_id)
  target ← select_from (find_status to_status_id)
  require (not (needs_review task_type && leads_to_final target) || is_reviewed task.result_state)
      (http 400 result_not_reviewed)

abbrev is_decision : Option TaskType → Bool
is_decision none = false
is_decision (some y) = str_eq y.key "decision"

unfoldable pub has_pending_subtask : ℕ → Tables → Bool
has_pending_subtask task_id t =
    any
      (λ sub.
        is_some_of sub.parent_task_id task_id
        && (not (is_some sub.deleted_at) && is_unpresented sub.result_state))
      t.tasks

-- `_check_decision_task_unblocked`, for a task of the type `decision`
unfoldable pub check_decision_task_unblocked : Task → Query (Unit {0})
unfolding ◌>>=◌ has_pending_subtask
check_decision_task_unblocked task = do
  task_type ← select_from (find_task_type task.task_type_id)
  pending ← select_from (has_pending_subtask task.id)
  require (not (is_decision task_type && pending)) (http 400 task_blocked_by_subtasks)

pub record TaskStatusTransition : Type 0 where
  pub status_id : ℕ
  pub version : Option ℕ

abbrev pub check_version_if_given : Task → Option ℕ → Query (Unit {0})
check_version_if_given task none = pure tt
check_version_if_given task (some version) = check_version task version

-- The assignee moves their own task; a manager may move anyone's.
unfoldable pub may_move : Context → Task → ProjectMember → Bool
may_move ctx task member =
    is_some_of task.assignee_id ctx.user.id || has_role (some member) ProjectMemberRole.manager

-- The checks of `transition_status`, in its order, down to its first change of the task; they give
-- the task, the member who moves it and the transition that allows it.
unfoldable pub checked_move :
    Context → ℕ → TaskStatusTransition → Query (Task × ProjectMember × Transition)
checked_move ctx task_id dto = do
  task ← get_task ctx task_id
  member ← require_writer ctx task.project_id
  check_version_if_given task dto.version
  require (may_move ctx task member) (http 403 permission_denied)
  found ← select_from (find_transition task.workflow_id task.current_status_id dto.status_id)
  transition ← or_raise found (http 400 workflow_transition_not_allowed)
  check_transition_role transition.required_role member
  require (is_nil (missing_fields transition.required_fields task.meta))
      (http 400 (transition_fields_required (missing_fields transition.required_fields task.meta)))
  check_review_before_final task dto.status_id
  check_ready_to_start ctx task dto.status_id
  check_decision_task_unblocked task
  pure (task, member, transition)

pub get_task-ok :
    (ctx : Context) (id : ℕ) (t : Tables) {task : Task}
    → get_task ctx id t ≡ ok task
    → (find_task id t ≡ some task)
      × (task.deleted_at ≡ none)
      × (require_project_access ctx task.project_id t ≡ ok tt)
unfolding get_task
get_task-ok ctx id t h = ground arith

-- The row that was read is replaced by the one that is saved.
pub find_task-save_task :
    (id : ℕ) (task' : Task) (t : Tables) {task : Task}
    → find_task id t ≡ some task
    → task'.id ≡ task.id
    → find_task id (save_task task' t) ≡ some task'
unfolding find_task save_task
find_task-save_task id task' t {task} found same =
    let known : (task.id == id) ≡ true = first_sound (λ r. r.id == id) t.tasks found in
    let here : task'.id ≡ id = same ∙ ==→≡ task.id id known in
    ground (
      arith,
      here,
      first-modify_self (λ r. r.id == id) task' t.tasks {a = task},
      first-modify_self (λ r. r.id == task'.id) task' t.tasks {a = task},
    )
