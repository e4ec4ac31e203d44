-- ===== src/Sessions.antt =====
-- backend/app/services/session_service.py: work sessions on tasks.
pub mod Exclusive
pub mod Endings
pub mod Lifecycle
pub mod Histories
use tasktrack.Prelude.{
  ℕ, String, Bool, true, false, Option, none, some, List, [], ◌∷◌, ◌++◌, not, ◌&&◌, ◌||◌, ◌==◌,
  is_some_of, if◌then◌else◌, first, modify, count, ltb,
}
use tasktrack.Json
use tasktrack.Json.{Json, Dict, entry, empty, opt}
use tasktrack.Model.Enums.{SessionRole, SessionState, ProjectMemberRole, is_active, is_executor}
use tasktrack.Model.{Task, WorkPackage, TaskSession, SessionCheckpoint, ProjectMember, Tables}
use tasktrack.Query.{
  Context, Query, http, permission_denied, not_assignee, not_reviewer, session_active,
  session_not_active, session_not_found, select_from, or_raise, require, ◌>>=◌, ◌>>◌,
}
use tasktrack.Query
use tasktrack.Exec
use tasktrack.Exec.{Exec, ask, write, commit}
use tasktrack.Audit
use tasktrack.Permissions.{has_role, require_writer}
use tasktrack.Tasks.{get_task, require_ready}

pub record SessionCreate : Type 0 where
  pub role : SessionRole
  pub machine : Option String
  pub workdir : Option String
  pub client : Option String

unfoldable pub find_session : ℕ → Tables → Option TaskSession
find_session id t = first (λ w. w.id == id) t.sessions

-- The condition of the partial unique index `uq_task_sessions_active_executor`, on a task.
unfoldable pub executes : ℕ → TaskSession → Bool
executes task_id w = w.task_id == task_id && (is_active w.state && is_executor w.role)

-- `active_executor`
unfoldable pub active_executor : ℕ → Tables → Option TaskSession
active_executor task_id t = first (executes task_id) t.sessions

-- The package of the task's current assignment version.
unfoldable pub pinned_package : Task → Tables → Option ℕ
pinned_package task t = elim task.work_package_version [
  | none ↦ none
  | some version ↦ elim (first (λ w. w.task_id == task.id && w.version == version) t.packages) [
    | none ↦ none
    | some w ↦ some w.id
  ]
]

abbrev none_active : Option TaskSession → Bool
none_active none = true
none_active (some w) = false

-- The branches of `claim` on the role.
abbrev pub check_claim : Context → Task → ProjectMember → SessionRole → Query (Unit {0})
check_claim ctx task member SessionRole.executor = do
  require (is_some_of task.assignee_id ctx.user.id) (http 403 not_assignee)
  active ← select_from (active_executor task.id)
  require (none_active active) (http 409 session_active)
  require_ready ctx task
check_claim ctx task member SessionRole.reviewer =
    require (member.is_reviewer && not (is_some_of task.assignee_id ctx.user.id))
      (http 403 not_reviewer)

unfoldable pub checked_claim : Context → ℕ → SessionCreate → Query (Task × Option ℕ)
checked_claim ctx task_id dto = do
  task ← get_task ctx task_id
  member ← require_writer ctx task.project_id
  check_claim ctx task member dto.role
  package_id ← select_from (pinned_package task)
  Query.pure (task, package_id)

abbrev pub started : Context → ℕ → SessionCreate → Task → Option ℕ → TaskSession
started ctx new_id dto task package_id = record {
  id = new_id;
  task_id = task.id;
  user_id = ctx.user.id;
  work_package_id = package_id;
  role = dto.role;
  state = SessionState.active;
  machine = dto.machine;
  workdir = dto.workdir;
  client = dto.client;
  last_checkpoint_at = none;
  ended_at = none;
  ended_by = none;
  end_reason = none;
  result = none;
}

-- The partial unique index refuses a row.
unfoldable pub violates_index : TaskSession → Tables → Bool
unfolding executes
violates_index w t = executes w.task_id w && ltb 0 (count (executes w.task_id) t.sessions)

-- `session.add` and `flush`, with the branch on IntegrityError.
unfoldable pub insert_session : TaskSession → Exec (Unit {0})
unfolding violates_index Exec.◌>>=◌
insert_session w s =
    if violates_index w s.tables
    then (Exec.raise (http 409 session_active) (record s { tables = s.committed }))
    else (write (λ t. record t { sessions = t.sessions ++ w ∷ [] }) s)

abbrev role_word : SessionRole → String
role_word SessionRole.executor = "executor"
role_word SessionRole.reviewer = "reviewer"

-- `_snapshot`
unfoldable pub session_snapshot : TaskSession → Dict
session_snapshot w = entry "role" (Json.text (role_word w.role)) (
    entry "machine" (opt Json.text w.machine) (
      entry "workdir" (opt Json.text w.workdir) (
        entry "client" (opt Json.text w.client)
          (entry "work_package_id" (opt Json.uuid w.work_package_id) empty))))

-- `_audit`
abbrev session_entry : Context → Task → TaskSession → String → Dict → Exec (Unit {0})
session_entry ctx task w action after = Audit.log ctx (record {
  project_id = some task.project_id;
  task_id = some task.id;
  entity_type = "task_session";
  entity_id = w.id;
  action = action;
  before = none;
  after = some after;
})

unfoldable pub get_session_row : Context → ℕ → Query TaskSession
get_session_row ctx session_id = do
  found ← select_from (find_session session_id)
  row ← or_raise found (http 404 session_not_found)
  get_task ctx row.task_id
  Query.pure row

unfoldable pub claim : Context → ℕ → ℕ → SessionCreate → Exec TaskSession
unfolding Exec.◌>>=◌
claim ctx new_id task_id dto = Exec.◌>>=◌ (ask (checked_claim ctx task_id dto)) λ found.
    let task = found.0 in
    let row = started ctx new_id dto task found.1 in
    Exec.◌>>=◌ (insert_session row) λ _.
      Exec.◌>>=◌ (session_entry ctx task row "started" (session_snapshot row))
        λ _. Exec.◌>>=◌ commit λ _. ask (get_session_row ctx row.id)

-- `_load_active`
unfoldable pub load_active : Context → ℕ → Query (TaskSession × Task)
load_active ctx session_id = do
  found ← select_from (find_session session_id)
  row ← or_raise found (http 404 session_not_found)
  task ← get_task ctx row.task_id
  require (is_active row.state) (http 409 session_not_active)
  Query.pure (row, task)

-- `_load_own_active`
unfoldable pub load_own_active : Context → ℕ → Query (TaskSession × Task)
load_own_active ctx session_id = do
  (row, task) ← load_active ctx session_id
  require (row.user_id == ctx.user.id) (http 403 permission_denied)
  Query.pure (row, task)

-- The flush of a changed session.
unfoldable pub save_session : TaskSession → Tables → Tables
save_session w t = record t { sessions = modify (λ r. r.id == w.id) (λ _. w) t.sessions }

pub record CheckpointCreate : Type 0 where
  pub note : String
  pub payload : Dict  -- `data`

unfoldable pub add_checkpoint : Context → ℕ → ℕ → CheckpointCreate → Exec SessionCheckpoint
unfolding Exec.◌>>=◌
add_checkpoint ctx new_id session_id dto =
    Exec.◌>>=◌ (ask (load_own_active ctx session_id)) λ found.
      let checkpoint : SessionCheckpoint = record {
        id = new_id;
        session_id = found.0.id;
        note = dto.note;
        payload = dto.payload;
      } in
      let row' : TaskSession = record found.0 { last_checkpoint_at = some ctx.now } in
      Exec.◌>>=◌ (write (λ t. record t { checkpoints = t.checkpoints ++ checkpoint ∷ [] })) λ _.
        Exec.◌>>=◌ (write (save_session row')) λ _.
          Exec.◌>>=◌
            (session_entry ctx found.1 row' "checkpoint" (entry "note" (Json.text dto.note) empty))
            λ _. Exec.◌>>=◌ commit λ _. Exec.pure checkpoint

abbrev pub completed : Context → Option String → TaskSession → TaskSession
completed ctx result w = record w {
  state = SessionState.completed;
  result = result;
  ended_at = some ctx.now;
  ended_by = some ctx.user.id;
}

unfoldable pub complete : Context → ℕ → Option String → Exec TaskSession
unfolding Exec.◌>>=◌
complete ctx session_id result = Exec.◌>>=◌ (ask (load_own_active ctx session_id)) λ found.
    let row' = completed ctx result found.0 in
    Exec.◌>>=◌ (write (save_session row')) λ _.
      Exec.◌>>=◌
        (session_entry ctx found.1 row' "completed" (entry "result" (opt Json.text result) empty))
        λ _. Exec.◌>>=◌ commit λ _. ask (get_session_row ctx row'.id)

-- The checks of `release`: the session's owner, or a manager of the project.
unfoldable pub checked_release : Context → ℕ → Query (TaskSession × Task)
checked_release ctx session_id = do
  (row, task) ← load_active ctx session_id
  member ← require_writer ctx task.project_id
  require (row.user_id == ctx.user.id || has_role (some member) ProjectMemberRole.manager)
      (http 403 permission_denied)
  Query.pure (row, task)

abbrev pub released : Context → String → TaskSession → TaskSession
released ctx reason w = record w {
  state = SessionState.released;
  end_reason = some reason;
  ended_at = some ctx.now;
  ended_by = some ctx.user.id;
}

unfoldable pub release : Context → ℕ → String → Exec TaskSession
unfolding Exec.◌>>=◌
release ctx session_id reason = Exec.◌>>=◌ (ask (checked_release ctx session_id)) λ found.
    let row' = released ctx reason found.0 in
    Exec.◌>>=◌ (write (save_session row')) λ _.
      Exec.◌>>=◌
        (session_entry ctx found.1 row' "released" (entry "reason" (Json.text reason) empty))
        λ _. Exec.◌>>=◌ commit λ _. ask (get_session_row ctx row'.id)
