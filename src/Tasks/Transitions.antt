-- ===== src/Tasks/Transitions.antt =====
-- `transition_status` of backend/app/services/task_service.py.
use tasktrack.Prelude.{ℕ, refl, ap, none, inl, inr, [], ◌∷◌, ◌++◌, ◌+◌, ◌≡◌, some, arith}
use tasktrack.Model.{Task, Transition, ProjectMember, AuditEvent}
use tasktrack.Query.{Context, Error, ok, err, Result-cases}
use tasktrack.Exec.{Exec, Session, pure, ask, write, commit, ◌>>=◌, ◌>>◌}
use tasktrack.Audit
use tasktrack.Audit.{task_snapshot}
use tasktrack.Bus.{publish}
use tasktrack.Tasks.Moves.{IsVersion, IsAllowed, checked_move-IsAllowed, IsAllowed-checked_move}
use tasktrack.Tasks.{
  get_task-ok, find_task, find_task-save_task, TaskStatusTransition, checked_move, save_task,
  task_entry, publish_task,
}

-- The task in its new status.
abbrev pub moved : Task → ℕ → Task
moved task status_id = record task { current_status_id = status_id; version = task.version + 1 }

unfoldable pub transition_status : Context → ℕ → TaskStatusTransition → Exec Task
unfolding ◌>>=◌
transition_status ctx task_id dto = do
  (task, member, transition) ← ask (checked_move ctx task_id dto)
  let task' = moved task dto.status_id
  write (save_task task')
  let changes = Audit.diff (task_snapshot task) (task_snapshot task')
  task_entry ctx task' "status_changed" (some changes.0) (some changes.1)
  commit
  publish_task "task.status_changed" task'
  pure task'

abbrev pub status_changed : Context → Task → ℕ → AuditEvent
status_changed ctx task status_id =
    let changes = Audit.diff (task_snapshot task) (task_snapshot (moved task status_id)) in
    Audit.event ctx (record {
      project_id = some task.project_id;
      task_id = some task.id;
      entity_type = "task";
      entity_id = task.id;
      action = "status_changed";
      before = some changes.0;
      after = some changes.1;
    })

transition_status_effect :
    (ctx : Context) (id : ℕ) (dto : TaskStatusTransition) (s : Session) (task : Task)
    (member : ProjectMember) (tr : Transition)
    → checked_move ctx id dto s.tables ≡ ok (task, member, tr)
    → let task' = moved task dto.status_id in
      let t' = record (save_task task' s.tables) {
        audit = s.tables.audit ++ status_changed ctx task dto.status_id ∷ [];
      } in
      transition_status ctx id dto s ≡ (
        ok task',
        record {
          committed = t';
          tables = t';
          bus =
              publish task.project_id
                (record {
                  type = "task.status_changed";
                  project_id = task.project_id;
                  task_id = task.id;
                  task = some task';
                })
                s.bus;
        },
      )
unfolding transition_status save_task
transition_status_effect ctx id dto s task member tr h = ground arith

pub transition_status_refused :
    (ctx : Context) (id : ℕ) (dto : TaskStatusTransition) (s : Session) {e : Error}
    → checked_move ctx id dto s.tables ≡ err e
    → transition_status ctx id dto s ≡ (err e, s)
unfolding transition_status
transition_status_refused ctx id dto s h = ground arith

-- What a successful `transition_status` has found and done.
pub record HasMoved (ctx : Context) (id : ℕ) (dto : TaskStatusTransition) (s : Session)
    (task' : Task) (s' : Session) : Type 0 where
  pub task : Task
  pub member : ProjectMember
  pub tr : Transition
  pub event : AuditEvent
  pub found : find_task id s.tables ≡ some task
  pub alive : task.deleted_at ≡ none
  pub version : IsVersion dto.version task.version
  pub allowed : IsAllowed ctx task member tr dto.status_id s.tables
  pub result : task' ≡ record task { current_status_id = dto.status_id; version = task.version + 1 }
  pub stored : find_task id s'.committed ≡ some task'
  pub audited : s'.committed.audit ≡ s.tables.audit ++ event ∷ []
  pub by_user : event.actor_id ≡ some ctx.user.id
  pub of_task : event.task_id ≡ some task.id
  pub of_project : event.project_id ≡ some task.project_id
  pub says : event.action ≡ "status_changed"

-- A task changes its status only along a transition of its workflow from its current status, at the
-- version that the request names, moved by its assignee or a manager who may write in the project and
-- reaches the transition's role, with the transition's fields filled, with an accepted or rejected
-- result where its type asks for a review before a final status, with nothing missing where it
-- leaves the initial statuses, and, for a decision, with no subtask still without a result; it then
-- has the status asked for and the next version, and one audit event tells who did it.
pub transition_status-HasMoved :
    (ctx : Context) (id : ℕ) (dto : TaskStatusTransition) (s s' : Session) (task' : Task)
    → transition_status ctx id dto s ≡ (ok task', s')
    → HasMoved ctx id dto s task' s'
unfolding find_task
transition_status-HasMoved ctx id dto s s' task' h =
    elim (Result-cases (checked_move ctx id dto s.tables)) [
      | inr (e, failed) ↦ absurd (ground (arith, transition_status_refused ctx id dto s failed))
      | inl ((task, member, tr), passed) ↦
          let (got, version, allowed) =
            checked_move-IsAllowed ctx id dto s.tables task member tr passed in
          let effect = transition_status_effect ctx id dto s task member tr passed in
          let (found, alive, seen) = get_task-ok ctx id s.tables got in
          let stored = find_task-save_task id (moved task dto.status_id) s.tables found refl in
          record {
            task = task;
            member = member;
            tr = tr;
            event = status_changed ctx task dto.status_id;
            found = found;
            alive = alive;
            version = version;
            allowed = allowed;
            result = ground (arith, effect);
            stored = ground (arith, effect, stored);
            audited = ground (arith, effect);
            by_user = refl;
            of_task = refl;
            of_project = refl;
            says = refl;
          }
    ]

-- A move that the rules allow, of a task that is there and at the version that the request names, is
-- carried out: the answer is the task in the new status and with the next version.
pub allowed_move_succeeds :
    (ctx : Context) (id : ℕ) (dto : TaskStatusTransition) (s : Session) (task : Task)
    (member : ProjectMember) (tr : Transition)
    → find_task id s.tables ≡ some task
    → task.deleted_at ≡ none
    → IsVersion dto.version task.version
    → IsAllowed ctx task member tr dto.status_id s.tables
    → (transition_status ctx id dto s).0
      ≡ ok (record task { current_status_id = dto.status_id; version = task.version + 1 })
allowed_move_succeeds ctx id dto s task member tr there alive version allowed =
    let passed =
      IsAllowed-checked_move ctx id dto s.tables task member tr there alive version allowed in
    ap (λ r. r.0) (transition_status_effect ctx id dto s task member tr passed)
