-- ===== src/Tests/Working.antt =====
-- Examples of work sessions.
use tasktrack.Prelude.{
  ℕ, ◌==◌, ◌||◌, ◌≡◌, ◌≤◌, refl, none, some, [], true, false, Bool, count, arith,
}
use tasktrack.Json.{empty}
use tasktrack.Model.Enums.{SessionRole, ProjectMemberRole, is_active}
use tasktrack.Model.{Task, TaskSession, ProjectMember}
use tasktrack.Query.{ok}
use tasktrack.Exec.{Session, Server}
use tasktrack.Permissions.{has_role, require_writer}
use tasktrack.Tasks.{get_task}
use tasktrack.Tests.{page, run, world, working, opened, request_of}
use tasktrack.Sessions.{
  SessionCreate, CheckpointCreate, checked_claim, started, violates_index, find_session, claim,
  complete, completed, release, released, add_checkpoint,
}
use tasktrack.Sessions.Exclusive.{HasOneExecutor, HasUniqueSessions, claim_passes_index}
use tasktrack.Sessions.Histories.{
  Request, handle, IsFresh, Reach, HasSoundSessions, Reach-HasSoundSessions,
}
use tasktrack.Model.Enums.{SessionState}
use tasktrack.Sessions.Lifecycle.{complete-ends, release-ends}

abbrev shift : SessionCreate
shift = record { role = SessionRole.executor; machine = some "m1"; workdir = none; client = none }

claim_is_checked : checked_claim (request_of 8) 100 shift world ≡ ok (page, some 600)
unfolding checked_claim tasktrack.Query.◌>>=◌ get_task tasktrack.Prelude.first
    tasktrack.Permissions.require_project_access require_writer tasktrack.Sessions.active_executor
    tasktrack.Sessions.pinned_package
claim_is_checked = refl

claim_passes_index_example :
    violates_index (started (request_of 8) 701 shift page (some 600)) world ≡ false
claim_passes_index_example =
    claim_passes_index (request_of 8) 701 100 shift world page (some 600) claim_is_checked

one_works : HasOneExecutor working
unfolding HasOneExecutor count
one_works task_id = ground arith

sessions_are_keyed : HasUniqueSessions working
unfolding HasUniqueSessions count
sessions_are_keyed id = ground arith

abbrev saved : CheckpointCreate
saved = record { note = "Half"; payload = empty }

abbrev start : Server
start = record { tables = working; bus = [] }

abbrev once : Server
once = handle (request_of 8) (Request.checkpoint 800 700 saved) start

abbrev twice : Server
twice = handle (request_of 7) (Request.release_session 700 "Stopped") once

abbrev again : Server
again = handle (request_of 8) (Request.claim_task 701 100 shift) twice

working_is_sound : HasSoundSessions working
working_is_sound = record { one = one_works; unique = sessions_are_keyed }

second_is_new : find_session 701 twice.tables ≡ none
unfolding find_session handle tasktrack.Exec.serve release tasktrack.Query.◌>>=◌ get_task
    tasktrack.Tasks.find_task tasktrack.Prelude.first tasktrack.Prelude.modify
    tasktrack.Permissions.require_project_access tasktrack.Permissions.get_project
    tasktrack.Permissions.find_project tasktrack.Permissions.find_member has_role
    tasktrack.Permissions.rank tasktrack.Permissions.require_role require_writer
    tasktrack.Sessions.load_active tasktrack.Sessions.load_own_active
    tasktrack.Sessions.save_session tasktrack.Sessions.get_session_row
    tasktrack.Sessions.checked_release add_checkpoint
second_is_new = refl

day : Reach start again
unfolding IsFresh
day =
    Reach.next (request_of 8) (Request.claim_task 701 100 shift)
      (Reach.next (request_of 7) (Request.release_session 700 "Stopped")
        (Reach.next (request_of 8) (Request.checkpoint 800 700 saved) Reach.here tt) tt)
      second_is_new

Reach-HasSoundSessions_example : HasSoundSessions again.tables
Reach-HasSoundSessions_example = Reach-HasSoundSessions start again working_is_sound day

abbrev after_completion : Session
after_completion = (complete (request_of 8) 700 (some "Ready") (opened working)).1

completion_succeeds :
    complete (request_of 8) 700 (some "Ready") (opened working)
    ≡ (ok (completed (request_of 8) (some "Ready") run), after_completion)
unfolding complete tasktrack.Query.◌>>=◌ get_task tasktrack.Tasks.find_task tasktrack.Prelude.first
    tasktrack.Prelude.select tasktrack.Prelude.any tasktrack.Prelude.collect
    tasktrack.Prelude.modify tasktrack.Permissions.require_project_access
    tasktrack.Permissions.get_project tasktrack.Permissions.find_project
    tasktrack.Permissions.find_member has_role tasktrack.Permissions.rank
    tasktrack.Permissions.require_role require_writer tasktrack.Sessions.load_active
    tasktrack.Sessions.load_own_active find_session tasktrack.Sessions.save_session
    tasktrack.Sessions.get_session_row
completion_succeeds = refl

complete-ends_example :
    (w : TaskSession) × (find_session 700 working ≡ some w)
    × (is_active w.state ≡ true)
    × ((w.user_id == 8) ≡ true)
    × (find_session 700 after_completion.committed
        ≡ some (record w {
          state = SessionState.completed;
          result = some "Ready";
          ended_at = some 1000;
          ended_by = some 8;
        }))
complete-ends_example =
    complete-ends (request_of 8) 700 (some "Ready") (opened working) after_completion
      (completed (request_of 8) (some "Ready") run) completion_succeeds

abbrev after_release : Session
after_release = (release (request_of 7) 700 "Stopped" (opened working)).1

release_succeeds :
    release (request_of 7) 700 "Stopped" (opened working)
    ≡ (ok (released (request_of 7) "Stopped" run), after_release)
unfolding release tasktrack.Query.◌>>=◌ get_task tasktrack.Tasks.find_task tasktrack.Prelude.first
    tasktrack.Prelude.select tasktrack.Prelude.any tasktrack.Prelude.collect
    tasktrack.Prelude.modify tasktrack.Permissions.require_project_access
    tasktrack.Permissions.get_project tasktrack.Permissions.find_project
    tasktrack.Permissions.find_member has_role tasktrack.Permissions.rank
    tasktrack.Permissions.require_role require_writer tasktrack.Sessions.load_active
    tasktrack.Sessions.load_own_active find_session tasktrack.Sessions.save_session
    tasktrack.Sessions.get_session_row tasktrack.Sessions.checked_release
release_succeeds = refl

release-ends_example :
    (w : TaskSession) × (task : Task) × (member : ProjectMember) × (find_session 700 working
      ≡ some w)
    × (is_active w.state ≡ true)
    × (get_task (request_of 7) w.task_id working ≡ ok task)
    × (require_writer (request_of 7) task.project_id working ≡ ok member)
    × ((w.user_id == 7 || has_role (some member) ProjectMemberRole.manager) ≡ true)
    × (find_session 700 after_release.committed
        ≡ some (record w {
          state = SessionState.released;
          end_reason = some "Stopped";
          ended_at = some 1000;
          ended_by = some 7;
        }))
release-ends_example =
    release-ends (request_of 7) 700 "Stopped" (opened working) after_release
      (released (request_of 7) "Stopped" run) release_succeeds
