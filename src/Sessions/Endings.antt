-- ===== src/Sessions/Endings.antt =====
-- How a work session goes on and ends (backend/app/services/session_service.py).
use tasktrack.Prelude.{
  ℕ, String, ◌≡◌, refl, sym, subst, inl, inr, true, ◌||◌, Option, some, ◌==◌, arith, first,
  first_sound, ==→≡,
}
use tasktrack.Model.Enums.{ProjectMemberRole, is_active}
use tasktrack.Model.{Task, TaskSession, ProjectMember, Tables}
use tasktrack.Query.{Context, Error, ok, err, Result-cases, ◌>>=◌}
use tasktrack.Exec.{Session}
use tasktrack.Permissions.{has_role, require_writer}
use tasktrack.Tasks.{get_task}
use tasktrack.Sessions.{
  find_session, executes, load_active, load_own_active, save_session, CheckpointCreate,
  add_checkpoint, completed, complete, checked_release, released, release,
}
use tasktrack.Sessions.Exclusive.{HasOneExecutor, HasUniqueSessions, saved-HasOneExecutor}

pub load_active-ok :
    (ctx : Context) (id : ℕ) (t : Tables) (w : TaskSession) (task : Task)
    → load_active ctx id t ≡ ok (w, task)
    → (find_session id t ≡ some w)
      × (get_task ctx w.task_id t ≡ ok task)
      × (is_active w.state ≡ true)
unfolding load_active ◌>>=◌
load_active-ok ctx id t w task h = ground arith

pub load_own_active-ok :
    (ctx : Context) (id : ℕ) (t : Tables) (w : TaskSession) (task : Task)
    → load_own_active ctx id t ≡ ok (w, task)
    → (load_active ctx id t ≡ ok (w, task)) × ((w.user_id == ctx.user.id) ≡ true)
unfolding load_own_active ◌>>=◌
load_own_active-ok ctx id t w task h = ground arith

pub checked_release-ok :
    (ctx : Context) (id : ℕ) (t : Tables) (w : TaskSession) (task : Task)
    → checked_release ctx id t ≡ ok (w, task)
    → (member : ProjectMember) × (load_active ctx id t ≡ ok (w, task))
      × (require_writer ctx task.project_id t ≡ ok member)
      × ((w.user_id == ctx.user.id || has_role (some member) ProjectMemberRole.manager) ≡ true)
unfolding checked_release ◌>>=◌
checked_release-ok ctx id t w task h =
    let loaded : load_active ctx id t ≡ ok (w, task) = elim (Result-cases (load_active ctx id t)) [
      | inr (e, failed) ↦ absurd (ground (arith, failed))
      | inl ((w', task'), passed) ↦ elim (Result-cases (require_writer ctx task'.project_id t)) [
        | inr (e, failed) ↦ absurd (ground (arith, passed, failed))
        | inl (member, writer) ↦ ground (arith, passed, writer)
      ]
    ] in
    elim (Result-cases (require_writer ctx task.project_id t)) [
      | inr (e, failed) ↦ absurd (ground (arith, loaded, failed))
      | inl (member, writer) ↦ (member, loaded, writer, ground (arith, loaded, writer))
    ]

pub find_session-own :
    (id : ℕ) (t : Tables) {w : TaskSession}
    → find_session id t ≡ some w
    → (w.id ≡ id) × (find_session w.id t ≡ some w)
unfolding find_session
find_session-own id t {w} found =
    let here = ==→≡ w.id id (first_sound (λ r. r.id == id) t.sessions found) in
    (here, subst (λ k. first (λ r. r.id == k) t.sessions ≡ some w) (sym here) found)

pub complete_refused :
    (ctx : Context) (id : ℕ) (result : Option String) (s : Session) {e : Error}
    → load_own_active ctx id s.tables ≡ err e
    → complete ctx id result s ≡ (err e, s)
unfolding complete
complete_refused ctx id result s h = ground arith

pub complete_effect :
    (ctx : Context) (id : ℕ) (result : Option String) (s : Session) (w : TaskSession) (task : Task)
    → load_own_active ctx id s.tables ≡ ok (w, task)
    → let r = complete ctx id result s in
      (r.1.tables.sessions ≡ (save_session (completed ctx result w) s.tables).sessions)
      × (r.1.committed ≡ r.1.tables)
unfolding complete save_session
complete_effect ctx id result s w task h = ground arith

pub release_refused :
    (ctx : Context) (id : ℕ) (reason : String) (s : Session) {e : Error}
    → checked_release ctx id s.tables ≡ err e
    → release ctx id reason s ≡ (err e, s)
unfolding release
release_refused ctx id reason s h = ground arith

pub release_effect :
    (ctx : Context) (id : ℕ) (reason : String) (s : Session) (w : TaskSession) (task : Task)
    → checked_release ctx id s.tables ≡ ok (w, task)
    → let r = release ctx id reason s in
      (r.1.tables.sessions ≡ (save_session (released ctx reason w) s.tables).sessions)
      × (r.1.committed ≡ r.1.tables)
unfolding release save_session
release_effect ctx id reason s w task h = ground arith

pub add_checkpoint_refused :
    (ctx : Context) (new_id id : ℕ) (dto : CheckpointCreate) (s : Session) {e : Error}
    → load_own_active ctx id s.tables ≡ err e
    → add_checkpoint ctx new_id id dto s ≡ (err e, s)
unfolding add_checkpoint
add_checkpoint_refused ctx new_id id dto s h = ground arith

-- The session with the time of its last checkpoint.
unfoldable pub checkpointed : Context → TaskSession → TaskSession
checkpointed ctx w = record w { last_checkpoint_at = some ctx.now }

pub add_checkpoint_effect :
    (ctx : Context) (new_id id : ℕ) (dto : CheckpointCreate) (s : Session) (w : TaskSession)
    (task : Task)
    → load_own_active ctx id s.tables ≡ ok (w, task)
    → let r = add_checkpoint ctx new_id id dto s in
      (r.1.tables.sessions ≡ (save_session (checkpointed ctx w) s.tables).sessions)
      × (r.1.committed ≡ r.1.tables)
unfolding add_checkpoint save_session checkpointed
add_checkpoint_effect ctx new_id id dto s w task h = ground arith

-- Completing a session leaves each task with at most one active executor.
pub complete-HasOneExecutor :
    (ctx : Context) (id : ℕ) (result : Option String) (s : Session)
    → HasUniqueSessions s.tables
    → HasOneExecutor s.tables
    → HasOneExecutor (complete ctx id result s).1.tables
unfolding executes
complete-HasOneExecutor ctx id result s unique one =
    elim (Result-cases (load_own_active ctx id s.tables)) [
      | inr (e, failed) ↦
          subst (λ r. HasOneExecutor r.1.tables) (sym (complete_refused ctx id result s failed)) one
      | inl ((w, task), passed) ↦
          let loaded = (load_own_active-ok ctx id s.tables w task passed).0 in
          let found = (load_active-ok ctx id s.tables w task loaded).0 in
          saved-HasOneExecutor w (completed ctx result w) s.tables
            (complete ctx id result s).1.tables (find_session-own id s.tables found).1 unique refl
            (λ k h. absurd (ground arith)) (complete_effect ctx id result s w task passed).0 one
    ]

-- Releasing a session leaves each task with at most one active executor.
pub release-HasOneExecutor :
    (ctx : Context) (id : ℕ) (reason : String) (s : Session)
    → HasUniqueSessions s.tables
    → HasOneExecutor s.tables
    → HasOneExecutor (release ctx id reason s).1.tables
unfolding executes
release-HasOneExecutor ctx id reason s unique one =
    elim (Result-cases (checked_release ctx id s.tables)) [
      | inr (e, failed) ↦
          subst (λ r. HasOneExecutor r.1.tables) (sym (release_refused ctx id reason s failed)) one
      | inl ((w, task), passed) ↦
          let (_, loaded, _, _) = checked_release-ok ctx id s.tables w task passed in
          let found = (load_active-ok ctx id s.tables w task loaded).0 in
          saved-HasOneExecutor w (released ctx reason w) s.tables (release ctx id reason s).1.tables
            (find_session-own id s.tables found).1 unique refl (λ k h. absurd (ground arith))
            (release_effect ctx id reason s w task passed).0 one
    ]

-- A checkpoint leaves each task with at most one active executor.
pub add_checkpoint-HasOneExecutor :
    (ctx : Context) (new_id id : ℕ) (dto : CheckpointCreate) (s : Session)
    → HasUniqueSessions s.tables
    → HasOneExecutor s.tables
    → HasOneExecutor (add_checkpoint ctx new_id id dto s).1.tables
unfolding executes checkpointed
add_checkpoint-HasOneExecutor ctx new_id id dto s unique one =
    elim (Result-cases (load_own_active ctx id s.tables)) [
      | inr (e, failed) ↦
          subst (λ r. HasOneExecutor r.1.tables)
            (sym (add_checkpoint_refused ctx new_id id dto s failed)) one
      | inl ((w, task), passed) ↦
          let loaded = (load_own_active-ok ctx id s.tables w task passed).0 in
          let found = (load_active-ok ctx id s.tables w task loaded).0 in
          saved-HasOneExecutor w (checkpointed ctx w) s.tables
            (add_checkpoint ctx new_id id dto s).1.tables (find_session-own id s.tables found).1
            unique refl (λ k h. h) (add_checkpoint_effect ctx new_id id dto s w task passed).0 one
    ]
