-- ===== src/Sessions/Lifecycle.antt =====
-- Who ends a work session (backend/app/services/session_service.py).
use tasktrack.Prelude.{
  ℕ, String, ◌≡◌, refl, sym, ap, ◌∙◌, inl, inr, true, ◌||◌, Option, some, ◌==◌, arith, first_sound,
  first-modify_self, ==→≡,
}
use tasktrack.Model.Enums.{ProjectMemberRole, SessionState, is_active}
use tasktrack.Model.{Task, TaskSession, ProjectMember, Tables}
use tasktrack.Query.{Context, ok, Result-cases}
use tasktrack.Exec.{Session}
use tasktrack.Permissions.{has_role, require_writer}
use tasktrack.Tasks.{get_task}
use tasktrack.Sessions.{
  find_session, save_session, load_own_active, checked_release, complete, completed, release,
  released,
}
use tasktrack.Sessions.Endings.{
  load_active-ok, load_own_active-ok, checked_release-ok, complete_refused, complete_effect,
  release_refused, release_effect,
}

-- The session that was read is replaced by the one that is saved.
saved_session :
    (id : ℕ) (w w' : TaskSession) (t u : Tables)
    → u.sessions ≡ (save_session w' t).sessions
    → find_session id t ≡ some w
    → w'.id ≡ w.id
    → find_session id u ≡ some w'
unfolding find_session save_session
saved_session id w w' t u same found same_id =
    let here : w'.id ≡ id =
      same_id ∙ ==→≡ w.id id (first_sound (λ r. r.id == id) t.sessions found) in
    ground (
      arith,
      same,
      here,
      first-modify_self (λ r. r.id == id) w' t.sessions {a = w},
      first-modify_self (λ r. r.id == w'.id) w' t.sessions {a = w},
    )

-- Whoever completes a session owns it; it was active, and is then stored as completed, with its result,
-- by the user and at the time of the request, and otherwise as it was.
pub complete-ends :
    (ctx : Context) (id : ℕ) (result : Option String) (s s' : Session) (answer : TaskSession)
    → complete ctx id result s ≡ (ok answer, s')
    → (w : TaskSession) × (find_session id s.tables ≡ some w)
      × (is_active w.state ≡ true)
      × ((w.user_id == ctx.user.id) ≡ true)
      × (find_session id s'.committed
          ≡ some (record w {
            state = SessionState.completed;
            result = result;
            ended_at = some ctx.now;
            ended_by = some ctx.user.id;
          }))
complete-ends ctx id result s s' answer h = elim (Result-cases (load_own_active ctx id s.tables)) [
  | inr (e, failed) ↦ absurd (ground (arith, complete_refused ctx id result s failed))
  | inl ((w, task), passed) ↦
      let (loaded, own) = load_own_active-ok ctx id s.tables w task passed in
      let (found, _, active) = load_active-ok ctx id s.tables w task loaded in
      let (sessions, commits) = complete_effect ctx id result s w task passed in
      let after = (complete ctx id result s).1 in
      (
        w,
        found,
        active,
        own,
        ap (λ r. find_session id r.1.committed) (sym h)
            ∙ ap (find_session id) commits
            ∙ saved_session id w (completed ctx result w) s.tables after.tables sessions found refl,
      )
]

-- Whoever releases a session owns it or is a manager of its project, and may write there; it was
-- active, and is then stored as released, with the reason, by the user and at the time of the request,
-- and otherwise as it was.
pub release-ends :
    (ctx : Context) (id : ℕ) (reason : String) (s s' : Session) (answer : TaskSession)
    → release ctx id reason s ≡ (ok answer, s')
    → (w : TaskSession) × (task : Task) × (member : ProjectMember) × (find_session id s.tables
        ≡ some w)
      × (is_active w.state ≡ true)
      × (get_task ctx w.task_id s.tables ≡ ok task)
      × (require_writer ctx task.project_id s.tables ≡ ok member)
      × ((w.user_id == ctx.user.id || has_role (some member) ProjectMemberRole.manager) ≡ true)
      × (find_session id s'.committed
          ≡ some (record w {
            state = SessionState.released;
            end_reason = some reason;
            ended_at = some ctx.now;
            ended_by = some ctx.user.id;
          }))
release-ends ctx id reason s s' answer h = elim (Result-cases (checked_release ctx id s.tables)) [
  | inr (e, failed) ↦ absurd (ground (arith, release_refused ctx id reason s failed))
  | inl ((w, task), passed) ↦
      let (member, loaded, writer, entitled) = checked_release-ok ctx id s.tables w task passed in
      let (found, got, active) = load_active-ok ctx id s.tables w task loaded in
      let (sessions, commits) = release_effect ctx id reason s w task passed in
      let after = (release ctx id reason s).1 in
      (
        w,
        task,
        member,
        found,
        active,
        got,
        writer,
        entitled,
        ap (λ r. find_session id r.1.committed) (sym h)
            ∙ ap (find_session id) commits
            ∙ saved_session id w (released ctx reason w) s.tables after.tables sessions found refl,
      )
]
