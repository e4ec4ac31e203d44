-- ===== src/Sessions/Histories.antt =====
-- Requests on work sessions, one after the other (backend/app/services/session_service.py).
use tasktrack.Prelude.{
  ℕ, String, ◌≡◌, refl, sym, subst, inl, inr, Bool-cases, Option, none, some, [], ◌∷◌, ◌++◌, ◌==◌,
  arith, first, count, count-append, count-none, count-replace, ==→≡,
}
use tasktrack.Model.{TaskSession, Tables}
use tasktrack.Query.{Context, Result-cases}
use tasktrack.Exec.{Session, Server, serve}
use tasktrack.Sessions.{
  SessionCreate, CheckpointCreate, find_session, checked_claim, started, save_session,
  load_own_active, claim, add_checkpoint, complete, completed, checked_release, release, released,
}
use tasktrack.Sessions.Endings.{
  load_active-ok, load_own_active-ok, checked_release-ok, find_session-own, checkpointed,
  complete_refused, complete_effect, release_refused, release_effect, add_checkpoint_refused,
  add_checkpoint_effect, complete-HasOneExecutor, release-HasOneExecutor,
  add_checkpoint-HasOneExecutor,
}
use tasktrack.Sessions.Exclusive.{
  HasOneExecutor, HasUniqueSessions, claim_refused, claim_effect, claim_passes_index,
  claim-HasOneExecutor,
}

-- The requests that change sessions; a claim and a checkpoint come with the new row's id.
pub data Request : Type 0 where
  claim_task : ℕ → ℕ → SessionCreate → Request
  checkpoint : ℕ → ℕ → CheckpointCreate → Request
  complete_session : ℕ → Option String → Request
  release_session : ℕ → String → Request

-- What a request leaves on the server.
unfoldable pub handle : Context → Request → Server → Server
handle ctx (claim_task new_id task_id dto) srv = (serve (claim ctx new_id task_id dto) srv).1
handle ctx (checkpoint new_id id dto) srv = (serve (add_checkpoint ctx new_id id dto) srv).1
handle ctx (complete_session id result) srv = (serve (complete ctx id result) srv).1
handle ctx (release_session id reason) srv = (serve (release ctx id reason) srv).1

-- The id of a new session is new.
unfoldable pub IsFresh : Request → Tables → Type 0
IsFresh (claim_task new_id task_id dto) t = find_session new_id t ≡ none
IsFresh _ t = Unit {0}

-- Any requests, by anybody and in any order.
pub data Reach (start : Server) : Server → Type 0 where
  here : Reach start start
  next :
      {srv : Server} (ctx : Context) (r : Request)
      → Reach start srv
      → IsFresh r srv.tables
      → Reach start (handle ctx r srv)

pub record HasSoundSessions (t : Tables) : Type 0 where
  pub one : HasOneExecutor t
  pub unique : HasUniqueSessions t

saved-HasUniqueSessions :
    (w w' : TaskSession) (t u : Tables)
    → find_session w.id t ≡ some w
    → w'.id ≡ w.id
    → u.sessions ≡ (save_session w' t).sessions
    → HasUniqueSessions t
    → HasUniqueSessions u
unfolding HasUniqueSessions find_session save_session
saved-HasUniqueSessions w w' t u found same_id same unique k =
    let there = subst (λ n. first (λ r. r.id == n) t.sessions ≡ some w) (sym same_id) found in
    ground (
      arith,
      same,
      same_id,
      unique k,
      count-replace (λ r. r.id == k) (λ r. r.id == w'.id) w' t.sessions {a = w} there
          (unique w'.id),
    )

added-HasUniqueSessions :
    (w : TaskSession) (t u : Tables)
    → u.sessions ≡ t.sessions ++ w ∷ []
    → find_session w.id t ≡ none
    → HasUniqueSessions t
    → HasUniqueSessions u
unfolding HasUniqueSessions find_session count
added-HasUniqueSessions w t u same fresh unique k =
    let none_yet = count-none (λ r. r.id == w.id) t.sessions fresh in
    elim (Bool-cases (w.id == k)) [
      | inl own ↦
          let here =
            subst (λ n. count (λ r. r.id == n) t.sessions ≡ 0) (==→≡ w.id k own) none_yet in
          ground (arith, same, here, own, count-append (λ r. r.id == k) t.sessions (w ∷ []))
      | inr other ↦
          ground (arith, same, other, unique k, count-append (λ r. r.id == k) t.sessions (w ∷ []))
    ]

opened : Server → Session
opened srv = record { committed = srv.tables; tables = srv.tables; bus = srv.bus }

claim-HasSoundSessions :
    (ctx : Context) (new_id id : ℕ) (dto : SessionCreate) (srv : Server)
    → find_session new_id srv.tables ≡ none
    → HasSoundSessions srv.tables
    → HasSoundSessions (claim ctx new_id id dto (opened srv)).1.committed
unfolding opened
claim-HasSoundSessions ctx new_id id dto srv fresh h =
    elim (Result-cases (checked_claim ctx id dto srv.tables)) [
      | inr (e, failed) ↦
          subst (λ r. HasSoundSessions r.1.committed)
            (sym (claim_refused ctx new_id id dto (opened srv) failed)) h
      | inl ((task, pkg), passed) ↦
          let legal = claim_passes_index ctx new_id id dto srv.tables task pkg passed in
          let (sessions, commits) =
            claim_effect ctx new_id id dto (opened srv) task pkg passed legal in
          subst HasSoundSessions (sym commits) (record {
            one = claim-HasOneExecutor ctx new_id id dto (opened srv) h.one;
            unique =
                added-HasUniqueSessions (started ctx new_id dto task pkg) srv.tables
                  (claim ctx new_id id dto (opened srv)).1.tables sessions fresh h.unique;
          })
    ]

complete-HasSoundSessions :
    (ctx : Context) (id : ℕ) (result : Option String) (srv : Server)
    → HasSoundSessions srv.tables
    → HasSoundSessions (complete ctx id result (opened srv)).1.committed
unfolding opened
complete-HasSoundSessions ctx id result srv h =
    elim (Result-cases (load_own_active ctx id srv.tables)) [
      | inr (e, failed) ↦
          subst (λ r. HasSoundSessions r.1.committed)
            (sym (complete_refused ctx id result (opened srv) failed)) h
      | inl ((w, task), passed) ↦
          let (sessions, commits) = complete_effect ctx id result (opened srv) w task passed in
          let loaded = (load_own_active-ok ctx id srv.tables w task passed).0 in
          let found = (load_active-ok ctx id srv.tables w task loaded).0 in
          subst HasSoundSessions (sym commits) (record {
            one = complete-HasOneExecutor ctx id result (opened srv) h.unique h.one;
            unique =
                saved-HasUniqueSessions w (completed ctx result w) srv.tables
                  (complete ctx id result (opened srv)).1.tables
                  (find_session-own id srv.tables found).1 refl sessions h.unique;
          })
    ]

release-HasSoundSessions :
    (ctx : Context) (id : ℕ) (reason : String) (srv : Server)
    → HasSoundSessions srv.tables
    → HasSoundSessions (release ctx id reason (opened srv)).1.committed
unfolding opened
release-HasSoundSessions ctx id reason srv h =
    elim (Result-cases (checked_release ctx id srv.tables)) [
      | inr (e, failed) ↦
          subst (λ r. HasSoundSessions r.1.committed)
            (sym (release_refused ctx id reason (opened srv) failed)) h
      | inl ((w, task), passed) ↦
          let (sessions, commits) = release_effect ctx id reason (opened srv) w task passed in
          let (_, loaded, _, _) = checked_release-ok ctx id srv.tables w task passed in
          let found = (load_active-ok ctx id srv.tables w task loaded).0 in
          subst HasSoundSessions (sym commits) (record {
            one = release-HasOneExecutor ctx id reason (opened srv) h.unique h.one;
            unique =
                saved-HasUniqueSessions w (released ctx reason w) srv.tables
                  (release ctx id reason (opened srv)).1.tables
                  (find_session-own id srv.tables found).1 refl sessions h.unique;
          })
    ]

add_checkpoint-HasSoundSessions :
    (ctx : Context) (new_id id : ℕ) (dto : CheckpointCreate) (srv : Server)
    → HasSoundSessions srv.tables
    → HasSoundSessions (add_checkpoint ctx new_id id dto (opened srv)).1.committed
unfolding opened checkpointed
add_checkpoint-HasSoundSessions ctx new_id id dto srv h =
    elim (Result-cases (load_own_active ctx id srv.tables)) [
      | inr (e, failed) ↦
          subst (λ r. HasSoundSessions r.1.committed)
            (sym (add_checkpoint_refused ctx new_id id dto (opened srv) failed)) h
      | inl ((w, task), passed) ↦
          let (sessions, commits) =
            add_checkpoint_effect ctx new_id id dto (opened srv) w task passed in
          let loaded = (load_own_active-ok ctx id srv.tables w task passed).0 in
          let found = (load_active-ok ctx id srv.tables w task loaded).0 in
          subst HasSoundSessions (sym commits) (record {
            one = add_checkpoint-HasOneExecutor ctx new_id id dto (opened srv) h.unique h.one;
            unique =
                saved-HasUniqueSessions w (checkpointed ctx w) srv.tables
                  (add_checkpoint ctx new_id id dto (opened srv)).1.tables
                  (find_session-own id srv.tables found).1 refl sessions h.unique;
          })
    ]

-- Whatever requests come, by anybody and in any order, what they leave stored has at most one active
-- executor for each task, where that held at the start, ids were unique, and the ids given to new
-- sessions are new.
pub Reach-HasSoundSessions :
    (start srv : Server)
    → HasSoundSessions start.tables
    → Reach start srv
    → HasSoundSessions srv.tables
unfolding handle serve IsFresh opened
Reach-HasSoundSessions start srv h here = h
Reach-HasSoundSessions start _ h (next {srv} ctx (Request.claim_task new_id id dto) r fresh) =
    claim-HasSoundSessions ctx new_id id dto srv fresh (Reach-HasSoundSessions start srv h r)
Reach-HasSoundSessions start _ h (next {srv} ctx (Request.checkpoint new_id id dto) r fresh) =
    add_checkpoint-HasSoundSessions ctx new_id id dto srv (Reach-HasSoundSessions start srv h r)
Reach-HasSoundSessions start _ h (next {srv} ctx (Request.complete_session id result) r fresh) =
    complete-HasSoundSessions ctx id result srv (Reach-HasSoundSessions start srv h r)
Reach-HasSoundSessions start _ h (next {srv} ctx (Request.release_session id reason) r fresh) =
    release-HasSoundSessions ctx id reason srv (Reach-HasSoundSessions start srv h r)
