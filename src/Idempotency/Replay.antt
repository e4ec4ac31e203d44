-- ===== src/Idempotency/Replay.antt =====
-- What a repeated command gets (backend/app/services/idempotency_service.py and
-- backend/app/api/idempotency.py).
use text.Mathlib.TextPositions.{eq_refl}
use tasktrack.Prelude.{
  ℕ, ◌+◌, ◌≤◌, ◌≡◌, refl, sym, ap, ◌∙◌, subst, String, Bool, true, none, some, List, [], ◌∷◌, not,
  ◌&&◌, str_eq, arith, length, is_some, first, select, first-append_none, first-modify_unseen,
  ==_refl,
}
use tasktrack.Model.{AuditEvent, Response, Outcome, IdempotencyKey, Tables}
use tasktrack.Query.{Context, ok}
use tasktrack.Exec.{Session, Server, Exec}
use tasktrack.Idempotency.{
  key_ttl, is_valid_key, is_key_of, find_key, check_replay_access, takes, round_at, look_at, look,
  is_success, reserved_key, take_key, own_events, completed_key, complete, Answer, conclude,
  guarded,
}

first-select-not :
    {A : Type 0} (p : A → Bool) (l : List A) → first p (select (λ a. not (p a)) l) ≡ none
unfolding first select
first-select-not p [] = refl
first-select-not p (x ∷ xs) = ground (arith, first-select-not p xs)

some-eq : {A : Type 0} {a b : A} → some a ≡ some b → a ≡ b
some-eq h = ground arith

-- The row that `complete` leaves for a reservation.
stored_key : Context → String → String → ℕ → Response → ℕ → List AuditEvent → IdempotencyKey
stored_key ctx key hash finished response watermark audit =
    completed_key finished response (own_events ctx.xid watermark audit) (reserved_key ctx key hash)

taken_key :
    (ctx : Context) (key hash : String) (t : Tables)
    → find_key ctx.user.id key (take_key ctx key hash t) ≡ some (reserved_key ctx key hash)
unfolding find_key take_key first
taken_key ctx key hash t =
    first-append_none (is_key_of ctx.user.id key)
      (select (λ k. not (is_key_of ctx.user.id key k)) t.keys) (reserved_key ctx key hash ∷ [])
      (first-select-not (is_key_of ctx.user.id key) t.keys)
    ∙ ground (arith, ==_refl ctx.user.id, eq_refl key)

completed_lem :
    (ctx : Context) (key hash : String) (finished : ℕ) (response : Response) (watermark : ℕ)
    (t u : Tables)
    → u.keys ≡ (take_key ctx key hash t).keys
    → find_key ctx.user.id key (complete ctx.user.id key finished response watermark u)
      ≡ some (stored_key ctx key hash finished response watermark u.audit)
unfolding complete stored_key find_key
completed_lem ctx key hash finished response watermark t u same =
    let mine = is_key_of ctx.user.id key in
    let found : first mine u.keys ≡ some (reserved_key ctx key hash) =
      ap (first mine) same ∙ taken_key ctx key hash t in
    let written =
      first-modify_unseen mine (λ k. mine k && not (is_some k.outcome))
        (completed_key finished response (own_events ctx.xid watermark u.audit)) u.keys
        (λ k. refl) in
    ground (arith, found, written, ==_refl ctx.user.id, eq_refl key)

-- The server after a command that held its key.
finished_tables :
    {A : Type 0} (ctx : Context) (key hash : String) (deadline clock finished : ℕ)
    (respond : A → Response) (command : Exec A) (srv : Server) (a : A) (s' : Session)
    → is_valid_key key ≡ true
    → is_success (respond a) ≡ true
    → takes (look ctx key hash deadline (round_at clock ctx.now srv.tables)) ≡ true
    → command (record {
      committed = srv.tables;
      tables = take_key ctx key hash srv.tables;
      bus = srv.bus;
    })
      ≡ (ok a, s')
    → guarded ctx key hash deadline clock finished respond command srv ≡ (
      Answer.answered (respond a),
      record {
        tables =
            complete ctx.user.id key finished (respond a) (length srv.tables.audit) s'.committed;
        bus = s'.bus;
      },
    )
unfolding guarded conclude
finished_tables ctx key hash deadline clock finished respond command srv a s' valid success free
      done =
    ground (arith, valid, success, free, done)

stored_after :
    {A : Type 0} (ctx : Context) (key hash : String) (deadline clock finished : ℕ)
    (respond : A → Response) (command : Exec A) (srv : Server) (a : A) (s' : Session)
    → is_valid_key key ≡ true
    → is_success (respond a) ≡ true
    → takes (look ctx key hash deadline (round_at clock ctx.now srv.tables)) ≡ true
    → command (record {
      committed = srv.tables;
      tables = take_key ctx key hash srv.tables;
      bus = srv.bus;
    })
      ≡ (ok a, s')
    → s'.committed.keys ≡ (take_key ctx key hash srv.tables).keys
    → find_key ctx.user.id key
        (guarded ctx key hash deadline clock finished respond command srv).1.tables
      ≡ some (
          stored_key ctx key hash finished (respond a) (length srv.tables.audit) s'.committed.audit)
stored_after ctx key hash deadline clock finished respond command srv a s' valid success free done
      keeps =
    ap (λ r. find_key ctx.user.id key r.1.tables)
      (finished_tables ctx key hash deadline clock finished respond command srv a s' valid success
        free done)
    ∙ completed_lem ctx key hash finished (respond a) (length srv.tables.audit) srv.tables
        s'.committed keeps

unchanged_by_repeat :
    {B : Type 0} (ctx : Context) (key hash : String) (deadline clock finished : ℕ)
    (respond : B → Response) (command : Exec B) (srv : Server) (row : IdempotencyKey)
    (outcome : Outcome)
    → find_key ctx.user.id key srv.tables ≡ some row
    → row.outcome ≡ some outcome
    → ctx.now ≤ row.created_at + key_ttl
    → (guarded ctx key hash deadline clock finished respond command srv).1 ≡ srv
unfolding guarded look look_at
unchanged_by_repeat ctx key hash deadline clock finished respond command srv row outcome found
      completed early =
    ground (arith, found, completed)

replay_of_row :
    {B : Type 0} (ctx : Context) (key hash : String) (deadline clock finished : ℕ)
    (respond : B → Response) (command : Exec B) (srv : Server) (row : IdempotencyKey)
    (outcome : Outcome)
    → is_valid_key key ≡ true
    → find_key ctx.user.id key srv.tables ≡ some row
    → row.outcome ≡ some outcome
    → row.request_hash ≡ hash
    → ctx.now ≤ row.created_at + key_ttl
    → check_replay_access ctx row srv.tables ≡ ok tt
    → guarded ctx key hash deadline clock finished respond command srv
      ≡ (Answer.replayed outcome.response, srv)
unfolding guarded look look_at
replay_of_row ctx key hash deadline clock finished respond command srv row outcome valid found
      completed hashed early access =
    let same = subst (λ h. str_eq h hash ≡ true) (sym hashed) (eq_refl hash) in
    ground (arith, valid, found, completed, access, same)

-- A key runs its command once: after a command that held its key, succeeded with a 2xx response and committed the
-- reservation with its change, no request of the same user with that key changes anything on the
-- server until the key expires, whatever it asks for.
pub guarded_once :
    {A B : Type 0} (ctx ctx' : Context) (key hash hash' : String)
    (deadline deadline' clock clock' finished finished' : ℕ) (respond : A → Response)
    (respond' : B → Response) (command : Exec A) (command' : Exec B) (srv : Server) (a : A)
    (s' : Session)
    → is_valid_key key ≡ true
    → is_success (respond a) ≡ true
    → takes (look ctx key hash deadline (round_at clock ctx.now srv.tables)) ≡ true
    → command (record {
      committed = srv.tables;
      tables = take_key ctx key hash srv.tables;
      bus = srv.bus;
    })
      ≡ (ok a, s')
    → s'.committed.keys ≡ (take_key ctx key hash srv.tables).keys
    → ctx'.user.id ≡ ctx.user.id
    → ctx'.now ≤ ctx.now + key_ttl
    → let after = (guarded ctx key hash deadline clock finished respond command srv).1 in
      (guarded ctx' key hash' deadline' clock' finished' respond' command' after).1 ≡ after
unfolding stored_key
guarded_once ctx ctx' key hash hash' deadline deadline' clock clock' finished finished' respond
      respond' command command' srv a s' valid success free done keeps same early =
    let after = (guarded ctx key hash deadline clock finished respond command srv).1 in
    let stored =
      stored_after ctx key hash deadline clock finished respond command srv a s' valid success free
        done keeps in
    unchanged_by_repeat ctx' key hash' deadline' clock' finished' respond' command' after
      (stored_key ctx key hash finished (respond a) (length srv.tables.audit) s'.committed.audit)
      (record { completed_at = finished; response = respond a })
      (subst
        (λ n.
          find_key n key after.tables
          ≡ some (
              stored_key ctx key hash finished (respond a) (length srv.tables.audit)
                s'.committed.audit))
        (sym same) stored)
      refl early

-- Who repeats a command that succeeded gets its stored response, and nothing runs: under the
-- conditions of `guarded_once`, with the same request and with write access to what the command
-- changed.
pub guarded_replays :
    {A B : Type 0} (ctx ctx' : Context) (key hash : String)
    (deadline deadline' clock clock' finished finished' : ℕ) (respond : A → Response)
    (respond' : B → Response) (command : Exec A) (command' : Exec B) (srv : Server) (a : A)
    (s' : Session) (row : IdempotencyKey)
    → is_valid_key key ≡ true
    → is_success (respond a) ≡ true
    → takes (look ctx key hash deadline (round_at clock ctx.now srv.tables)) ≡ true
    → command (record {
      committed = srv.tables;
      tables = take_key ctx key hash srv.tables;
      bus = srv.bus;
    })
      ≡ (ok a, s')
    → s'.committed.keys ≡ (take_key ctx key hash srv.tables).keys
    → ctx'.user.id ≡ ctx.user.id
    → ctx'.now ≤ ctx.now + key_ttl
    → find_key ctx.user.id key
        (guarded ctx key hash deadline clock finished respond command srv).1.tables
      ≡ some row
    → check_replay_access ctx' row
        (guarded ctx key hash deadline clock finished respond command srv).1.tables
      ≡ ok tt
    → let after = (guarded ctx key hash deadline clock finished respond command srv).1 in
      guarded ctx' key hash deadline' clock' finished' respond' command' after
      ≡ (Answer.replayed (respond a), after)
unfolding stored_key
guarded_replays ctx ctx' key hash deadline deadline' clock clock' finished finished' respond
      respond' command command' srv a s' row valid success free done keeps same early there access =
    let after = (guarded ctx key hash deadline clock finished respond command srv).1 in
    let left =
      stored_key ctx key hash finished (respond a) (length srv.tables.audit) s'.committed.audit in
    let stored =
      stored_after ctx key hash deadline clock finished respond command srv a s' valid success free
        done keeps in
    let own : row ≡ left = some-eq (sym there ∙ stored) in
    replay_of_row ctx' key hash deadline' clock' finished' respond' command' after left
      (record { completed_at = finished; response = respond a }) valid
      (subst (λ n. find_key n key after.tables ≡ some left) (sym same) stored) refl refl early
      (subst (λ k. check_replay_access ctx' k after.tables ≡ ok tt) own access)
