-- ===== src/Idempotency.antt =====
-- backend/app/services/idempotency_service.py and the guard of backend/app/api/idempotency.py: safe
-- retries of commands. Times are in milliseconds.
pub mod Waiting
pub mod Replay
use Prim.Native.Char.{Char, code}
use Prim.Native.String.{String}
use tasktrack.Prelude.{
  ℕ, suc, ◌+◌, ◌-◌, Bool, true, false, Option, none, some, List, [], ◌∷◌, ◌++◌, not, ◌&&◌, ◌||◌,
  ◌==◌, ltb, leb, str_eq, is_some, if◌then◌else◌, length, first, select, modify, any,
}
use tasktrack.Model.{AuditEvent, Response, Outcome, IdempotencyKey, Tables}
use tasktrack.Query.{
  Context, Error, Result, ok, err, Query, http, permission_denied, idempotency_key_invalid,
  idempotency_key_reused, idempotency_outcome_unknown, idempotency_in_progress, require, ◌>>=◌,
  ◌>>◌,
}
use tasktrack.Query
use tasktrack.Exec.{Session, Server, Exec}
use tasktrack.Permissions.{require_writer}

-- `KEY_TTL`
abbrev pub key_ttl : ℕ
key_ttl = 86400000

-- `OUTCOME_UNKNOWN_AFTER`
abbrev pub outcome_unknown_after : ℕ
outcome_unknown_after = 60000

-- `WAIT_FOR_COMPLETION`
abbrev pub wait_for_completion : ℕ
wait_for_completion = 5000

-- `_POLL_INTERVAL`
abbrev pub poll_interval : ℕ
poll_interval = 50

-- `_KEY_CHARS`: ASCII letters, digits and "-", "_", ".", ":".
abbrev is_key_char : ℕ → Bool
is_key_char c =
    (leb 97 c && leb c 122)
    || ((leb 65 c && leb c 90)
        || ((leb 48 c && leb c 57) || (c == 45 || (c == 95 || (c == 46 || c == 58)))))

text_length : String → ℕ
text_length String.[] = 0
text_length (String.◌∷◌ c s) = suc (text_length s)

has_key_chars : String → Bool
has_key_chars String.[] = true
has_key_chars (String.◌∷◌ c s) = is_key_char (code c) && has_key_chars s

-- The test of `validate_key`.
unfoldable pub is_valid_key : String → Bool
unfolding text_length has_key_chars
is_valid_key key = (leb 1 (text_length key) && leb (text_length key) 255) && has_key_chars key

abbrev pub is_key_of : ℕ → String → IdempotencyKey → Bool
is_key_of user_id key k = k.user_id == user_id && str_eq k.key key

unfoldable pub find_key : ℕ → String → Tables → Option IdempotencyKey
find_key user_id key t = first (is_key_of user_id key) t.keys

require_writers : Context → List ℕ → Query (Unit {0})
require_writers ctx [] = Query.pure tt
require_writers ctx (project_id ∷ ids) = require_writer ctx project_id >> require_writers ctx ids

-- `_check_replay_access`
unfoldable pub check_replay_access : Context → IdempotencyKey → Query (Unit {0})
unfolding require_writers
check_replay_access ctx row = do
  require (not (row.system && not ctx.user.is_superuser)) (http 403 permission_denied)
  require_writers ctx row.project_ids

-- A round of `reserve`: the time of the loop's clock and the date when it checks them, and what its
-- insert and its later select see, between which other requests commit or roll back. The delete of
-- an expired row is in what later rounds see.
pub record Round : Type 0 where
  pub clock : ℕ
  pub now : ℕ
  pub inserting : Tables
  pub seen : Tables

-- A round that no other request meets.
abbrev pub round_at : ℕ → ℕ → Tables → Round
round_at clock now t = record { clock = clock; now = now; inserting = t; seen = t }

-- How a round ends: its insert reserves the key; the row that stopped the insert is gone at the select
-- (`vanished`) or is deleted (`expired`), after which the next round begins at once; the stored
-- response is replayed, an exception is raised, or it sleeps before the next round.
pub data Finding : Type 0 where
  held vanished expired : Finding
  replay : Response → Finding
  refused : Error → Finding
  sleep : Finding

abbrev replay_if : Response → Result (Unit {0}) → Finding
replay_if response (ok _) = Finding.replay response
replay_if response (err e) = Finding.refused e

-- The row of a key that has not expired.
unfoldable pub look_at : Context → String → ℕ → Round → IdempotencyKey → Finding
look_at ctx hash deadline m row =
    if not (str_eq row.request_hash hash)
    then Finding.refused (http 422 idempotency_key_reused)
    else elim row.outcome [
      | some outcome ↦ replay_if outcome.response (check_replay_access ctx row m.seen)
      | none ↦
          if ltb outcome_unknown_after (m.now - row.created_at)
          then Finding.refused (http 409 idempotency_outcome_unknown)
          else if ltb deadline m.clock
          then Finding.refused (http 409 idempotency_in_progress)
          else Finding.sleep
    ]

unfoldable pub look : Context → String → String → ℕ → Round → Finding
unfolding find_key look_at
look ctx key hash deadline m = elim (find_key ctx.user.id key m.inserting) [
  | none ↦ Finding.held
  | some _ ↦ elim (find_key ctx.user.id key m.seen) [
    | none ↦ Finding.vanished
    | some row ↦
        if ltb key_ttl (m.now - row.created_at)
        then Finding.expired
        else look_at ctx hash deadline m row
  ]
]

-- The loop of `reserve` over its rounds: how the last one ends; `none` when the loop goes on after all
-- of them.
unfoldable pub reserve : Context → String → String → ℕ → List Round → Option (Finding × Round)
unfolding look
reserve ctx key hash deadline [] = none
reserve ctx key hash deadline (m ∷ ms) = elim (look ctx key hash deadline m) [
  | Finding.sleep ↦ reserve ctx key hash deadline ms
  | Finding.vanished ↦ reserve ctx key hash deadline ms
  | Finding.expired ↦ reserve ctx key hash deadline ms
  | Finding.held ↦ some (Finding.held, m)
  | Finding.replay response ↦ some (Finding.replay response, m)
  | Finding.refused e ↦ some (Finding.refused e, m)
]

abbrev pub reserved_key : Context → String → String → IdempotencyKey
reserved_key ctx key hash = record {
  user_id = ctx.user.id;
  key = key;
  request_hash = hash;
  xid = ctx.xid;
  created_at = ctx.now;
  outcome = none;
  project_ids = [];
  system = false;
}

-- The expired row, if any, is deleted and the key's row inserted.
unfoldable pub take_key : Context → String → String → Tables → Tables
take_key ctx key hash t = record t {
  keys = select (λ k. not (is_key_of ctx.user.id key k)) t.keys ++ reserved_key ctx key hash ∷ [];
}

-- `release`
unfoldable pub release_key : Context → String → Tables → Tables
release_key ctx key t = record t {
  keys =
      select
        (λ k. not (is_key_of ctx.user.id key k && (not (is_some k.outcome) && k.xid == ctx.xid)))
        t.keys;
}

drop : ℕ → List AuditEvent → List AuditEvent
drop ℕ.zero l = l
drop (suc n) [] = []
drop (suc n) (e ∷ l) = drop n l

-- The command's own events: an event's `id` is its place in the log.
unfoldable pub own_events : ℕ → ℕ → List AuditEvent → List AuditEvent
unfolding drop
own_events xid after_event_id audit = select (λ e. e.xid == xid) (drop after_event_id audit)

-- `[p for p in distinct(project_id) if p is not None]`
unfoldable pub changed_projects : List AuditEvent → List ℕ
changed_projects [] = []
changed_projects (e ∷ es) =
    let rest = changed_projects es in
    elim e.project_id [
      | none ↦ rest
      | some id ↦ if any (λ p. p == id) rest then rest else id ∷ rest
    ]

abbrev pub completed_key : ℕ → Response → List AuditEvent → IdempotencyKey → IdempotencyKey
completed_key now response events k = record k {
  outcome = some (record { completed_at = now; response = response });
  project_ids = changed_projects events;
  system = any (λ e. not (is_some e.project_id)) events;
}

-- `complete`
unfoldable pub complete : ℕ → String → ℕ → Response → ℕ → Tables → Tables
unfolding find_key own_events changed_projects
complete user_id key now response after_event_id t = elim (find_key user_id key t) [
  | none ↦ t
  | some row ↦ record t {
    keys =
        modify (λ k. is_key_of user_id key k && not (is_some k.outcome))
          (completed_key now response (own_events row.xid after_event_id t.audit)) t.keys;
  }
]

-- `purge_expired`
unfoldable pub purge_expired : ℕ → Tables → Tables
purge_expired now t = record t {
  keys = select (λ k. not (ltb k.created_at (now - key_ttl))) t.keys;
}

pub data Answer : Type 0 where
  answered replayed : Response → Answer
  failed : Error → Answer
  still_waiting : Answer

-- `200 <= status < 300`
abbrev pub is_success : Response → Bool
is_success response = leb 200 response.status_code && ltb response.status_code 300

-- What follows the command: `release` and the rollback, or `complete`.
unfoldable pub conclude :
    {A : Type 0} → Context → String → ℕ → (A → Response) → ℕ → Result A × Session → Answer × Server
unfolding release_key complete
conclude ctx key finished respond watermark (err e, s) =
    let released = record s { tables = release_key ctx key s.tables } in
    (Answer.failed e, record { tables = released.committed; bus = released.bus })
conclude ctx key finished respond watermark (ok a, s) = (
  Answer.answered (respond a),
  record {
    tables =
        if is_success (respond a)
        then complete ctx.user.id key finished (respond a) watermark s.committed
        else s.committed;
    bus = s.bus;
  },
)

-- The round, or the one after it, reserves the key: an expired row is deleted, and the next insert
-- meets none.
abbrev pub takes : Finding → Bool
takes Finding.held = true
takes Finding.expired = true
takes _ = false

-- `idempotency_guard`, the command and the middleware: a request that carries a key, where no other
-- request with the key runs meanwhile. The command runs in the transaction that holds the
-- reservation.
unfoldable pub guarded :
    {A : Type 0}
    → Context
    → String
    → String
    → ℕ
    → ℕ
    → ℕ
    → (A → Response)
    → Exec A
    → Server
    → Answer × Server
unfolding is_valid_key look take_key conclude
guarded ctx key hash deadline clock finished respond command srv =
    if not (is_valid_key key)
    then (Answer.failed (http 400 idempotency_key_invalid), srv)
    else elim (look ctx key hash deadline (round_at clock ctx.now srv.tables)) [
      | Finding.held ↦ conclude ctx key finished respond (length srv.tables.audit) (
          command (record {
            committed = srv.tables;
            tables = take_key ctx key hash srv.tables;
            bus = srv.bus;
          }))
      | Finding.expired ↦ conclude ctx key finished respond (length srv.tables.audit) (
          command (record {
            committed = srv.tables;
            tables = take_key ctx key hash srv.tables;
            bus = srv.bus;
          }))
      | Finding.vanished ↦ (Answer.still_waiting, srv)
      | Finding.replay response ↦ (Answer.replayed response, srv)
      | Finding.refused e ↦ (Answer.failed e, srv)
      | Finding.sleep ↦ (Answer.still_waiting, srv)
    ]
