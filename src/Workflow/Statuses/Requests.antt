-- ===== src/Workflow/Statuses/Requests.antt =====
-- Requests that write statuses (backend/app/services/workflow_service.py).
use tasktrack.Prelude.{ℕ, ◌≡◌, ◌==◌, count}
use tasktrack.Model.{Tables}
use tasktrack.Query.{Context}
use tasktrack.Exec.{Session}
use tasktrack.Workflow.Statuses.{StatusCreate, StatusUpdate, create_status, update_status}
use tasktrack.Workflow.Statuses.Additions.{create_status-IsSound}
use tasktrack.Workflow.Statuses.Defaults.{IsSound, update_status-IsSound}

pub data Request : Type 0 where
  create : ℕ → ℕ → StatusCreate → Request
  update : ℕ → StatusUpdate → Request

unfoldable pub handle : Context → Request → Session → Session
handle ctx (create new_id workflow_id dto) s = (create_status ctx new_id workflow_id dto s).1
handle ctx (update id dto) s = (update_status ctx id dto s).1

-- No status has the id of a new one.
unfoldable pub IsFresh : Request → Tables → Type 0
IsFresh (create new_id workflow_id dto) t = count (λ r. r.id == new_id) t.statuses ≡ 0
IsFresh (update id dto) t = Unit {0}

-- Where each workflow has at most one default status, each of them initial, and ids are unique, that
-- is so too after a status is created, with an id that no status has, or updated, whether the request
-- succeeds or raises.
pub handle-IsSound :
    (ctx : Context) (r : Request) (s : Session)
    → IsFresh r s.tables
    → IsSound s.tables.statuses
    → IsSound (handle ctx r s).tables.statuses
unfolding handle IsFresh
handle-IsSound ctx (Request.create new_id workflow_id dto) s fresh h =
    create_status-IsSound ctx new_id workflow_id dto s fresh h
handle-IsSound ctx (Request.update id dto) s fresh h = update_status-IsSound ctx id dto s h
