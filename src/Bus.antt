-- ===== src/Bus.antt =====
-- backend/app/core/events.py: subscribers' queues of at most 100 events, and the events of tasks.
pub mod Queues
use tasktrack.Prelude.{
  ℕ, String, Option, List, [], ◌∷◌, ◌++◌, ltb, ◌==◌, if◌then◌else◌, length, modify, select, not,
}
use tasktrack.Model.{Task}

pub record Event : Type 0 where
  pub type : String
  pub project_id : ℕ
  pub task_id : ℕ
  pub task : Option Task

-- A subscription's `asyncio.Queue(maxsize=100)`.
pub record Subscriber : Type 0 where
  pub id : ℕ
  pub project_id : ℕ
  pub queue : List Event

abbrev pub EventBus : Type 0
EventBus = List Subscriber

abbrev pub maxsize : ℕ
maxsize = 100

-- `put_nowait`, with QueueFull passed over.
unfoldable pub put_nowait : Event → Subscriber → Subscriber
put_nowait e q = if ltb (length q.queue) maxsize then record q { queue = q.queue ++ e ∷ [] } else q

unfoldable pub publish : ℕ → Event → EventBus → EventBus
unfolding put_nowait
publish project_id e = modify (λ q. q.project_id == project_id) (put_nowait e)

-- Entering `subscribe`: a new queue, which `id` names.
unfoldable pub subscribe : ℕ → ℕ → EventBus → EventBus
subscribe id project_id bus = bus ++ record { id = id; project_id = project_id; queue = [] } ∷ []

-- Leaving `subscribe`.
unfoldable pub unsubscribe : ℕ → EventBus → EventBus
unsubscribe id = select (λ q. not (q.id == id))
