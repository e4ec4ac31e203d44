-- ===== src/Bus/Queues.antt =====
-- What `EventBus.publish` of backend/app/core/events.py does to the subscribers' queues.
use tasktrack.Prelude.{
  ℕ, ◌≡◌, refl, ◌≤◌, List, [], ◌∷◌, ◌++◌, ltb, ◌&&◌, ◌==◌, inl, inr, Bool-cases, if◌then◌else◌,
  length, length-append, modify, collect, All, arith,
}
use tasktrack.Bus.{Event, Subscriber, EventBus, put_nowait, publish}

-- No queue holds more than 100 events.
unfoldable pub IsBounded : EventBus → Type 0
IsBounded = All λ q. length q.queue ≤ 100

put_nowait_bounded :
    (e : Event) (q : Subscriber) → length q.queue ≤ 100 → length (put_nowait e q).queue ≤ 100
unfolding put_nowait
put_nowait_bounded e q h = ground (arith, length-append q.queue (e ∷ []))

bounded :
    (project_id : ℕ) (e : Event) (bus : EventBus)
    → IsBounded bus
    → IsBounded (publish project_id e bus)
unfolding IsBounded publish modify
bounded project_id e [] h = tt
bounded project_id e (q ∷ qs) (small, rest) = (
  elim (Bool-cases (q.project_id == project_id)) [
    | inl mine ↦ ground (arith, mine, put_nowait_bounded e q small)
    | inr other ↦ ground (arith, other, small)
  ],
  bounded project_id e qs rest,
)

-- The queue of a subscription after an event of the project.
pub received : ℕ → Event → Subscriber → List Event
received project_id e q =
    if q.project_id == project_id && ltb (length q.queue) 100 then q.queue ++ e ∷ [] else q.queue

delivered :
    (project_id : ℕ) (e : Event) (bus : EventBus)
    → collect (λ q. q.queue) (publish project_id e bus) ≡ collect (received project_id e) bus
unfolding publish modify collect received put_nowait
delivered project_id e [] = refl
delivered project_id e (q ∷ qs) = ground (arith, delivered project_id e qs)

-- Publishing an event of a project appends it to each queue that follows the project and has fewer
-- than 100 events, and leaves every other queue as it was; where no queue had more than 100 events,
-- none has after it.
pub publish-IsBounded :
    (project_id : ℕ) (e : Event) (bus : EventBus)
    → IsBounded bus
    → (collect (λ q. q.queue) (publish project_id e bus) ≡ collect (received project_id e) bus)
      × IsBounded (publish project_id e bus)
publish-IsBounded project_id e bus h = (delivered project_id e bus, bounded project_id e bus h)
