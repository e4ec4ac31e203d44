-- ===== src/Idempotency/Waiting.antt =====
-- How long `reserve` waits (backend/app/services/idempotency_service.py).
use tasktrack.Prelude.{
  ℕ, ◌+◌, ◌-◌, ◌⊎◌, ◌≤◌, ◌<◌, ◌≡◌, String, Bool, true, false, List, [], ◌∷◌, arith, length, is_some,
  count, inl, inr, Bool-cases, if◌then◌else◌,
}
use Prim.Native.Nat.{◌*◌}
use tasktrack.Query.{Context}
use tasktrack.Idempotency.{
  Round, Finding, look_at, look, reserve, wait_for_completion, poll_interval,
}

abbrev sleeps : Finding → Bool
sleeps Finding.sleep = true
sleeps _ = false

-- The row that stopped the insert was gone at the select, or had expired.
abbrev pub meets_no_row : Finding → Bool
meets_no_row Finding.vanished = true
meets_no_row Finding.expired = true
meets_no_row _ = false

-- The clock does not go back, and a sleep takes a poll interval at least.
unfoldable pub AreSpaced : Context → String → String → ℕ → ℕ → List Round → Type 0
AreSpaced ctx key hash deadline start [] = Unit
AreSpaced ctx key hash deadline start (m ∷ ms) =
    (start ≤ m.clock)
    × AreSpaced ctx key hash deadline
        (if sleeps (look ctx key hash deadline m) then m.clock + poll_interval else m.clock) ms

-- The rounds that go on at once.
unfoldable pub immediate : Context → String → String → ℕ → List Round → ℕ
immediate ctx key hash deadline = count (λ m. meets_no_row (look ctx key hash deadline m))

-- Past its deadline the loop does not sleep.
awake_after_deadline :
    (ctx : Context) (key hash : String) (deadline : ℕ) (m : Round)
    → deadline < m.clock
    → sleeps (look ctx key hash deadline m) ≡ false
unfolding look look_at
awake_after_deadline ctx key hash deadline m late = ground arith

-- A round that neither sleeps nor goes on at once is the last one.
reserve_last :
    (ctx : Context) (key hash : String) (deadline : ℕ) (m : Round) (ms : List Round)
    → sleeps (look ctx key hash deadline m) ≡ false
    → meets_no_row (look ctx key hash deadline m) ≡ false
    → is_some (reserve ctx key hash deadline (m ∷ ms)) ≡ true
unfolding reserve
reserve_last ctx key hash deadline m ms awake met = ground arith

reserve_later :
    (ctx : Context) (key hash : String) (deadline : ℕ) (m : Round) (ms : List Round)
    → is_some (reserve ctx key hash deadline ms) ≡ true
    → is_some (reserve ctx key hash deadline (m ∷ ms)) ≡ true
unfolding reserve
reserve_later ctx key hash deadline m ms later = ground arith

≤-cases : (a b : ℕ) → (a ≤ b) ⊎ (b < a)
≤-cases a b = ground arith

reserve_within :
    (ctx : Context) (key hash : String) (deadline start k : ℕ) (ms : List Round)
    → AreSpaced ctx key hash deadline start ms
    → deadline < start + poll_interval * k
    → k + immediate ctx key hash deadline ms < length ms
    → is_some (reserve ctx key hash deadline ms) ≡ true
unfolding AreSpaced immediate count
reserve_within ctx key hash deadline start k [] spaced late enough = absurd (omega arith)
reserve_within ctx key hash deadline start k (m ∷ ms) (after, spaced) late enough =
    elim (Bool-cases (meets_no_row (look ctx key hash deadline m))) [
      | inl gone ↦
          let awake : sleeps (look ctx key hash deadline m) ≡ false = ground arith in
          reserve_later ctx key hash deadline m ms (
            reserve_within ctx key hash deadline m.clock k ms (ground (arith, awake, spaced))
              (omega arith) (ground (arith, gone, enough)))
      | inr met ↦ elim (Bool-cases (sleeps (look ctx key hash deadline m))) [
        | inr awake ↦ reserve_last ctx key hash deadline m ms awake met
        | inl asleep ↦
            let in_time : m.clock ≤ deadline = elim (≤-cases m.clock deadline) [
              | inl h ↦ h
              | inr h ↦
                  absurd (ground (arith, asleep, awake_after_deadline ctx key hash deadline m h))
            ] in
            reserve_later ctx key hash deadline m ms (
              reserve_within ctx key hash deadline (m.clock + poll_interval) (k - 1) ms
                (ground (arith, asleep, spaced)) (omega arith)
                (ground (arith, met, enough, in_time, late, after)))
      ]
    ]

-- The wait for another request with the same key ends: apart from rounds in which the row was gone or
-- expired, each of which goes on at once, the 102nd round at the latest holds the key, gets the
-- stored response or is refused.
pub reserve_ends :
    (ctx : Context) (key hash : String) (start : ℕ) (ms : List Round)
    → let deadline = start + wait_for_completion in
      AreSpaced ctx key hash deadline start ms
      → 102 + immediate ctx key hash deadline ms ≤ length ms
      → is_some (reserve ctx key hash deadline ms) ≡ true
reserve_ends ctx key hash start ms spaced enough =
    reserve_within ctx key hash (start + wait_for_completion) start 101 ms spaced (omega arith)
      (omega arith)
