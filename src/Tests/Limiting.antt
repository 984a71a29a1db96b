-- ===== src/Tests/Limiting.antt =====
-- A token bucket of five tokens a second, emptied at once.
use quant_execution_engine.Prelude.{ℕ, ◌+◌, ◌*◌, ◌/◌, ◌≤◌, List, [], ◌∷◌, arith, length}
use quant_execution_engine.Adapters.RateLimit.{token, new_bucket, refill, Turn, taken, acquire}
use quant_execution_engine.Adapters.RateLimit.Bounds.{run, AllTimely, acquired_bounded}

-- A reading, and a sleep until the millisecond after the missing millionths have accrued.
abbrev turn_at : ℕ → Turn
turn_at t = record { started = t; woken = λ deficit. t + (deficit / 5000 + 1) }

abbrev turns : List Turn
turns =
    turn_at 1000
    ∷ turn_at 1000
    ∷ turn_at 1000
    ∷ turn_at 1000
    ∷ turn_at 1000
    ∷ turn_at 1100
    ∷ turn_at 1300
    ∷ []

long : (t deficit : ℕ) → t * 5000 + deficit ≤ (t + (deficit / 5000 + 1)) * 5000
long t deficit = omega arith

woken : (t deficit : ℕ) → t ≤ t + (deficit / 5000 + 1)
woken t deficit = omega arith

timely : AllTimely (new_bucket 5000 1000) turns
unfolding new_bucket acquire refill taken
timely = (
  (omega arith, long 1000, woken 1000),
  (
    (omega arith, long 1000, woken 1000),
    (
      (omega arith, long 1000, woken 1000),
      (
        (omega arith, long 1000, woken 1000),
        (
          (omega arith, long 1000, woken 1000),
          ((omega arith, long 1100, woken 1100), ((omega arith, long 1300, woken 1300), tt)),
        ),
      ),
    ),
  ),
)

-- The sixth acquire finds half a token and sleeps for the other half.
acquired_bounded_example :
    let b = run (new_bucket 5000 1000) turns in
    (token * length turns + 1000 * 5000 ≤ 5000 * 1000 + b.updated * 5000) × (b.tokens ≤ 5000 * 1000)
acquired_bounded_example = acquired_bounded 5000 1000 turns (omega arith) timely
