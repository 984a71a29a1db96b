-- ===== src/Core/HandleRecovery/Answers.antt =====
-- core/handle_recovery.py: the loop of `recover_handle` ends, and how.
use quant_execution_engine.Prelude.{
  ℕ, zero, suc, ◌+◌, ◌-◌, ◌≤◌, ◌≡◌, refl, Bool, true, false, List, ◌∷◌, String, arith,
  if◌then◌else◌,
}
use quant_execution_engine.Contracts.Enums.{HandleResolution, confirmed}
use quant_execution_engine.Contracts.Errors.{Result, ok}
use quant_execution_engine.Core.HandleRecovery.{
  HandleResolver, Budget, poll, recover_handle, is_spent, elapsed_ms, is_read, is_resolved, enough,
  given_up,
}
use quant_execution_engine.Core.World.{
  Env, World, Call, Action, ask, sleep, read_clock, waited, ◌>>=◌,
}

-- A clock that never goes back, and moves on while the process sleeps.
pub record IsTicking (env : Env) (resolve : HandleResolver) : Type 0 where
  pub forward : (call : Call) (t : List Call) → env.clock t ≤ env.clock (call ∷ t)
  pub slept : (t : List Call) → env.clock t + 1 ≤ env.clock (sleep ∷ t)
  pub read_forward :
      (order : String) (w : World) → env.clock w.trace ≤ env.clock (resolve order w).1.trace

abbrev pub IsAnswered : Result HandleResolution → Type 0
IsAnswered r = (h : HandleResolution) × (r ≡ ok h)

either_IsAnswered :
    (b : Bool) (m n : Action HandleResolution) (w : World)
    → IsAnswered (m w).0
    → IsAnswered (n w).0
    → IsAnswered ((if b then m else n) w).0
either_IsAnswered true m n w a c = a
either_IsAnswered false m n w a c = c

spent_IsAnswered :
    (b : Bool) (m n : Action HandleResolution) (w : World)
    → IsAnswered (m w).0
    → (b ≡ false → IsAnswered (n w).0)
    → let next : Action HandleResolution = elim b [ true ↦ m | false ↦ n ] in IsAnswered (next w).0
spent_IsAnswered true m n w a c = a
spent_IsAnswered false m n w a c = c refl

module _ (env : Env) (resolve : HandleResolver) (ticks : IsTicking env resolve) (b : Budget)
    (order : String) where
  -- The reads that the floor and the deadline leave at most.
  abbrev left : ℕ → ℕ → World → ℕ
  left submitted_at attempts w =
      (b.min_polls - attempts) + (submitted_at + b.deadline_ms + 1 - env.clock w.trace) + 1

  -- A read that leaves the budget unspent leaves fewer reads.
  fewer :
      (submitted_at attempts fuel before time after : ℕ)
      → (b.min_polls - attempts) + (submitted_at + b.deadline_ms + 1 - before) + 1 ≤ suc fuel
      → before ≤ time
      → time + 1 ≤ after
      → is_spent b (attempts + 1) (elapsed_ms time submitted_at) ≡ false
      → (b.min_polls - (attempts + 1)) + (submitted_at + b.deadline_ms + 1 - after) + 1 ≤ fuel
  fewer submitted_at attempts fuel before time after h forward slept more = ground arith

  poll-IsAnswered :
      (fuel submitted_at attempts : ℕ) (read_ok : Bool) (w : World)
      → left submitted_at attempts w ≤ fuel
      → IsAnswered (poll fuel env resolve b order submitted_at attempts read_ok w).0
  unfolding poll ask ◌>>=◌
  poll-IsAnswered zero submitted_at attempts read_ok w h =
      (let no : ⊥ = omega (arith, h) in elim no [ ])
  poll-IsAnswered (suc fuel) submitted_at attempts read_ok w h =
      let answer = (resolve order w).0 in
      let w' = (resolve order w).1 in
      let now_at = waited env read_clock w' in
      let next_at = waited env sleep now_at in
      let read = if is_read answer then true else read_ok in
      let time = env.clock now_at.trace in
      let again = poll-IsAnswered fuel submitted_at (attempts + 1) read next_at in
      either_IsAnswered (is_resolved answer) _ _ w' (confirmed, refl)
        (spent_IsAnswered (is_spent b (attempts + 1) (elapsed_ms time submitted_at)) _ _ now_at
          (given_up read, refl)
          (λ more. again (
            fewer submitted_at attempts fuel (env.clock w.trace) time (env.clock next_at.trace) h
              (omega (arith, ticks.read_forward order w, ticks.forward read_clock w'.trace))
              (ticks.slept now_at.trace) more)))

-- The loop of the burst answers: confirmed, pending or unknown. The clock never goes back, and a sleep
-- moves it on by a millisecond at least; the reads may raise, and may never resolve the order.
pub recover_handle_answers :
    (env : Env) (resolve : HandleResolver)
    → IsTicking env resolve
    → (b : Budget) (order : String) (submitted_at : ℕ) (w : World)
    → (h : HandleResolution) × ((recover_handle env resolve b order submitted_at w).0 ≡ ok h)
unfolding recover_handle
recover_handle_answers env resolve ticks b order submitted_at w =
    poll-IsAnswered env resolve ticks b order (enough b submitted_at) submitted_at 0 false w
      (omega arith)
