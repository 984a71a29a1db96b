-- ===== src/Core/HandleRecovery.antt =====
-- core/handle_recovery.py: the bounded burst of venue reads after a placement whose ack carried no
-- handle. Times are milliseconds; the source divides them by 1000 and compares floats.
pub mod Bounded
pub mod Answers
pub mod Reads
use quant_execution_engine.Prelude.{
  ℕ, zero, suc, ◌+◌, ◌-◌, ◌/◌, Bool, true, false, ◌&&◌, String, ltb, leb, if◌then◌else◌,
}
use quant_execution_engine.Contracts.Enums.{HandleResolution, confirmed, pending, unknown}
use quant_execution_engine.Contracts.Errors.{Result, ok, err, out_of_fuel}
use quant_execution_engine.Core.World.{
  Env, Action, World, pure, raise, pause, now, sleep, ◌>>=◌, ◌>>◌,
}

-- One venue read for one order: resolved or not yet, or a raise where the venue could not be read.
abbrev pub HandleResolver : Type 0
HandleResolver = String → Action Bool

-- A call under `except Exception`: its result as a value.
abbrev pub caught {ℓ} : {A : Type ℓ} → Action A → World → Result (Result A) × World
caught m w = let (r, w') = m w in (ok r, w')

abbrev pub is_read : Result Bool → Bool
is_read (ok _) = true
is_read (err _) = false

abbrev is_resolved : Result Bool → Bool
is_resolved (ok resolved) = resolved
is_resolved (err _) = false

pub record Budget : Type 0 where
  pub cadence_ms : ℕ
  pub deadline_ms : ℕ
  pub min_polls : ℕ

-- The floor before the ceiling: `attempts >= min_polls and elapsed + cadence > deadline`.
-- `_elapsed_ms`: clamped at 0, as the subtraction of natural numbers is.
abbrev pub elapsed_ms : ℕ → ℕ → ℕ
elapsed_ms time submitted_at = time - submitted_at

abbrev pub is_spent : Budget → ℕ → ℕ → Bool
is_spent b attempts elapsed = leb b.min_polls attempts && ltb b.deadline_ms (elapsed + b.cadence_ms)

abbrev pub given_up : Bool → HandleResolution
given_up true = pending
given_up false = unknown

-- The loop, after `attempts` reads, of which some succeeded if `read_ok`. The fuel bounds the
-- reads; running out of it is an error of the model alone.
poll : ℕ → Env → HandleResolver → Budget → String → ℕ → ℕ → Bool → Action HandleResolution
poll zero env resolve b cid submitted_at attempts read_ok = raise out_of_fuel
poll (suc fuel) env resolve b cid submitted_at attempts read_ok = do
  answer ← caught (resolve cid)
  if is_resolved answer then pure confirmed else do
    time ← now env
    elim (is_spent b (attempts + 1) (elapsed_ms time submitted_at)) [
      | true ↦ pure (given_up (if is_read answer then true else read_ok))
      | false ↦ do
        pause env sleep
        poll fuel env resolve b cid submitted_at (attempts + 1)
            (if is_read answer then true else read_ok)
    ]

-- Enough reads for any clock that moves on at each sleep.
abbrev pub enough : Budget → ℕ → ℕ
enough b submitted_at = b.min_polls + b.deadline_ms + submitted_at + 2

unfoldable pub recover_handle : Env → HandleResolver → Budget → String → ℕ → Action HandleResolution
unfolding poll
recover_handle env resolve b cid submitted_at =
    poll (enough b submitted_at) env resolve b cid submitted_at 0 false
