-- ===== src/Adapters/Session.antt =====
-- adapters/session.py: the circuit breaker of a broker session.
pub mod Trips
use quant_execution_engine.Prelude.{ℕ, ◌+◌, Bool, leb, if◌then◌else◌}
use quant_execution_engine.Contracts.Errors.{Result, Done, ok, err, broker_circuit_open}

pub data BreakerState : Type 0 where
  closed open_circuit half_open : BreakerState

pub record SessionCircuitBreaker : Type 0 where
  pub failure_threshold : ℕ
  pub consecutive_failures : ℕ
  pub state : BreakerState

unfoldable pub new_breaker : ℕ → SessionCircuitBreaker
new_breaker threshold = record {
  failure_threshold = threshold;
  consecutive_failures = 0;
  state = closed;
}

unfoldable pub record_success : SessionCircuitBreaker → SessionCircuitBreaker
record_success b = record b { consecutive_failures = 0; state = closed }

unfoldable pub record_failure : SessionCircuitBreaker → SessionCircuitBreaker
record_failure b =
    let failures = b.consecutive_failures + 1 in
    if leb b.failure_threshold failures
    then record b { consecutive_failures = failures; state = open_circuit }
    else record b { consecutive_failures = failures }

guard_state : BreakerState → Result Done
guard_state open_circuit = err broker_circuit_open
guard_state _ = ok tt

unfoldable pub guard : SessionCircuitBreaker → Result Done
unfolding guard_state
guard b = guard_state b.state
