-- ===== src/Adapters/Session/Trips.antt =====
-- When the breaker of adapters/session.py refuses: counted over the whole history of a session.
use quant_execution_engine.Prelude.{
  ℕ, ◌+◌, ◌≤◌, ◌<◌, ◌≡◌, ◌↔◌, refl, arith, List, [], ◌∷◌, leb, if◌then◌else◌,
}
use quant_execution_engine.Contracts.Errors.{ok, err, broker_circuit_open}
use quant_execution_engine.Adapters.Session.{
  SessionCircuitBreaker, closed, open_circuit, new_breaker, record_success, record_failure, guard,
}

pub data Beat : Type 0 where
  success failure : Beat

beat : Beat → SessionCircuitBreaker → SessionCircuitBreaker
beat success b = record_success b
beat failure b = record_failure b

-- The beats in the order of their arrival.
pub run_beats : List Beat → SessionCircuitBreaker → SessionCircuitBreaker
run_beats [] b = b
run_beats (x ∷ xs) b = run_beats xs (beat x b)

-- The failures since the last success, and `n` more if there was none.
abbrev pub trailing : ℕ → List Beat → ℕ
trailing n [] = n
trailing n (success ∷ xs) = trailing 0 xs
trailing n (failure ∷ xs) = trailing (n + 1) xs

abbrev Agrees : ℕ → SessionCircuitBreaker → Type 0
Agrees threshold b =
    (b.failure_threshold ≡ threshold)
    × (b.state ≡ (if leb threshold b.consecutive_failures then open_circuit else closed))

run_beats-trailing :
    (threshold : ℕ) (xs : List Beat) (b : SessionCircuitBreaker)
    → 0 < threshold
    → Agrees threshold b
    → Agrees threshold (run_beats xs b)
      × ((run_beats xs b).consecutive_failures ≡ trailing b.consecutive_failures xs)
unfolding run_beats beat record_success record_failure
run_beats-trailing threshold [] b p a = (a, refl)
run_beats-trailing threshold (success ∷ xs) b p a =
    run_beats-trailing threshold xs (record_success b) p (ground arith)
run_beats-trailing threshold (failure ∷ xs) b p a =
    ground (arith, run_beats-trailing threshold xs (record_failure b))

-- After any history of heartbeats the breaker refuses exactly if the failures since the last
-- success have reached the threshold; otherwise it lets the request through.
pub guard_refuses_iff :
    (threshold : ℕ) (xs : List Beat)
    → 0 < threshold
    → ((guard (run_beats xs (new_breaker threshold)) ≡ err broker_circuit_open)
        ↔ (threshold ≤ trailing 0 xs))
      × ((guard (run_beats xs (new_breaker threshold)) ≡ ok tt) ↔ (trailing 0 xs < threshold))
unfolding guard new_breaker
guard_refuses_iff threshold xs p =
    let (a, c) = run_beats-trailing threshold xs (new_breaker threshold) p (ground arith) in
    (
      ((λ h. ground (arith, a, c)), (λ h. ground (arith, a, c))),
      ((λ h. ground (arith, a, c)), (λ h. ground (arith, a, c))),
    )
