-- ===== src/Core/Risk/Calls.antt =====
-- The calls that core/risk.py makes: none of them places or stores an order.
use quant_execution_engine.Prelude.{refl, ℕ, Option, none, some, ◌/◌, ◌==◌}
use quant_execution_engine.Contracts.Errors.{risk_rejected, risk_backend_down}
use quant_execution_engine.Contracts.Orders.{NormalizedOrder}
use quant_execution_engine.Core.Risk.{
  incr_with_ttl, counted, count_burst, judge, risk_backend_down_check, windowed_checks, check,
  check_quantity, check_notional, is_live, throttle, fingerprint, both,
}
use quant_execution_engine.Core.World.{
  Node, Env, pure, raise, lift, ask, now, read_clock, Counter, rate, burst, incr, expire,
}
use quant_execution_engine.Core.World.Quiet.{
  Watched, IsFair, Safe, Safe-ask, Safe-pure, Safe-lift, Safe-bind, Safe-if,
}

module _ (env : Env) (fair : IsFair env) (watch : Watched) where
  counted-Safe : (counter : Counter) (count : Option ℕ) → Safe watch (counted env counter count)
  unfolding counted
  counted-Safe counter none = λ w v. v
  counted-Safe counter (some n) =
      Safe-if watch (n == 1) _ (pure (some n))
        (Safe-bind watch (ask env (expire counter) (env.set_ttl counter)) _
          (Safe-ask env fair watch (expire counter) (env.set_ttl counter) refl) (λ done w v. v))
        (Safe-pure watch (some n))

  incr_with_ttl-Safe : (counter : Counter) → Safe watch (incr_with_ttl env counter)
  unfolding incr_with_ttl
  incr_with_ttl-Safe counter =
      Safe-bind watch (ask env (incr counter) (env.count counter)) (counted env counter)
        (Safe-ask env fair watch (incr counter) (env.count counter) refl) (counted-Safe counter)

module _ (node : Node) (fair : IsFair node.env) (watch : Watched) where
  backend_down-Safe : Safe watch (risk_backend_down_check node.settings)
  unfolding risk_backend_down_check
  backend_down-Safe =
      Safe-if watch (is_live node.settings.stage) (raise (risk_rejected risk_backend_down))
        (pure tt) (λ w v. v) (λ w v. v)

  count_burst-Safe :
      (o : NormalizedOrder) (per_second : Option ℕ) → Safe watch (count_burst node o per_second)
  unfolding count_burst
  count_burst-Safe o none = λ w v. v
  count_burst-Safe o (some n) =
      let counter = burst (node.env.digest (fingerprint o)) in
      Safe-if watch node.settings.duplicate_burst_guard_enabled _ (pure (some (n, 0)))
        (Safe-bind watch (incr_with_ttl node.env counter) (λ same. pure (both n same))
          (incr_with_ttl-Safe node.env fair watch counter) (λ same w v. v))
        (λ w v. v)

  judge-Safe : (counts : Option (ℕ × ℕ)) → Safe watch (judge node.settings counts)
  unfolding judge
  judge-Safe none = backend_down-Safe
  judge-Safe (some (n, same)) = Safe-lift watch (throttle node.settings n same)

  windowed_checks-Safe : (o : NormalizedOrder) → Safe watch (windowed_checks node o)
  unfolding windowed_checks
  windowed_checks-Safe o =
      Safe-if watch node.env.redis_configured _ (risk_backend_down_check node.settings)
        (Safe-bind watch (now node.env) _
          (Safe-ask node.env fair watch read_clock node.env.clock refl)
          (λ time.
            Safe-bind watch (incr_with_ttl node.env (rate (time / 1000))) _
              (incr_with_ttl-Safe node.env fair watch (rate (time / 1000)))
              (λ n.
                Safe-bind watch (count_burst node o n) (judge node.settings) (count_burst-Safe o n)
                  judge-Safe)))
        backend_down-Safe

  pub check-Safe : (o : NormalizedOrder) → Safe watch (check node o)
  unfolding check
  check-Safe o =
      Safe-bind watch (lift (check_quantity node.settings o)) _
        (Safe-lift watch (check_quantity node.settings o))
        (λ _.
          Safe-bind watch (lift (check_notional node.settings o)) _
            (Safe-lift watch (check_notional node.settings o)) (λ _. windowed_checks-Safe o))
