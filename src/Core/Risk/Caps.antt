-- ===== src/Core/Risk/Caps.antt =====
-- What an order has been through that core/risk.py lets pass.
use quant_execution_engine.Prelude.{
  ℕ, ◌/◌, ◌≤◌, ◌≡◌, refl, ap, Bool, true, false, Option, none, some, arith, if◌then◌else◌,
}
use quant_execution_engine.Prelude.Decimal.{Decimal, ltb_dec, times}
use quant_execution_engine.Config.{Settings}
use quant_execution_engine.Contracts.Errors.{Done, ok}
use quant_execution_engine.Contracts.Orders.{NormalizedOrder}
use quant_execution_engine.Core.Risk.{
  cap_for, check_quantity, check_notional, notional_of, basis, is_live, risk_backend_down_check,
  incr_with_ttl, fingerprint, both, count_burst, throttle, judge, windowed_checks, check,
}
use quant_execution_engine.Core.World.{
  Node, World, Action, rate, burst, read_clock, ask, waited, pure, lift, ◌>>=◌,
}
use quant_execution_engine.Core.World.Inverse.{bind_ok}

quantity_within :
    (s : Settings) (o : NormalizedOrder) (x : Done)
    → check_quantity s o ≡ ok x
    → o.quantity ≤ cap_for o.account s.account_max_qty s.risk_max_order_qty
unfolding check_quantity
quantity_within s o x h = ground arith

notional_within :
    (s : Settings) (o : NormalizedOrder) (x : Done) (price : Decimal)
    → check_notional s o ≡ ok x
    → basis o ≡ some price
    → ltb_dec
        (cap_for o.account s.account_max_notional s.risk_max_order_value)
        (times price o.quantity)
      ≡ false
unfolding check_notional notional_of
notional_within s o x price h e = ground (arith, e)

-- The counters of the gate as it starts in a world: Redis is configured and answers for each of them,
-- and no count is above its cap.
abbrev pub IsCounted : Node → NormalizedOrder → World → Type 0
IsCounted node o w =
    let s = node.settings in
    let env = node.env in
    let started = waited env read_clock w in
    let per_second = incr_with_ttl env (rate (env.clock started.trace / 1000)) started in
    (env.redis_configured ≡ true)
    × ((n : ℕ) × (per_second.0 ≡ ok (some n)) × (n ≤ s.risk_max_orders_per_second))
    × (s.duplicate_burst_guard_enabled ≡ true
        → (n : ℕ) × ((incr_with_ttl env (burst (env.digest (fingerprint o))) per_second.1).0
            ≡ ok (some n))
          × (n ≤ 1))

throttle_within :
    (s : Settings) (n same : ℕ) (x : Done)
    → throttle s n same ≡ ok x
    → (n ≤ s.risk_max_orders_per_second) × (s.duplicate_burst_guard_enabled ≡ true → same ≤ 1)
unfolding throttle
throttle_within s n same x h = (ground (arith, h), λ e. ground (arith, h, e))

judged :
    (s : Settings) (counts : Option (ℕ × ℕ)) (w : World) (x : Done)
    → is_live s.stage ≡ true
    → (judge s counts w).0 ≡ ok x
    → (n : ℕ) × (same : ℕ) × (counts ≡ some (n, same)) × (throttle s n same ≡ ok x)
unfolding judge risk_backend_down_check
judged s none w x live h = ground (arith, live, h)
judged s (some (n, same)) w x live h = (n, same, refl, h)

both_of :
    (k n same : ℕ) (count : Option ℕ)
    → both k count ≡ some (n, same)
    → (k ≡ n) × (count ≡ some same)
both_of k n same none h = cc
both_of k n same (some m) h = (cc, cc)

burst_of :
    (node : Node) (o : NormalizedOrder) (k : ℕ) (w : World) (n same : ℕ) (guarded : Bool)
    → let counter = burst (node.env.digest (fingerprint o)) in
      let counted : Action (Option (ℕ × ℕ)) =
        if guarded
        then incr_with_ttl node.env counter >>= (λ m. pure (both k m))
        else pure (some (k, 0)) in
      (counted w).0 ≡ ok (some (n, same))
      → (some k ≡ some n) × (guarded ≡ true → (incr_with_ttl node.env counter w).0 ≡ ok (some same))
burst_of node o k w n same false h = (cc, λ e. cc)
burst_of node o k w n same true h =
    let (m, answer, h1) =
      bind_ok (incr_with_ttl node.env (burst (node.env.digest (fingerprint o)))) _ w
        (some (n, same)) h in
    let made : both k m ≡ some (n, same) = cc in
    let (e, e') = both_of k n same m made in (ap some e, λ g. rw e' at answer)

counts_of :
    (node : Node) (o : NormalizedOrder) (per_second : Option ℕ) (w : World) (n same : ℕ)
    → (count_burst node o per_second w).0 ≡ ok (some (n, same))
    → (per_second ≡ some n)
      × (node.settings.duplicate_burst_guard_enabled ≡ true
          → (incr_with_ttl node.env (burst (node.env.digest (fingerprint o))) w).0 ≡ ok (some same))
unfolding count_burst
counts_of node o none w n same h = cc
counts_of node o (some k) w n same h =
    burst_of node o k w n same node.settings.duplicate_burst_guard_enabled h

configured :
    (s : Settings) (up : Bool) (m : Action Done) (w : World) (x : Done)
    → is_live s.stage ≡ true
    → ((if up then m else risk_backend_down_check s) w).0 ≡ ok x
    → (up ≡ true) × ((m w).0 ≡ ok x)
unfolding risk_backend_down_check
configured s true m w x live h = (refl, h)
configured s false m w x live h = ground (arith, live, h)

windowed_checks-IsCounted :
    (node : Node) (o : NormalizedOrder) (w : World) (x : Done)
    → is_live node.settings.stage ≡ true
    → (windowed_checks node o w).0 ≡ ok x
    → IsCounted node o w
unfolding windowed_checks ask ◌>>=◌
windowed_checks-IsCounted node o w x live h =
    let env = node.env in
    let (up, h1) = configured node.settings env.redis_configured _ w x live h in
    let started = waited env read_clock w in
    let counter = rate (env.clock started.trace / 1000) in
    let (per_second, answer, h2) = bind_ok (incr_with_ttl env counter) _ started x h1 in
    let after = (incr_with_ttl env counter started).1 in
    let (counts, burst_answer, h3) = bind_ok (count_burst node o per_second) _ after x h2 in
    let (n, same, e, passed) =
      judged node.settings counts (count_burst node o per_second after).1 x live h3 in
    let (first, second) = counts_of node o per_second after n same (rw e at burst_answer) in
    let (rate_within, same_within) = throttle_within node.settings n same x passed in
    (up, (n, rw first at answer, rate_within), (λ g. (same, second g, same_within g)))

-- An order that `check` lets pass keeps within the account's quantity cap, or the default one where
-- the account has none; its price or else its stop price, times its quantity, does not exceed the
-- value cap so found; and at the stages `micro_live` and `live` Redis is configured and has answered
-- with a count of the orders of this second, which is within its cap, and, where that guard is on,
-- with a count of the same order in the burst window, which is at most 1.
pub check_passed :
    (node : Node) (o : NormalizedOrder) (w : World) (x : Done)
    → (check node o w).0 ≡ ok x
    → (o.quantity
        ≤ cap_for o.account node.settings.account_max_qty node.settings.risk_max_order_qty)
      × ((price : Decimal)
          → basis o ≡ some price
          → ltb_dec
              (cap_for o.account node.settings.account_max_notional
                node.settings.risk_max_order_value)
              (times price o.quantity)
            ≡ false)
      × (is_live node.settings.stage ≡ true → IsCounted node o w)
unfolding check
check_passed node o w x h =
    let (a, q, h1) = bind_ok (lift (check_quantity node.settings o)) _ w x h in
    let (b, n, h2) = bind_ok (lift (check_notional node.settings o)) _ w x h1 in
    (
      quantity_within node.settings o a q,
      (λ price e. notional_within node.settings o b price n e),
      (λ live. windowed_checks-IsCounted node o w x live h2),
    )
