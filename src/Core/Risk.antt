-- ===== src/Core/Risk.antt =====
-- core/risk.py: the pre-trade caps, and cache/counters.py, which counts for two of them.
pub mod Caps
pub mod Calls
use quant_execution_engine.Prelude.{
  ℕ, zero, ◌/◌, Bool, true, false, ◌&&◌, List, [], ◌∷◌, Option, none, some, String, ltb, ◌==◌,
  same_text, if◌then◌else◌,
}
use quant_execution_engine.Prelude.Decimal.{Decimal, ltb_dec, times}
use quant_execution_engine.Config.{Settings}
use quant_execution_engine.Contracts.Enums.{Stage, micro_live, live}
use quant_execution_engine.Contracts.Errors.{
  Result, Done, ok, err, risk_rejected, Cap, max_order_qty, account_max_qty, max_order_value,
  account_max_notional, rate_limit, risk_backend_down, duplicate_burst_detected,
}
use quant_execution_engine.Contracts.Orders.{NormalizedOrder}
use quant_execution_engine.Core.World.{
  Node, Env, Action, pure, raise, lift, ask, now, Counter, rate, burst, incr, expire, Fingerprint,
  ◌>>=◌, ◌>>◌,
}

-- `caps.get(account, default)`
unfoldable pub cap_for {ℓ} : {A : Type ℓ} → String → List (String × A) → A → A
cap_for account [] default = default
cap_for account ((name, limit) ∷ rest) default =
    if same_text account name then limit else cap_for account rest default

-- `account in caps`
unfoldable pub has_cap {ℓ} : {A : Type ℓ} → String → List (String × A) → Bool
has_cap account [] = false
has_cap account ((name, limit) ∷ rest) =
    if same_text account name then true else has_cap account rest

unfoldable pub check_quantity : Settings → NormalizedOrder → Result Done
check_quantity s o =
    if ltb (cap_for o.account s.account_max_qty s.risk_max_order_qty) o.quantity
    then err (
        risk_rejected
          (if has_cap o.account s.account_max_qty then account_max_qty else max_order_qty))
    else ok tt

-- The basis of the notional: the price, else the stop price.
abbrev pub basis_of : Option Decimal → Option Decimal → Option Decimal
basis_of none stop = stop
basis_of (some p) stop = some p

abbrev pub basis : NormalizedOrder → Option Decimal
basis o = basis_of o.price o.stop_price

unfoldable pub notional_of : Settings → NormalizedOrder → Option Decimal → Result Done
notional_of s o none = ok tt
notional_of s o (some price) =
    if ltb_dec (cap_for o.account s.account_max_notional s.risk_max_order_value)
      (times price o.quantity)
    then err (
        risk_rejected (
          if has_cap o.account s.account_max_notional
          then account_max_notional
          else max_order_value))
    else ok tt

unfoldable pub check_notional : Settings → NormalizedOrder → Result Done
unfolding notional_of
check_notional s o = notional_of s o (basis o)

-- `stage in _LIVE_STAGES`
abbrev pub is_live : Stage → Bool
is_live micro_live = true
is_live live = true
is_live _ = false

unfoldable pub risk_backend_down_check : Settings → Action Done
risk_backend_down_check s =
    if is_live s.stage then raise (risk_rejected risk_backend_down) else pure tt

abbrev armed : Bool → Option ℕ → Option ℕ
armed true count = count
armed false count = none

unfoldable pub counted : Env → Counter → Option ℕ → Action (Option ℕ)
counted env counter none = pure none
counted env counter (some count) =
    if count == 1
    then (do done ← ask env (expire counter) (env.set_ttl counter); pure (armed done (some count)))
    else pure (some count)

-- `incr_with_ttl`: the new count, or `none` where a call raises.
unfoldable pub incr_with_ttl : Env → Counter → Action (Option ℕ)
unfolding counted
incr_with_ttl env counter = do
  count ← ask env (incr counter) (env.count counter)
  counted env counter count

unfoldable pub fingerprint : NormalizedOrder → Fingerprint
fingerprint o = record {
  account = o.account;
  symbol = o.symbol;
  side = o.side;
  quantity = o.quantity;
  order_type = o.order_type;
  price = o.price;
}

abbrev both : ℕ → Option ℕ → Option (ℕ × ℕ)
both per_second none = none
both per_second (some same) = some (per_second, same)

-- The two counts, in order; a raise in the first leaves the second out.
unfoldable pub count_burst : Node → NormalizedOrder → Option ℕ → Action (Option (ℕ × ℕ))
count_burst node o none = pure none
count_burst node o (some per_second) =
    if node.settings.duplicate_burst_guard_enabled
    then (do
      same ← incr_with_ttl node.env (burst (node.env.digest (fingerprint o)))
      pure (both per_second same))
    else pure (some (per_second, 0))

unfoldable pub throttle : Settings → ℕ → ℕ → Result Done
throttle s per_second same =
    if ltb s.risk_max_orders_per_second per_second
    then err (risk_rejected rate_limit)
    else if s.duplicate_burst_guard_enabled && ltb 1 same
    then err duplicate_burst_detected
    else ok tt

unfoldable pub judge : Settings → Option (ℕ × ℕ) → Action Done
judge s none = risk_backend_down_check s
judge s (some (per_second, same)) = lift (throttle s per_second same)

unfoldable pub windowed_checks : Node → NormalizedOrder → Action Done
unfolding count_burst judge
windowed_checks node o =
    if node.env.redis_configured
    then (do
      time ← now node.env
      per_second ← incr_with_ttl node.env (rate (time / 1000))
      counts ← count_burst node o per_second
      judge node.settings counts)
    else risk_backend_down_check node.settings

unfoldable pub check : Node → NormalizedOrder → Action Done
check node o = do
  lift (check_quantity node.settings o)
  lift (check_notional node.settings o)
  windowed_checks node o
