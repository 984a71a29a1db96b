-- ===== src/Contracts/Orders.antt =====
-- contracts/orders.py: `NormalizedOrder`, its validation and `NormalizedOrderResult`.
pub mod Valid
use quant_execution_engine.Prelude.{
  ℕ, zero, Bool, true, false, ◌&&◌, not, Option, none, some, String, ltb, is_empty, ℤ, List,
}
use quant_execution_engine.Prelude.Decimal.{Decimal, is_positive}
use quant_execution_engine.Contracts.Enums.{
  Broker, Market, Side, OrderType, Tif, PositionEffect, OrderState, PublicOrderStatus,
}
use quant_execution_engine.Contracts.Errors.{
  Result, Done, ok, err, validation_failed, raise_if, ◌>>◌,
}

-- The `metadata` keys that the source reads, the control channel of the sim adapter: `sim_reject`
-- as text, and `sim_fills`, which is absent, a list of positive integers, or something else.
pub data SimFills : Type 0 where
  absent invalid : SimFills
  plan : List ℕ → SimFills

pub record NormalizedOrder : Type 0 where
  pub client_order_id : String
  pub broker : Broker
  pub account : String
  pub market : Market
  pub symbol : String
  pub side : Side
  pub order_type : OrderType
  pub price : Option Decimal
  pub stop_price : Option Decimal
  pub quantity : ℕ
  pub display_qty : Option ℕ
  pub tif : Tif
  pub position_effect : Option PositionEffect
  pub sim_reject : Option String
  pub sim_fills : SimFills

-- `x is not None`
abbrev pub is_some {ℓ} : {A : Type ℓ} → Option A → Bool
is_some none = false
is_some (some _) = true

-- `_PRICED_TYPES` and `_STOP_TYPES`
abbrev pub is_priced : OrderType → Bool
is_priced OrderType.limit = true
is_priced OrderType.stop_limit = true
is_priced _ = false

abbrev pub is_stop : OrderType → Bool
is_stop OrderType.stop = true
is_stop OrderType.stop_limit = true
is_stop _ = false

abbrev pub is_iceberg : OrderType → Bool
is_iceberg OrderType.iceberg = true
is_iceberg _ = false

-- `x is not None and x <= 0`
not_positive : Option Decimal → Bool
not_positive none = false
not_positive (some d) = not (is_positive d)

display_rule : OrderType → ℕ → Option ℕ → Result Done
display_rule t quantity none = raise_if (is_iceberg t) validation_failed
display_rule t quantity (some d) = do
  raise_if (not (is_iceberg t)) validation_failed
  raise_if (ltb quantity d) validation_failed

effect_rule : Market → Option PositionEffect → Result Done
effect_rule Market.tfex none = err validation_failed
effect_rule Market.set (some e) = err validation_failed
effect_rule _ _ = ok tt

-- `_cross_field_rules`
cross_field_rules : NormalizedOrder → Result Done
unfolding not_positive display_rule effect_rule
cross_field_rules o = do
  raise_if (not_positive o.price) validation_failed
  raise_if (not_positive o.stop_price) validation_failed
  raise_if (is_priced o.order_type && not (is_some o.price)) validation_failed
  raise_if (is_stop o.order_type && not (is_some o.stop_price)) validation_failed
  display_rule o.order_type o.quantity o.display_qty
  effect_rule o.market o.position_effect

is_zero_qty : Option ℕ → Bool
is_zero_qty (some zero) = true
is_zero_qty _ = false

-- The `Field` constraints: `min_length=1` on account and symbol, `gt=0` on the quantities.
field_rules : NormalizedOrder → Result Done
unfolding is_zero_qty
field_rules o = do
  raise_if (is_empty o.account) validation_failed
  raise_if (is_empty o.symbol) validation_failed
  raise_if (not (ltb 0 o.quantity)) validation_failed
  raise_if (is_zero_qty o.display_qty) validation_failed

-- Building a `NormalizedOrder`. `is_uuid4` is `uuid.UUID(value).version == 4` of the library.
unfoldable pub validate : (String → Bool) → NormalizedOrder → Result NormalizedOrder
unfolding field_rules cross_field_rules
validate is_uuid4 o = do
  raise_if (not (is_uuid4 o.client_order_id)) validation_failed
  field_rules o
  cross_field_rules o
  ok o

pub record NormalizedOrderResult : Type 0 where
  pub client_order_id : String
  pub broker_order_id : Option String
  pub broker : Broker
  pub status : PublicOrderStatus
  pub engine_state : OrderState
  pub filled_qty : ℕ
  pub remaining_qty : ℤ
  pub reject_reason : Option String
