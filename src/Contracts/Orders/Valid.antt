-- ===== src/Contracts/Orders/Valid.antt =====
-- What it takes for an order to pass the validation of contracts/orders.py.
use quant_execution_engine.Prelude.{
  ◌≡◌, ◌↔◌, refl, Bool, true, false, ◌&&◌, ◌||◌, not, Option, none, some, String, arith, ltb,
  is_empty, ℕ, zero, suc,
}
use quant_execution_engine.Prelude.Decimal.{Decimal, is_positive}
use quant_execution_engine.Contracts.Enums.{Market, OrderType, PositionEffect}
use quant_execution_engine.Contracts.Errors.{ok}
use quant_execution_engine.Contracts.Orders.{
  NormalizedOrder, is_some, is_priced, is_stop, is_iceberg, not_positive, display_rule, effect_rule,
  cross_field_rules, is_zero_qty, field_rules, validate,
}

-- A price that is absent or above zero.
abbrev pub is_price : Option Decimal → Bool
is_price none = true
is_price (some d) = is_positive d

-- Iceberg orders alone show a quantity, from 1 to the whole.
abbrev pub is_display : OrderType → ℕ → Option ℕ → Bool
is_display t quantity none = not (is_iceberg t)
is_display t quantity (some d) = is_iceberg t && ltb 0 d && not (ltb quantity d)

-- TFEX orders alone have a position effect.
abbrev pub is_effect : Market → Option PositionEffect → Bool
is_effect Market.tfex (some e) = true
is_effect Market.set none = true
is_effect _ _ = false

pub record IsValid (is_uuid4 : String → Bool) (o : NormalizedOrder) : Type 0 where
  pub id : is_uuid4 o.client_order_id ≡ true
  pub account : not (is_empty o.account) ≡ true
  pub symbol : not (is_empty o.symbol) ≡ true
  pub quantity : ltb 0 o.quantity ≡ true
  pub price : is_price o.price ≡ true
  pub stop_price : is_price o.stop_price ≡ true
  pub priced : (is_some o.price || not (is_priced o.order_type)) ≡ true
  pub stopped : (is_some o.stop_price || not (is_stop o.order_type)) ≡ true
  pub display : is_display o.order_type o.quantity o.display_qty ≡ true
  pub effect : is_effect o.market o.position_effect ≡ true

field_iff :
    (o : NormalizedOrder)
    → (field_rules o ≡ ok tt) ↔ (
        (not (is_empty o.account)
          && not (is_empty o.symbol)
          && ltb 0 o.quantity
          && not (is_zero_qty o.display_qty))
        ≡ true)
unfolding field_rules
field_iff o = ground arith

cross_iff :
    (o : NormalizedOrder)
    → (cross_field_rules o ≡ ok tt) ↔ (
        ((not (not_positive o.price)
            && not (not_positive o.stop_price)
            && (is_some o.price || not (is_priced o.order_type))
            && (is_some o.stop_price || not (is_stop o.order_type)))
          ≡ true)
        × (display_rule o.order_type o.quantity o.display_qty ≡ ok tt)
        × (effect_rule o.market o.position_effect ≡ ok tt))
unfolding cross_field_rules
cross_iff o = ground arith

price_lem : (p : Option Decimal) → not (not_positive p) ≡ is_price p
unfolding not_positive
price_lem none = refl
price_lem (some d) = ground arith

display_iff :
    (t : OrderType) (quantity : ℕ) (d : Option ℕ)
    → ((not (is_zero_qty d) ≡ true) × (display_rule t quantity d ≡ ok tt))
      ↔ (is_display t quantity d ≡ true)
unfolding is_zero_qty display_rule
display_iff t quantity none = ground arith
display_iff t quantity (some zero) = ground arith
display_iff t quantity (some (suc d)) = ground arith

effect_iff :
    (m : Market) (e : Option PositionEffect) → (effect_rule m e ≡ ok tt) ↔ (is_effect m e ≡ true)
unfolding effect_rule
effect_iff m e = ground arith

rules_iff :
    (is_uuid4 : String → Bool) (o : NormalizedOrder)
    → (validate is_uuid4 o ≡ ok o) ↔ (
        (is_uuid4 o.client_order_id ≡ true)
        × (field_rules o ≡ ok tt)
        × (cross_field_rules o ≡ ok tt))
unfolding validate
rules_iff is_uuid4 o = ground arith

module _ (is_uuid4 : String → Bool) (o : NormalizedOrder) where
  pub validate-IsValid : validate is_uuid4 o ≡ ok o → IsValid is_uuid4 o
  validate-IsValid h =
      let (id, fields, cross) = (rules_iff is_uuid4 o).0 h in
      let texts = (field_iff o).0 fields in
      let (rules, display, effect) = (cross_iff o).0 cross in
      let price = price_lem o.price in
      let stop_price = price_lem o.stop_price in
      record {
        id = id;
        account = ground (arith, texts);
        symbol = ground (arith, texts);
        quantity = ground (arith, texts);
        price = ground (arith, rules, price);
        stop_price = ground (arith, rules, stop_price);
        priced = ground (arith, rules);
        stopped = ground (arith, rules);
        display =
            (display_iff o.order_type o.quantity o.display_qty).0 (ground (arith, texts), display);
        effect = (effect_iff o.market o.position_effect).0 effect;
      }

  pub IsValid-validate : IsValid is_uuid4 o → validate is_uuid4 o ≡ ok o
  IsValid-validate v =
      let (shown, display) = (display_iff o.order_type o.quantity o.display_qty).1 v.display in
      let price = price_lem o.price in
      let stop_price = price_lem o.stop_price in
      (rules_iff is_uuid4 o).1 (
        v.id,
        (field_iff o).1 (ground (arith, v.account, v.symbol, v.quantity, shown)),
        (cross_iff o).1 (
          ground (arith, v.price, v.stop_price, v.priced, v.stopped, price, stop_price),
          display,
          (effect_iff o.market o.position_effect).1 v.effect,
        ),
      )
