-- ===== src/Adapters/Liberator/Payloads/Rows.antt =====
-- An order that a venue row carries, as adapters/liberator/mapping.py reads it.
use quant_execution_engine.Prelude.{
  ℕ, ◌≡◌, refl, true, false, ◌||◌, not, Option, none, some, String, arith, is_empty,
}
use quant_execution_engine.Prelude.Decimal.{Decimal, is_positive}
use quant_execution_engine.Contracts.Enums.{Broker, OrderType}
use quant_execution_engine.Contracts.Orders.{NormalizedOrder, is_some, is_stop, absent}
use quant_execution_engine.Contracts.Orders.Valid.{IsValid, is_price, is_display, IsValid-validate}
use quant_execution_engine.Adapters.Liberator.Mapping.{VenueOrderItem, from_venue_side}
use quant_execution_engine.Adapters.Liberator.Payloads.{
  or_zero, read_as, stop_only, read_order, read_from, valid_or_none, read_type, read_tif,
  read_position, read_market, Ids, venue_item_to_normalized,
}
use quant_execution_engine.Adapters.Liberator.Payloads.Words.{
  on_wire, as_read, type_read, display_read,
}

-- A venue row that carries what an order says, at a price.
pub record Carries (o : NormalizedOrder) (price : Decimal) (item : VenueOrderItem) : Type 0 where
  pub account : item.account_no ≡ o.account
  pub symbol : item.symbol ≡ o.symbol
  pub volume : item.volume ≡ o.quantity
  pub side : from_venue_side item.side ≡ some o.side
  pub order_type : read_type item ≡ some (on_wire o.order_type)
  pub display : item.iceberg_vol ≡ or_zero o.display_qty
  pub tif : read_tif item ≡ o.tif
  pub effect : read_position item ≡ o.position_effect
  pub market : read_market item ≡ o.market
  pub price_sent : item.price ≡ some price
  pub stop_sent :
      stop_only (as_read o.order_type) item.stop_price
      ≡ stop_only (as_read o.order_type) o.stop_price

-- The order that such a row is read back as.
abbrev pub read_view : Ids → NormalizedOrder → Decimal → VenueOrderItem → NormalizedOrder
read_view ids o price item = record o {
  client_order_id = ids.synthetic item.order_no;
  broker = Broker.liberator;
  order_type = as_read o.order_type;
  price = some price;
  stop_price = stop_only (as_read o.order_type) o.stop_price;
  sim_reject = none;
  sim_fills = absent;
}

stop_price_valid :
    (t : OrderType) (p : Option Decimal)
    → is_price p ≡ true
    → is_price (stop_only (as_read t) p) ≡ true
stop_price_valid t p h = ground arith

stopped_valid :
    (t : OrderType) (p : Option Decimal)
    → (is_some p || not (is_stop t)) ≡ true
    → (is_some (stop_only (as_read t) p) || not (is_stop (as_read t))) ≡ true
stopped_valid t p h = ground arith

display_valid :
    (t : OrderType) (quantity : ℕ) (d : Option ℕ)
    → is_display t quantity d ≡ true
    → is_display (as_read t) quantity d ≡ true
display_valid t quantity none h = ground arith
display_valid t quantity (some d) h = ground arith

module _ (ids : Ids) (o : NormalizedOrder) (price : Decimal) (item : VenueOrderItem)
    (account : String) where
  view-IsValid :
      IsValid ids.is_uuid4 o
      → ids.is_uuid4 (ids.synthetic item.order_no) ≡ true
      → is_positive price ≡ true
      → IsValid ids.is_uuid4 (read_view ids o price item)
  view-IsValid v hashed positive = record {
    id = hashed;
    account = v.account;
    symbol = v.symbol;
    quantity = v.quantity;
    price = positive;
    stop_price = stop_price_valid o.order_type o.stop_price v.stop_price;
    priced = refl;
    stopped = stopped_valid o.order_type o.stop_price v.stopped;
    display = display_valid o.order_type o.quantity o.display_qty v.display;
    effect = v.effect;
  }

  order_read :
      IsValid ids.is_uuid4 o
      → Carries o price item
      → read_order ids item account o.side (read_as (on_wire o.order_type) item.iceberg_vol)
        ≡ read_view ids o price item
  unfolding read_order read_market read_tif read_position
  order_read v c =
      let named : is_empty o.account ≡ false = ground (arith, v.account) in
      let t = type_read o.order_type o.quantity o.display_qty v.display in
      let shown = display_read o.order_type o.quantity o.display_qty v.display in
      rw (
        c.account, named, c.market, c.symbol, c.display, t, c.price_sent, c.stop_sent, c.volume,
        shown, c.tif, c.effect,
      )

  pub read_lem :
      IsValid ids.is_uuid4 o
      → ids.is_uuid4 (ids.synthetic item.order_no) ≡ true
      → is_positive price ≡ true
      → Carries o price item
      → venue_item_to_normalized ids item account ≡ some (read_view ids o price item)
  unfolding venue_item_to_normalized read_from valid_or_none
  read_lem v hashed positive c =
      let view = read_view ids o price item in
      let valid = IsValid-validate ids.is_uuid4 view (view-IsValid v hashed positive) in
      rw (c.side, c.order_type, order_read v c, valid)
