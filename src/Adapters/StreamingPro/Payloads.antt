-- ===== src/Adapters/StreamingPro/Payloads.antt =====
-- adapters/streaming_pro/mapping.py: an order onto the bridge's wire, and a row back onto an order
-- and onto a view. A price that the source writes as text is the decimal that the text denotes.
use quant_execution_engine.Prelude.{
  ℕ, Bool, List, [], ◌∷◌, Option, none, some, String, token, get, is_empty, if◌then◌else◌,
}
use quant_execution_engine.Prelude.Decimal.{Decimal}
use quant_execution_engine.Contracts.Enums.{
  Broker, Market, set, tfex, Side, OrderType, limit, market, Tif, PositionEffect, open_position,
  close_position,
}
use quant_execution_engine.Contracts.Errors.{Result, ok, err, adapter_failed}
use quant_execution_engine.Contracts.Orders.{NormalizedOrder, validate, absent}
use quant_execution_engine.Adapters.Views.{VenueOrderView, display_state}
use quant_execution_engine.Adapters.StreamingPro.Mapping.{
  VenueOrderRow, from_venue_side, classify_venue_state,
}

-- `_wire_price`
unfoldable pub wire_price : NormalizedOrder → Option Decimal
wire_price o = elim o.price [ none ↦ o.stop_price | some d ↦ some d ]

-- The bodies of `SetOrderRequest` and `TfexOrderRequest`. Enums stand for their texts, and a `price`
-- that is absent for a body without one.
pub record SetOrderRequest : Type 0 where
  pub symbol : String
  pub side : Side
  pub volume : ℕ
  pub account : String
  pub price_type : OrderType
  pub validity : Tif
  pub price : Option Decimal

pub record TfexOrderRequest : Type 0 where
  pub symbol : String
  pub side : Side
  pub position : PositionEffect
  pub volume : ℕ
  pub account : String
  pub price_type : OrderType
  pub validity : Tif
  pub price : Option Decimal

pub data PlacePayload : Type 0 where
  set_order : SetOrderRequest → PlacePayload
  tfex_order : TfexOrderRequest → PlacePayload

unfoldable pub to_set_payload : NormalizedOrder → PlacePayload
to_set_payload o = set_order (record {
  symbol = o.symbol;
  side = o.side;
  volume = o.quantity;
  account = o.account;
  price_type = o.order_type;
  validity = o.tif;
  price = wire_price o;
})

abbrev with_position : NormalizedOrder → Option PositionEffect → Result PlacePayload
with_position o none = err adapter_failed
with_position o (some e) = ok (
    tfex_order (record {
      symbol = o.symbol;
      side = o.side;
      position = e;
      volume = o.quantity;
      account = o.account;
      price_type = o.order_type;
      validity = o.tif;
      price = wire_price o;
    }))

unfoldable pub to_tfex_payload : NormalizedOrder → Result PlacePayload
to_tfex_payload o = with_position o o.position_effect

abbrev by_market : Market → NormalizedOrder → Result PlacePayload
by_market set o = ok (to_set_payload o)
by_market tfex o = to_tfex_payload o

unfoldable pub to_place_payload : NormalizedOrder → Result PlacePayload
to_place_payload o = by_market o.market o

-- The body of a cancel; TFEX needs neither the symbol nor the outside number.
pub record CancelPayload : Type 0 where
  pub order_no : String
  pub market : Market
  pub account : String
  pub ext_order_no : Option String
  pub symbol : Option String

abbrev text_or_empty : Option String → String
text_or_empty none = ""
text_or_empty (some s) = s

unfoldable pub to_cancel_payload :
    String → Market → String → Option String → Option String → CancelPayload
to_cancel_payload order_no set account symbol ext_order_no = record {
  order_no = order_no;
  market = set;
  account = account;
  ext_order_no = some (text_or_empty ext_order_no);
  symbol = some (text_or_empty symbol);
}
to_cancel_payload order_no tfex account symbol ext_order_no = record {
  order_no = order_no;
  market = tfex;
  account = account;
  ext_order_no = none;
  symbol = none;
}

-- `_READ_PRICE_TYPES` and `_READ_POSITIONS`
abbrev read_price_types : List (String × OrderType)
read_price_types = ("LIMIT", limit) ∷ ("MARKET", market) ∷ []

abbrev read_positions : List (String × PositionEffect)
read_positions = ("OPEN", open_position) ∷ ("CLOSE", close_position) ∷ []

abbrev on_tfex : Market → Option PositionEffect → Option PositionEffect
on_tfex tfex e = e
on_tfex set e = none

-- `except ValueError: return None`
abbrev valid_or_none : Result NormalizedOrder → Option NormalizedOrder
valid_or_none (ok o) = some o
valid_or_none (err _) = none

-- The library's part: the version of a UUID, and the UUID that is hashed from a venue's number.
pub record Ids : Type 0 where
  pub is_uuid4 : String → Bool
  pub synthetic : String → String

module _ (ids : Ids) (account : String) (front : Market) where
  read_order : VenueOrderRow → Side → OrderType → NormalizedOrder
  read_order row side t = record {
    client_order_id = ids.synthetic row.order_no;
    broker = Broker.streaming_pro;
    account = if is_empty row.account_no then account else row.account_no;
    market = front;
    symbol = row.symbol;
    side = side;
    order_type = t;
    price = row.price;
    stop_price = none;
    quantity = row.volume;
    display_qty = none;
    tif = Tif.day;
    position_effect = on_tfex front (get (token (text_or_empty row.position)) read_positions);
    sim_reject = none;
    sim_fills = absent;
  }

  read_from : VenueOrderRow → Option Side → Option OrderType → Option NormalizedOrder
  unfolding read_order
  read_from row (some side) (some t) = valid_or_none (validate ids.is_uuid4 (read_order row side t))
  read_from row _ _ = none

  unfoldable pub venue_row_to_normalized : VenueOrderRow → Option NormalizedOrder
  unfolding read_from
  venue_row_to_normalized row =
      read_from row (from_venue_side row.side) (get (token row.price_type) read_price_types)

unfoldable pub venue_row_to_view : VenueOrderRow → Market → VenueOrderView
venue_row_to_view row front = record {
  venue_order_id = row.order_no;
  market = some front;
  symbol = row.symbol;
  side = from_venue_side row.side;
  quantity = row.volume;
  price = row.price;
  matched_qty = row.matched;
  remaining_qty = row.balance;
  cancelled_qty = row.cancelled;
  state = display_state (classify_venue_state row) row.volume row.matched row.balance;
  venue_status = row.status;
  venue_status_code = row.status_show;
  placed_at = row.entry_time;
}
