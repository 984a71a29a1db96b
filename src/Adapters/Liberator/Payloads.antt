-- ===== src/Adapters/Liberator/Payloads.antt =====
-- adapters/liberator/mapping.py: an order onto the wire, and a venue row back onto an order. A price
-- that the source writes as text is the decimal that the text denotes.
pub mod Words
pub mod Rows
pub mod ReadBack
pub mod Dropped
use quant_execution_engine.Prelude.{
  ℕ, zero, suc, ◌+◌, ◌*◌, ◌/◌, ◌^◌, Bool, true, false, ◌&&◌, not, List, [], ◌∷◌, Option, none, some,
  String, token, get, codes, strip, is_empty, ltb, leb, ◌==◌, ℤ, pos, negsuc, pos_part, neg_part,
  if◌then◌else◌,
}
use quant_execution_engine.Prelude.Decimal.{Decimal, whole}
use quant_execution_engine.Contracts.Enums.{
  Broker, Market, set, tfex, Side, buy, sell, OrderType, limit, market, stop, stop_limit, iceberg,
  mtl, ato, atc, Tif, day, ioc, fok, gtc, PositionEffect, open_position, close_position,
}
use quant_execution_engine.Contracts.Errors.{Result, ok, err, adapter_failed, ◌>>=◌}
use quant_execution_engine.Contracts.Orders.{NormalizedOrder, is_stop, validate, absent}
use quant_execution_engine.Adapters.Liberator.Mapping.{VenueOrderItem, from_venue_side, is_blank}

-- `_SET_PRICE_TYPES` and `_TFEX_PRICE_TYPES`
abbrev set_price_type : OrderType → Option String
set_price_type limit = some "Limit"
set_price_type market = some "Market"
set_price_type mtl = some "MP"
set_price_type ato = some "ATO"
set_price_type atc = some "ATC"
set_price_type iceberg = some "Limit"
set_price_type _ = none

abbrev tfex_price_type : OrderType → Option String
tfex_price_type limit = some "Limit"
tfex_price_type market = some "Market"
tfex_price_type stop = some "Stop"
tfex_price_type stop_limit = some "Stop"
tfex_price_type iceberg = some "Limit"
tfex_price_type _ = none

abbrev expressible : Option String → Result String
expressible none = err adapter_failed
expressible (some word) = ok word

unfoldable pub venue_price_type : OrderType → Market → Result String
venue_price_type t set = expressible (set_price_type t)
venue_price_type t tfex = expressible (tfex_price_type t)

unfoldable pub venue_validity : Tif → String
venue_validity day = "Day"
venue_validity gtc = "GTC"
venue_validity ioc = "IOC"
venue_validity fok = "FOK"

unfoldable pub venue_side : Side → Market → String
venue_side buy set = "Buy"
venue_side sell set = "Sell"
venue_side buy tfex = "Long"
venue_side sell tfex = "Short"

-- `_POSITIONS`
unfoldable pub venue_position : PositionEffect → String
venue_position open_position = "Open"
venue_position close_position = "Close"

-- The whole hundredths of a decimal, and `price == price.quantize(Decimal("0.01"))`.
abbrev hundredths : Decimal → ℕ
hundredths d = (pos_part d.coeff + neg_part d.coeff) * 100 / 10 ^ d.places

unfoldable pub is_two_places : Decimal → Bool
is_two_places d = hundredths d * 10 ^ d.places == (pos_part d.coeff + neg_part d.coeff) * 100

with_sign : ℤ → ℕ → ℤ
with_sign (pos _) n = pos n
with_sign (negsuc _) zero = pos 0
with_sign (negsuc _) (suc n) = negsuc n

-- `price.quantize(Decimal("0.01"))`, where that is exact
unfoldable pub quantized : Decimal → Decimal
unfolding with_sign
quantized d = record { coeff = with_sign d.coeff (hundredths d); places = 2 }

abbrev priced : Option Decimal → Result Decimal
priced none = err adapter_failed
priced (some d) = if is_two_places d then ok (quantized d) else err adapter_failed

abbrev or_stop : Option Decimal → Option Decimal → Option Decimal
or_stop none other = other
or_stop (some d) other = some d

-- `_set_wire_price`
unfoldable pub set_wire_price : NormalizedOrder → Result Decimal
set_wire_price o = priced (or_stop o.price o.stop_price)

-- The bodies of `SETOrderRequest` and `TFEXOrderRequest`, without the fixed `pin`, `nvdr` and
-- `stopCondition`.
pub record SetOrderRequest : Type 0 where
  pub account_no : String
  pub iceberg_vol : ℕ
  pub volume : ℕ
  pub symbol : String
  pub side : String
  pub price : Decimal
  pub price_type : String
  pub validity_type : String

pub record TfexOrderRequest : Type 0 where
  pub account_no : String
  pub iceberg_vol : ℕ
  pub volume : ℕ
  pub symbol : String
  pub side : String
  pub position : String
  pub price : Decimal
  pub price_type : String
  pub validity_type : String
  pub stop_symbol : String
  pub stop_price : Decimal

pub data PlacePayload : Type 0 where
  set_order : SetOrderRequest → PlacePayload
  tfex_order : TfexOrderRequest → PlacePayload

-- `x or 0`
abbrev pub or_zero : Option ℕ → ℕ
or_zero none = 0
or_zero (some n) = n

abbrev pub price_or_zero : Option Decimal → Decimal
price_or_zero none = whole 0
price_or_zero (some d) = d

unfoldable pub to_set_payload : NormalizedOrder → Result PlacePayload
to_set_payload o = do
  price ← set_wire_price o
  price_type ← venue_price_type o.order_type set
  ok (
      set_order (record {
        account_no = o.account;
        iceberg_vol = or_zero o.display_qty;
        volume = o.quantity;
        symbol = o.symbol;
        side = venue_side o.side set;
        price = price;
        price_type = price_type;
        validity_type = venue_validity o.tif;
      }))

abbrev position_of : Option PositionEffect → Result String
position_of none = err adapter_failed
position_of (some e) = ok (venue_position e)

unfoldable pub to_tfex_payload : NormalizedOrder → Result PlacePayload
to_tfex_payload o = do
  position ← position_of o.position_effect
  price_type ← venue_price_type o.order_type tfex
  ok (
      tfex_order (record {
        account_no = o.account;
        iceberg_vol = or_zero o.display_qty;
        volume = o.quantity;
        symbol = o.symbol;
        side = venue_side o.side tfex;
        position = position;
        price = price_or_zero o.price;
        price_type = price_type;
        validity_type = venue_validity o.tif;
        stop_symbol = o.symbol;
        stop_price = if is_stop o.order_type then price_or_zero o.stop_price else whole 0;
      }))

abbrev by_market : Market → NormalizedOrder → Result PlacePayload
by_market set o = to_set_payload o
by_market tfex o = to_tfex_payload o

unfoldable pub to_place_payload : NormalizedOrder → Result PlacePayload
to_place_payload o = by_market o.market o

-- `_READ_PRICE_TYPES`, `_READ_VALIDITY` and `_READ_POSITIONS`
abbrev read_price_types : List (String × OrderType)
read_price_types =
    ("LIMIT", limit)
    ∷ ("MARKET", market)
    ∷ ("MP", mtl)
    ∷ ("ATO", ato)
    ∷ ("ATC", atc)
    ∷ ("STOP", stop)
    ∷ []

abbrev read_validity : List (String × Tif)
read_validity = ("DAY", day) ∷ ("GTC", gtc) ∷ ("IOC", ioc) ∷ ("FOK", fok) ∷ []

abbrev read_positions : List (String × PositionEffect)
read_positions = ("OPEN", open_position) ∷ ("CLOSE", close_position) ∷ []

-- `x or ""`
abbrev text_or_empty : Option String → String
text_or_empty none = ""
text_or_empty (some s) = s

unfoldable pub read_type : VenueOrderItem → Option OrderType
read_type item = get (token item.price_type) read_price_types

abbrev day_or : Option Tif → Tif
day_or none = day
day_or (some t) = t

unfoldable pub read_tif : VenueOrderItem → Tif
read_tif item = day_or (get (token item.validity_type) read_validity)

unfoldable pub read_position : VenueOrderItem → Option PositionEffect
read_position item = get (token (text_or_empty item.position)) read_positions

unfoldable pub read_market : VenueOrderItem → Market
read_market item = if is_blank (strip (codes (text_or_empty item.position))) then set else tfex

-- A limit order with an iceberg volume reads as an iceberg.
abbrev read_as : OrderType → ℕ → OrderType
read_as limit n = if ltb 0 n then iceberg else limit
read_as t n = t

abbrev stop_only : OrderType → Option Decimal → Option Decimal
stop_only stop p = p
stop_only _ p = none

abbrev iceberg_only : OrderType → ℕ → Option ℕ
iceberg_only iceberg n = some n
iceberg_only _ n = none

-- The library's part: the version of a UUID, and the UUID that is hashed from a venue's number.
pub record Ids : Type 0 where
  pub is_uuid4 : String → Bool
  pub synthetic : String → String

module _ (ids : Ids) where
  read_order : VenueOrderItem → String → Side → OrderType → NormalizedOrder
  read_order item account side t = record {
    client_order_id = ids.synthetic item.order_no;
    broker = Broker.liberator;
    account = if is_empty item.account_no then account else item.account_no;
    market = read_market item;
    symbol = item.symbol;
    side = side;
    order_type = t;
    price = item.price;
    stop_price = stop_only t item.stop_price;
    quantity = item.volume;
    display_qty = iceberg_only t item.iceberg_vol;
    tif = read_tif item;
    position_effect = read_position item;
    sim_reject = none;
    sim_fills = absent;
  }

  -- `except ValueError: return None`
  valid_or_none : Result NormalizedOrder → Option NormalizedOrder
  valid_or_none (ok o) = some o
  valid_or_none (err _) = none

  read_from : VenueOrderItem → String → Option Side → Option OrderType → Option NormalizedOrder
  unfolding read_order valid_or_none
  read_from item account (some side) (some t) =
      valid_or_none
        (validate ids.is_uuid4 (read_order item account side (read_as t item.iceberg_vol)))
  read_from item account _ _ = none

  unfoldable pub venue_item_to_normalized : VenueOrderItem → String → Option NormalizedOrder
  unfolding read_from
  venue_item_to_normalized item account =
      read_from item account (from_venue_side item.side) (read_type item)
