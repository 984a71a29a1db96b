-- ===== src/Adapters/Liberator/Payloads/Words.antt =====
-- The words of adapters/liberator/mapping.py, written and read back.
use quant_execution_engine.Prelude.{
  ℕ, ◌≡◌, refl, subst, true, false, Option, none, some, String, arith, get, token, strip, codes,
  is_space, upper_code,
}
use quant_execution_engine.Contracts.Enums.{OrderType, Tif, PositionEffect}
use quant_execution_engine.Contracts.Orders.Valid.{is_display}
use quant_execution_engine.Adapters.Liberator.Mapping.{is_blank}
use quant_execution_engine.Adapters.Liberator.Payloads.{
  set_price_type, tfex_price_type, venue_validity, venue_position, or_zero, read_price_types,
  read_validity, read_positions, day_or, read_as, iceberg_only,
}

pub tif_back : (t : Tif) → day_or (get (token (venue_validity t)) read_validity) ≡ t
unfolding venue_validity token strip is_space upper_code
tif_back Tif.day = refl
tif_back Tif.ioc = refl
tif_back Tif.fok = refl
tif_back Tif.gtc = refl

pub position_back :
    (e : PositionEffect)
    → (get (token (venue_position e)) read_positions ≡ some e)
      × (is_blank (strip (codes (venue_position e))) ≡ false)
unfolding venue_position token strip is_space upper_code
position_back PositionEffect.open_position = (refl, refl)
position_back PositionEffect.close_position = (refl, refl)

pub no_position : (get (token "") read_positions ≡ none) × (is_blank (strip (codes "")) ≡ true)
unfolding token strip
no_position = (refl, refl)

-- The wire tells icebergs by their volume, and stop limits not at all.
abbrev pub on_wire : OrderType → OrderType
on_wire OrderType.iceberg = OrderType.limit
on_wire OrderType.stop_limit = OrderType.stop
on_wire t = t

abbrev pub read_word : String → Option OrderType
read_word word = get (token word) read_price_types

moved :
    (t : OrderType) (w word : String)
    → some w ≡ some word
    → read_word w ≡ some t
    → read_word word ≡ some t
moved t w word h e = let same : w ≡ word = cc in subst (λ s. read_word s ≡ some t) same e

pub set_type_back :
    (t : OrderType) (word : String)
    → set_price_type t ≡ some word
    → read_word word ≡ some (on_wire t)
unfolding token strip is_space upper_code
set_type_back OrderType.limit word h = moved OrderType.limit "Limit" word h refl
set_type_back OrderType.market word h = moved OrderType.market "Market" word h refl
set_type_back OrderType.mtl word h = moved OrderType.mtl "MP" word h refl
set_type_back OrderType.ato word h = moved OrderType.ato "ATO" word h refl
set_type_back OrderType.atc word h = moved OrderType.atc "ATC" word h refl
set_type_back OrderType.iceberg word h = moved OrderType.limit "Limit" word h refl
set_type_back OrderType.stop word h = cc
set_type_back OrderType.stop_limit word h = cc

pub tfex_type_back :
    (t : OrderType) (word : String)
    → tfex_price_type t ≡ some word
    → read_word word ≡ some (on_wire t)
unfolding token strip is_space upper_code
tfex_type_back OrderType.limit word h = moved OrderType.limit "Limit" word h refl
tfex_type_back OrderType.market word h = moved OrderType.market "Market" word h refl
tfex_type_back OrderType.stop word h = moved OrderType.stop "Stop" word h refl
tfex_type_back OrderType.stop_limit word h = moved OrderType.stop "Stop" word h refl
tfex_type_back OrderType.iceberg word h = moved OrderType.limit "Limit" word h refl
tfex_type_back OrderType.mtl word h = cc
tfex_type_back OrderType.ato word h = cc
tfex_type_back OrderType.atc word h = cc

-- The type that an order of a type is read back with: a stop limit is read as a stop.
abbrev pub as_read : OrderType → OrderType
as_read OrderType.stop_limit = OrderType.stop
as_read t = t

pub type_read :
    (t : OrderType) (quantity : ℕ) (display : Option ℕ)
    → is_display t quantity display ≡ true
    → read_as (on_wire t) (or_zero display) ≡ as_read t
type_read t quantity none h = ground arith
type_read t quantity (some d) h = ground arith

pub display_read :
    (t : OrderType) (quantity : ℕ) (display : Option ℕ)
    → is_display t quantity display ≡ true
    → iceberg_only (as_read t) (or_zero display) ≡ display
display_read t quantity none h = ground arith
display_read t quantity (some d) h = ground arith
