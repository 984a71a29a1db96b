-- ===== src/Tests/Wiring.antt =====
-- Orders on the Liberator wire, and the rows that echo them.
use quant_execution_engine.Prelude.{
  ◌≡◌, refl, true, none, some, pos, String, ◌||◌, same_text, if◌then◌else◌,
}
use quant_execution_engine.Prelude.Decimal.{whole, same_value}
use quant_execution_engine.Contracts.Enums.{Market, OrderType, PositionEffect}
use quant_execution_engine.Contracts.Errors.{ok}
use quant_execution_engine.Contracts.Orders.{NormalizedOrder, validate}
use quant_execution_engine.Adapters.Liberator.Payloads.{
  venue_price_type, venue_validity, venue_side, venue_position, is_two_places, quantized,
  set_wire_price, to_set_payload, to_tfex_payload, to_place_payload, PlacePayload, set_order,
  tfex_order, Ids, venue_item_to_normalized,
}
use quant_execution_engine.Adapters.Liberator.Payloads.Rows.{read_view}
use quant_execution_engine.Adapters.Liberator.Payloads.ReadBack.{
  echo, ListsSides, sent_price, placed_reads_back,
}
use quant_execution_engine.Adapters.Liberator.Payloads.Dropped.{unpriced_dropped}
use quant_execution_engine.Tests.Examples.{order}
use quant_execution_engine.Tests.Reconciling.{item}

abbrev ids : Ids
ids = record { is_uuid4 = λ s. true; synthetic = λ s. s }

-- The side as the venue lists it.
abbrev listed : String → String
listed word = if same_text word "Buy" || same_text word "Long" then "B" else "S"

lists : ListsSides listed
unfolding same_text
lists = record { buy_set = refl; buy_tfex = refl; sell_set = refl; sell_tfex = refl }

abbrev pub sent : PlacePayload
sent = set_order (record {
  account_no = "acc";
  iceberg_vol = 0;
  volume = 100;
  symbol = "PTT";
  side = "Buy";
  price = record { coeff = pos 3500; places = 2 };
  price_type = "Limit";
  validity_type = "Day";
})

valid : validate ids.is_uuid4 order ≡ ok order
unfolding validate
valid = refl

pub can_send : to_place_payload order ≡ ok sent
unfolding to_place_payload to_set_payload set_wire_price venue_price_type venue_validity venue_side
    is_two_places quantized
can_send = refl

placed_reads_back_example :
    (venue_item_to_normalized ids (echo listed sent item) "acc"
      ≡ some (read_view ids order (sent_price sent) item))
    × (same_value (sent_price sent) (whole 35) ≡ true)
placed_reads_back_example =
    placed_reads_back listed ids order (whole 35) sent item "acc" lists valid refl refl can_send

-- A market order on TFEX.
abbrev unpriced : NormalizedOrder
unpriced = record order {
  market = Market.tfex;
  order_type = OrderType.market;
  price = none;
  position_effect = some PositionEffect.open_position;
}

abbrev sent_unpriced : PlacePayload
sent_unpriced = tfex_order (record {
  account_no = "acc";
  iceberg_vol = 0;
  volume = 100;
  symbol = "PTT";
  side = "Long";
  position = "Open";
  price = whole 0;
  price_type = "Market";
  validity_type = "Day";
  stop_symbol = "PTT";
  stop_price = whole 0;
})

can_send_unpriced : to_place_payload unpriced ≡ ok sent_unpriced
unfolding to_place_payload to_tfex_payload venue_price_type venue_validity venue_side venue_position
can_send_unpriced = refl

unpriced_dropped_example :
    ((echo listed sent_unpriced item).price ≡ some (whole 0))
    × (venue_item_to_normalized ids (echo listed sent_unpriced item) "acc" ≡ none)
unpriced_dropped_example =
    unpriced_dropped listed ids unpriced sent_unpriced item "acc" refl refl can_send_unpriced
