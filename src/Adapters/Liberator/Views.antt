-- ===== src/Adapters/Liberator/Views.antt =====
-- adapters/liberator/mapping.py: `venue_item_to_view`, and `get_venue_orders` of adapter.py.
use quant_execution_engine.Prelude.{List, map, some}
use quant_execution_engine.Adapters.Views.{VenueOrderView, display_state}
use quant_execution_engine.Adapters.Liberator.Mapping.{
  VenueOrderItem, from_venue_side, classify_venue_state,
}
use quant_execution_engine.Adapters.Liberator.Payloads.{read_market}

unfoldable pub venue_item_to_view : VenueOrderItem → VenueOrderView
venue_item_to_view item = record {
  venue_order_id = item.order_no;
  market = some (read_market item);
  symbol = item.symbol;
  side = from_venue_side item.side;
  quantity = item.volume;
  price = item.price;
  matched_qty = item.matched;
  remaining_qty = item.balance;
  cancelled_qty = item.cancelled;
  state = display_state (classify_venue_state item) item.volume item.matched item.balance;
  venue_status = item.status;
  venue_status_code = item.status_show;
  placed_at = item.entry_time;
}

-- `get_venue_orders`, of what the venue lists
unfoldable pub venue_orders : List VenueOrderItem → List VenueOrderView
venue_orders items = map venue_item_to_view items
