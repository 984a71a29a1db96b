-- ===== src/Adapters/StreamingPro/Planning.antt =====
-- adapters/streaming_pro/reconciler.py: `fuzzy_match` and `plan_actions`, which touch nothing.
pub mod Edges
pub mod Matches
use Prim.Native.String.{◌++◌ as append_text}
use quant_execution_engine.Prelude.{ℕ, Bool, true, List, Option, none, some, String, strip_text}
use quant_execution_engine.Prelude.Decimal.{Decimal}
use quant_execution_engine.Db.Models.{OrderRow}
use quant_execution_engine.Adapters.Reconcile.Matching.{
  Shown, MatchOutcome, fuzzy_match as match_in,
}
use quant_execution_engine.Adapters.Reconcile.Planning.{
  ReconcileAction, Listed, real_price, first_price, first_text, plan_absent, plan_present,
}
use quant_execution_engine.Adapters.StreamingPro.Mapping.{
  VenueOrderRow, from_venue_side, classify_venue_state,
}

-- What the match reads of a venue order.
abbrev pub shown : VenueOrderRow → Shown
shown item = record {
  order_no = item.order_no;
  symbol = item.symbol;
  side = from_venue_side item.side;
  volume = item.volume;
  price = item.price;
  entry_time = item.entry_time;
}

unfoldable pub fuzzy_match :
    OrderRow → List VenueOrderRow → List String → MatchOutcome VenueOrderRow
fuzzy_match row items claimed = match_in shown row items claimed

unfoldable pub reject_reason : VenueOrderRow → String
reject_reason item = strip_text (
    append_text "streaming_pro reject "
      (first_text item.reject_reason item.status_show item.status))

unfoldable pub fill_price_for : OrderRow → VenueOrderRow → Option Decimal
fill_price_for row item = first_price (real_price item.price) (first_price row.price row.stop_price)

-- What a plan reads of a venue order.
abbrev pub seen : OrderRow → VenueOrderRow → Listed
seen row item = record {
  order_no = item.order_no;
  matched = item.matched;
  state = classify_venue_state item;
  reason = reject_reason item;
  price = fill_price_for row item;
}

-- An absent row that is `pending_cancel` counts as cancelled on any day.
unfoldable pub plan_actions : OrderRow → ℕ → Option VenueOrderRow → ℕ → Bool → List ReconcileAction
plan_actions row filled_qty none now is_ambiguous = plan_absent row now is_ambiguous true
plan_actions row filled_qty (some item) now is_ambiguous =
    plan_present row filled_qty (seen row item)
