-- ===== src/Tests/Bridging.antt =====
-- The plans of the Streaming Pro reconciler on a row and what the bridge lists.
use quant_execution_engine.Prelude.{
  ◌-◌, ◌≡◌, ◌≢◌, refl, true, false, ◌&&◌, none, some, Option, upper_code, strip, is_space,
  if◌then◌else◌,
}
use quant_execution_engine.Prelude.Decimal.{whole}
use quant_execution_engine.Contracts.Enums.{OrderState, same_state}
use quant_execution_engine.Contracts.Orders.{is_some}
use quant_execution_engine.Core.StateMachine.{is_terminal}
use quant_execution_engine.Adapters.Reconcile.Planning.{VenueOrderState}
use quant_execution_engine.Adapters.Reconcile.Planning.Edges.{
  walks, asked_all, planned_qty, is_venue_rejected,
}
use quant_execution_engine.Adapters.StreamingPro.Mapping.{VenueOrderRow, classify_venue_state, blob}
use quant_execution_engine.Adapters.StreamingPro.Planning.{
  plan_actions, fill_price_for, fuzzy_match, shown,
}
use quant_execution_engine.Adapters.Reconcile.Matching.{fuzzy_match as match_in}
use quant_execution_engine.Adapters.StreamingPro.Planning.Edges.{sp_plan_walks}
use quant_execution_engine.Tests.Examples.{row_in}

-- Cancelled on the SET front after 60 of 100.
abbrev item : VenueOrderRow
item = record {
  order_no = "7";
  account_no = "";
  ext_order_no = "";
  order_no_fis = "0000000007";
  symbol = "PTT";
  side = "Buy";
  position = none;
  price_type = "Limit";
  price = some (whole 35);
  status = "";
  reject_reason = " ";
  validity_type = "Day";
  volume = 100;
  matched = 60;
  balance = 0;
  cancelled = 40;
  status_show = "Cancelled (C)";
  entry_time = some 2000;
}

-- The status word is found within the text that the front shows.
classified : classify_venue_state item ≡ VenueOrderState.cancelled
unfolding classify_venue_state blob upper_code strip is_space
classified = refl

open_row : is_terminal OrderState.new ≡ false
unfolding is_terminal
open_row = refl

not_replace : OrderState.new ≢ OrderState.pending_replace
not_replace e = cc

sp_plan_walks_example :
    ((shown : Option VenueOrderRow)
      → walks OrderState.new
          (asked_all 10 (plan_actions (row_in OrderState.new) 10 shown 9000 false))
        ≡ true)
    × ((shown : VenueOrderRow)
        → planned_qty (plan_actions (row_in OrderState.new) 10 (some shown) 9000 false) ≡ (
            if same_state OrderState.new OrderState.pending_cancel
            then 0
            else if same_state OrderState.new OrderState.pending_new
                && is_venue_rejected (classify_venue_state shown)
            then 0
            else if is_some (fill_price_for (row_in OrderState.new) shown)
            then shown.matched - 10
            else 0))
sp_plan_walks_example = sp_plan_walks (row_in OrderState.new) 10 9000 false open_row not_replace
