-- ===== src/Tests/Reconciling.antt =====
-- The plans of the Liberator reconciler on a row and what the venue lists.
use quant_execution_engine.Prelude.{
  ◌≡◌, ◌≢◌, refl, true, false, [], ◌∷◌, none, some, keep, same_text, strip, token, is_space,
  upper_code,
}
use quant_execution_engine.Prelude.Decimal.{whole, same_value, ltb_dec}
use quant_execution_engine.Contracts.Enums.{OrderState}
use quant_execution_engine.Core.StateMachine.{is_terminal}
use quant_execution_engine.Adapters.Liberator.Mapping.{VenueOrderItem, from_venue_side}
use quant_execution_engine.Adapters.Reconcile.Matching.{is_candidate, fuzzy_match as match_in}
use quant_execution_engine.Adapters.Reconcile.Planning.Edges.{walks, asked_all, planned_qty}
use quant_execution_engine.Adapters.Liberator.Planning.{shown, plan_actions, fuzzy_match}
use quant_execution_engine.Adapters.Liberator.Planning.Edges.{plan_walks, plan_fills}
use quant_execution_engine.Adapters.Liberator.Planning.Matches.{match_is_unique}
use quant_execution_engine.Tests.Examples.{calendar, row_in}

-- Cancelled at the venue after 60 of 100.
abbrev pub item : VenueOrderItem
item = record {
  order_no = "7";
  account_no = "acc";
  symbol = "PTT";
  side = " b ";
  position = none;
  price_type = "Limit";
  iceberg_vol = 0;
  volume = 100;
  price = some (whole 35);
  matched = 60;
  balance = 0;
  cancelled = 40;
  amount = none;
  status = "Cancelled";
  status_show = "";
  reject_code = "";
  validity_type = "Day";
  stop_price = none;
  entry_time = some 2000;
}

open_row : is_terminal OrderState.pending_new ≡ false
unfolding is_terminal
open_row = refl

not_replace : OrderState.pending_new ≢ OrderState.pending_replace
not_replace e = cc

plan_walks_example :
    walks OrderState.pending_new
      (asked_all 0 (plan_actions calendar (row_in OrderState.pending_new) 0 (some item) 9000 false))
    ≡ true
plan_walks_example =
    plan_walks calendar (row_in OrderState.pending_new) 0 (some item) 9000 false open_row
      not_replace

plan_fills_example :
    planned_qty (plan_actions calendar (row_in OrderState.pending_cancel) 10 (some item) 9000 false)
    ≡ 0
plan_fills_example = plan_fills calendar (row_in OrderState.pending_cancel) 10 item 9000 false

matched : (fuzzy_match (row_in OrderState.pending_new) (item ∷ []) []).item ≡ some item
unfolding fuzzy_match match_in is_candidate from_venue_side token strip is_space upper_code
    same_text same_value ltb_dec
matched = refl

match_is_unique_example :
    keep (is_candidate shown (row_in OrderState.pending_new) []) (item ∷ []) ≡ item ∷ []
match_is_unique_example =
    match_is_unique (row_in OrderState.pending_new) (item ∷ []) [] item matched
