-- ===== src/Adapters/Liberator/Planning/Edges.antt =====
-- The plans of adapters/liberator/reconciler.py against the frozen machine, and what they fill.
use quant_execution_engine.Prelude.{
  ℕ, ◌-◌, ◌≡◌, ◌≢◌, Bool, true, false, ◌&&◌, Option, none, some, if◌then◌else◌,
}
use quant_execution_engine.Contracts.Enums.{
  pending_new, pending_cancel, pending_replace, same_state,
}
use quant_execution_engine.Contracts.Orders.{is_some}
use quant_execution_engine.Core.StateMachine.{is_terminal}
use quant_execution_engine.Db.Models.{OrderRow}
use quant_execution_engine.Adapters.Reconcile.Planning.Edges.{
  walks, asked_all, planned_qty, is_venue_rejected, absent_walks, present_walks, present_fills,
}
use quant_execution_engine.Adapters.Liberator.Mapping.{VenueOrderItem, classify_venue_state}
use quant_execution_engine.Adapters.Liberator.Planning.{
  Calendar, fill_price_for, absence_is_informative, seen, plan_actions,
}

-- Whatever the venue shows, the plan for a row that is neither terminal nor `pending_replace` asks
-- for legal moves only, each from the status that the one before leaves.
pub plan_walks :
    (cal : Calendar) (row : OrderRow) (filled_qty : ℕ) (item : Option VenueOrderItem) (now : ℕ)
    (is_ambiguous : Bool)
    → is_terminal row.status ≡ false
    → row.status ≢ pending_replace
    → walks row.status
        (asked_all filled_qty (plan_actions cal row filled_qty item now is_ambiguous))
      ≡ true
unfolding plan_actions
plan_walks cal row filled_qty none now is_ambiguous live n =
    absent_walks row filled_qty now is_ambiguous (absence_is_informative cal row now) live n
plan_walks cal row filled_qty (some item) now is_ambiguous live n =
    present_walks row filled_qty (seen cal row item) live n

-- What the plan for a row that the venue lists adds up to in fills: all that the venue has matched
-- beyond the store, if a price can be derived; but nothing for a row that is `pending_cancel`, and
-- nothing for one that is `pending_new` and that the venue shows as rejected.
pub plan_fills :
    (cal : Calendar) (row : OrderRow) (filled_qty : ℕ) (item : VenueOrderItem) (now : ℕ)
    (is_ambiguous : Bool)
    → planned_qty (plan_actions cal row filled_qty (some item) now is_ambiguous) ≡ (
        if same_state row.status pending_cancel
        then 0
        else if same_state row.status pending_new && is_venue_rejected (classify_venue_state item)
        then 0
        else if is_some (fill_price_for cal row item)
        then item.matched - filled_qty
        else 0)
unfolding plan_actions
plan_fills cal row filled_qty item now is_ambiguous =
    present_fills row filled_qty (seen cal row item)
