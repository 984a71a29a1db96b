-- ===== src/Adapters/StreamingPro/Planning/Edges.antt =====
-- The plans of adapters/streaming_pro/reconciler.py against the frozen machine.
use quant_execution_engine.Prelude.{
  ℕ, ◌-◌, ◌≡◌, ◌≢◌, Bool, true, false, ◌&&◌, Option, none, some, if◌then◌else◌,
}
use quant_execution_engine.Contracts.Enums.{
  pending_new, pending_cancel, pending_replace, same_state,
}
use quant_execution_engine.Contracts.Orders.{is_some}
use quant_execution_engine.Core.StateMachine.{is_terminal}
use quant_execution_engine.Db.Models.{OrderRow}
use quant_execution_engine.Adapters.Reconcile.Planning.Edges.{
  walks, asked_all, planned_qty, is_venue_rejected, absent_walks, present_walks, present_fills,
}
use quant_execution_engine.Adapters.StreamingPro.Mapping.{VenueOrderRow, classify_venue_state}
use quant_execution_engine.Adapters.StreamingPro.Planning.{fill_price_for, seen, plan_actions}

-- Whatever the bridge shows, the plan for a row that is neither terminal nor `pending_replace` asks
-- for legal moves only, each from the status that the one before leaves; and the fills of the plan
-- for a listed row add up to all that the venue has matched beyond the store, if a price can be
-- derived, but to nothing for a row that is `pending_cancel`, and for one that is `pending_new` and
-- shown as rejected.
pub sp_plan_walks :
    (row : OrderRow) (filled_qty now : ℕ) (is_ambiguous : Bool)
    → is_terminal row.status ≡ false
    → row.status ≢ pending_replace
    → ((item : Option VenueOrderRow)
        → walks row.status
            (asked_all filled_qty (plan_actions row filled_qty item now is_ambiguous))
          ≡ true)
      × ((item : VenueOrderRow)
          → planned_qty (plan_actions row filled_qty (some item) now is_ambiguous) ≡ (
              if same_state row.status pending_cancel
              then 0
              else if same_state row.status pending_new
                  && is_venue_rejected (classify_venue_state item)
              then 0
              else if is_some (fill_price_for row item)
              then item.matched - filled_qty
              else 0))
unfolding plan_actions
sp_plan_walks row filled_qty now is_ambiguous live n =
    (each, λ item. present_fills row filled_qty (seen row item))
  where
    each :
        (item : Option VenueOrderRow)
        → walks row.status
            (asked_all filled_qty (plan_actions row filled_qty item now is_ambiguous))
          ≡ true
    each none = absent_walks row filled_qty now is_ambiguous true live n
    each (some item) = present_walks row filled_qty (seen row item) live n
