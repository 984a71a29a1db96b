-- ===== src/Adapters/Views.antt =====
-- adapters/base.py: a row of a venue's order list, as a reader is shown it.
use quant_execution_engine.Prelude.{ℕ, ◌&&◌, Option, String, ltb, leb, ◌==◌, if◌then◌else◌}
use quant_execution_engine.Prelude.Decimal.{Decimal}
use quant_execution_engine.Contracts.Enums.{Market, Side}
use quant_execution_engine.Adapters.Reconcile.Planning.{VenueOrderState}

pub data VenueDisplayState : Type 0 where
  resting partially_filled filled cancelled rejected expired unknown : VenueDisplayState

by_counters : ℕ → ℕ → ℕ → VenueDisplayState
by_counters quantity matched remaining =
    if ltb 0 matched && remaining == 0 && ltb 0 quantity && leb quantity matched
    then VenueDisplayState.filled
    else if ltb 0 matched && ltb 0 remaining
    then VenueDisplayState.partially_filled
    else if ltb 0 remaining
    then VenueDisplayState.resting
    else VenueDisplayState.unknown

unfoldable pub display_state : VenueOrderState → ℕ → ℕ → ℕ → VenueDisplayState
unfolding by_counters
display_state VenueOrderState.cancelled quantity matched remaining = VenueDisplayState.cancelled
display_state VenueOrderState.rejected quantity matched remaining = VenueDisplayState.rejected
display_state VenueOrderState.expired quantity matched remaining = VenueDisplayState.expired
display_state VenueOrderState.resting quantity matched remaining =
    by_counters quantity matched remaining

-- The time that the source writes as text is kept as a time.
pub record VenueOrderView : Type 0 where
  pub venue_order_id : String
  pub market : Option Market
  pub symbol : String
  pub side : Option Side
  pub quantity : ℕ
  pub price : Option Decimal
  pub matched_qty : ℕ
  pub remaining_qty : ℕ
  pub cancelled_qty : ℕ
  pub state : VenueDisplayState
  pub venue_status : String
  pub venue_status_code : String
  pub placed_at : Option ℕ
