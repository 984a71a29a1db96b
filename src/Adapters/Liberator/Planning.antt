-- ===== src/Adapters/Liberator/Planning.antt =====
-- adapters/liberator/reconciler.py: `fuzzy_match` and `plan_actions`, which touch nothing.
pub mod Edges
pub mod Matches
use Prim.Native.String.{◌++◌ as append_text}
use quant_execution_engine.Prelude.{
  ℕ, Bool, true, false, ◌&&◌, ◌||◌, List, Option, none, some, String, ltb, ◌==◌, strip_text,
  if◌then◌else◌,
}
use quant_execution_engine.Prelude.Decimal.{Decimal, is_positive}
use quant_execution_engine.Core.StateMachine.{is_terminal}
use quant_execution_engine.Db.Models.{OrderRow}
use quant_execution_engine.Adapters.Reconcile.Matching.{
  Shown, MatchOutcome, fuzzy_match as match_in,
}
use quant_execution_engine.Adapters.Reconcile.Planning.{
  ReconcileAction, Listed, real_price, first_price, first_text, plan_absent, plan_present,
}
use quant_execution_engine.Adapters.Liberator.Mapping.{
  VenueOrderItem, from_venue_side, classify_venue_state,
}

-- `_is_resolved`
unfoldable pub is_resolved : OrderRow → Bool
is_resolved row = has_handle row.broker_order_id || is_terminal row.status
  where
    has_handle : Option String → Bool
    has_handle none = false
    has_handle (some _) = true

-- What the match reads of a venue order.
abbrev pub shown : VenueOrderItem → Shown
shown item = record {
  order_no = item.order_no;
  symbol = item.symbol;
  side = from_venue_side item.side;
  volume = item.volume;
  price = item.price;
  entry_time = item.entry_time;
}

unfoldable pub fuzzy_match :
    OrderRow → List VenueOrderItem → List String → MatchOutcome VenueOrderItem
fuzzy_match row items claimed = match_in shown row items claimed

unfoldable pub reject_reason : VenueOrderItem → String
reject_reason item =
    strip_text
      (append_text "liberator reject " (first_text item.reject_code item.status_show item.status))

-- The library's part: the average price of the matched amount, rounded to the column's six places,
-- and the calendar day of a time in Bangkok.
pub record Calendar : Type 0 where
  pub average : Decimal → ℕ → Decimal
  pub venue_day : ℕ → ℕ

module _ (cal : Calendar) where
  average_of : Option Decimal → ℕ → Option Decimal
  average_of none matched = none
  average_of (some amount) matched =
      if is_positive amount && ltb 0 matched then some (cal.average amount matched) else none

  unfoldable pub fill_price_for : OrderRow → VenueOrderItem → Option Decimal
  unfolding average_of
  fill_price_for row item =
      first_price (real_price item.price)
        (first_price (average_of item.amount item.matched) (first_price row.price row.stop_price))

  unfoldable pub absence_is_informative : OrderRow → ℕ → Bool
  absence_is_informative row now = cal.venue_day row.created_at == cal.venue_day now

  -- What a plan reads of a venue order.
  abbrev pub seen : OrderRow → VenueOrderItem → Listed
  seen row item = record {
    order_no = item.order_no;
    matched = item.matched;
    state = classify_venue_state item;
    reason = reject_reason item;
    price = fill_price_for row item;
  }

  unfoldable pub plan_actions :
      OrderRow → ℕ → Option VenueOrderItem → ℕ → Bool → List ReconcileAction
  plan_actions row filled_qty none now is_ambiguous =
      plan_absent row now is_ambiguous (absence_is_informative row now)
  plan_actions row filled_qty (some item) now is_ambiguous =
      plan_present row filled_qty (seen row item)
