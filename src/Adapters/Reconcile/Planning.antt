-- ===== src/Adapters/Reconcile/Planning.antt =====
-- `plan_actions` of adapters/liberator/reconciler.py and its twin in adapters/streaming_pro, which
-- touch nothing; the two plan the same for a row that the venue lists.
pub mod Edges
use quant_execution_engine.Prelude.{
  ℕ, ◌+◌, ◌-◌, Bool, true, false, List, [], ◌∷◌, ◌++◌, Option, none, some, String, ltb, is_empty,
  if◌then◌else◌,
}
use quant_execution_engine.Prelude.Decimal.{Decimal, is_positive}
use quant_execution_engine.Contracts.Enums.{OrderState, pending_new, pending_cancel, same_state}
use quant_execution_engine.Db.Models.{OrderRow}
use quant_execution_engine.Events.Models.{FillId, venue_fill}

pub data VenueOrderState : Type 0 where
  resting cancelled rejected expired : VenueOrderState

-- `ReconcileAction`, with what its kind carries; the order's id is that of the planned row.
pub data ReconcileAction : Type 0 where
  ack : String → ReconcileAction
  fill : ℕ → Decimal → FillId → ℕ → ReconcileAction
  cancel_two_step cancel_confirm expire : ReconcileAction
  reject post_ack_reject : String → ReconcileAction

-- What a plan reads of an order that the venue lists: its number, what it has matched, its state,
-- the reason of a reject, and the price of a fill, if one can be derived.
pub record Listed : Type 0 where
  pub order_no : String
  pub matched : ℕ
  pub state : VenueOrderState
  pub reason : String
  pub price : Option Decimal

-- `x if x is not None and x > 0`
abbrev pub real_price : Option Decimal → Option Decimal
real_price none = none
real_price (some p) = if is_positive p then some p else none

abbrev pub first_price : Option Decimal → Option Decimal → Option Decimal
first_price none other = other
first_price (some p) other = some p

-- `code or show or status`
abbrev pub first_text : String → String → String → String
first_text code show status =
    if is_empty code then (if is_empty show then status else show) else code

terminal_actions_of : VenueOrderState → OrderState → String → List ReconcileAction
terminal_actions_of cancelled status reason = cancel_two_step ∷ []
terminal_actions_of expired status reason = expire ∷ []
terminal_actions_of rejected status reason =
    if same_state status pending_new then reject reason ∷ [] else post_ack_reject reason ∷ []
terminal_actions_of resting status reason = []

-- `_venue_terminal_actions`
unfoldable pub venue_terminal_actions : OrderRow → Listed → List ReconcileAction
unfolding terminal_actions_of
venue_terminal_actions row l = terminal_actions_of l.state row.status l.reason

abbrev is_reject : List ReconcileAction → Bool
is_reject (reject _ ∷ _) = true
is_reject _ = false

-- The plan for a row that the venue does not list. `absence_confirms` says whether that absence
-- stands for a cancel.
unfoldable pub plan_absent : OrderRow → ℕ → Bool → Bool → List ReconcileAction
plan_absent row now is_ambiguous absence_confirms =
    if same_state row.status pending_new
    then (if is_ambiguous
        then []
        else if ltb (row.created_at + 60000) now
        then reject "ack_lost_unmatched" ∷ []
        else [])
    else if same_state row.status pending_cancel
    then (if absence_confirms then cancel_confirm ∷ [] else [])
    else []

fill_of : OrderRow → ℕ → Listed → Option Decimal → List ReconcileAction
fill_of row filled_qty l none = []
fill_of row filled_qty l (some price) =
    fill (l.matched - filled_qty) price (venue_fill l.order_no l.matched) row.quantity ∷ []

-- The fill of what the venue has matched beyond the store, and then the venue's terminal state.
plan_live : OrderRow → ℕ → Listed → List ReconcileAction
unfolding fill_of
plan_live row filled_qty l =
    (if ltb filled_qty l.matched then fill_of row filled_qty l l.price else [])
    ++ (if ltb l.matched row.quantity then venue_terminal_actions row l else [])

plan_cancelling : VenueOrderState → List ReconcileAction
plan_cancelling cancelled = cancel_confirm ∷ []
plan_cancelling expired = cancel_confirm ∷ []
plan_cancelling _ = []

unfoldable pub plan_present : OrderRow → ℕ → Listed → List ReconcileAction
unfolding plan_live plan_cancelling
plan_present row filled_qty l =
    if same_state row.status pending_new
    then (let terminal = venue_terminal_actions row l in
        if is_reject terminal then terminal else ack l.order_no ∷ plan_live row filled_qty l)
    else if same_state row.status pending_cancel
    then plan_cancelling l.state
    else plan_live row filled_qty l
