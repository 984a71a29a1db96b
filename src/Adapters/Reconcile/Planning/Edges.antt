-- ===== src/Adapters/Reconcile/Planning/Edges.antt =====
-- The plans of Adapters/Reconcile/Planning.antt against the frozen machine, and what they fill.
use quant_execution_engine.Prelude.{
  ℕ, ◌+◌, ◌-◌, ◌≡◌, ◌≢◌, refl, Bool, true, false, ◌&&◌, List, [], ◌∷◌, ◌++◌, Option, none, some,
  arith, ltb, if◌then◌else◌,
}
use quant_execution_engine.Prelude.Decimal.{Decimal}
use quant_execution_engine.Contracts.Enums.{
  OrderState, pending_new, new, partially_filled, pending_cancel, pending_replace, cancelled,
  rejected, expired, same_state,
}
use quant_execution_engine.Contracts.Orders.{is_some}
use quant_execution_engine.Core.StateMachine.{is_legal, is_terminal}
use quant_execution_engine.Db.Models.{OrderRow}
use quant_execution_engine.Db.Repositories.{fill_target}
use quant_execution_engine.Adapters.Reconcile.Planning.{
  VenueOrderState, ReconcileAction, ack, fill, cancel_two_step, cancel_confirm, expire, reject,
  post_ack_reject, Listed, terminal_actions_of, venue_terminal_actions, is_reject, fill_of,
  plan_absent, plan_live, plan_cancelling, plan_present,
}

-- The statuses that the execution of an action asks the store for, in their order; `filled_qty` is
-- what the store has filled so far.
abbrev asked : ℕ → ReconcileAction → List OrderState
asked filled_qty (ack _) = new ∷ []
asked filled_qty (fill qty _ _ total) = fill_target (filled_qty + qty) total ∷ []
asked filled_qty cancel_two_step = pending_cancel ∷ cancelled ∷ []
asked filled_qty cancel_confirm = cancelled ∷ []
asked filled_qty expire = expired ∷ []
asked filled_qty (reject _) = rejected ∷ []
asked filled_qty (post_ack_reject _) = pending_cancel ∷ cancelled ∷ []

abbrev pub asked_all : ℕ → List ReconcileAction → List OrderState
asked_all filled_qty [] = []
asked_all filled_qty (a ∷ rest) = asked filled_qty a ++ asked_all filled_qty rest

-- Each status is a legal move from the one before.
abbrev pub walks : OrderState → List OrderState → Bool
walks s [] = true
walks s (t ∷ rest) = is_legal s t && walks t rest

-- What the fills of a plan add up to.
abbrev pub planned_qty : List ReconcileAction → ℕ
planned_qty [] = 0
planned_qty (fill qty _ _ _ ∷ rest) = qty + planned_qty rest
planned_qty (_ ∷ rest) = planned_qty rest

abbrev pub is_venue_rejected : VenueOrderState → Bool
is_venue_rejected VenueOrderState.rejected = true
is_venue_rejected _ = false

-- A state that an order at the venue is in: live, and not about to change.
abbrev is_resting : OrderState → Bool
is_resting new = true
is_resting partially_filled = true
is_resting _ = false

terminal_walks :
    (v : VenueOrderState) (row : OrderRow) (l : Listed) (filled_qty : ℕ) (s : OrderState)
    → is_resting s ≡ true
    → is_reject (terminal_actions_of v row.status l.reason) ≡ false
    → walks s (asked_all filled_qty (terminal_actions_of v row.status l.reason)) ≡ true
unfolding terminal_actions_of is_legal
terminal_walks v row l filled_qty s h r = ground arith

planned_none :
    (v : VenueOrderState) (row : OrderRow) (l : Listed)
    → planned_qty (terminal_actions_of v row.status l.reason) ≡ 0
unfolding terminal_actions_of
planned_none v row l = ground arith

module _ (row : OrderRow) (filled_qty : ℕ) (l : Listed) where
  live_walks :
      (price : Option Decimal) (v : VenueOrderState) (s : OrderState)
      → is_resting s ≡ true
      → is_reject (terminal_actions_of v row.status l.reason) ≡ false
      → walks s (
          asked_all filled_qty (
            (if ltb filled_qty l.matched then fill_of row filled_qty l price else [])
            ++ (if ltb l.matched row.quantity
                then terminal_actions_of v row.status l.reason
                else [])))
        ≡ true
  unfolding fill_of is_legal fill_target
  live_walks none v s h r = ground (arith, terminal_walks v row l filled_qty s h r)
  live_walks (some price) v s h r = ground (
    arith,
    terminal_walks v row l filled_qty s h r,
    terminal_walks v row l filled_qty partially_filled refl r,
  )

  walks_in :
      (v : VenueOrderState)
      → l.state ≡ v
      → is_terminal row.status ≡ false
      → row.status ≢ pending_replace
      → walks row.status (asked_all filled_qty (plan_present row filled_qty l)) ≡ true
  unfolding plan_present plan_live plan_cancelling venue_terminal_actions is_terminal is_legal
      terminal_actions_of
  walks_in v e live n =
      ground (arith, e, live_walks l.price v new refl, live_walks l.price v row.status)

  -- The plan for a listed row that is neither terminal nor `pending_replace` asks for legal moves.
  pub present_walks :
      is_terminal row.status ≡ false
      → row.status ≢ pending_replace
      → walks row.status (asked_all filled_qty (plan_present row filled_qty l)) ≡ true
  present_walks live n = walks_in l.state refl live n

  -- What such a plan adds up to in fills.
  pub present_fills : planned_qty (plan_present row filled_qty l) ≡ (
      if same_state row.status pending_cancel
      then 0
      else if same_state row.status pending_new && is_venue_rejected l.state
      then 0
      else if is_some l.price
      then l.matched - filled_qty
      else 0)
  unfolding plan_present plan_live plan_cancelling venue_terminal_actions terminal_actions_of
      fill_of
  present_fills = ground (arith, planned_none l.state row l)

-- The plan for a row that is not listed asks for legal moves.
pub absent_walks :
    (row : OrderRow) (filled_qty now : ℕ) (is_ambiguous absence_confirms : Bool)
    → is_terminal row.status ≡ false
    → row.status ≢ pending_replace
    → walks row.status (asked_all filled_qty (plan_absent row now is_ambiguous absence_confirms))
      ≡ true
unfolding plan_absent is_terminal is_legal
absent_walks row filled_qty now is_ambiguous absence_confirms live n = ground arith
