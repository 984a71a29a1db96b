-- ===== src/Core/StateMachine.antt =====
-- core/state_machine.py: the frozen order machine. Its proofs are in the child module.
pub mod Graph
use quant_execution_engine.Prelude.{
  Bool, true, false, ◌&&◌, ◌||◌, not, List, [], ◌∷◌, any, if◌then◌else◌,
}
use quant_execution_engine.Contracts.Enums.{
  OrderState, pending_new, new, partially_filled, filled, pending_cancel, pending_replace,
  cancelled, rejected, expired, same_state,
}
use quant_execution_engine.Contracts.Errors.{Result, Done, raise_if, illegal_transition}

abbrev pub entry_state : OrderState
entry_state = pending_new

-- `TERMINAL_STATES`
abbrev terminal_states : List OrderState
terminal_states = filled ∷ cancelled ∷ rejected ∷ expired ∷ []

-- `LEGAL_EDGES`
abbrev legal_edges : List (OrderState × OrderState)
legal_edges =
    (pending_new, new)
    ∷ (pending_new, rejected)
    ∷ (new, partially_filled)
    ∷ (new, filled)
    ∷ (new, expired)
    ∷ (new, pending_cancel)
    ∷ (new, pending_replace)
    ∷ (partially_filled, filled)
    ∷ (partially_filled, expired)
    ∷ (partially_filled, pending_cancel)
    ∷ (partially_filled, pending_replace)
    ∷ (pending_cancel, cancelled)
    ∷ (pending_replace, new)
    ∷ []

unfoldable pub is_terminal : OrderState → Bool
is_terminal state = any (same_state state) terminal_states

abbrev same_edge : OrderState → OrderState → OrderState × OrderState → Bool
same_edge a b (x, y) = same_state a x && same_state b y

unfoldable pub is_legal : OrderState → OrderState → Bool
is_legal from_state to_state =
    if same_state from_state to_state then true else any (same_edge from_state to_state) legal_edges

unfoldable pub assert_legal : OrderState → OrderState → Result Done
unfolding is_legal
assert_legal from_state to_state = raise_if (not (is_legal from_state to_state)) illegal_transition
