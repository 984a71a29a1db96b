-- ===== src/Core/StateMachine/Graph.antt =====
-- The order machine of core/state_machine.py as a step relation, and the paths through it.
use quant_execution_engine.Prelude.{◌≡◌, ◌≢◌, ◌↔◌, ◌⊎◌, inl, inr, true, false, refl, arith}
use quant_execution_engine.Contracts.Enums.{
  OrderState, pending_new, new, partially_filled, filled, pending_cancel, pending_replace,
  cancelled, rejected, expired, same_state,
}
use quant_execution_engine.Core.StateMachine.{is_terminal, is_legal}

-- One edge of the frozen graph, as the comments of the source and of the schema draw it.
infix 40 ◌⟶◌ ◌⟶*◌
pub data ◌⟶◌ : OrderState → OrderState → Type 0 where
  ack : pending_new ⟶ new
  refuse : pending_new ⟶ rejected
  part : new ⟶ partially_filled
  fill : new ⟶ filled
  expire : new ⟶ expired
  ask_cancel : new ⟶ pending_cancel
  ask_replace : new ⟶ pending_replace
  finish : partially_filled ⟶ filled
  expire_part : partially_filled ⟶ expired
  ask_cancel_part : partially_filled ⟶ pending_cancel
  ask_replace_part : partially_filled ⟶ pending_replace
  cancel : pending_cancel ⟶ cancelled
  replace : pending_replace ⟶ new

pub data ◌⟶*◌ : OrderState → OrderState → Type 0 where
  here : {s : OrderState} → s ⟶* s
  next : {s t u : OrderState} → s ⟶ t → t ⟶* u → s ⟶* u

ruleset edges = (
  ack, refuse, part, fill, expire, ask_cancel, ask_replace, finish, expire_part, ask_cancel_part,
  ask_replace_part, cancel, replace,
)

pub same_state_refl : (s : OrderState) → same_state s s ≡ true
same_state_refl pending_new = refl
same_state_refl _ = refl

pub eq_of_same_state : (s t : OrderState) → same_state s t ≡ true → s ≡ t
eq_of_same_state s t h = ground arith

is_legal-edge : (s t : OrderState) → is_legal s t ≡ true → (s ≡ t) ⊎ (s ⟶ t)
unfolding is_legal
is_legal-edge s t h = grind (arith, edges)

edge-is_legal : {s t : OrderState} → s ⟶ t → is_legal s t ≡ true
unfolding is_legal
edge-is_legal ack = refl
edge-is_legal refuse = refl
edge-is_legal part = refl
edge-is_legal fill = refl
edge-is_legal expire = refl
edge-is_legal ask_cancel = refl
edge-is_legal ask_replace = refl
edge-is_legal finish = refl
edge-is_legal expire_part = refl
edge-is_legal ask_cancel_part = refl
edge-is_legal ask_replace_part = refl
edge-is_legal cancel = refl
edge-is_legal replace = refl

-- `is_legal` accepts a move exactly when it stays put or follows one edge of the frozen graph.
pub is_legal_iff : (s t : OrderState) → (is_legal s t ≡ true) ↔ ((s ≡ t) ⊎ (s ⟶ t))
is_legal_iff s t = (is_legal-edge s t, elim [ inl e ↦ legal_same e | inr e ↦ edge-is_legal e ])
  where
    legal_same : s ≡ t → is_legal s t ≡ true
    legal_same e = unfold is_legal in rw (← e, same_state_refl s)

terminal_no_edge : {s t : OrderState} → s ⟶ t → is_terminal s ≡ true → ⊥
unfolding is_terminal
terminal_no_edge ack h = cc
terminal_no_edge refuse h = cc
terminal_no_edge part h = cc
terminal_no_edge fill h = cc
terminal_no_edge expire h = cc
terminal_no_edge ask_cancel h = cc
terminal_no_edge ask_replace h = cc
terminal_no_edge finish h = cc
terminal_no_edge expire_part h = cc
terminal_no_edge ask_cancel_part h = cc
terminal_no_edge ask_replace_part h = cc
terminal_no_edge cancel h = cc
terminal_no_edge replace h = cc

-- A terminal state is never left, by any number of legal moves.
terminal_absorbs : {s t : OrderState} → is_terminal s ≡ true → s ⟶* t → s ≡ t
terminal_absorbs h here = refl
terminal_absorbs h (next e p) = absurd (terminal_no_edge e h)

-- A row of moves that `is_legal` accepts.
pub data IsAccepted : OrderState → OrderState → Type 0 where
  stopped : {s : OrderState} → IsAccepted s s
  moved : {s t u : OrderState} → is_legal s t ≡ true → IsAccepted t u → IsAccepted s u

way_out :
    (s : OrderState)
    → is_terminal s ≡ false
    → (t : OrderState) × (is_terminal t ≡ true) × IsAccepted s t
unfolding is_terminal is_legal
way_out pending_new h = (rejected, refl, moved refl stopped)
way_out new h = (filled, refl, moved refl stopped)
way_out partially_filled h = (filled, refl, moved refl stopped)
way_out pending_cancel h = (cancelled, refl, moved refl stopped)
way_out pending_replace h = (filled, refl, moved {t = new} refl (moved refl stopped))
way_out filled h = cc
way_out cancelled h = cc
way_out rejected h = cc
way_out expired h = cc

no_way_out : (s t : OrderState) → is_terminal s ≡ true → is_legal s t ≡ true → s ≡ t
unfolding is_terminal is_legal
no_way_out s t h l = ground (arith, h, l)

-- From each state that is not terminal, moves that `is_legal` accepts lead to a terminal one; from a
-- terminal state it accepts no move to another.
pub live_can_end :
    (s : OrderState)
    → (is_terminal s ≡ false → (t : OrderState) × (is_terminal t ≡ true) × IsAccepted s t)
      × (is_terminal s ≡ true → (t : OrderState) → is_legal s t ≡ true → s ≡ t)
live_can_end s = (way_out s, λ h t l. no_way_out s t h l)

abbrev WasAcked : OrderState → Type 0
WasAcked s = (s ≢ pending_new) × (s ≢ rejected)

edge-WasAcked : {s t : OrderState} → s ⟶ t → WasAcked s → WasAcked t
edge-WasAcked ack h = absurd (h.0 refl)
edge-WasAcked refuse h = absurd (h.0 refl)
edge-WasAcked part h = (λ e. cc, λ e. cc)
edge-WasAcked fill h = (λ e. cc, λ e. cc)
edge-WasAcked expire h = (λ e. cc, λ e. cc)
edge-WasAcked ask_cancel h = (λ e. cc, λ e. cc)
edge-WasAcked ask_replace h = (λ e. cc, λ e. cc)
edge-WasAcked finish h = (λ e. cc, λ e. cc)
edge-WasAcked expire_part h = (λ e. cc, λ e. cc)
edge-WasAcked ask_cancel_part h = (λ e. cc, λ e. cc)
edge-WasAcked ask_replace_part h = (λ e. cc, λ e. cc)
edge-WasAcked cancel h = (λ e. cc, λ e. cc)
edge-WasAcked replace h = (λ e. cc, λ e. cc)

-- An order that has been acknowledged never becomes `pending_new` or `rejected` again.
pub acked_stays_acked :
    {s t : OrderState}
    → s ≢ pending_new
    → s ≢ rejected
    → s ⟶* t
    → (t ≢ pending_new) × (t ≢ rejected)
acked_stays_acked n r here = (n, r)
acked_stays_acked n r (next e p) =
    let kept = edge-WasAcked e (n, r) in acked_stays_acked kept.0 kept.1 p

-- The state on the last step of a path into `cancelled` is `pending_cancel`.
edge-into_cancelled : {s t : OrderState} → s ⟶ t → t ≡ cancelled → s ≡ pending_cancel
edge-into_cancelled cancel h = refl
edge-into_cancelled ack h = cc
edge-into_cancelled refuse h = cc
edge-into_cancelled part h = cc
edge-into_cancelled fill h = cc
edge-into_cancelled expire h = cc
edge-into_cancelled ask_cancel h = cc
edge-into_cancelled ask_replace h = cc
edge-into_cancelled finish h = cc
edge-into_cancelled expire_part h = cc
edge-into_cancelled ask_cancel_part h = cc
edge-into_cancelled ask_replace_part h = cc
edge-into_cancelled replace h = cc
