-- ===== src/Core/Router/Parts/Calls.antt =====
-- The calls of Core/Router/Parts.antt against the log: only a placement counts in it.
use quant_execution_engine.Prelude.{refl, String}
use quant_execution_engine.Contracts.Enums.{OrderState}
use quant_execution_engine.Core.Stage.{Adapter}
use quant_execution_engine.Core.Router.Parts.{
  guard_breaker, adapter_cancel, cancel_answer, set_status, acknowledge, store_reason,
}
use quant_execution_engine.Core.World.{Node, ask, lift, now, read_clock, venue_cancel}
use quant_execution_engine.Core.World.Quiet.{
  Watched, IsFair, Safe, Safe-ask, Safe-lift, Safe-bind, Safe-statement,
}
use quant_execution_engine.Db.Repositories.{update_status, ack_order}
use quant_execution_engine.Db.Repositories.Writes.{
  update_status-Preserves, ack_order-Preserves, set_reject_reason-Preserves,
}

module _ (node : Node) (fair : IsFair node.env) (watch : Watched) where
  pub guard_breaker-Safe : (a : Adapter) → Safe watch (guard_breaker a)
  unfolding guard_breaker
  guard_breaker-Safe a w v = v

  pub adapter_cancel-Safe :
      (a : Adapter) (order : String) → Safe watch (adapter_cancel node a order)
  unfolding adapter_cancel
  adapter_cancel-Safe a order =
      Safe-bind watch (ask node.env (venue_cancel a order) (cancel_answer node a order)) lift
        (Safe-ask node.env fair watch (venue_cancel a order) (cancel_answer node a order) refl)
        (Safe-lift watch)

  pub set_status-Safe :
      (order : String) (state : OrderState) → Safe watch (set_status node order state)
  unfolding set_status
  set_status-Safe order state =
      Safe-bind watch (now node.env) _ (Safe-ask node.env fair watch read_clock node.env.clock refl)
        (λ time.
          Safe-statement node.env fair watch (update_status node.schema time order state)
            (update_status-Preserves node.schema time order state))

  pub acknowledge-Safe : (order handle : String) → Safe watch (acknowledge node order handle)
  unfolding acknowledge
  acknowledge-Safe order handle =
      Safe-bind watch (now node.env) _ (Safe-ask node.env fair watch read_clock node.env.clock refl)
        (λ time.
          Safe-statement node.env fair watch (ack_order node.schema time order handle)
            (ack_order-Preserves node.schema time order handle))

  pub store_reason-Safe : (order reason : String) → Safe watch (store_reason node order reason)
  unfolding store_reason
  store_reason-Safe order reason =
      Safe-statement node.env fair watch _ (set_reject_reason-Preserves order reason)
