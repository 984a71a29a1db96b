-- ===== src/Adapters/Reconcile/Repair/Calls.antt =====
-- The planned actions against the log: none places an order.
use quant_execution_engine.Prelude.{refl, List, [], ◌∷◌, some, String}
use quant_execution_engine.Contracts.Enums.{
  OrderState, pending_cancel, cancelled, rejected, expired,
}
use quant_execution_engine.Core.HandleRecovery.{caught}
use quant_execution_engine.Core.HandleRecovery.Bounded.{Safe-caught}
use quant_execution_engine.Core.World.{Node, now, statement, read_clock}
use quant_execution_engine.Core.World.Quiet.{
  Watched, IsFair, Safe, Safe-ask, Safe-statement, Safe-bind,
}
use quant_execution_engine.Core.Router.Parts.{set_status, store_reason}
use quant_execution_engine.Core.Router.Parts.Calls.{
  set_status-Safe, acknowledge-Safe, store_reason-Safe,
}
use quant_execution_engine.Core.Router.Settle.{reason_or}
use quant_execution_engine.Db.Models.{FillRow}
use quant_execution_engine.Db.Repositories.{apply_fill}
use quant_execution_engine.Db.Repositories.Evolution.{IsFrozen}
use quant_execution_engine.Db.Repositories.Writes.{apply_fill-Preserves}
use quant_execution_engine.Adapters.Reconcile.Planning.{
  ReconcileAction, ack, fill, cancel_two_step, cancel_confirm, expire, reject, post_ack_reject,
}
use quant_execution_engine.Adapters.Reconcile.Repair.{execute, execute_all}

module _ (node : Node) (fair : IsFair node.env) (frozen : IsFrozen node.schema)
    (watch : Watched) where
  status-Safe : (order : String) (state : OrderState) → Safe watch (set_status node order state)
  status-Safe order state = set_status-Safe node fair watch order state

  execute-Safe : (order : String) (a : ReconcileAction) → Safe watch (execute node order a)
  unfolding execute
  execute-Safe order (ack handle) = acknowledge-Safe node fair watch order handle
  execute-Safe order (fill qty price id total) =
      let read = Safe-ask node.env fair watch read_clock node.env.clock refl in
      Safe-bind watch (now node.env) _ read (λ exec_ts.
        Safe-bind watch (now node.env) _ read (λ time.
          let f : FillRow = record {
            client_order_id = order;
            broker_fill_id = id;
            price = price;
            quantity = qty;
            exec_ts = exec_ts;
          } in
          Safe-bind watch (statement node.env (apply_fill node.schema time f total)) _
            (Safe-statement node.env fair watch (apply_fill node.schema time f total)
              (λ db. apply_fill-Preserves node.schema time f total db frozen))
            (λ _ w v. v)))
  execute-Safe order cancel_two_step =
      Safe-bind watch (set_status node order pending_cancel) _ (status-Safe order pending_cancel)
        (λ _. status-Safe order cancelled)
  execute-Safe order cancel_confirm = status-Safe order cancelled
  execute-Safe order expire = status-Safe order expired
  execute-Safe order (reject reason) =
      Safe-bind watch (set_status node order rejected) _ (status-Safe order rejected)
        (λ _. store_reason-Safe node fair watch order (reason_or (some reason) "rejected at venue"))
  execute-Safe order (post_ack_reject reason) =
      Safe-bind watch (store_reason node order (reason_or (some reason) "rejected at venue")) _
        (store_reason-Safe node fair watch order (reason_or (some reason) "rejected at venue"))
        (λ _.
          Safe-bind watch (set_status node order pending_cancel) _
            (status-Safe order pending_cancel) (λ _. status-Safe order cancelled))

  pub execute_all-Safe :
      (order : String) (actions : List ReconcileAction)
      → Safe watch (execute_all node order actions)
  unfolding execute_all
  execute_all-Safe order [] = λ w v. v
  execute_all-Safe order (a ∷ rest) =
      let later = execute_all-Safe order rest in
      Safe-bind watch (caught (execute node order a)) _
        (Safe-caught watch (execute node order a) (execute-Safe order a))
        (λ outcome. Safe-bind watch (execute_all node order rest) _ later (λ applied w v. v))
