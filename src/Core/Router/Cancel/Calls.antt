-- ===== src/Core/Router/Cancel/Calls.antt =====
-- The calls of Core/Router/Cancel.antt against the log: none places an order.
use quant_execution_engine.Prelude.{Bool, true, false, List, [], ◌∷◌, Option, none, some, String}
use quant_execution_engine.Contracts.Enums.{
  OrderState, pending_new, pending_cancel, pending_replace, cancelled,
}
use quant_execution_engine.Contracts.Errors.{Done}
use quant_execution_engine.Core.HandleRecovery.{caught}
use quant_execution_engine.Core.HandleRecovery.Bounded.{Safe-caught}
use quant_execution_engine.Core.Stage.{Adapter, trade}
use quant_execution_engine.Core.StateMachine.{is_terminal}
use quant_execution_engine.Core.World.{Action, lift, query, ◌>>=◌}
use quant_execution_engine.Core.World.Quiet.{
  Watched, Safe, Safe-query, Safe-lift, Safe-bind, Safe-if,
}
use quant_execution_engine.Core.Router.Parts.{
  Router, route, guard_breaker, adapter_cancel, set_status,
}
use quant_execution_engine.Core.Router.Parts.Calls.{
  guard_breaker-Safe, adapter_cancel-Safe, set_status-Safe,
}
use quant_execution_engine.Core.Router.Settle.Calls.{IsSound}
use quant_execution_engine.Core.Router.Cancel.{
  get, found_result, cancel, cancel_live, confirm, cancel_in, cancel_row, mass_cancel, sweep,
  sweep_one,
}
use quant_execution_engine.Db.Models.{OrderRow, OrderResultRow}
use quant_execution_engine.Db.Repositories.{fetch_order, fetch_order_result, fetch_open_orders}

module _ (r : Router) (sound : IsSound r) (watch : Watched) where
  found_result-Safe : (row : Option OrderResultRow) → Safe watch (found_result row)
  unfolding found_result
  found_result-Safe none w v = v
  found_result-Safe (some row) w v = v

  pub get-Safe : (order : String) → Safe watch (get r.node order)
  unfolding get
  get-Safe order =
      Safe-bind watch (query r.node.env (λ db. fetch_order_result db order)) _
        (Safe-query r.node.env sound.fair watch (λ db. fetch_order_result db order))
        found_result-Safe

  confirm-Safe : (done : Bool) → Safe watch (confirm done)
  unfolding confirm
  confirm-Safe true w v = v
  confirm-Safe false w v = v

  status-Safe : (order : String) (state : OrderState) → Safe watch (set_status r.node order state)
  status-Safe order state = set_status-Safe r.node sound.fair watch order state

  -- The venue's confirmation, and what follows it.
  confirmed-Safe {ℓ} :
      {A : Type ℓ} (a : Adapter) (order : String) (rest : Done → Action A)
      → ((x : Done) → Safe watch (rest x))
      → Safe watch (adapter_cancel r.node a order >>= λ done. confirm done >>= rest)
  confirmed-Safe a order rest after =
      Safe-bind watch (adapter_cancel r.node a order) _
        (adapter_cancel-Safe r.node sound.fair watch a order)
        (λ done. Safe-bind watch (confirm done) rest (confirm-Safe done) after)

  cancel_live-Safe : (row : OrderRow) → Safe watch (cancel_live r.node row)
  unfolding cancel_live
  cancel_live-Safe row =
      let order = row.client_order_id in
      Safe-bind watch (lift (route r.node row.broker row.account trade)) _
        (Safe-lift watch (route r.node row.broker row.account trade))
        (λ a.
          Safe-bind watch (guard_breaker a) _ (guard_breaker-Safe r.node sound.fair watch a) (λ _.
            Safe-bind watch (set_status r.node order pending_cancel) _
              (status-Safe order pending_cancel)
              (λ _. confirmed-Safe a order _ (λ _.
                Safe-bind watch (set_status r.node order cancelled) _ (status-Safe order cancelled)
                  (λ _. get-Safe order)))))

  cancel_in-Safe : (state : OrderState) (row : OrderRow) → Safe watch (cancel_in r.node state row)
  unfolding cancel_in
  cancel_in-Safe pending_cancel row = get-Safe row.client_order_id
  cancel_in-Safe pending_new row = λ w v. v
  cancel_in-Safe pending_replace row = λ w v. v
  cancel_in-Safe _ row = cancel_live-Safe row

  cancel_row-Safe : (row : Option OrderRow) → Safe watch (cancel_row r.node row)
  unfolding cancel_row
  cancel_row-Safe none = λ w v. v
  cancel_row-Safe (some row) =
      Safe-if watch (is_terminal row.status) _ (cancel_in r.node row.status row) (λ w v. v)
        (cancel_in-Safe row.status row)

  pub cancel-Safe : (order : String) → Safe watch (cancel r.node order)
  unfolding cancel
  cancel-Safe order =
      Safe-bind watch (query r.node.env (λ db. fetch_order db order)) _
        (Safe-query r.node.env sound.fair watch (λ db. fetch_order db order)) cancel_row-Safe

  sweep_one-Safe : (row : OrderRow) → Safe watch (sweep_one r.node row)
  unfolding sweep_one
  sweep_one-Safe row =
      let order = row.client_order_id in
      Safe-bind watch (lift (route r.node row.broker row.account trade)) _
        (Safe-lift watch (route r.node row.broker row.account trade))
        (λ a.
          Safe-bind watch (set_status r.node order pending_cancel) _
            (status-Safe order pending_cancel)
            (λ _. confirmed-Safe a order _ (λ _. status-Safe order cancelled)))

  sweep-Safe : (rows : List OrderRow) → Safe watch (sweep r.node rows)
  unfolding sweep
  sweep-Safe [] = λ w v. v
  sweep-Safe (row ∷ rest) =
      let later = sweep-Safe rest in
      Safe-bind watch (caught (sweep_one r.node row)) _
        (Safe-caught watch (sweep_one r.node row) (sweep_one-Safe row))
        (λ outcome. Safe-bind watch (sweep r.node rest) _ later (λ s w v. v))

  pub mass_cancel-Safe : Safe watch (mass_cancel r.node)
  unfolding mass_cancel
  mass_cancel-Safe =
      Safe-bind watch (query r.node.env fetch_open_orders) _
        (Safe-query r.node.env sound.fair watch fetch_open_orders) sweep-Safe
