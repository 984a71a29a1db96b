-- ===== src/Adapters/Liberator/Loop/Calls.antt =====
-- `LiberatorReconciler` against the log: neither its pass nor its resolver places an order.
use quant_execution_engine.Prelude.{refl, false, Option, none, some, String}
use quant_execution_engine.Contracts.Enums.{Broker}
use quant_execution_engine.Core.World.{Node, ask, lift, now, query, read_clock, get_orders}
use quant_execution_engine.Core.World.Quiet.{
  Watched, IsFair, Safe, Safe-ask, Safe-query, Safe-lift, Safe-bind, Safe-if,
}
use quant_execution_engine.Db.Models.{OrderRow}
use quant_execution_engine.Db.Repositories.{fetch_order, fetch_orders_for_reconcile}
use quant_execution_engine.Db.Repositories.Evolution.{IsFrozen}
use quant_execution_engine.Adapters.Reconcile.Pass.{apply_row}
use quant_execution_engine.Adapters.Reconcile.Pass.Calls.{apply_row-Safe, run_once-Safe}
use quant_execution_engine.Adapters.Liberator.Planning.{Calendar, is_resolved}
use quant_execution_engine.Adapters.Liberator.Loop.{
  Venue, fetch_venue_orders, reconciler, reconcile_once, others_claimed, resolve_row,
  resolve_order_now,
}

module _ (cal : Calendar) (node : Node) (venue : Venue) (fair : IsFair node.env)
    (frozen : IsFrozen node.schema) (watch : Watched) where
  fetch_venue_orders-Safe : (account : String) → Safe watch (fetch_venue_orders node venue account)
  unfolding fetch_venue_orders
  fetch_venue_orders-Safe account =
      Safe-bind watch (ask node.env (get_orders account) (venue account)) lift
        (Safe-ask node.env fair watch (get_orders account) (venue account) refl) (Safe-lift watch)

  reads : (row : OrderRow) → Safe watch (fetch_venue_orders node venue row.account)
  reads row = fetch_venue_orders-Safe row.account

  pub reconcile_once-Safe : Safe watch (reconcile_once cal node venue)
  unfolding reconcile_once
  reconcile_once-Safe = run_once-Safe node (reconciler cal node venue) fair frozen watch reads

  resolve_row-Safe : (row : Option OrderRow) → Safe watch (resolve_row cal node venue row)
  unfolding resolve_row
  resolve_row-Safe none = λ w v. v
  resolve_row-Safe (some row) =
      Safe-if watch (is_resolved row) _ _ (λ w v. v)
        (Safe-bind watch
          (query node.env (λ db. fetch_orders_for_reconcile db Broker.liberator false)) _
          (Safe-query node.env fair watch
            (λ db. fetch_orders_for_reconcile db Broker.liberator false))
          (λ rows.
            Safe-bind watch (fetch_venue_orders node venue row.account) _
              (fetch_venue_orders-Safe row.account)
              (λ items.
                Safe-bind watch (now node.env) _
                  (Safe-ask node.env fair watch read_clock node.env.clock refl)
                  (λ time.
                    let claimed = others_claimed cal node venue row rows in
                    Safe-bind watch
                      (apply_row node (reconciler cal node venue) row items claimed time false) _
                      (apply_row-Safe node (reconciler cal node venue) fair frozen watch reads row
                        items claimed time false)
                      (λ _.
                        Safe-bind watch (query node.env (λ db. fetch_order db row.client_order_id))
                          _
                          (Safe-query node.env fair watch
                            (λ db. fetch_order db row.client_order_id))
                          (λ after w v. v))))))

  pub resolve_order_now-Safe :
      (order : String) → Safe watch (resolve_order_now cal node venue order)
  unfolding resolve_order_now
  resolve_order_now-Safe order =
      Safe-bind watch (query node.env (λ db. fetch_order db order)) _
        (Safe-query node.env fair watch (λ db. fetch_order db order)) resolve_row-Safe
