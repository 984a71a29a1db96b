-- ===== src/Adapters/StreamingPro/Loop/Calls.antt =====
-- `StreamingProReconciler` against the log: its pass places no order.
use quant_execution_engine.Prelude.{refl}
use quant_execution_engine.Core.World.{Node, ask, lift, get_orders}
use quant_execution_engine.Core.World.Quiet.{Watched, IsFair, Safe, Safe-ask, Safe-lift, Safe-bind}
use quant_execution_engine.Db.Models.{OrderRow}
use quant_execution_engine.Db.Repositories.Evolution.{IsFrozen}
use quant_execution_engine.Adapters.Reconcile.Pass.Calls.{run_once-Safe}
use quant_execution_engine.Adapters.StreamingPro.Loop.{
  Bridge, fetch_venue_orders, reconciler, reconcile_once,
}

module _ (node : Node) (bridge : Bridge) (fair : IsFair node.env) (watch : Watched) where
  reads : (row : OrderRow) → Safe watch (fetch_venue_orders node bridge row.account row.market)
  unfolding fetch_venue_orders
  reads row =
      Safe-bind watch (ask node.env (get_orders row.account) (bridge row.account row.market)) lift
        (Safe-ask node.env fair watch (get_orders row.account) (bridge row.account row.market) refl)
        (Safe-lift watch)

  pub reconcile_once-Safe : IsFrozen node.schema → Safe watch (reconcile_once node bridge)
  unfolding reconcile_once
  reconcile_once-Safe frozen = run_once-Safe node (reconciler node bridge) fair frozen watch reads
