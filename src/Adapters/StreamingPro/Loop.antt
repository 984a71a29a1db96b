-- ===== src/Adapters/StreamingPro/Loop.antt =====
-- adapters/streaming_pro/reconciler.py: `StreamingProReconciler` over the store.
pub mod Calls
use quant_execution_engine.Prelude.{ℕ, ◌&&◌, List, String, same_text}
use quant_execution_engine.Contracts.Enums.{Broker, Market, same_market}
use quant_execution_engine.Contracts.Errors.{Result}
use quant_execution_engine.Core.World.{Node, Action, Call, lift, ask, get_orders, ◌>>=◌}
use quant_execution_engine.Adapters.Reconcile.Pass.{Reconciler, run_once}
use quant_execution_engine.Adapters.StreamingPro.Mapping.{VenueOrderRow}
use quant_execution_engine.Adapters.StreamingPro.Planning.{shown, plan_actions}

-- What the bridge answers to a read of an account's orders in a market; a transport error is
-- `adapter_failed`.
abbrev pub Bridge : Type 0
Bridge = String → Market → List Call → Result (List VenueOrderRow)

unfoldable pub fetch_venue_orders : Node → Bridge → String → Market → Action (List VenueOrderRow)
fetch_venue_orders node bridge account market = do
  answer ← ask node.env (get_orders account) (bridge account market)
  lift answer

module _ (node : Node) (bridge : Bridge) where
  -- Grouped by account and market, since each market is a front of its own.
  abbrev pub reconciler : Reconciler VenueOrderRow
  reconciler = record {
    broker = Broker.streaming_pro;
    shown = shown;
    plan = plan_actions;
    fetch = λ row. fetch_venue_orders node bridge row.account row.market;
    same_group = λ x y. same_text x.account y.account && same_market x.market y.market;
  }

  unfoldable pub reconcile_once : Action ℕ
  reconcile_once = run_once node reconciler
