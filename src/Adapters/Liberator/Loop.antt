-- ===== src/Adapters/Liberator/Loop.antt =====
-- adapters/liberator/reconciler.py: `LiberatorReconciler` over the store.
pub mod Calls
use quant_execution_engine.Prelude.{
  ℕ, Bool, true, false, ◌&&◌, not, List, Option, none, some, String, same_text, keep, if◌then◌else◌,
}
use quant_execution_engine.Contracts.Enums.{Broker}
use quant_execution_engine.Contracts.Errors.{Result}
use quant_execution_engine.Core.HandleRecovery.{HandleResolver}
use quant_execution_engine.Core.World.{
  Node, World, Action, Call, pure, lift, ask, now, query, get_orders, ◌>>=◌, ◌>>◌,
}
use quant_execution_engine.Db.Models.{OrderRow}
use quant_execution_engine.Db.Repositories.{fetch_order, fetch_orders_for_reconcile}
use quant_execution_engine.Adapters.Reconcile.Pass.{Reconciler, apply_row, run_once}
use quant_execution_engine.Adapters.Reconcile.Repair.{handles}
use quant_execution_engine.Adapters.Liberator.Mapping.{VenueOrderItem}
use quant_execution_engine.Adapters.Liberator.Planning.{Calendar, shown, plan_actions, is_resolved}

-- What the venue answers to a read of an account's orders; a transport error is `adapter_failed`.
abbrev pub Venue : Type 0
Venue = String → List Call → Result (List VenueOrderItem)

unfoldable pub fetch_venue_orders : Node → Venue → String → Action (List VenueOrderItem)
fetch_venue_orders node venue account = do
  answer ← ask node.env (get_orders account) (venue account)
  lift answer

module _ (cal : Calendar) (node : Node) (venue : Venue) where
  abbrev pub reconciler : Reconciler VenueOrderItem
  reconciler = record {
    broker = Broker.liberator;
    shown = shown;
    plan = plan_actions cal;
    fetch = λ row. fetch_venue_orders node venue row.account;
    same_group = λ x y. same_text x.account y.account;
  }

  unfoldable pub reconcile_once : Action ℕ
  reconcile_once = run_once node reconciler

  -- The numbers of the other rows of the account.
  others_claimed : OrderRow → List OrderRow → List String
  others_claimed row rows = handles (
      keep
        (λ r.
          same_text r.account row.account && not (same_text r.client_order_id row.client_order_id))
        rows)

  after_read : Option OrderRow → Bool
  after_read none = false
  after_read (some row) = is_resolved row

  resolve_row : Option OrderRow → Action Bool
  unfolding others_claimed after_read
  resolve_row none = pure true
  resolve_row (some row) = if is_resolved row then pure true else (do
    rows ← query node.env (λ db. fetch_orders_for_reconcile db Broker.liberator false)
    items ← fetch_venue_orders node venue row.account
    time ← now node.env
    apply_row node reconciler row items (others_claimed row rows) time false
    after ← query node.env (λ db. fetch_order db row.client_order_id)
    pure (after_read after))

  unfoldable pub resolve_order_now : HandleResolver
  unfolding resolve_row
  resolve_order_now cid = do row ← query node.env (λ db. fetch_order db cid); resolve_row row
