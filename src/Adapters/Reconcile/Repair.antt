-- ===== src/Adapters/Reconcile/Repair.antt =====
-- `_execute` of adapters/liberator/reconciler.py and its twin in adapters/streaming_pro, which are
-- the same text: the planned actions on the store.
pub mod Calls
use quant_execution_engine.Prelude.{ℕ, ◌+◌, List, [], ◌∷◌, Option, none, some, String}
use quant_execution_engine.Contracts.Enums.{
  OrderState, pending_cancel, cancelled, rejected, expired,
}
use quant_execution_engine.Contracts.Errors.{Result, Done, ok, err}
use quant_execution_engine.Core.HandleRecovery.{caught}
use quant_execution_engine.Core.World.{Node, World, Action, pure, now, statement, ◌>>=◌, ◌>>◌}
use quant_execution_engine.Core.Router.Parts.{set_status, acknowledge, store_reason}
use quant_execution_engine.Core.Router.Settle.{reason_or}
use quant_execution_engine.Db.Models.{OrderRow, OrderResultRow, FillRow}
use quant_execution_engine.Db.Repositories.{apply_fill}
use quant_execution_engine.Adapters.Reconcile.Planning.{
  ReconcileAction, ack, fill, cancel_two_step, cancel_confirm, expire, reject, post_ack_reject,
}

-- `_execute`, for the order of the planned row.
unfoldable pub execute : Node → String → ReconcileAction → Action Done
execute node cid (ack handle) = acknowledge node cid handle
execute node cid (fill qty price id total) = do
  exec_ts ← now node.env
  time ← now node.env
  statement node.env (
      apply_fill node.schema time
        (record {
          client_order_id = cid;
          broker_fill_id = id;
          price = price;
          quantity = qty;
          exec_ts = exec_ts;
        })
        total)
  pure tt
execute node cid cancel_two_step = do
  set_status node cid pending_cancel
  set_status node cid cancelled
execute node cid cancel_confirm = set_status node cid cancelled
execute node cid expire = set_status node cid expired
execute node cid (reject reason) = do
  set_status node cid rejected
  store_reason node cid (reason_or (some reason) "rejected at venue")
execute node cid (post_ack_reject reason) = do
  store_reason node cid (reason_or (some reason) "rejected at venue")
  set_status node cid pending_cancel
  set_status node cid cancelled

abbrev one_if_ok : Result Done → ℕ
one_if_ok (ok _) = 1
one_if_ok (err _) = 0

-- The planned actions in their order, each tried; how many of them were applied.
unfoldable pub execute_all : Node → String → List ReconcileAction → Action ℕ
execute_all node cid [] = pure 0
execute_all node cid (a ∷ rest) = do
  outcome ← caught (execute node cid a)
  applied ← execute_all node cid rest
  pure (one_if_ok outcome + applied)

abbrev pub filled_or : Option OrderResultRow → ℕ
filled_or none = 0
filled_or (some r) = r.filled_qty

-- The numbers that other rows hold.
abbrev pub handles : List OrderRow → List String
handles [] = []
handles (row ∷ rest) = elim row.broker_order_id [ none ↦ handles rest | some h ↦ h ∷ handles rest ]
