-- ===== src/Core/Router/Cancel.antt =====
-- core/router.py: `get`, `cancel` and `mass_cancel`.
pub mod Calls
use quant_execution_engine.Prelude.{
  Bool, true, false, List, [], ◌∷◌, Option, none, some, String, if◌then◌else◌,
}
use quant_execution_engine.Contracts.Enums.{
  OrderState, pending_new, pending_replace, pending_cancel, cancelled,
}
use quant_execution_engine.Contracts.Errors.{
  Result, Done, ok, err, order_not_found, illegal_transition, adapter_failed,
}
use quant_execution_engine.Contracts.Orders.{NormalizedOrderResult}
use quant_execution_engine.Core.HandleRecovery.{caught}
use quant_execution_engine.Core.Stage.{trade}
use quant_execution_engine.Core.StateMachine.{is_terminal}
use quant_execution_engine.Core.World.{Node, Action, pure, raise, lift, query, ◌>>=◌, ◌>>◌}
use quant_execution_engine.Db.Models.{OrderRow, OrderResultRow}
use quant_execution_engine.Db.Repositories.{fetch_order, fetch_order_result, fetch_open_orders}
use quant_execution_engine.Core.Router.Parts.{
  Router, route, guard_breaker, to_result, adapter_cancel, set_status,
}

found_result : Option OrderResultRow → Action NormalizedOrderResult
found_result none = raise order_not_found
found_result (some r) = pure (to_result r)

unfoldable pub get : Node → String → Action NormalizedOrderResult
unfolding found_result
get node cid = do row ← query node.env (λ db. fetch_order_result db cid); found_result row

-- `if not ack.ok: raise AdapterError`
confirm : Bool → Action Done
confirm true = pure tt
confirm false = raise adapter_failed

-- A cancel of an order in a state that has the frozen cancel edge.
unfoldable pub cancel_live : Node → OrderRow → Action NormalizedOrderResult
unfolding confirm
cancel_live node row = do
  a ← lift (route node row.broker row.account trade)
  guard_breaker a
  set_status node row.client_order_id pending_cancel
  done ← adapter_cancel node a row.client_order_id
  confirm done
  set_status node row.client_order_id cancelled
  get node row.client_order_id

cancel_in : Node → OrderState → OrderRow → Action NormalizedOrderResult
cancel_in node pending_cancel row = get node row.client_order_id
cancel_in node pending_new row = raise illegal_transition
cancel_in node pending_replace row = raise illegal_transition
cancel_in node _ row = cancel_live node row

unfoldable pub cancel_row : Node → Option OrderRow → Action NormalizedOrderResult
unfolding cancel_in
cancel_row node none = raise order_not_found
cancel_row node (some row) =
    if is_terminal row.status then raise illegal_transition else cancel_in node row.status row

unfoldable pub cancel : Node → String → Action NormalizedOrderResult
cancel node cid = do row ← query node.env (λ db. fetch_order db cid); cancel_row node row

-- One step of the sweep, which guards no breaker.
sweep_one : Node → OrderRow → Action Done
unfolding confirm
sweep_one node row = do
  a ← lift (route node row.broker row.account trade)
  set_status node row.client_order_id pending_cancel
  done ← adapter_cancel node a row.client_order_id
  confirm done
  set_status node row.client_order_id cancelled

-- The orders that were cancelled, and those that failed.
pub record Swept : Type 0 where
  pub done : List String
  pub failed : List String

tally : String → Result Done → Swept → Swept
tally cid (ok _) s = record s { done = cid ∷ s.done }
tally cid (err _) s = record s { failed = cid ∷ s.failed }

-- The sweep goes on after a failure.
unfoldable pub sweep : Node → List OrderRow → Action Swept
unfolding sweep_one tally
sweep node [] = pure (record { done = []; failed = [] })
sweep node (row ∷ rest) = do
  outcome ← caught (sweep_one node row)
  later ← sweep node rest
  pure (tally row.client_order_id outcome later)

unfoldable pub mass_cancel : Node → Action Swept
mass_cancel node = do rows ← query node.env fetch_open_orders; sweep node rows
