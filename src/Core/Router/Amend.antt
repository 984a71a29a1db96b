-- ===== src/Core/Router/Amend.antt =====
-- core/router.py: `amend`, in place or by cancelling and submitting anew.
pub mod Calls
use quant_execution_engine.Prelude.{
  ℕ, Bool, true, false, ◌&&◌, not, List, Option, none, some, String, ltb, leb, if◌then◌else◌,
}
use quant_execution_engine.Prelude.Decimal.{Decimal}
use quant_execution_engine.Contracts.Capabilities.{lookup, Amend, native, cancel_replace}
use quant_execution_engine.Contracts.Enums.{
  OrderState, new, partially_filled, pending_replace, confirmed,
}
use quant_execution_engine.Contracts.Errors.{
  Result, Done, ok, err, Error, raise_if, order_not_found, illegal_transition, amend_rejected,
  adapter_failed,
}
use quant_execution_engine.Contracts.Orders.{NormalizedOrder, SimFills, absent, validate, is_some}
use quant_execution_engine.Core.HandleRecovery.{caught}
use quant_execution_engine.Core.KillSwitch.{assert_disengaged}
use quant_execution_engine.Core.Risk.{check as risk_check}
use quant_execution_engine.Core.Stage.{
  Adapter, sim_adapter, liberator_adapter, streaming_pro_adapter, trade,
}
use quant_execution_engine.Core.World.{
  Node, Action, Call, pure, raise, lift, ask, query, now, statement, venue_amend, ◌>>=◌, ◌>>◌,
}
use quant_execution_engine.Db.Models.{OrderRow, OrderResultRow}
use quant_execution_engine.Db.Repositories.{
  fetch_order, fetch_order_result, replace_order, or_else, value_or,
}
use quant_execution_engine.Core.Router.Parts.{
  Router, SubmitOutcome, route, guard_breaker, set_status,
}
use quant_execution_engine.Core.Router.Submit.{submit}
use quant_execution_engine.Core.Router.Cancel.{cancel, get}

-- What an amend asks for: the new price and the new quantity, if any.
pub record Change : Type 0 where
  pub price : Option Decimal
  pub quantity : Option ℕ

-- `_amended_order`, before the constructor validates it.
unfoldable pub amended : OrderRow → String → Change → NormalizedOrder
amended row cid c = record {
  client_order_id = cid;
  broker = row.broker;
  account = row.account;
  market = row.market;
  symbol = row.symbol;
  side = row.side;
  order_type = row.order_type;
  price = or_else c.price row.price;
  stop_price = row.stop_price;
  quantity = value_or c.quantity row.quantity;
  display_qty = row.display_qty;
  tif = row.tif;
  position_effect = row.position_effect;
  sim_reject = none;
  sim_fills = absent;
}

over_display : Option ℕ → ℕ → Bool
over_display none qty = false
over_display (some display) qty = ltb qty display

-- `_assert_amend_quantities`
unfoldable pub assert_amend_quantities : Option ℕ → Option ℕ → ℕ → Result Done
unfolding over_display
assert_amend_quantities display none filled_qty = ok tt
assert_amend_quantities display (some qty) filled_qty =
    if leb qty filled_qty
    then err amend_rejected
    else raise_if (over_display display qty) amend_rejected

-- The adapters' `amend`: the sim accepts, and a venue answers.
amend_answer : Node → Adapter → String → Change → List Call → Result Bool
amend_answer node sim_adapter cid c t = ok true
amend_answer node liberator_adapter cid c t =
    node.env.amend liberator_adapter cid c.price c.quantity t
amend_answer node streaming_pro_adapter cid c t =
    node.env.amend streaming_pro_adapter cid c.price c.quantity t

-- `except AdapterError` makes an ack that is not ok.
acked : Result Bool → Action Bool
acked (err adapter_failed) = pure false
acked (err e) = raise e
acked (ok done) = pure done

-- `_venue_amend`
unfoldable pub adapter_amend : Node → Adapter → String → Change → Action Bool
unfolding amend_answer acked
adapter_amend node a cid c = do
  answer ← ask node.env (venue_amend a cid) (amend_answer node a cid c)
  acked answer

-- `_restore_partial`
unfoldable pub restore_partial : Node → String → ℕ → Action Done
restore_partial node cid filled_qty =
    if ltb 0 filled_qty then set_status node cid partially_filled else pure tt

unfoldable pub replace_row : Node → String → Change → Action Done
replace_row node cid c = do
  time ← now node.env
  statement node.env (replace_order node.schema time cid c.price c.quantity)

-- What follows the venue's answer: the amended values, or the order as it was, live in both cases.
unfoldable pub settle_amend : Node → String → Change → ℕ → Bool → Action SubmitOutcome
settle_amend node cid c filled_qty true = do
  replace_row node cid c
  restore_partial node cid filled_qty
  result ← get node cid
  pure (record { result = result; duplicate = false; resolution = confirmed })
settle_amend node cid c filled_qty false = do
  set_status node cid new
  restore_partial node cid filled_qty
  raise amend_rejected

abbrev can_amend : OrderState → Bool
can_amend new = true
can_amend partially_filled = true
can_amend _ = false

amend_found : Router → OrderRow → Change → Option OrderResultRow → Action SubmitOutcome
amend_found r row c none = raise order_not_found
amend_found r row c (some result) = do
  lift (assert_amend_quantities row.display_qty c.quantity result.filled_qty)
  o ← lift (validate r.is_uuid4 (amended row row.client_order_id c))
  risk_check r.node o
  a ← lift (route r.node row.broker row.account trade)
  guard_breaker a
  set_status r.node row.client_order_id pending_replace
  done ← adapter_amend r.node a row.client_order_id c
  settle_amend r.node row.client_order_id c result.filled_qty done

-- `_amend_native`
unfoldable pub amend_native : Router → OrderRow → Option String → Change → Action SubmitOutcome
unfolding amend_found
amend_native r row (some cid) c = raise amend_rejected
amend_native r row none c =
    if can_amend row.status
    then (do
      result ← query r.node.env (λ db. fetch_order_result db row.client_order_id)
      amend_found r row c result)
    else raise illegal_transition

-- `_amend_cancel_replace`
unfoldable pub amend_cancel_replace :
    Router → OrderRow → Option String → Change → Action SubmitOutcome
amend_cancel_replace r row none c = raise amend_rejected
amend_cancel_replace r row (some cid) c = do
  cancel r.node row.client_order_id
  o ← lift (validate r.is_uuid4 (amended row cid c))
  submit r o row.strategy_id

by_semantics : Router → OrderRow → Option String → Change → Amend → Action SubmitOutcome
by_semantics r row cid c native = amend_native r row cid c
by_semantics r row cid c cancel_replace = amend_cancel_replace r row cid c

amend_row : Router → Option String → Change → Option OrderRow → Action SubmitOutcome
unfolding by_semantics
amend_row r cid c none = raise order_not_found
amend_row r cid c (some row) = do
  caps ← lift (lookup row.broker row.market)
  by_semantics r row cid c caps.amend

unfoldable pub amend : Router → String → Option String → Change → Action SubmitOutcome
unfolding amend_row
amend r order cid c = do
  assert_disengaged r.node
  lift (raise_if (not (is_some c.price) && not (is_some c.quantity)) amend_rejected)
  row ← query r.node.env (λ db. fetch_order db order)
  amend_row r cid c row
