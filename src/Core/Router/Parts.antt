-- ===== src/Core/Router/Parts.antt =====
-- core/router.py: what the router is built with, the choice of the adapter, and the calls it awaits.
pub mod Calls
use quant_execution_engine.Prelude.{
  ◌+◌, ◌/◌, Bool, true, false, ◌||◌, not, List, [], ◌∷◌, Option, none, some, String, leb, is_empty,
  sub_ℕ, if◌then◌else◌,
}
use quant_execution_engine.Prelude.Decimal.{Decimal}
use quant_execution_engine.Config.{Settings}
use quant_execution_engine.Contracts.Capabilities.{lookup, assert_supports, CapabilitySet}
use quant_execution_engine.Contracts.Enums.{
  Broker, OrderState, new, partially_filled, pending_cancel, cancelled, rejected, to_public_status,
  HandleResolution, confirmed, unknown,
}
use quant_execution_engine.Contracts.Errors.{
  Error, Result, Done, ok, err, duplicate_order, submit_in_flight, order_not_found, out_of_fuel,
}
use quant_execution_engine.Contracts.Orders.{NormalizedOrder, NormalizedOrderResult}
use quant_execution_engine.Core.KillSwitch.{assert_disengaged}
use quant_execution_engine.Core.Risk.{check as risk_check}
use quant_execution_engine.Core.PriceBand.{check as price_band_check}
use quant_execution_engine.Core.Stage.{
  Adapter, sim_adapter, liberator_adapter, streaming_pro_adapter, AdapterIntent, trade,
  resolve_adapter,
}
use quant_execution_engine.Core.RoutingAuthority.{assert_may_route_real}
use quant_execution_engine.Core.World.{
  Node, Env, World, Action, Call, pure, raise, lift, ask, pause, statement, query, now, mark, sleep,
  inserted, lock, unlock, venue_place, venue_cancel, ◌>>=◌, ◌>>◌,
}
use quant_execution_engine.Core.HandleRecovery.{HandleResolver, Budget, recover_handle, caught}
use quant_execution_engine.Adapters.Base.{PlaceAck, FillReport}
use quant_execution_engine.Adapters.Session.{guard}
use quant_execution_engine.Adapters.Sim.{place as sim_place}
use quant_execution_engine.Db.Models.{OrderRow, OrderResultRow, FillRow, Db}
use quant_execution_engine.Db.Repositories.{
  fetch_order, fetch_order_result, insert_order, ack_order, update_status, set_reject_reason,
  apply_fill,
}

pub record SubmitOutcome : Type 0 where
  pub result : NormalizedOrderResult
  pub duplicate : Bool
  pub resolution : HandleResolution

-- What the router is built with: the process, the library's decimal arithmetic for the price band
-- and its reading of a version 4 UUID, and the handle resolver, if one is injected.
pub record Router : Type 0 where
  pub node : Node
  pub deviation_pct : Decimal → Decimal → Decimal
  pub is_uuid4 : String → Bool
  pub handle_resolver : Option HandleResolver

-- `_resolve_adapter`
unfoldable pub route : Node → Broker → String → AdapterIntent → Result Adapter
route node broker account intent =
    routed (resolve_adapter node.settings.stage broker node.installed intent)
  where
    permitted : Adapter → Result Done → Result Adapter
    permitted a (ok _) = ok a
    permitted a (err e) = err e

    routed : Result Adapter → Result Adapter
    routed (err e) = err e
    routed (ok a) = permitted a (assert_may_route_real node.settings account broker a)

-- `adapter.breaker.guard()`
unfoldable pub guard_breaker : Adapter → Action Done
guard_breaker a w = (guard (w.breaker a), w)

unfoldable pub to_result : OrderResultRow → NormalizedOrderResult
to_result r = record {
  client_order_id = r.row.client_order_id;
  broker_order_id = r.row.broker_order_id;
  broker = r.row.broker;
  status = to_public_status r.row.status r.filled_qty;
  engine_state = r.row.status;
  filled_qty = r.filled_qty;
  remaining_qty = sub_ℕ r.row.quantity r.filled_qty;
  reject_reason = r.row.reject_reason;
}

abbrev pub served : OrderResultRow → SubmitOutcome
served r = record { result = to_result r; duplicate = true; resolution = confirmed }

-- The adapters' `place`: the sim's, and what a venue answers.
place_answer : Node → Adapter → NormalizedOrder → List Call → Result PlaceAck
place_answer node sim_adapter o t =
    sim_place node.settings.sim_default_fill_price (node.env.quote o t) (node.env.clock t) o
place_answer node liberator_adapter o t = node.env.place liberator_adapter o t
place_answer node streaming_pro_adapter o t = node.env.place streaming_pro_adapter o t

unfoldable pub adapter_place : Node → Adapter → NormalizedOrder → Action PlaceAck
unfolding place_answer
adapter_place node a o = do
  answer ← ask node.env (venue_place a o.client_order_id) (place_answer node a o)
  lift answer

cancel_answer : Node → Adapter → String → List Call → Result Bool
cancel_answer node sim_adapter cid t = ok true
cancel_answer node liberator_adapter cid t = node.env.cancel liberator_adapter cid t
cancel_answer node streaming_pro_adapter cid t = node.env.cancel streaming_pro_adapter cid t

-- `adapter.cancel`: whether the venue confirms.
unfoldable pub adapter_cancel : Node → Adapter → String → Action Bool
unfolding cancel_answer
adapter_cancel node a cid = do
  answer ← ask node.env (venue_cancel a cid) (cancel_answer node a cid)
  lift answer

-- The repository functions that the router awaits, each at the store's own time.
unfoldable pub set_status : Node → String → OrderState → Action Done
set_status node cid state = do
  time ← now node.env
  statement node.env (update_status node.schema time cid state)

unfoldable pub acknowledge : Node → String → String → Action Done
acknowledge node cid handle = do
  time ← now node.env
  statement node.env (ack_order node.schema time cid handle)

unfoldable pub store_reason : Node → String → String → Action Done
store_reason node cid reason = statement node.env (λ db. (ok tt, set_reject_reason cid reason db))
