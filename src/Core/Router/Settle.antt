-- ===== src/Core/Router/Settle.antt =====
-- core/router.py: `_place_and_settle` and `_recover_handle`.
pub mod Calls
use quant_execution_engine.Prelude.{
  ℕ, ◌/◌, Bool, true, false, ◌||◌, not, List, [], ◌∷◌, Option, none, some, String, leb, is_empty,
  sub_ℕ, if◌then◌else◌,
}
use quant_execution_engine.Prelude.Decimal.{Decimal}
use quant_execution_engine.Config.{Settings}
use quant_execution_engine.Contracts.Capabilities.{lookup, assert_supports, CapabilitySet}
use quant_execution_engine.Contracts.Enums.{
  Broker, OrderState, new, partially_filled, pending_cancel, cancelled, rejected, to_public_status,
  HandleResolution, confirmed, unknown,
}
use quant_execution_engine.Contracts.Errors.{
  Error, Result, Done, ok, err, duplicate_order, submit_in_flight, order_not_found, out_of_fuel,
}
use quant_execution_engine.Contracts.Orders.{NormalizedOrder, NormalizedOrderResult}
use quant_execution_engine.Core.KillSwitch.{assert_disengaged}
use quant_execution_engine.Core.Risk.{check as risk_check}
use quant_execution_engine.Core.PriceBand.{check as price_band_check}
use quant_execution_engine.Core.Stage.{
  Adapter, sim_adapter, liberator_adapter, streaming_pro_adapter, AdapterIntent, trade,
  resolve_adapter,
}
use quant_execution_engine.Core.RoutingAuthority.{assert_may_route_real}
use quant_execution_engine.Core.World.{
  Node, Env, World, Action, Call, pure, raise, lift, ask, pause, statement, query, now, mark, sleep,
  inserted, lock, unlock, venue_place, venue_cancel, ◌>>=◌, ◌>>◌,
}
use quant_execution_engine.Core.HandleRecovery.{HandleResolver, Budget, recover_handle, caught}
use quant_execution_engine.Adapters.Base.{PlaceAck, FillReport}
use quant_execution_engine.Adapters.Session.{guard}
use quant_execution_engine.Adapters.Sim.{place as sim_place}
use quant_execution_engine.Db.Models.{OrderRow, OrderResultRow, FillRow, Db}
use quant_execution_engine.Db.Repositories.{
  fetch_order, fetch_order_result, insert_order, ack_order, update_status, set_reject_reason,
  apply_fill,
}
use quant_execution_engine.Core.Router.Parts.{
  SubmitOutcome, Router, route, guard_breaker, to_result, served, adapter_place, adapter_cancel,
  set_status, acknowledge, store_reason,
}

-- `reason or default`: an empty text counts as missing.
abbrev pub reason_or : Option String → String → String
reason_or none default = default
reason_or (some reason) default = if is_empty reason then default else reason

abbrev fill_row : String → FillReport → FillRow
fill_row cid f = record {
  client_order_id = cid;
  broker_fill_id = f.broker_fill_id;
  price = f.price;
  quantity = f.quantity;
  exec_ts = f.exec_ts;
}

unfoldable pub store_fills : Node → String → ℕ → List FillReport → Action Done
store_fills node cid total [] = pure tt
store_fills node cid total (f ∷ rest) = do
  time ← now node.env
  statement node.env (apply_fill node.schema time (fill_row cid f) total)
  store_fills node cid total rest

abbrev created_or : Option OrderRow → ℕ → ℕ
created_or none time = time
created_or (some row) time = row.created_at

unfoldable pub budget : Settings → Budget
budget s = record {
  cadence_ms = s.handle_recovery_cadence_ms;
  deadline_ms = s.handle_recovery_deadline_ms;
  min_polls = s.handle_recovery_min_polls;
}

recover_with : Router → Option HandleResolver → NormalizedOrder → Action HandleResolution
recover_with r none o = pure unknown
recover_with r (some resolve) o = do
  row ← query r.node.env (λ db. fetch_order db o.client_order_id)
  time ← now r.node.env
  recover_handle r.node.env resolve (budget r.node.settings) o.client_order_id (created_or row time)

-- `_recover_handle`
unfoldable pub recover_order : Router → NormalizedOrder → Action HandleResolution
unfolding recover_with
recover_order r o = recover_with r r.handle_resolver o

cancel_remainder : Node → Adapter → String → Bool → Action Done
cancel_remainder node a cid false = pure tt
cancel_remainder node a cid true = do
  set_status node cid pending_cancel
  adapter_cancel node a cid
  set_status node cid cancelled

settle_handle :
    Router → Adapter → NormalizedOrder → PlaceAck → Option String → Action HandleResolution
unfolding cancel_remainder
settle_handle r a o ack none = recover_order r o
settle_handle r a o ack (some handle) = do
  acknowledge r.node o.client_order_id handle
  store_fills r.node o.client_order_id o.quantity ack.fills
  cancel_remainder r.node a o.client_order_id ack.remainder_cancelled
  pure confirmed

unfoldable pub settle : Router → Adapter → NormalizedOrder → PlaceAck → Action HandleResolution
unfolding settle_handle
settle r a o ack =
    if ack.rejected
    then (do
      set_status r.node o.client_order_id rejected
      store_reason r.node o.client_order_id (reason_or ack.reject_reason "rejected by adapter")
      pure confirmed)
    else settle_handle r a o ack ack.broker_order_id

-- `_place_and_settle`
unfoldable pub place_and_settle : Router → Adapter → NormalizedOrder → Action HandleResolution
place_and_settle r a o = do ack ← adapter_place r.node a o; settle r a o ack
