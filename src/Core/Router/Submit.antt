-- ===== src/Core/Router/Submit.antt =====
-- core/router.py: `submit` and `_await_concurrent`, with the lock of cache/single_flight.py.
pub mod Once
pub mod Steps
use quant_execution_engine.Prelude.{
  ℕ, zero, suc, ◌+◌, ◌/◌, Bool, true, false, ◌||◌, not, List, [], ◌∷◌, Option, none, some, String,
  leb, is_empty, sub_ℕ, if◌then◌else◌,
}
use quant_execution_engine.Prelude.Decimal.{Decimal}
use quant_execution_engine.Config.{Settings}
use quant_execution_engine.Contracts.Capabilities.{lookup, assert_supports, CapabilitySet}
use quant_execution_engine.Contracts.Enums.{
  Broker, OrderState, new, partially_filled, pending_cancel, cancelled, rejected, to_public_status,
  HandleResolution, confirmed, unknown,
}
use quant_execution_engine.Contracts.Errors.{
  Error, Result, Done, ok, err, duplicate_order, submit_in_flight, order_not_found, out_of_fuel,
}
use quant_execution_engine.Contracts.Orders.{NormalizedOrder, NormalizedOrderResult}
use quant_execution_engine.Core.KillSwitch.{assert_disengaged}
use quant_execution_engine.Core.Risk.{check as risk_check}
use quant_execution_engine.Core.PriceBand.{check as price_band_check}
use quant_execution_engine.Core.Stage.{
  Adapter, sim_adapter, liberator_adapter, streaming_pro_adapter, AdapterIntent, trade,
  resolve_adapter,
}
use quant_execution_engine.Core.RoutingAuthority.{assert_may_route_real}
use quant_execution_engine.Core.World.{
  Node, Env, World, Action, Call, pure, raise, lift, ask, pause, statement, query, now, mark, sleep,
  inserted, lock, unlock, venue_place, venue_cancel, ◌>>=◌, ◌>>◌,
}
use quant_execution_engine.Core.HandleRecovery.{HandleResolver, Budget, recover_handle, caught}
use quant_execution_engine.Adapters.Base.{PlaceAck, FillReport}
use quant_execution_engine.Adapters.Session.{guard}
use quant_execution_engine.Adapters.Sim.{place as sim_place}
use quant_execution_engine.Db.Models.{OrderRow, OrderResultRow, FillRow, Db}
use quant_execution_engine.Db.Repositories.{
  fetch_order, fetch_order_result, insert_order, ack_order, update_status, set_reject_reason,
  apply_fill,
}
use quant_execution_engine.Core.Router.Parts.{
  SubmitOutcome, Router, route, guard_breaker, to_result, served, adapter_place, adapter_cancel,
  set_status, acknowledge, store_reason,
}
use quant_execution_engine.Core.Router.Settle.{
  reason_or, store_fills, recover_order, budget, settle, place_and_settle,
}

-- `_await_concurrent`: reads every 50 ms until the budget is spent.
pub await_row : ℕ → Node → String → ℕ → Action SubmitOutcome
await_row zero node cid waited = raise out_of_fuel
await_row (suc fuel) node cid waited = do
  row ← query node.env (λ db. fetch_order_result db cid)
  elim row [
    | some r ↦ pure (served r)
    | none ↦ elim (leb node.settings.submit_lock_wait_ms waited) [
      | true ↦ raise submit_in_flight
      | false ↦ do pause node.env sleep; await_row fuel node cid (waited + 50)
    ]
  ]

unfoldable pub await_concurrent : Node → String → Action SubmitOutcome
unfolding await_row
await_concurrent node cid = await_row (node.settings.submit_lock_wait_ms / 50 + 2) node cid 0

-- How the body under the lock ends: with an early return, or with the order placed.
pub data Locked : Type 0 where
  early : SubmitOutcome → Locked
  placed : HandleResolution → Locked

or_in_flight : Option OrderResultRow → Action Locked
or_in_flight none = raise submit_in_flight
or_in_flight (some r) = pure (early (served r))

after_insert : Router → Adapter → NormalizedOrder → Result Done → Action Locked
unfolding or_in_flight
after_insert r a o (ok _) = do
  mark (inserted o.client_order_id)
  resolution ← place_and_settle r a o
  pure (placed resolution)
after_insert r a o (err duplicate_order) = do
  row ← query r.node.env (λ db. fetch_order_result db o.client_order_id)
  or_in_flight row
after_insert r a o (err e) = raise e

-- The body of the `try` under the lock.
unfoldable pub insert_and_place : Router → Adapter → NormalizedOrder → Option String → Action Locked
unfolding after_insert
insert_and_place r a o strategy = do
  time ← now r.node.env
  stored ← caught (statement r.node.env (insert_order r.node.schema time o strategy))
  after_insert r a o stored

-- `single_flight`: a lock service that is missing or fails yields the lock.
abbrev taken : Option Bool → Bool
taken none = true
taken (some got) = got

unfoldable pub acquire : Node → String → Action Bool
acquire node cid =
    if node.env.redis_configured
    then (do got ← ask node.env (lock cid) (node.env.take_lock cid); pure (taken got))
    else pure true

-- The `finally` of the lock: its failure is swallowed.
release : Node → String → Action Done
release node cid = if node.env.redis_configured then pause node.env (unlock cid) else pure tt

unfoldable pub holding : Node → String → Action Locked → Action Locked
unfolding release
holding node cid body w = let (r, w') = body w in (r, (release node cid w').1)

-- The body under the lock, or the wait for who holds it.
unfoldable pub locked : Router → Adapter → NormalizedOrder → Option String → Bool → Action Locked
locked r a o strategy true = holding r.node o.client_order_id (insert_and_place r a o strategy)
locked r a o strategy false = do
  outcome ← await_concurrent r.node o.client_order_id
  pure (early outcome)

outcome_of : HandleResolution → Option OrderResultRow → Action SubmitOutcome
outcome_of resolution none = raise order_not_found
outcome_of resolution (some row) =
    pure (record { result = to_result row; duplicate = false; resolution = resolution })

finish : Router → NormalizedOrder → Locked → Action SubmitOutcome
unfolding outcome_of
finish r o (early outcome) = pure outcome
finish r o (placed resolution) = do
  row ← query r.node.env (λ db. fetch_order_result db o.client_order_id)
  outcome_of resolution row

-- The checks before the lock, in their order, and the adapter that they leave.
unfoldable pub checked : Router → NormalizedOrder → Action Adapter
checked r o = do
  caps ← lift (lookup o.broker o.market)
  lift (assert_supports caps o.order_type o.tif o.position_effect)
  risk_check r.node o
  price_band_check r.deviation_pct r.node o
  a ← lift (route r.node o.broker o.account trade)
  guard_breaker a
  pure a

submit_new : Router → NormalizedOrder → Option String → Option OrderResultRow → Action SubmitOutcome
unfolding finish
submit_new r o strategy (some row) = pure (served row)
submit_new r o strategy none = do
  a ← checked r o
  got ← acquire r.node o.client_order_id
  how ← locked r a o strategy got
  finish r o how

unfoldable pub submit : Router → NormalizedOrder → Option String → Action SubmitOutcome
unfolding submit_new
submit r o strategy = do
  assert_disengaged r.node
  existing ← query r.node.env (λ db. fetch_order_result db o.client_order_id)
  submit_new r o strategy existing
