-- ===== src/Core/Router/Settle/Calls.antt =====
-- The calls of Core/Router/Settle.antt against the log: one placement, for an order that has been
-- stored and not yet placed.
use quant_execution_engine.Prelude.{
  refl, ℕ, ◌+◌, ◌≤◌, ◌≡◌, String, Option, none, some, Bool, true, false, List, [], ◌∷◌, arith,
  same_text,
}
use quant_execution_engine.Contracts.Enums.{rejected, pending_cancel, cancelled}
use quant_execution_engine.Contracts.Orders.{NormalizedOrder}
use quant_execution_engine.Adapters.Base.{PlaceAck, FillReport}
use quant_execution_engine.Core.Stage.{Adapter}
use quant_execution_engine.Core.HandleRecovery.{HandleResolver}
use quant_execution_engine.Core.HandleRecovery.Bounded.{recover_handle-Safe}
use quant_execution_engine.Core.Router.Parts.{
  Router, adapter_place, adapter_cancel, set_status, acknowledge, store_reason,
}
use quant_execution_engine.Core.Router.Parts.Calls.{
  adapter_cancel-Safe, set_status-Safe, acknowledge-Safe, store_reason-Safe,
}
use quant_execution_engine.Core.Router.Settle.{
  reason_or, fill_row, store_fills, budget, recover_with, recover_order, cancel_remainder,
  settle_handle, settle, place_and_settle, created_or,
}
use quant_execution_engine.Core.World.{
  World, ask, now, query, statement, read_clock, venue_place, waited, ◌>>=◌,
}
use quant_execution_engine.Core.World.Quiet.{
  Watched, IsOnce, IsFair, Safe, Safe-ask, Safe-bind, Safe-statement, Safe-query, Safe-if, places,
  inserts, stored, stored-waited, step_bind,
}
use quant_execution_engine.Db.Repositories.{apply_fill, fetch_order}
use quant_execution_engine.Db.Repositories.Evolution.{IsFrozen, Preserves, Preserves-trans}
use quant_execution_engine.Db.Repositories.Writes.{apply_fill-Preserves}

-- What a router is run among: other tasks that keep the store, a schema with the frozen trigger, and
-- a resolver that places and stores no order.
pub record IsSound (r : Router) : Type 0 where
  pub fair : IsFair r.node.env
  pub frozen : IsFrozen r.node.schema
  pub resolver_reads :
      (resolve : HandleResolver)
      → r.handle_resolver ≡ some resolve
      → (watch : Watched) (order : String) → Safe watch (resolve order)

module _ (r : Router) (sound : IsSound r) (watch : Watched) where
  pub store_fills-Safe :
      (order : String) (total : ℕ) (fills : List FillReport)
      → Safe watch (store_fills r.node order total fills)
  unfolding store_fills
  store_fills-Safe order total [] = λ w v. v
  store_fills-Safe order total (f ∷ rest) =
      let later = store_fills-Safe order total rest in
      Safe-bind watch (now r.node.env) _
        (Safe-ask r.node.env sound.fair watch read_clock r.node.env.clock refl)
        (λ time.
          Safe-bind watch
            (statement r.node.env (apply_fill r.node.schema time (fill_row order f) total)) _
            (Safe-statement r.node.env sound.fair watch
              (apply_fill r.node.schema time (fill_row order f) total)
              (λ db.
                apply_fill-Preserves r.node.schema time (fill_row order f) total db sound.frozen))
            (λ _. later))

  recover_with-Safe :
      (resolver : Option HandleResolver) (o : NormalizedOrder)
      → r.handle_resolver ≡ resolver
      → Safe watch (recover_with r resolver o)
  unfolding recover_with
  recover_with-Safe none o e = λ w v. v
  recover_with-Safe (some resolve) o e =
      Safe-bind watch (query r.node.env (λ db. fetch_order db o.client_order_id)) _
        (Safe-query r.node.env sound.fair watch (λ db. fetch_order db o.client_order_id))
        (λ row.
          Safe-bind watch (now r.node.env) _
            (Safe-ask r.node.env sound.fair watch read_clock r.node.env.clock refl)
            (λ time.
              recover_handle-Safe r.node.env sound.fair resolve (budget r.node.settings)
                o.client_order_id watch (sound.resolver_reads resolve e watch o.client_order_id)
                (created_or row time)))

  cancel_remainder-Safe :
      (a : Adapter) (order : String) (b : Bool) → Safe watch (cancel_remainder r.node a order b)
  unfolding cancel_remainder
  cancel_remainder-Safe a order false = λ w v. v
  cancel_remainder-Safe a order true =
      Safe-bind watch (set_status r.node order pending_cancel) _
        (set_status-Safe r.node sound.fair watch order pending_cancel)
        (λ _.
          Safe-bind watch (adapter_cancel r.node a order) _
            (adapter_cancel-Safe r.node sound.fair watch a order)
            (λ _. set_status-Safe r.node sound.fair watch order cancelled))

  settle_handle-Safe :
      (a : Adapter) (o : NormalizedOrder) (ack : PlaceAck) (handle : Option String)
      → Safe watch (settle_handle r a o ack handle)
  unfolding settle_handle recover_order
  settle_handle-Safe a o ack none = recover_with-Safe r.handle_resolver o refl
  settle_handle-Safe a o ack (some handle) =
      let order = o.client_order_id in
      Safe-bind watch (acknowledge r.node order handle) _
        (acknowledge-Safe r.node sound.fair watch order handle)
        (λ _.
          Safe-bind watch (store_fills r.node order o.quantity ack.fills) _
            (store_fills-Safe order o.quantity ack.fills)
            (λ _.
              Safe-bind watch (cancel_remainder r.node a order ack.remainder_cancelled) _
                (cancel_remainder-Safe a order ack.remainder_cancelled) (λ _ w v. v)))

  settle-Safe : (a : Adapter) (o : NormalizedOrder) (ack : PlaceAck) → Safe watch (settle r a o ack)
  unfolding settle
  settle-Safe a o ack =
      let order = o.client_order_id in
      let reason = reason_or ack.reject_reason "rejected by adapter" in
      Safe-if watch ack.rejected _ (settle_handle r a o ack ack.broker_order_id)
        (Safe-bind watch (set_status r.node order rejected) _
          (set_status-Safe r.node sound.fair watch order rejected)
          (λ _.
            Safe-bind watch (store_reason r.node order reason) _
              (store_reason-Safe r.node sound.fair watch order reason) (λ _ w v. v)))
        (settle_handle-Safe a o ack ack.broker_order_id)

-- The log before a placement: the order is stored once more than it was placed.
pub record IsReady (watch : Watched) (w : World) : Type 0 where
  pub unplaced : places watch.order w.trace + 1 ≤ inserts watch.order w.trace
  pub kept : inserts watch.order w.trace + watch.before ≤ stored watch.order w
  pub moved : Preserves watch.since w.db.orders

module _ (r : Router) (sound : IsSound r) (watch : Watched) where
  placed_world :
      (a : Adapter) (o : NormalizedOrder) (w : World)
      → (adapter_place r.node a o w).1 ≡ waited r.node.env (venue_place a o.client_order_id) w
  unfolding adapter_place ask ◌>>=◌
  placed_world a o w = refl

  -- The placement of an order that is ready, or of another order.
  adapter_place_ready :
      (a : Adapter) (o : NormalizedOrder) (w : World)
      → same_text watch.order o.client_order_id ≡ true
      → IsReady watch w
      → IsOnce watch (adapter_place r.node a o w).1
  adapter_place_ready a o w same v = rw (placed_world a o w) (
      let more =
        stored-waited r.node.env sound.fair watch.order (venue_place a o.client_order_id) w in
      record {
        placed = ground (arith, v.unplaced, same);
        kept = omega (arith, v.kept, more);
        moved =
            Preserves-trans watch.since w.db.orders _ v.moved
              (sound.fair (venue_place a o.client_order_id ∷ w.trace) w.db);
      })

  adapter_place_other :
      (a : Adapter) (o : NormalizedOrder) (w : World)
      → same_text watch.order o.client_order_id ≡ false
      → IsOnce watch w
      → IsOnce watch (adapter_place r.node a o w).1
  adapter_place_other a o w other v = rw (placed_world a o w) (
      let more =
        stored-waited r.node.env sound.fair watch.order (venue_place a o.client_order_id) w in
      record {
        placed = ground (arith, v.placed, other);
        kept = omega (arith, v.kept, more);
        moved =
            Preserves-trans watch.since w.db.orders _ v.moved
              (sound.fair (venue_place a o.client_order_id ∷ w.trace) w.db);
      })

  pub place_and_settle_ready :
      (a : Adapter) (o : NormalizedOrder) (w : World)
      → same_text watch.order o.client_order_id ≡ true
      → IsReady watch w
      → IsOnce watch (place_and_settle r a o w).1
  unfolding place_and_settle
  place_and_settle_ready a o w same v =
      step_bind (IsReady watch) (IsOnce watch) (IsOnce watch) (adapter_place r.node a o)
        (settle r a o) (λ w v. adapter_place_ready a o w same v) (λ w v. v)
        (settle-Safe r sound watch a o) w v

  pub place_and_settle_other :
      (a : Adapter) (o : NormalizedOrder)
      → same_text watch.order o.client_order_id ≡ false
      → Safe watch (place_and_settle r a o)
  unfolding place_and_settle
  place_and_settle_other a o other =
      Safe-bind watch (adapter_place r.node a o) (settle r a o)
        (λ w v. adapter_place_other a o w other v) (settle-Safe r sound watch a o)
