-- ===== src/Core/Router/Submit/Steps.antt =====
-- No order is placed twice by core/router.py: each step of `submit` against the log.
use quant_execution_engine.Prelude.{
  ℕ, zero, suc, ◌+◌, ◌≡◌, refl, Bool, true, false, Option, none, some, String, same_text, arith,
  leb, Bool-cases, inl, inr, eq_of_same_text,
}
use quant_execution_engine.Contracts.Capabilities.{lookup, assert_supports}
use quant_execution_engine.Contracts.Errors.{Error, Result, Done, ok, err, duplicate_order}
use quant_execution_engine.Contracts.Orders.{NormalizedOrder}
use quant_execution_engine.Core.Risk.{check as risk_check}
use quant_execution_engine.Core.Risk.Calls.{check-Safe as risk-Safe}
use quant_execution_engine.Core.PriceBand.{check as price_band_check}
use quant_execution_engine.Core.PriceBand.Calls.{check-Safe as price_band-Safe}
use quant_execution_engine.Core.Stage.{Adapter, trade}
use quant_execution_engine.Core.World.{
  World, Action, pure, raise, lift, now, statement, query, mark, pause, inserted, sleep, read_clock,
  sql, waited, ◌>>=◌,
}
use quant_execution_engine.Core.World.Quiet.{
  Watched, IsOnce, Safe, Safe-ask, Safe-statement, Safe-query, Safe-lift, Safe-bind, places,
  inserts, stored, step_bind, waited-IsOnce,
}
use quant_execution_engine.Core.HandleRecovery.{caught}
use quant_execution_engine.Core.Router.Parts.{Router, SubmitOutcome, served, route, guard_breaker}
use quant_execution_engine.Core.Router.Parts.Calls.{guard_breaker-Safe}
use quant_execution_engine.Core.Router.Settle.{place_and_settle}
use quant_execution_engine.Core.Router.Settle.Calls.{
  IsSound, IsReady, place_and_settle_ready, place_and_settle_other,
}
use quant_execution_engine.Core.Router.Submit.{
  checked, insert_and_place, after_insert, or_in_flight, await_row,
}
use quant_execution_engine.Db.Models.{OrderResultRow, Db}
use quant_execution_engine.Db.Repositories.{
  find_row, known, fetch_order_result, insert_order, new_row, Schema, publish,
}
use quant_execution_engine.Db.Repositories.Reads.{find_row-append}
use quant_execution_engine.Db.Repositories.Evolution.{Preserves, Preserves-trans}
use quant_execution_engine.Db.Repositories.Writes.{insert_order-Preserves}

module _ (r : Router) (sound : IsSound r) (watch : Watched) where
  await_case :
      (row : Option OrderResultRow) (m : Action SubmitOutcome)
      → Safe watch m
      → Safe watch (elim row [ some x ↦ pure (served x) | none ↦ m ])
  await_case none m s = s
  await_case (some x) m s = λ w v. v

  late_case :
      (b : Bool) (m : Action SubmitOutcome) (e : Error)
      → Safe watch m
      → Safe watch (elim b [ true ↦ raise e | false ↦ m ])
  late_case true m e s = λ w v. v
  late_case false m e s = s

  pub await_row-Safe :
      (fuel : ℕ) (order : String) (spent : ℕ) → Safe watch (await_row fuel r.node order spent)
  unfolding await_row
  await_row-Safe zero order spent = λ w v. v
  await_row-Safe (suc fuel) order spent =
      let again = await_row-Safe fuel order (spent + 50) in
      Safe-bind watch (query r.node.env (λ db. fetch_order_result db order)) _
        (Safe-query r.node.env sound.fair watch (λ db. fetch_order_result db order))
        (λ row. await_case row _ (
          late_case (leb r.node.settings.submit_lock_wait_ms spent) _ _ (
            Safe-bind watch (pause r.node.env sleep) _
              (Safe-ask r.node.env sound.fair watch sleep (λ t. tt) refl) (λ _. again))))

  pub checked-Safe : (o : NormalizedOrder) → Safe watch (checked r o)
  unfolding checked
  checked-Safe o =
      Safe-bind watch (lift (lookup o.broker o.market)) _
        (Safe-lift watch (lookup o.broker o.market))
        (λ caps.
          Safe-bind watch (lift (assert_supports caps o.order_type o.tif o.position_effect)) _
            (Safe-lift watch (assert_supports caps o.order_type o.tif o.position_effect))
            (λ _.
              Safe-bind watch (risk_check r.node o) _ (risk-Safe r.node sound.fair watch o) (λ _.
                Safe-bind watch (price_band_check r.deviation_pct r.node o) _
                  (price_band-Safe r.deviation_pct r.node sound.fair watch o)
                  (λ _.
                    Safe-bind watch (lift (route r.node o.broker o.account trade)) _
                      (Safe-lift watch (route r.node o.broker o.account trade))
                      (λ a.
                        Safe-bind watch (guard_breaker a) _
                          (guard_breaker-Safe r.node sound.fair watch a) (λ _ w v. v))))))

  -- A world in which an order is newly stored, which the log does not hold yet.
  record IsFresh (w : World) : Type 0 where
    unmarked : inserts watch.order w.trace ≡ 0
    unplaced : places watch.order w.trace ≡ 0
    here : stored watch.order w ≡ 1
    unknown_before : watch.before ≡ 0
    still : Preserves watch.since w.db.orders

  insert_order_ok :
      (schema : Schema) (time : ℕ) (o : NormalizedOrder) (strategy : Option String) (db : Db)
      (x : Done)
      → same_text watch.order o.client_order_id ≡ true
      → (insert_order schema time o strategy db).0 ≡ ok x
      → (known (find_row watch.order db.orders) ≡ false)
        × (known (find_row watch.order (insert_order schema time o strategy db).1.orders) ≡ true)
  unfolding insert_order publish new_row
  insert_order_ok schema time o strategy db x same h =
      let e : watch.order ≡ o.client_order_id =
        eq_of_same_text watch.order o.client_order_id same in
      ground (arith, e, find_row-append watch.order db.orders (new_row time o strategy))

  insert_order-IsFresh :
      (time : ℕ) (o : NormalizedOrder) (strategy : Option String) (w : World) (x : Done)
      → IsOnce watch w
      → same_text watch.order o.client_order_id ≡ true
      → (statement r.node.env (insert_order r.node.schema time o strategy) w).0 ≡ ok x
      → IsFresh (statement r.node.env (insert_order r.node.schema time o strategy) w).1
  unfolding statement
  insert_order-IsFresh time o strategy w x v same h =
      let w' = waited r.node.env sql w in
      let v' = waited-IsOnce r.node.env sound.fair watch sql w refl v in
      let (before, after) = insert_order_ok r.node.schema time o strategy w'.db x same h in
      record {
        unmarked = ground (arith, v'.kept, before);
        unplaced = ground (arith, v'.kept, v'.placed, before);
        here = ground (arith, after);
        unknown_before = ground (arith, v'.kept, before);
        still =
            Preserves-trans watch.since w'.db.orders _ v'.moved
              (insert_order-Preserves r.node.schema time o strategy w'.db);
      }

  mark-IsReady :
      (o : NormalizedOrder) (w : World)
      → same_text watch.order o.client_order_id ≡ true
      → IsFresh w
      → IsReady watch (mark (inserted o.client_order_id) w).1
  unfolding mark
  mark-IsReady o w same f = record {
    unplaced = ground (arith, f.unmarked, f.unplaced, same);
    kept = ground (arith, f.unmarked, f.here, f.unknown_before, same);
    moved = f.still;
  }

  mark_other :
      (o : NormalizedOrder)
      → same_text watch.order o.client_order_id ≡ false
      → Safe watch (mark (inserted o.client_order_id))
  unfolding mark
  mark_other o other w v = record {
    placed = ground (arith, v.placed, other);
    kept = ground (arith, v.kept, other);
    moved = v.moved;
  }

  or_in_flight-Safe : (row : Option OrderResultRow) → Safe watch (or_in_flight row)
  unfolding or_in_flight
  or_in_flight-Safe none w v = v
  or_in_flight-Safe (some row) w v = v

  -- The placement of an order that a statement has just stored, or of another order.
  stored_then_placed :
      (a : Adapter) (o : NormalizedOrder) (x : Done) (w : World)
      → IsOnce watch w
      → (same_text watch.order o.client_order_id ≡ true → IsFresh w)
      → IsOnce watch (after_insert r a o (ok x) w).1
  unfolding after_insert
  stored_then_placed a o x w v fresh = elim (Bool-cases (same_text watch.order o.client_order_id)) [
    | inl same ↦
        step_bind IsFresh (IsReady watch) (IsOnce watch) (mark (inserted o.client_order_id)) _
          (λ w f. mark-IsReady o w same f)
          (λ w f. record { placed = omega (arith, f.unplaced); kept = f.kept; moved = f.moved })
          (λ _.
            step_bind (IsReady watch) (IsOnce watch) (IsOnce watch) (place_and_settle r a o) _
              (λ w f. place_and_settle_ready r sound watch a o w same f) (λ w v. v) (λ _ w v. v))
          w (fresh same)
    | inr other ↦
        Safe-bind watch (mark (inserted o.client_order_id)) _ (mark_other o other)
          (λ _.
            Safe-bind watch (place_and_settle r a o) _
              (place_and_settle_other r sound watch a o other) (λ _ w v. v))
          w v
  ]

  -- What follows a statement that has stored the order, or has not.
  after_insert-IsOnce :
      (a : Adapter) (o : NormalizedOrder) (result : Result Done) (w : World)
      → IsOnce watch w
      → ((x : Done) → result ≡ ok x → same_text watch.order o.client_order_id ≡ true → IsFresh w)
      → IsOnce watch (after_insert r a o result w).1
  unfolding after_insert
  after_insert-IsOnce a o (ok x) w v fresh = stored_then_placed a o x w v (fresh x refl)
  after_insert-IsOnce a o (err duplicate_order) w v fresh =
      Safe-bind watch (query r.node.env (λ db. fetch_order_result db o.client_order_id))
        or_in_flight
        (Safe-query r.node.env sound.fair watch (λ db. fetch_order_result db o.client_order_id))
        or_in_flight-Safe w v
  after_insert-IsOnce a o (err _) w v fresh = v

  insert_step :
      (a : Adapter) (o : NormalizedOrder) (strategy : Option String) (time : ℕ)
      → Safe watch (
          caught (statement r.node.env (insert_order r.node.schema time o strategy))
          >>= after_insert r a o)
  unfolding ◌>>=◌
  insert_step a o strategy time w v =
      let run = insert_order r.node.schema time o strategy in
      let at = statement r.node.env run w in
      after_insert-IsOnce a o at.0 at.1
        (Safe-statement r.node.env sound.fair watch run
          (insert_order-Preserves r.node.schema time o strategy) w v)
        (λ x h same. insert_order-IsFresh time o strategy w x v same h)

  pub insert_and_place-Safe :
      (a : Adapter) (o : NormalizedOrder) (strategy : Option String)
      → Safe watch (insert_and_place r a o strategy)
  unfolding insert_and_place
  insert_and_place-Safe a o strategy =
      Safe-bind watch (now r.node.env) _
        (Safe-ask r.node.env sound.fair watch read_clock r.node.env.clock refl)
        (λ time. insert_step a o strategy time)
