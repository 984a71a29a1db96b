-- ===== src/Core/Router/Amend/Calls.antt =====
-- The calls of Core/Router/Amend.antt against the log: a placement is one of `submit`.
use quant_execution_engine.Prelude.{
  ℕ, refl, Bool, true, false, Option, none, some, String, ltb, not, ◌&&◌,
}
use quant_execution_engine.Contracts.Capabilities.{lookup, Amend, native, cancel_replace}
use quant_execution_engine.Contracts.Enums.{OrderState, new, partially_filled, pending_replace}
use quant_execution_engine.Contracts.Errors.{
  Result, ok, err, raise_if, amend_rejected, adapter_failed,
}
use quant_execution_engine.Contracts.Orders.{validate, is_some}
use quant_execution_engine.Core.KillSwitch.{assert_disengaged}
use quant_execution_engine.Core.KillSwitch.First.{assert_disengaged-Safe}
use quant_execution_engine.Core.Risk.{check as risk_check}
use quant_execution_engine.Core.Risk.Calls.{check-Safe as risk-Safe}
use quant_execution_engine.Core.Stage.{Adapter, trade}
use quant_execution_engine.Core.World.{pure, lift, ask, now, query, read_clock, venue_amend}
use quant_execution_engine.Core.World.Quiet.{
  Watched, Safe, Safe-ask, Safe-statement, Safe-query, Safe-lift, Safe-bind, Safe-if,
}
use quant_execution_engine.Core.Router.Parts.{Router, route, guard_breaker, set_status}
use quant_execution_engine.Core.Router.Parts.Calls.{guard_breaker-Safe, set_status-Safe}
use quant_execution_engine.Core.Router.Settle.Calls.{IsSound}
use quant_execution_engine.Core.Router.Submit.Once.{submit-Safe}
use quant_execution_engine.Core.Router.Cancel.{get, cancel}
use quant_execution_engine.Core.Router.Amend.{
  Change, amended, assert_amend_quantities, adapter_amend, amend_answer, acked, restore_partial,
  replace_row, settle_amend, can_amend, amend_found, amend_native, amend_cancel_replace,
  by_semantics, amend_row, amend,
}
use quant_execution_engine.Db.Models.{OrderRow, OrderResultRow}
use quant_execution_engine.Db.Repositories.{fetch_order, fetch_order_result, replace_order}
use quant_execution_engine.Db.Repositories.Writes.{replace_order-Preserves}
use quant_execution_engine.Core.Router.Cancel.Calls.{get-Safe, cancel-Safe}

module _ (r : Router) (sound : IsSound r) (watch : Watched) where
  status-Safe : (order : String) (state : OrderState) → Safe watch (set_status r.node order state)
  status-Safe order state = set_status-Safe r.node sound.fair watch order state

  acked-Safe : (answer : Result Bool) → Safe watch (acked answer)
  unfolding acked
  acked-Safe (ok done) w v = v
  acked-Safe (err adapter_failed) w v = v
  acked-Safe (err _) w v = v

  adapter_amend-Safe :
      (a : Adapter) (order : String) (c : Change) → Safe watch (adapter_amend r.node a order c)
  unfolding adapter_amend
  adapter_amend-Safe a order c =
      Safe-bind watch (ask r.node.env (venue_amend a order) (amend_answer r.node a order c)) _
        (Safe-ask r.node.env sound.fair watch (venue_amend a order) (amend_answer r.node a order c)
          refl)
        acked-Safe

  restore_partial-Safe :
      (order : String) (filled_qty : ℕ) → Safe watch (restore_partial r.node order filled_qty)
  unfolding restore_partial
  restore_partial-Safe order filled_qty =
      Safe-if watch (ltb 0 filled_qty) _ (pure tt) (status-Safe order partially_filled) (λ w v. v)

  replace_row-Safe : (order : String) (c : Change) → Safe watch (replace_row r.node order c)
  unfolding replace_row
  replace_row-Safe order c =
      Safe-bind watch (now r.node.env) _
        (Safe-ask r.node.env sound.fair watch read_clock r.node.env.clock refl)
        (λ time.
          Safe-statement r.node.env sound.fair watch
            (replace_order r.node.schema time order c.price c.quantity)
            (replace_order-Preserves r.node.schema time order c.price c.quantity))

  settle_amend-Safe :
      (order : String) (c : Change) (filled_qty : ℕ) (done : Bool)
      → Safe watch (settle_amend r.node order c filled_qty done)
  unfolding settle_amend
  settle_amend-Safe order c filled_qty true =
      Safe-bind watch (replace_row r.node order c) _ (replace_row-Safe order c) (λ _.
        Safe-bind watch (restore_partial r.node order filled_qty) _
          (restore_partial-Safe order filled_qty)
          (λ _. Safe-bind watch (get r.node order) _ (get-Safe r sound watch order) (λ _ w v. v)))
  settle_amend-Safe order c filled_qty false =
      Safe-bind watch (set_status r.node order new) _ (status-Safe order new) (λ _.
        Safe-bind watch (restore_partial r.node order filled_qty) _
          (restore_partial-Safe order filled_qty) (λ _ w v. v))

  amend_found-Safe :
      (row : OrderRow) (c : Change) (result : Option OrderResultRow)
      → Safe watch (amend_found r row c result)
  unfolding amend_found
  amend_found-Safe row c none = λ w v. v
  amend_found-Safe row c (some result) =
      let order = row.client_order_id in
      let quantities = assert_amend_quantities row.display_qty c.quantity result.filled_qty in
      Safe-bind watch (lift quantities) _ (Safe-lift watch quantities) (λ _.
        Safe-bind watch (lift (validate r.is_uuid4 (amended row order c))) _
          (Safe-lift watch (validate r.is_uuid4 (amended row order c)))
          (λ o. Safe-bind watch (risk_check r.node o) _ (risk-Safe r.node sound.fair watch o) (λ _.
            Safe-bind watch (lift (route r.node row.broker row.account trade)) _
              (Safe-lift watch (route r.node row.broker row.account trade))
              (λ a.
                Safe-bind watch (guard_breaker a) _ (guard_breaker-Safe r.node sound.fair watch a)
                  (λ _.
                    Safe-bind watch (set_status r.node order pending_replace) _
                      (status-Safe order pending_replace)
                      (λ _.
                        Safe-bind watch (adapter_amend r.node a order c) _
                          (adapter_amend-Safe a order c)
                          (λ done. settle_amend-Safe order c result.filled_qty done)))))))

  amend_native-Safe :
      (row : OrderRow) (cid : Option String) (c : Change) → Safe watch (amend_native r row cid c)
  unfolding amend_native
  amend_native-Safe row (some cid) c = λ w v. v
  amend_native-Safe row none c =
      Safe-if watch (can_amend row.status) _ _
        (Safe-bind watch (query r.node.env (λ db. fetch_order_result db row.client_order_id)) _
          (Safe-query r.node.env sound.fair watch (λ db. fetch_order_result db row.client_order_id))
          (amend_found-Safe row c))
        (λ w v. v)

  amend_cancel_replace-Safe :
      (row : OrderRow) (cid : Option String) (c : Change)
      → Safe watch (amend_cancel_replace r row cid c)
  unfolding amend_cancel_replace
  amend_cancel_replace-Safe row none c = λ w v. v
  amend_cancel_replace-Safe row (some cid) c =
      Safe-bind watch (cancel r.node row.client_order_id) _
        (cancel-Safe r sound watch row.client_order_id)
        (λ _.
          Safe-bind watch (lift (validate r.is_uuid4 (amended row cid c))) _
            (Safe-lift watch (validate r.is_uuid4 (amended row cid c)))
            (λ o. submit-Safe r sound watch o row.strategy_id))

  by_semantics-Safe :
      (row : OrderRow) (cid : Option String) (c : Change) (how : Amend)
      → Safe watch (by_semantics r row cid c how)
  unfolding by_semantics
  by_semantics-Safe row cid c native = amend_native-Safe row cid c
  by_semantics-Safe row cid c cancel_replace = amend_cancel_replace-Safe row cid c

  amend_row-Safe :
      (cid : Option String) (c : Change) (row : Option OrderRow)
      → Safe watch (amend_row r cid c row)
  unfolding amend_row
  amend_row-Safe cid c none = λ w v. v
  amend_row-Safe cid c (some row) =
      Safe-bind watch (lift (lookup row.broker row.market)) _
        (Safe-lift watch (lookup row.broker row.market))
        (λ caps. by_semantics-Safe row cid c caps.amend)

  pub amend-Safe :
      (order : String) (cid : Option String) (c : Change) → Safe watch (amend r order cid c)
  unfolding amend
  amend-Safe order cid c =
      let asked = raise_if (not (is_some c.price) && not (is_some c.quantity)) amend_rejected in
      Safe-bind watch (assert_disengaged r.node) _ (assert_disengaged-Safe r.node sound.fair watch)
        (λ _. Safe-bind watch (lift asked) _ (Safe-lift watch asked) (λ _.
          Safe-bind watch (query r.node.env (λ db. fetch_order db order)) _
            (Safe-query r.node.env sound.fair watch (λ db. fetch_order db order))
            (amend_row-Safe cid c)))
