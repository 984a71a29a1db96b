-- ===== src/Core/Router/Submit/Once.antt =====
-- No order is placed twice by core/router.py: `submit`, and any number of them.
use quant_execution_engine.Prelude.{◌+◌, refl, Bool, true, false, Option, none, some, String, ◌/◌}
use quant_execution_engine.Contracts.Enums.{HandleResolution}
use quant_execution_engine.Contracts.Orders.{NormalizedOrder}
use quant_execution_engine.Core.KillSwitch.{assert_disengaged}
use quant_execution_engine.Core.KillSwitch.First.{assert_disengaged-Safe}
use quant_execution_engine.Core.Stage.{Adapter}
use quant_execution_engine.Core.World.{Action, ask, query, lock, unlock}
use quant_execution_engine.Core.World.Quiet.{
  Watched, Safe, Safe-ask, Safe-query, Safe-bind, Safe-if,
}
use quant_execution_engine.Core.Router.Parts.{Router}
use quant_execution_engine.Core.Router.Settle.Calls.{IsSound}
use quant_execution_engine.Core.Router.Submit.{
  submit, submit_new, checked, acquire, locked, holding, release, finish, outcome_of,
  await_concurrent, Locked, early, placed,
}
use quant_execution_engine.Db.Models.{OrderResultRow}
use quant_execution_engine.Db.Repositories.{fetch_order_result}
use quant_execution_engine.Core.Router.Submit.Steps.{
  await_row-Safe, checked-Safe, insert_and_place-Safe,
}

module _ (r : Router) (sound : IsSound r) (watch : Watched) where
  acquire-Safe : (order : String) → Safe watch (acquire r.node order)
  unfolding acquire
  acquire-Safe order =
      Safe-if watch r.node.env.redis_configured _ _
        (Safe-bind watch (ask r.node.env (lock order) (r.node.env.take_lock order)) _
          (Safe-ask r.node.env sound.fair watch (lock order) (r.node.env.take_lock order) refl)
          (λ got w v. v))
        (λ w v. v)

  release-Safe : (order : String) → Safe watch (release r.node order)
  unfolding release
  release-Safe order =
      Safe-if watch r.node.env.redis_configured _ _
        (Safe-ask r.node.env sound.fair watch (unlock order) (λ t. tt) refl) (λ w v. v)

  holding-Safe :
      (order : String) (body : Action Locked)
      → Safe watch body
      → Safe watch (holding r.node order body)
  unfolding holding
  holding-Safe order body s w v = release-Safe order (body w).1 (s w v)

  locked-Safe :
      (a : Adapter) (o : NormalizedOrder) (strategy : Option String) (got : Bool)
      → Safe watch (locked r a o strategy got)
  unfolding locked await_concurrent
  locked-Safe a o strategy true =
      holding-Safe o.client_order_id _ (insert_and_place-Safe r sound watch a o strategy)
  locked-Safe a o strategy false =
      Safe-bind watch (await_concurrent r.node o.client_order_id) _
        (await_row-Safe r sound watch (r.node.settings.submit_lock_wait_ms / 50 + 2)
          o.client_order_id 0)
        (λ _ w v. v)

  outcome_of-Safe :
      (resolution : HandleResolution) (row : Option OrderResultRow)
      → Safe watch (outcome_of resolution row)
  unfolding outcome_of
  outcome_of-Safe resolution none w v = v
  outcome_of-Safe resolution (some row) w v = v

  finish-Safe : (o : NormalizedOrder) (how : Locked) → Safe watch (finish r o how)
  unfolding finish
  finish-Safe o (early outcome) = λ w v. v
  finish-Safe o (placed resolution) =
      Safe-bind watch (query r.node.env (λ db. fetch_order_result db o.client_order_id)) _
        (Safe-query r.node.env sound.fair watch (λ db. fetch_order_result db o.client_order_id))
        (outcome_of-Safe resolution)

  submit_new-Safe :
      (o : NormalizedOrder) (strategy : Option String) (row : Option OrderResultRow)
      → Safe watch (submit_new r o strategy row)
  unfolding submit_new
  submit_new-Safe o strategy (some row) = λ w v. v
  submit_new-Safe o strategy none =
      Safe-bind watch (checked r o) _ (checked-Safe r sound watch o) (λ a.
        Safe-bind watch (acquire r.node o.client_order_id) _ (acquire-Safe o.client_order_id)
          (λ got.
            Safe-bind watch (locked r a o strategy got) _ (locked-Safe a o strategy got)
              (finish-Safe o)))

  pub submit-Safe :
      (o : NormalizedOrder) (strategy : Option String) → Safe watch (submit r o strategy)
  unfolding submit
  submit-Safe o strategy =
      Safe-bind watch (assert_disengaged r.node) _ (assert_disengaged-Safe r.node sound.fair watch)
        (λ _.
          Safe-bind watch (query r.node.env (λ db. fetch_order_result db o.client_order_id)) _
            (Safe-query r.node.env sound.fair watch (λ db. fetch_order_result db o.client_order_id))
            (submit_new-Safe o strategy))
