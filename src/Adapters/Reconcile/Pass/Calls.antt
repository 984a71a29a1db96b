-- ===== src/Adapters/Reconcile/Pass/Calls.antt =====
-- A pass against the log: where the venue's reads place no order, neither does the pass.
use quant_execution_engine.Prelude.{ℕ, refl, Bool, true, false, List, [], ◌∷◌, String}
use quant_execution_engine.Contracts.Errors.{Result, ok, err, adapter_failed}
use quant_execution_engine.Core.HandleRecovery.{caught}
use quant_execution_engine.Core.HandleRecovery.Bounded.{Safe-caught}
use quant_execution_engine.Core.World.{Node, now, query, read_clock}
use quant_execution_engine.Core.World.Quiet.{
  Watched, IsFair, Safe, Safe-ask, Safe-query, Safe-bind, Safe-if,
}
use quant_execution_engine.Db.Models.{OrderRow}
use quant_execution_engine.Db.Repositories.{fetch_order_result, fetch_orders_for_reconcile}
use quant_execution_engine.Db.Repositories.Evolution.{IsFrozen}
use quant_execution_engine.Adapters.Reconcile.Matching.{find_item}
use quant_execution_engine.Adapters.Reconcile.Repair.{execute_all, filled_or, handles}
use quant_execution_engine.Adapters.Reconcile.Repair.Calls.{execute_all-Safe}
use quant_execution_engine.Adapters.Reconcile.Pass.{
  Reconciler, apply_row, apply_rows, apply_group, of_group, apply_groups, pass, run_once,
}

module _ {A : Type 0} (node : Node) (r : Reconciler A) (fair : IsFair node.env)
    (frozen : IsFrozen node.schema) (watch : Watched)
    (reads : (row : OrderRow) → Safe watch (r.fetch row)) where
  pub apply_row-Safe :
      (row : OrderRow) (items : List A) (claimed : List String) (time : ℕ) (require_stuck : Bool)
      → Safe watch (apply_row node r row items claimed time require_stuck)
  unfolding apply_row
  apply_row-Safe row items claimed time require_stuck =
      let found = find_item r.shown row items claimed time require_stuck in
      Safe-bind watch (query node.env (λ db. fetch_order_result db row.client_order_id)) _
        (Safe-query node.env fair watch (λ db. fetch_order_result db row.client_order_id))
        (λ result.
          let actions = r.plan row (filled_or result) found.item time found.is_ambiguous in
          Safe-bind watch (execute_all node row.client_order_id actions) _
            (execute_all-Safe node fair frozen watch row.client_order_id actions)
            (λ applied w v. v))

  apply_rows-Safe :
      (rows : List OrderRow) (items : List A) (claimed : List String) (time : ℕ)
      → Safe watch (apply_rows node r rows items claimed time)
  unfolding apply_rows
  apply_rows-Safe [] items claimed time = λ w v. v
  apply_rows-Safe (row ∷ rest) items claimed time =
      Safe-bind watch (apply_row node r row items claimed time true) _
        (apply_row-Safe row items claimed time true)
        (λ done.
          Safe-bind watch (apply_rows node r rest items done.1 time) _
            (apply_rows-Safe rest items done.1 time) (λ applied w v. v))

  apply_group-Safe :
      (rows : List OrderRow) (time : ℕ) (answer : Result (List A))
      → Safe watch (apply_group node r rows time answer)
  unfolding apply_group
  apply_group-Safe rows time (ok items) = apply_rows-Safe rows items (handles rows) time
  apply_group-Safe rows time (err adapter_failed) = λ w v. v
  apply_group-Safe rows time (err _) = λ w v. v

  apply_groups-Safe :
      (all_rows rows seen : List OrderRow) (time : ℕ)
      → Safe watch (apply_groups node r all_rows rows seen time)
  unfolding apply_groups
  apply_groups-Safe all_rows [] seen time = λ w v. v
  apply_groups-Safe all_rows (row ∷ rest) seen time =
      let later = apply_groups-Safe all_rows rest (row ∷ seen) time in
      let mine = of_group node r row all_rows in
      Safe-if watch _ _ _ later (
        Safe-bind watch (caught (r.fetch row)) _ (Safe-caught watch (r.fetch row) (reads row))
          (λ answer.
            Safe-bind watch (apply_group node r mine time answer) _
              (apply_group-Safe mine time answer)
              (λ applied.
                Safe-bind watch (apply_groups node r all_rows rest (row ∷ seen) time) _ later
                  (λ more w v. v))))

  pass-Safe : (rows : List OrderRow) → Safe watch (pass node r rows)
  unfolding pass
  pass-Safe [] = λ w v. v
  pass-Safe (row ∷ rest) =
      Safe-bind watch (now node.env) _ (Safe-ask node.env fair watch read_clock node.env.clock refl)
        (λ time. apply_groups-Safe (row ∷ rest) (row ∷ rest) [] time)

  pub run_once-Safe : Safe watch (run_once node r)
  unfolding run_once
  run_once-Safe =
      Safe-bind watch (query node.env (λ db. fetch_orders_for_reconcile db r.broker false)) _
        (Safe-query node.env fair watch (λ db. fetch_orders_for_reconcile db r.broker false))
        pass-Safe
