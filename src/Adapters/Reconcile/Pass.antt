-- ===== src/Adapters/Reconcile/Pass.antt =====
-- `reconcile_once` of adapters/liberator/reconciler.py and its twin in adapters/streaming_pro: one
-- pass over the stored orders of a broker.
pub mod Calls
use quant_execution_engine.Prelude.{
  ℕ, ◌+◌, Bool, true, false, List, [], ◌∷◌, Option, String, any, keep, if◌then◌else◌,
}
use quant_execution_engine.Contracts.Enums.{Broker}
use quant_execution_engine.Contracts.Errors.{Result, ok, err, adapter_failed}
use quant_execution_engine.Core.HandleRecovery.{caught}
use quant_execution_engine.Core.World.{Node, Action, pure, raise, now, query, ◌>>=◌}
use quant_execution_engine.Db.Models.{OrderRow}
use quant_execution_engine.Db.Repositories.{fetch_order_result, fetch_orders_for_reconcile}
use quant_execution_engine.Adapters.Reconcile.Matching.{Shown, find_item}
use quant_execution_engine.Adapters.Reconcile.Planning.{ReconcileAction}
use quant_execution_engine.Adapters.Reconcile.Repair.{execute_all, filled_or, handles}

-- What the two differ in: the venue's read for the group of an order, a transport error of which is
-- `adapter_failed`; the groups; and the plan.
pub record Reconciler (A : Type 0) : Type 0 where
  pub broker : Broker
  pub shown : A → Shown
  pub plan : OrderRow → ℕ → Option A → ℕ → Bool → List ReconcileAction
  pub fetch : OrderRow → Action (List A)
  pub same_group : OrderRow → OrderRow → Bool

module _ {A : Type 0} (node : Node) (r : Reconciler A) where
  -- How many actions were applied, with the numbers claimed.
  unfoldable pub apply_row : OrderRow → List A → List String → ℕ → Bool → Action (ℕ × List String)
  apply_row row items claimed time require_stuck = do
    result ← query node.env (λ db. fetch_order_result db row.client_order_id)
    let found = find_item r.shown row items claimed time require_stuck
    applied ←
        execute_all node row.client_order_id
          (r.plan row (filled_or result) found.item time found.is_ambiguous)
    pure (applied, found.claimed)

  unfoldable pub apply_rows : List OrderRow → List A → List String → ℕ → Action ℕ
  apply_rows [] items claimed time = pure 0
  apply_rows (row ∷ rest) items claimed time = do
    done ← apply_row row items claimed time true
    applied ← apply_rows rest items done.1 time
    pure (done.0 + applied)

  -- A transport error skips the group; any other goes on.
  apply_group : List OrderRow → ℕ → Result (List A) → Action ℕ
  apply_group rows time (ok items) = apply_rows rows items (handles rows) time
  apply_group rows time (err adapter_failed) = pure 0
  apply_group rows time (err e) = raise e

  of_group : OrderRow → List OrderRow → List OrderRow
  of_group row rows = keep (λ other. r.same_group other row) rows

  -- The groups in the order of their first rows; `seen` holds a row of each that is done.
  apply_groups : List OrderRow → List OrderRow → List OrderRow → ℕ → Action ℕ
  unfolding apply_group of_group
  apply_groups all_rows [] seen time = pure 0
  apply_groups all_rows (row ∷ rest) seen time =
      let later = apply_groups all_rows rest (row ∷ seen) time in
      if any (r.same_group row) seen then later else (do
        answer ← caught (r.fetch row)
        applied ← apply_group (of_group row all_rows) time answer
        more ← later
        pure (applied + more))

  pass : List OrderRow → Action ℕ
  unfolding apply_groups
  pass [] = pure 0
  pass (row ∷ rest) = do time ← now node.env; apply_groups (row ∷ rest) (row ∷ rest) [] time

  unfoldable pub run_once : Action ℕ
  unfolding pass
  run_once = do
    rows ← query node.env (λ db. fetch_orders_for_reconcile db r.broker false)
    pass rows
