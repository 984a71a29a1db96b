-- ===== src/Core/HandleRecovery/Bounded.antt =====
-- The burst of core/handle_recovery.py against the log.
use quant_execution_engine.Prelude.{
  refl, ℕ, zero, suc, ◌+◌, Bool, true, false, String, if◌then◌else◌,
}
use quant_execution_engine.Contracts.Enums.{HandleResolution, confirmed}
use quant_execution_engine.Core.HandleRecovery.{
  HandleResolver, Budget, caught, poll, is_resolved, is_read, is_spent, elapsed_ms, recover_handle,
  enough,
}
use quant_execution_engine.Core.World.{Env, Action, pure, pause, now, read_clock, sleep}
use quant_execution_engine.Core.World.Quiet.{Watched, IsFair, Safe, Safe-ask, Safe-bind, Safe-if}

pub Safe-caught {ℓ} :
    {A : Type ℓ} (watch : Watched) (m : Action A) → Safe watch m → Safe watch (caught m)
Safe-caught watch m s w v = s w v

Safe-spent :
    (watch : Watched) (b : Bool) (m n : Action HandleResolution)
    → Safe watch m
    → Safe watch n
    → Safe watch (elim b [ true ↦ m | false ↦ n ])
Safe-spent watch true m n sm sn = sm
Safe-spent watch false m n sm sn = sn

module _ (env : Env) (fair : IsFair env) (resolve : HandleResolver) (b : Budget) (order : String)
    (watch : Watched) (reads : Safe watch (resolve order)) where
  poll-Safe :
      (fuel submitted_at attempts : ℕ) (read_ok : Bool)
      → Safe watch (poll fuel env resolve b order submitted_at attempts read_ok)
  unfolding poll
  poll-Safe zero submitted_at attempts read_ok = λ w v. v
  poll-Safe (suc fuel) submitted_at attempts read_ok =
      let again = poll-Safe fuel submitted_at (attempts + 1) in
      Safe-bind watch (caught (resolve order)) _ (Safe-caught watch (resolve order) reads)
        (λ answer.
          Safe-if watch (is_resolved answer) (pure confirmed) _ (λ w v. v)
            (Safe-bind watch (now env) _ (Safe-ask env fair watch read_clock env.clock refl)
              (λ time.
                Safe-spent watch (is_spent b (attempts + 1) (elapsed_ms time submitted_at)) _ _
                  (λ w v. v)
                  (Safe-bind watch (pause env sleep) _
                    (Safe-ask env fair watch sleep (λ t. tt) refl)
                    (λ _. again (if is_read answer then true else read_ok))))))

  pub recover_handle-Safe :
      (submitted_at : ℕ) → Safe watch (recover_handle env resolve b order submitted_at)
  unfolding recover_handle
  recover_handle-Safe submitted_at = poll-Safe (enough b submitted_at) submitted_at 0 false
