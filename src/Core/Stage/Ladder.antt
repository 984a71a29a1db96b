-- ===== src/Core/Stage/Ladder.antt =====
-- What the stage ladder of core/stage.py lets through.
use quant_execution_engine.Prelude.{◌≡◌, ◌≢◌, true, arith, some}
use quant_execution_engine.Contracts.Enums.{Broker, Stage, sim, micro_live}
use quant_execution_engine.Contracts.Errors.{ok}
use quant_execution_engine.Core.Stage.{
  trade, read, Adapter, sim_adapter, Installed, is_real, real_adapter_for, resolve_adapter,
}

-- A placement, a cancel or an amend reaches a real adapter only at `micro_live`, and then only the
-- installed adapter of the real broker that the request names.
pub trade_real_needs_micro_live :
    (stage : Stage) (broker : Broker) (i : Installed) (a : Adapter)
    → resolve_adapter stage broker i trade ≡ ok a
    → a ≢ sim_adapter
    → (stage ≡ micro_live) × (is_real broker ≡ true) × (real_adapter_for broker i ≡ some a)
unfolding resolve_adapter
trade_real_needs_micro_live stage broker i a h n = ground arith

-- Outside the stage `sim`, no read for a real broker is answered by the sim adapter.
real_read_never_sim :
    (stage : Stage) (broker : Broker) (i : Installed)
    → is_real broker ≡ true
    → stage ≢ sim
    → resolve_adapter stage broker i read ≢ ok sim_adapter
unfolding resolve_adapter
real_read_never_sim stage broker i r n h = ground arith
