-- ===== src/Core/Stage.antt =====
-- core/stage.py: the stage ladder, which picks the adapter that a request may reach.
pub mod Ladder
use quant_execution_engine.Prelude.{
  Bool, true, false, ◌&&◌, ◌||◌, Option, none, some, if◌then◌else◌,
}
use quant_execution_engine.Contracts.Enums.{
  Broker, Stage, sim, paper, micro_live, live, same_broker,
}
use quant_execution_engine.Contracts.Errors.{Result, ok, err, stage_rejected}

pub data AdapterIntent : Type 0 where
  trade read : AdapterIntent

-- An adapter object, by the role that it was injected for. Python's `is` on two adapters is
-- equality of their roles: each role has one object for the life of the process.
pub data Adapter : Type 0 where
  sim_adapter liberator_adapter streaming_pro_adapter : Adapter

-- Which real adapters are injected: `liberator_adapter is not None`, and the same for the other.
pub record Installed : Type 0 where
  pub liberator : Bool
  pub streaming_pro : Bool

-- `broker in _REAL_BROKERS`
abbrev pub is_real : Broker → Bool
is_real Broker.liberator = true
is_real Broker.streaming_pro = true
is_real Broker.sim = false

abbrev when_installed : Bool → Adapter → Option Adapter
when_installed true a = some a
when_installed false a = none

-- `_real_adapter_for`
unfoldable pub real_adapter_for : Broker → Installed → Option Adapter
real_adapter_for Broker.liberator i = when_installed i.liberator liberator_adapter
real_adapter_for Broker.streaming_pro i = when_installed i.streaming_pro streaming_pro_adapter
real_adapter_for Broker.sim i = none

or_rejected : Option Adapter → Result Adapter
or_rejected none = err stage_rejected
or_rejected (some a) = ok a

unfoldable pub resolve_adapter : Stage → Broker → Installed → AdapterIntent → Result Adapter
unfolding real_adapter_for or_rejected
resolve_adapter sim broker i intent = ok sim_adapter
resolve_adapter paper broker i read =
    if is_real broker then or_rejected (real_adapter_for broker i) else ok sim_adapter
resolve_adapter paper broker i trade = ok sim_adapter
resolve_adapter micro_live broker i intent =
    if is_real broker then or_rejected (real_adapter_for broker i) else err stage_rejected
resolve_adapter live broker i intent = err stage_rejected
