-- ===== src/Core/KillSwitch.antt =====
-- core/kill_switch.py: the switch that is checked before all else.
pub mod First
use quant_execution_engine.Prelude.{Bool, true, false, Option, none, some, if◌then◌else◌}
use quant_execution_engine.Contracts.Errors.{
  Done, kill_switch_engaged, kill_switch_env_pinned, cache_failed,
}
use quant_execution_engine.Core.World.{
  Node, Action, pure, raise, ask, get_kill_key, set_kill_key, delete_kill_key, ◌>>=◌,
}

pub data Source : Type 0 where
  by_env by_redis disengaged : Source

-- A read that raises falls back to the flag alone, which is off here.
abbrev from_key : Option Bool → Source
from_key none = disengaged
from_key (some true) = by_redis
from_key (some false) = disengaged

unfoldable pub status : Node → Action Source
status node =
    if node.settings.kill_switch_engaged
    then pure by_env
    else if node.env.redis_configured
    then (do key ← ask node.env get_kill_key node.env.kill_key; pure (from_key key))
    else pure disengaged

refuse_engaged : Source → Action Done
refuse_engaged by_env = raise kill_switch_engaged
refuse_engaged by_redis = raise kill_switch_engaged
refuse_engaged disengaged = pure tt

unfoldable pub assert_disengaged : Node → Action Done
unfolding status refuse_engaged
assert_disengaged node = do source ← status node; refuse_engaged source

-- A write that raises is not caught here.
written : Bool → Action Done
written true = pure tt
written false = raise cache_failed

unfoldable pub engage : Node → Action Done
unfolding written
engage node =
    if node.env.redis_configured
    then (do done ← ask node.env set_kill_key node.env.write_kill_key; written done)
    else raise cache_failed

unfoldable pub disengage : Node → Action Done
unfolding written
disengage node =
    if node.settings.kill_switch_engaged
    then raise kill_switch_env_pinned
    else if node.env.redis_configured
    then (do done ← ask node.env delete_kill_key node.env.write_kill_key; written done)
    else raise cache_failed
