-- ===== src/Core/KillSwitch/First.antt =====
-- What the kill switch of core/kill_switch.py reads and refuses.
use quant_execution_engine.Prelude.{◌≡◌, refl, true, false, some, ◌∷◌}
use quant_execution_engine.Contracts.Errors.{err, kill_switch_engaged}
use quant_execution_engine.Core.KillSwitch.{
  assert_disengaged, status, refuse_engaged, Source, by_env, by_redis, disengaged, from_key,
}
use quant_execution_engine.Core.World.{Node, World, pure, ask, get_kill_key, waited, ◌>>=◌}
use quant_execution_engine.Core.World.Quiet.{
  Watched, IsFair, Safe, Safe-ask, Safe-pure, Safe-bind, Safe-if,
}

module _ (node : Node) (fair : IsFair node.env) (watch : Watched) where
  status-Safe : Safe watch (status node)
  unfolding status
  status-Safe =
      let read = ask node.env get_kill_key node.env.kill_key in
      Safe-if watch node.settings.kill_switch_engaged (pure by_env) _ (Safe-pure watch by_env) (
        Safe-if watch node.env.redis_configured (read >>= λ key. pure (from_key key))
          (pure disengaged)
          (Safe-bind watch read (λ key. pure (from_key key))
            (Safe-ask node.env fair watch get_kill_key node.env.kill_key refl) (λ key w v. v))
          (Safe-pure watch disengaged))

  refuse_engaged-Safe : (source : Source) → Safe watch (refuse_engaged source)
  unfolding refuse_engaged
  refuse_engaged-Safe by_env w v = v
  refuse_engaged-Safe by_redis w v = v
  refuse_engaged-Safe disengaged w v = v

  pub assert_disengaged-Safe : Safe watch (assert_disengaged node)
  unfolding assert_disengaged
  assert_disengaged-Safe =
      Safe-bind watch (status node) refuse_engaged status-Safe refuse_engaged-Safe

pub assert_disengaged_pinned :
    (node : Node) (w : World)
    → node.settings.kill_switch_engaged ≡ true
    → assert_disengaged node w ≡ (err kill_switch_engaged, w)
unfolding assert_disengaged status refuse_engaged ◌>>=◌
assert_disengaged_pinned node w on = rw on refl

pub assert_disengaged_keyed :
    (node : Node) (w : World)
    → node.settings.kill_switch_engaged ≡ false
    → node.env.redis_configured ≡ true
    → node.env.kill_key (get_kill_key ∷ w.trace) ≡ some true
    → assert_disengaged node w ≡ (err kill_switch_engaged, waited node.env get_kill_key w)
unfolding assert_disengaged status refuse_engaged ask ◌>>=◌
assert_disengaged_keyed node w off redis held = rw (off, redis, held) refl
