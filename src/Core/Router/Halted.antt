-- ===== src/Core/Router/Halted.antt =====
-- core/router.py under the kill switch of core/kill_switch.py.
use quant_execution_engine.Prelude.{◌≡◌, refl, true, false, Option, some, String, ◌∷◌}
use quant_execution_engine.Contracts.Errors.{err, kill_switch_engaged}
use quant_execution_engine.Contracts.Orders.{NormalizedOrder}
use quant_execution_engine.Core.KillSwitch.{assert_disengaged}
use quant_execution_engine.Core.KillSwitch.First.{assert_disengaged_pinned, assert_disengaged_keyed}
use quant_execution_engine.Core.World.{World, Action, get_kill_key, waited, ◌>>=◌}
use quant_execution_engine.Core.Router.Parts.{Router}
use quant_execution_engine.Core.Router.Submit.{submit}
use quant_execution_engine.Core.Router.Amend.{Change, amend}

-- What raises raises in a longer action too.
raised_first {ℓ κ} :
    {A : Type ℓ} {B : Type κ} (m : Action A) (f : A → Action B) (w w' : World)
    → m w ≡ (err kill_switch_engaged, w')
    → (m >>= f) w ≡ (err kill_switch_engaged, w')
unfolding ◌>>=◌
raised_first m f w w' e = rw e refl

-- Where the kill switch is set in the environment, `submit` and `amend` raise `KillSwitchEngaged`
-- before any call, and change nothing.
pub pinned_refuses :
    (r : Router) (o : NormalizedOrder) (strategy : Option String) (order : String)
    (cid : Option String) (c : Change) (w : World)
    → r.node.settings.kill_switch_engaged ≡ true
    → (submit r o strategy w ≡ (err kill_switch_engaged, w))
      × (amend r order cid c w ≡ (err kill_switch_engaged, w))
unfolding submit amend
pinned_refuses r o strategy order cid c w on =
    let e = assert_disengaged_pinned r.node w on in
    (
      raised_first (assert_disengaged r.node) _ w w e,
      raised_first (assert_disengaged r.node) _ w w e,
    )

-- Where Redis is configured and holds the kill key, `submit` and `amend` raise `KillSwitchEngaged`
-- after the one read of the key: no order is read, stored or placed by them.
pub keyed_refuses :
    (r : Router) (o : NormalizedOrder) (strategy : Option String) (order : String)
    (cid : Option String) (c : Change) (w : World)
    → r.node.settings.kill_switch_engaged ≡ false
    → r.node.env.redis_configured ≡ true
    → r.node.env.kill_key (get_kill_key ∷ w.trace) ≡ some true
    → (submit r o strategy w ≡ (err kill_switch_engaged, waited r.node.env get_kill_key w))
      × (amend r order cid c w ≡ (err kill_switch_engaged, waited r.node.env get_kill_key w))
unfolding submit amend
keyed_refuses r o strategy order cid c w off redis held =
    let w' = waited r.node.env get_kill_key w in
    let e = assert_disengaged_keyed r.node w off redis held in
    (
      raised_first (assert_disengaged r.node) _ w w' e,
      raised_first (assert_disengaged r.node) _ w w' e,
    )
