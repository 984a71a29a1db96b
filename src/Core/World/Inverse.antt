-- ===== src/Core/World/Inverse.antt =====
-- The actions of Core/World.antt read backwards: what an action that returns has been through.
use quant_execution_engine.Prelude.{◌≡◌, refl}
use quant_execution_engine.Contracts.Errors.{Result, ok, err}
use quant_execution_engine.Core.World.{World, Action, continue, ◌>>=◌}

continue_ok {ℓ κ} :
    {A : Type ℓ} {B : Type κ} (r : Result A) (f : A → Action B) (w : World) (b : B)
    → (continue r f w).0 ≡ ok b
    → (a : A) × (r ≡ ok a) × ((f a w).0 ≡ ok b)
continue_ok (ok a) f w b h = (a, refl, h)
continue_ok (err e) f w b h = cc

-- Both parts of an action that returns have returned.
pub bind_ok {ℓ κ} :
    {A : Type ℓ} {B : Type κ} (m : Action A) (f : A → Action B) (w : World) (b : B)
    → ((m >>= f) w).0 ≡ ok b
    → (a : A) × ((m w).0 ≡ ok a) × ((f a (m w).1).0 ≡ ok b)
unfolding ◌>>=◌
bind_ok m f w b h = continue_ok (m w).0 f (m w).1 b h
