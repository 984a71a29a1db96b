-- ===== src/Core/RoutingAuthority.antt =====
-- core/routing_authority.py (EH6): which accounts this node may route real orders for.
pub mod Declared
use quant_execution_engine.Prelude.{
  Bool, true, false, ◌||◌, ◌&&◌, not, String, List, [], ◌∷◌, ℕ, any, codes, strip, same_codes,
  is_empty, if◌then◌else◌,
}
use quant_execution_engine.Config.{Settings}
use quant_execution_engine.Contracts.Enums.{Broker, Stage, micro_live, live, sim, paper}
use quant_execution_engine.Contracts.Errors.{
  Result, Done, ok, err, real_routing_not_authorized, config_refused, raise_if, ◌>>◌,
}
use quant_execution_engine.Core.Stage.{Adapter, sim_adapter, is_real}

abbrev is_sim_adapter : Adapter → Bool
is_sim_adapter sim_adapter = true
is_sim_adapter _ = false

abbrev no_codes : List ℕ → Bool
no_codes [] = true
no_codes (_ ∷ _) = false

-- `authorized_accounts`: the code points of each declared account, stripped, blanks left out. The
-- order and repetitions that a `frozenset` forgets are never read.
unfoldable pub authorized_accounts : List String → List (List ℕ)
authorized_accounts [] = []
authorized_accounts (a ∷ rest) =
    let name = strip (codes a) in
    if no_codes name then authorized_accounts rest else name ∷ authorized_accounts rest

-- `not allowed`
abbrev none_declared : List (List ℕ) → Bool
none_declared [] = true
none_declared (_ ∷ _) = false

unfoldable pub assert_may_route_real : Settings → String → Broker → Adapter → Result Done
assert_may_route_real settings account broker adapter =
    if is_sim_adapter adapter || not (is_real broker)
    then ok tt
    else let allowed = authorized_accounts settings.real_routing_accounts in
      if none_declared allowed
      then err real_routing_not_authorized
      else if any (same_codes (codes account)) allowed
      then ok tt
      else err real_routing_not_authorized

abbrev is_routing_stage : Stage → Bool
is_routing_stage micro_live = true
is_routing_stage live = true
is_routing_stage _ = false

unfoldable pub assert_startup_declaration : Settings → Result Done
assert_startup_declaration settings =
    if not (is_routing_stage settings.stage)
    then ok tt
    else if none_declared (authorized_accounts settings.real_routing_accounts)
    then err config_refused
    else raise_if (not settings.liberator_api_key && not settings.streaming_pro_api_key)
        config_refused
