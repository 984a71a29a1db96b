-- ===== src/Contracts/Capabilities.antt =====
-- contracts/capabilities.py: the capability matrix, `assert_supports` and `lookup`.
use quant_execution_engine.Prelude.{
  Bool, true, ◌&&◌, not, Option, none, some, List, [], ◌∷◌, any, find,
}
use quant_execution_engine.Contracts.Enums.{
  Broker, Market, OrderType, market, limit, stop, stop_limit, iceberg, mtl, ato, atc, Tif, day, ioc,
  fok, gtc, PositionEffect, open_position, close_position, same_broker, same_market, same_type,
  same_tif, same_effect,
}
use quant_execution_engine.Contracts.Errors.{
  Result, Done, ok, err, capability_unsupported, raise_if, ◌>>◌,
}

pub data Amend : Type 0 where
  native cancel_replace : Amend

pub record CapabilitySet : Type 0 where
  pub broker : Broker
  pub market_of : Market
  pub order_types : List OrderType
  pub tifs : List Tif
  pub position_effects : List PositionEffect
  pub amend : Amend
  pub adapter_installed : Bool

abbrev all_types : List OrderType
all_types = market ∷ limit ∷ stop ∷ stop_limit ∷ iceberg ∷ mtl ∷ ato ∷ atc ∷ []

abbrev all_tifs : List Tif
all_tifs = day ∷ ioc ∷ fok ∷ gtc ∷ []

abbrev both_effects : List PositionEffect
both_effects = open_position ∷ close_position ∷ []

abbrev row :
    Broker → Market → List OrderType → List Tif → List PositionEffect → Amend → CapabilitySet
row b m types tifs effects a = record {
  broker = b;
  market_of = m;
  order_types = types;
  tifs = tifs;
  position_effects = effects;
  amend = a;
  adapter_installed = true;
}

abbrev pub capability_matrix : List CapabilitySet
capability_matrix =
    row Broker.sim Market.set all_types all_tifs [] native
    ∷ row Broker.sim Market.tfex all_types all_tifs both_effects native
    ∷ row Broker.liberator Market.set (market ∷ limit ∷ iceberg ∷ mtl ∷ ato ∷ atc ∷ []) all_tifs []
        cancel_replace
    ∷ row Broker.liberator Market.tfex (market ∷ limit ∷ stop ∷ stop_limit ∷ iceberg ∷ []) all_tifs
        both_effects cancel_replace
    ∷ row Broker.streaming_pro Market.set (market ∷ limit ∷ []) (day ∷ []) [] cancel_replace
    ∷ row Broker.streaming_pro Market.tfex (market ∷ limit ∷ []) (day ∷ []) both_effects
        cancel_replace
    ∷ []

effect_supported : List PositionEffect → Option PositionEffect → Bool
effect_supported effects none = true
effect_supported effects (some e) = any (same_effect e) effects

unfoldable pub assert_supports :
    CapabilitySet → OrderType → Tif → Option PositionEffect → Result Done
unfolding effect_supported
assert_supports caps t f e = do
  raise_if (not (any (same_type t) caps.order_types)) capability_unsupported
  raise_if (not (any (same_tif f) caps.tifs)) capability_unsupported
  raise_if (not (effect_supported caps.position_effects e)) capability_unsupported

or_unsupported : Option CapabilitySet → Result CapabilitySet
or_unsupported none = err capability_unsupported
or_unsupported (some entry) = ok entry

unfoldable pub lookup : Broker → Market → Result CapabilitySet
unfolding or_unsupported
lookup b m =
    or_unsupported (
      find (λ entry. same_broker entry.broker b && same_market entry.market_of m) capability_matrix)
