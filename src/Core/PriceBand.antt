-- ===== src/Core/PriceBand.antt =====
-- core/price_band.py: the advisory band around the last close.
pub mod Calls
use quant_execution_engine.Prelude.{◌&&◌, not, Option, none, some, if◌then◌else◌}
use quant_execution_engine.Prelude.Decimal.{Decimal, ltb_dec, is_positive}
use quant_execution_engine.Config.{Settings}
use quant_execution_engine.Contracts.Errors.{Done, price_band_exceeded, Result, ok, err}
use quant_execution_engine.Contracts.Orders.{NormalizedOrder}
use quant_execution_engine.Core.World.{Node, Action, pure, lift, ask, get_close, ◌>>=◌}

-- `abs(price - last_close) / last_close * 100` of the library's decimal arithmetic, which rounds.
module _ (deviation_pct : Decimal → Decimal → Decimal) where
  unfoldable pub in_band : Settings → Decimal → Option Decimal → Result Done
  in_band s price none = ok tt
  in_band s price (some last_close) =
      if not (is_positive last_close)
      then ok tt
      else if ltb_dec s.price_band_max_pct (deviation_pct price last_close)
      then err price_band_exceeded
      else ok tt

  band_price : Node → NormalizedOrder → Option Decimal → Action Done
  band_price node o none = pure tt
  band_price node o (some price) = do
    last_close ← ask node.env (get_close o.symbol o.market) (node.env.last_close o.symbol o.market)
    lift (in_band node.settings price last_close)

  unfoldable pub check : Node → NormalizedOrder → Action Done
  unfolding band_price
  check node o =
      if node.settings.price_band_enabled && node.env.market_data_configured
      then band_price node o o.price
      else pure tt
