-- ===== src/Core/PriceBand/Calls.antt =====
-- The call that core/price_band.py makes: it places and stores no order.
use quant_execution_engine.Prelude.{refl, Option, none, some, ◌&&◌}
use quant_execution_engine.Prelude.Decimal.{Decimal}
use quant_execution_engine.Contracts.Orders.{NormalizedOrder}
use quant_execution_engine.Core.PriceBand.{in_band, band_price, check}
use quant_execution_engine.Core.World.{Node, pure, ask, get_close}
use quant_execution_engine.Core.World.Quiet.{
  Watched, IsFair, Safe, Safe-ask, Safe-lift, Safe-bind, Safe-if,
}

module _ (deviation_pct : Decimal → Decimal → Decimal) (node : Node) (fair : IsFair node.env)
    (watch : Watched) where
  band_price-Safe :
      (o : NormalizedOrder) (price : Option Decimal)
      → Safe watch (band_price deviation_pct node o price)
  unfolding band_price
  band_price-Safe o none = λ w v. v
  band_price-Safe o (some p) =
      Safe-bind watch
        (ask node.env (get_close o.symbol o.market) (node.env.last_close o.symbol o.market)) _
        (Safe-ask node.env fair watch (get_close o.symbol o.market)
          (node.env.last_close o.symbol o.market) refl)
        (λ close. Safe-lift watch (in_band deviation_pct node.settings p close))

  pub check-Safe : (o : NormalizedOrder) → Safe watch (check deviation_pct node o)
  unfolding check
  check-Safe o =
      Safe-if watch (node.settings.price_band_enabled && node.env.market_data_configured)
        (band_price deviation_pct node o o.price) (pure tt) (band_price-Safe o o.price) (λ w v. v)
