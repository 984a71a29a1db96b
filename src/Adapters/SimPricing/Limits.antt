-- ===== src/Adapters/SimPricing/Limits.antt =====
-- The prices of adapters/sim_pricing.py against the limits of their orders.
use quant_execution_engine.Prelude.{ℕ, ◌≡◌, subst, Bool, true, false, Option, none, some, arith}
use quant_execution_engine.Prelude.Decimal.{Decimal, ltb_dec, min_dec, max_dec}
use quant_execution_engine.Contracts.Enums.{Side, buy, sell}
use quant_execution_engine.Contracts.Orders.{NormalizedOrder}
use quant_execution_engine.OrderBook.Models.{OrderBookLevel, OrderBook}
use quant_execution_engine.OrderBook.Cache.{BookCache, get}
use quant_execution_engine.Adapters.SimPricing.{
  bounded, within, bound_by_limit, level_for, from_level, from_found, from_book, from_market_data,
  first_of, fill_price,
}

-- A price is worse than the limit of an order: above it for a buy, and below it for a sell.
abbrev pub crosses : Side → Decimal → Decimal → Bool
crosses buy price limit = ltb_dec limit price
crosses sell price limit = ltb_dec price limit

not_below_itself : (d : Decimal) → ltb_dec d d ≡ false
unfolding ltb_dec
not_below_itself d = ground arith

bounded_lem :
    (side : Side) (price limit : Decimal) → crosses side (bounded side price limit) limit ≡ false
unfolding bounded min_dec max_dec
bounded_lem side price limit = ground (arith, not_below_itself limit)

module _ (o : NormalizedOrder) (limit : Decimal) (has_limit : o.price ≡ some limit) where
  bound_lem : (price : Decimal) → crosses o.side (bound_by_limit price o) limit ≡ false
  unfolding bound_by_limit within
  bound_lem price = rw has_limit (bounded_lem o.side price limit)

  -- An absent price, or one within the limit.
  abbrev IsWithin : Option Decimal → Type 0
  IsWithin none = Unit
  IsWithin (some p) = crosses o.side p limit ≡ false

  level-IsWithin : (level : Option OrderBookLevel) → IsWithin (from_level o level)
  unfolding from_level
  level-IsWithin none = tt
  level-IsWithin (some level) = bound_lem level.price

  found-IsWithin : (book : Option OrderBook) → IsWithin (from_found o book)
  unfolding from_found
  found-IsWithin none = tt
  found-IsWithin (some book) = level-IsWithin (level_for o.side book)

  book-IsWithin : (now : ℕ) (cache : Option BookCache) → IsWithin (from_book o now cache).0
  unfolding from_book
  book-IsWithin now none = tt
  book-IsWithin now (some cache) =
      found-IsWithin (get (record { symbol = o.symbol; market = o.market }) now cache).0

  data-IsWithin : (close : Option Decimal) → IsWithin (from_market_data o close)
  unfolding from_market_data
  data-IsWithin none = tt
  data-IsWithin (some close) = bound_lem close

  first-IsWithin :
      (p : Option Decimal) (configured : Bool) (other : Option Decimal)
      → IsWithin p
      → IsWithin other
      → IsWithin (first_of p configured other)
  unfolding first_of
  first-IsWithin (some p) configured other h h' = h
  first-IsWithin none true other h h' = h'
  first-IsWithin none false other h h' = tt

-- Whatever the book and the market data hold, a sim fill is not priced above the limit of a buy, nor
-- below the limit of a sell.
fill_price_within :
    (o : NormalizedOrder) (limit price : Decimal) (now : ℕ) (cache : Option BookCache)
    (configured : Bool) (last_close : Option Decimal)
    → o.price ≡ some limit
    → (fill_price o now cache configured last_close).0 ≡ some price
    → crosses o.side price limit ≡ false
unfolding fill_price
fill_price_within o limit price now cache configured last_close has_limit h =
    subst (IsWithin o limit has_limit) h (
      first-IsWithin o limit has_limit (from_book o now cache).0 configured
        (from_market_data o last_close) (book-IsWithin o limit has_limit now cache)
        (data-IsWithin o limit has_limit last_close))
