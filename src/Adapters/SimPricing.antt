-- ===== src/Adapters/SimPricing.antt =====
-- adapters/sim_pricing.py: the price of a sim fill, from the book, or else from the market data.
pub mod Limits
use quant_execution_engine.Prelude.{ℕ, Bool, true, false, Option, none, some, if◌then◌else◌}
use quant_execution_engine.Prelude.Decimal.{Decimal, min_dec, max_dec}
use quant_execution_engine.Contracts.Enums.{Side, buy, sell}
use quant_execution_engine.Contracts.Orders.{NormalizedOrder}
use quant_execution_engine.OrderBook.Models.{OrderBookLevel, OrderBook, Key, best_bid, best_ask}
use quant_execution_engine.OrderBook.Cache.{BookCache, get}

bounded : Side → Decimal → Decimal → Decimal
bounded buy price limit = min_dec price limit
bounded sell price limit = max_dec price limit

within : Side → Decimal → Option Decimal → Decimal
unfolding bounded
within side price none = price
within side price (some limit) = bounded side price limit

-- `_bound_by_limit`
unfoldable pub bound_by_limit : Decimal → NormalizedOrder → Decimal
unfolding within
bound_by_limit price o = within o.side price o.price

-- The best price on the other side of the book.
unfoldable pub level_for : Side → OrderBook → Option OrderBookLevel
level_for buy book = best_ask book
level_for sell book = best_bid book

from_level : NormalizedOrder → Option OrderBookLevel → Option Decimal
from_level o none = none
from_level o (some level) = some (bound_by_limit level.price o)

from_found : NormalizedOrder → Option OrderBook → Option Decimal
unfolding from_level
from_found o none = none
from_found o (some book) = from_level o (level_for o.side book)

-- `_from_book`, with the cache after its read; `none` is no order book service.
unfoldable pub from_book :
    NormalizedOrder → ℕ → Option BookCache → Option Decimal × Option BookCache
unfolding from_found
from_book o now none = (none, none)
from_book o now (some cache) =
    let key : Key = record { symbol = o.symbol; market = o.market } in
    let read = get key now cache in (from_found o read.0, some read.1)

-- `_from_market_data`, by the last close that the client answers
unfoldable pub from_market_data : NormalizedOrder → Option Decimal → Option Decimal
from_market_data o none = none
from_market_data o (some close) = some (bound_by_limit close o)

first_of : Option Decimal → Bool → Option Decimal → Option Decimal
first_of (some p) configured other = some p
first_of none configured other = if configured then other else none

-- `fill_price`, where `last_close` is what the market data client would answer.
unfoldable pub fill_price :
    NormalizedOrder
    → ℕ
    → Option BookCache
    → Bool
    → Option Decimal
    → Option Decimal × Option BookCache
unfolding first_of
fill_price o now cache configured last_close =
    let book = from_book o now cache in
    (first_of book.0 configured (from_market_data o last_close), book.1)
