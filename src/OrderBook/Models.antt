-- ===== src/OrderBook/Models.antt =====
-- order_book/models.py: a book of one symbol in one market. Times are milliseconds.
pub mod Keys
use quant_execution_engine.Prelude.{
  ℕ, Bool, ◌&&◌, List, [], ◌∷◌, Option, none, some, String, same_text,
}
use quant_execution_engine.Prelude.Decimal.{Decimal}
use quant_execution_engine.Contracts.Enums.{Market, same_market}

pub record OrderBookLevel : Type 0 where
  pub price : Decimal
  pub volume : ℕ

pub record OrderBook : Type 0 where
  pub symbol : String
  pub market : Market
  pub bid_levels : List OrderBookLevel
  pub ask_levels : List OrderBookLevel
  pub sequence : ℕ
  pub received_at : ℕ

abbrev head : List OrderBookLevel → Option OrderBookLevel
head [] = none
head (level ∷ _) = some level

abbrev pub best_bid : OrderBook → Option OrderBookLevel
best_bid book = head book.bid_levels

abbrev pub best_ask : OrderBook → Option OrderBookLevel
best_ask book = head book.ask_levels

-- `(symbol, market)`
pub record Key : Type 0 where
  pub symbol : String
  pub market : Market

abbrev pub key_of : OrderBook → Key
key_of book = record { symbol = book.symbol; market = book.market }

unfoldable pub same_key : Key → Key → Bool
same_key k l = same_text k.symbol l.symbol && same_market k.market l.market
