-- ===== src/Adapters/Liberator/Mapping.antt =====
-- adapters/liberator/mapping.py and models.py: an order as the venue lists it, and its state. The
-- counters are natural numbers; times are milliseconds.
use quant_execution_engine.Prelude.{
  ℕ, Bool, true, false, ◌&&◌, ◌||◌, not, List, [], ◌∷◌, Option, none, some, String, any, codes,
  strip, token, same_codes, ltb, ◌==◌, if◌then◌else◌,
}
use quant_execution_engine.Prelude.Decimal.{Decimal}
use quant_execution_engine.Contracts.Enums.{Side, buy, sell}
use quant_execution_engine.Adapters.Reconcile.Planning.{
  VenueOrderState, resting, cancelled, rejected, expired,
}

pub record VenueOrderItem : Type 0 where
  pub order_no : String
  pub account_no : String
  pub symbol : String
  pub side : String
  pub position : Option String
  pub price_type : String
  pub iceberg_vol : ℕ
  pub volume : ℕ
  pub price : Option Decimal
  pub matched : ℕ
  pub balance : ℕ
  pub cancelled : ℕ
  pub amount : Option Decimal
  pub status : String
  pub status_show : String
  pub reject_code : String
  pub validity_type : String
  pub stop_price : Option Decimal
  pub entry_time : Option ℕ

-- `raw.strip().upper() in words`
abbrev is_word : String → List String → Bool
is_word raw words = any (λ word. same_codes (token raw) (codes word)) words

abbrev buy_words : List String
buy_words = "B" ∷ "BUY" ∷ "LONG" ∷ []

abbrev sell_words : List String
sell_words = "S" ∷ "SELL" ∷ "SHORT" ∷ []

unfoldable pub from_venue_side : String → Option Side
from_venue_side raw =
    if is_word raw buy_words then some buy else if is_word raw sell_words then some sell else none

abbrev cancelled_status : List String
cancelled_status = "CANCELLED" ∷ "CANCELED" ∷ "CXL" ∷ []

abbrev rejected_status : List String
rejected_status = "REJECTED" ∷ "REJECT" ∷ []

abbrev expired_status : List String
expired_status = "EXPIRED" ∷ "EXPIRE" ∷ []

abbrev cancelled_show : List String
cancelled_show = "C" ∷ "X" ∷ "XC" ∷ []

abbrev rejected_show : List String
rejected_show = "R" ∷ []

abbrev terminal_unnamed_show : List String
terminal_unnamed_show = "XA" ∷ []

abbrev pub is_blank : List ℕ → Bool
is_blank [] = true
is_blank (_ ∷ _) = false

unfoldable pub classify_venue_state : VenueOrderItem → VenueOrderState
classify_venue_state item =
    if not (is_blank (strip (codes item.reject_code)))
    then rejected
    else if is_word item.status cancelled_status || is_word item.status_show cancelled_show
    then cancelled
    else if is_word item.status rejected_status || is_word item.status_show rejected_show
    then rejected
    else if is_word item.status_show terminal_unnamed_show
    then cancelled
    else if is_word item.status expired_status
    then expired
    else if ltb 0 item.cancelled && item.balance == 0 && ltb item.matched item.volume
    then cancelled
    else resting
