-- ===== src/Adapters/StreamingPro/Mapping.antt =====
-- adapters/streaming_pro/mapping.py and models.py: an order row as the bridge lists it, and its
-- state. The counters are natural numbers; times are milliseconds.
use quant_execution_engine.Prelude.{
  ℕ, Bool, true, false, ◌&&◌, not, List, [], ◌∷◌, ◌++◌, map, Option, String, any, codes, strip,
  token, same_codes, get, upper_code, ltb, ◌==◌, if◌then◌else◌,
}
use quant_execution_engine.Prelude.Decimal.{Decimal}
use quant_execution_engine.Contracts.Enums.{Side, buy, sell}
use quant_execution_engine.Adapters.Reconcile.Planning.{
  VenueOrderState, resting, cancelled, rejected, expired,
}

pub record VenueOrderRow : Type 0 where
  pub order_no : String
  pub account_no : String
  pub ext_order_no : String
  pub order_no_fis : String
  pub symbol : String
  pub side : String
  pub position : Option String
  pub price_type : String
  pub price : Option Decimal
  pub status : String
  pub reject_reason : String
  pub validity_type : String
  pub volume : ℕ
  pub matched : ℕ
  pub balance : ℕ
  pub cancelled : ℕ
  pub status_show : String
  pub entry_time : Option ℕ

-- `_READ_SIDES`
abbrev read_sides : List (String × Side)
read_sides =
    ("B", buy) ∷ ("BUY", buy) ∷ ("LONG", buy) ∷ ("S", sell) ∷ ("SELL", sell) ∷ ("SHORT", sell) ∷ []

unfoldable pub from_venue_side : String → Option Side
from_venue_side raw = get (token raw) read_sides

abbrev cancelled_status : List String
cancelled_status = "CANCELLED" ∷ "CANCELED" ∷ "CXL" ∷ []

abbrev rejected_status : List String
rejected_status = "REJECTED" ∷ "REJECT" ∷ []

abbrev expired_status : List String
expired_status = "EXPIRED" ∷ "EXPIRE" ∷ []

abbrev starts_with : List ℕ → List ℕ → Bool
starts_with [] text = true
starts_with (c ∷ word) [] = false
starts_with (c ∷ word) (d ∷ text) = c == d && starts_with word text

-- `word in text`
abbrev is_within : List ℕ → List ℕ → Bool
is_within word [] = starts_with word []
is_within word (d ∷ text) = if starts_with word (d ∷ text) then true else is_within word text

-- The upper case of `ẗ` is a `T` with a mark after it, which a word within the text may end on.
abbrev upper_within : ℕ → ℕ
upper_within c = if c == 7831 then 84 else upper_code c

-- `f"{row.status} {row.status_show}".upper()`
unfoldable pub blob : VenueOrderRow → List ℕ
unfolding upper_code
blob row = map upper_within (codes row.status ++ 32 ∷ codes row.status_show)

abbrev has_word : List String → List ℕ → Bool
has_word words text = any (λ word. is_within (codes word) text) words

abbrev is_blank : String → Bool
is_blank s = same_codes (strip (codes s)) []

unfoldable pub classify_venue_state : VenueOrderRow → VenueOrderState
classify_venue_state row =
    if not (is_blank row.reject_reason)
    then rejected
    else if has_word cancelled_status (blob row)
    then cancelled
    else if has_word rejected_status (blob row)
    then rejected
    else if has_word expired_status (blob row)
    then expired
    else if ltb 0 row.cancelled && row.balance == 0 && ltb row.matched row.volume
    then cancelled
    else resting
