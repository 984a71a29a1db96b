-- ===== src/Api/Guards/Writes.antt =====
-- Which requests the guards of api/deps.py let through.
use quant_execution_engine.Prelude.{
  ◌≡◌, refl, Bool, true, false, Option, none, some, String, arith, same_text, eq_of_same_text,
}
use quant_execution_engine.Api.Guards.{
  KeySettings, passed, header_or_empty, full_key_of, require_api_key, require_owner_mode, Route,
  submit_order, cancel_order, amend_order, kill_switch_state, kill_switch_engage,
  kill_switch_disengage, admit,
}

-- The calls that write orders, and those of the kill switch.
abbrev pub is_guarded_write : Route → Bool
is_guarded_write submit_order = true
is_guarded_write cancel_order = true
is_guarded_write amend_order = true
is_guarded_write kill_switch_state = true
is_guarded_write kill_switch_engage = true
is_guarded_write kill_switch_disengage = true
is_guarded_write _ = false

-- The keys that a request may carry to match the full key: that key itself, or none at all where the
-- full key is set to the empty text.
pub data Presents : String → Option String → Type 0 where
  the_key : {full : String} → Presents full (some full)
  no_key : {full : String} → full ≡ "" → Presents full none

full_key_passed :
    (s : KeySettings) (full : Option String) (provided : String)
    → full_key_of s full provided ≡ passed
    → full ≡ some provided
unfolding full_key_of
full_key_passed s none provided h = cc
full_key_passed s (some full) provided h =
    let same : same_text provided full ≡ true = ground (arith, h) in
    let e = eq_of_same_text provided full same in cc

presented : (header : Option String) → Presents (header_or_empty header) header
presented none = no_key refl
presented (some key) = the_key

-- A request that may submit, cancel or amend an order, or use the kill switch, meets a full key that
-- is set and is not in public mode, and its header is that key; it may lack the header only where the
-- full key is set to the empty text.
pub write_needs_full_key :
    (route : Route) (s : KeySettings) (header : Option String)
    → is_guarded_write route ≡ true
    → admit route s header ≡ passed
    → ((full : String) × (s.api_key ≡ some full) × Presents full header) × (s.public_mode ≡ false)
unfolding admit require_api_key require_owner_mode
write_needs_full_key route s header write h =
    let key : full_key_of s s.api_key (header_or_empty header) ≡ passed =
      ground (arith, write, h) in
    (
      (
        header_or_empty header,
        full_key_passed s s.api_key (header_or_empty header) key,
        presented header,
      ),
      ground (arith, write, h),
    )

-- Where the full key is set to the empty text, a request without a key passes as one with it.
empty_key_opens : (s : KeySettings) → s.api_key ≡ some "" → require_api_key s none ≡ passed
unfolding require_api_key full_key_of same_text
empty_key_opens s key = rw key
