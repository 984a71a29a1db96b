-- ===== src/Adapters/Liberator/Models.antt =====
-- adapters/liberator/models.py: one response of the bridge.
use Prim.Native.String.{◌++◌ as append_text}
use quant_execution_engine.Prelude.{
  Bool, true, false, ◌&&◌, not, List, [], ◌∷◌, ◌++◌, Option, none, some, String, is_empty, ℤ, pos,
  zero, if◌then◌else◌,
}

-- `data`, with what its `result` holds under `orderNo`, if it is a dictionary.
pub record LiberatorData : Type 0 where
  pub error_code : Option ℤ
  pub err_msg : Option String
  pub order_no : Option String

pub record LiberatorEnvelope : Type 0 where
  pub success : Bool
  pub message : Option String
  pub data_of : Option LiberatorData
  pub detail : Option String

-- `bool(text)` of a text that may be absent
abbrev pub has_text : Option String → Bool
has_text none = false
has_text (some s) = not (is_empty s)

abbrev is_zero_code : Option ℤ → Bool
is_zero_code (some (pos zero)) = true
is_zero_code _ = false

data_ok : Option LiberatorData → Bool
data_ok none = false
data_ok (some d) = is_zero_code d.error_code && not (has_text d.err_msg)

-- `LiberatorEnvelope.ok`
unfoldable pub is_ok : LiberatorEnvelope → Bool
unfolding data_ok
is_ok e = e.success && data_ok e.data_of

abbrev texts_of : Option String → List String
texts_of none = []
texts_of (some s) = if is_empty s then [] else s ∷ []

-- `str` of an int is the library's.
code_parts : (ℤ → String) → Option ℤ → List String
code_parts text_of none = []
code_parts text_of (some (pos zero)) = []
code_parts text_of (some code) = append_text "errorCode=" (text_of code) ∷ []

data_parts : (ℤ → String) → Option LiberatorData → List String
unfolding code_parts
data_parts text_of none = []
data_parts text_of (some d) = code_parts text_of d.error_code ++ texts_of d.err_msg

abbrev option_parts : Option String → List String
option_parts none = []
option_parts (some s) = s ∷ []

-- The parts, or others where there are none.
abbrev or_parts : List String → List String → List String
or_parts [] other = other
or_parts (s ∷ rest) other = s ∷ rest

-- `"; ".join(parts)`
join : List String → String
join [] = ""
join (s ∷ []) = s
join (s ∷ t ∷ rest) = append_text s (append_text "; " (join (t ∷ rest)))

abbrev or_text : String → String → String
or_text s other = if is_empty s then other else s

unfoldable pub reject_reason : (ℤ → String) → LiberatorEnvelope → String
unfolding data_parts join
reject_reason text_of e =
    or_text
      (join (
        or_parts (data_parts text_of e.data_of)
          (or_parts (texts_of e.message) (option_parts e.detail))))
      "liberator rejected the request"

order_no_in : Option LiberatorData → Option String
order_no_in none = none
order_no_in (some d) = d.order_no

-- `LiberatorEnvelope.order_no`
unfoldable pub order_no : LiberatorEnvelope → Option String
unfolding order_no_in
order_no e = order_no_in e.data_of
