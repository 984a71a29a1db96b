-- ===== src/Prelude/Text.antt =====
-- Texts: equality as a test, and Python's `str.strip` and `str.upper` as far as the source relies
-- on them.
use Prim.Native.Nat.{ℕ, ◌-◌}
use Prim.Native.Char.{Char, code}
use Prim.Native.String.{String}
use mathlib.Core.Bool.{Bool, true, false, ◌||◌, ◌&&◌}
use mathlib.Core.List.{List, [], ◌∷◌, map, reverse}
use mathlib.Core.Option.{Option, none, some}
use mathlib.Core.Path.{◌≡◌}
use text.Mathlib.Text.{◌==◌}
use text.Mathlib.TextEquality.{eq_iff}
use native.Mathlib.Omega.{arith}
use quant_execution_engine.Prelude.Tests.{if◌then◌else◌, leb, ◌==◌ as nat_beq}

-- Shut, so that a test on identifiers is one unknown to the tactics.
unfoldable pub same_text : String → String → Bool
same_text s t = s == t

pub same_text_refl : (s : String) → same_text s s ≡ true
unfolding same_text
same_text_refl s = (eq_iff s s).1 (λ i. s)

pub eq_of_same_text : (s t : String) → same_text s t ≡ true → s ≡ t
unfolding same_text
eq_of_same_text s t h = (eq_iff s t).0 h

abbrev pub codes : String → List ℕ
codes String.[] = []
codes (String.◌∷◌ c s) = code c ∷ codes s

abbrev pub is_empty : String → Bool
is_empty String.[] = true
is_empty (String.◌∷◌ _ _) = false

-- The characters that Python's `str.isspace` accepts.
unfoldable pub is_space : ℕ → Bool
is_space c =
    (leb 9 c && leb c 13)
    || (leb 28 c && leb c 32)
    || nat_beq c 133
    || nat_beq c 160
    || nat_beq c 5760
    || (leb 8192 c && leb c 8202)
    || nat_beq c 8232
    || nat_beq c 8233
    || nat_beq c 8239
    || nat_beq c 8287
    || nat_beq c 12288

-- The upper case of a character as far as it can be an ASCII letter: Python also takes the dotless
-- `ı` to `I` and the long `ſ` to `S`. No other character's upper case is a word of these tables.
unfoldable pub upper_code : ℕ → ℕ
upper_code c =
    if leb 97 c && leb c 122
    then c - 32
    else if nat_beq c 305
    then 73
    else if nat_beq c 383
    then 83
    else c

drop_spaces : List ℕ → List ℕ
drop_spaces [] = []
drop_spaces (c ∷ cs) = if is_space c then drop_spaces cs else c ∷ cs

-- `raw.strip()`, on the code points.
unfoldable pub strip : List ℕ → List ℕ
unfolding drop_spaces is_space
strip cs = reverse (drop_spaces (reverse (drop_spaces cs)))

-- `raw.strip().upper()`, on the code points.
unfoldable pub token : String → List ℕ
unfolding strip upper_code
token s = map upper_code (strip (codes s))

abbrev pub same_codes : List ℕ → List ℕ → Bool
same_codes [] [] = true
same_codes [] (y ∷ ys) = false
same_codes (x ∷ xs) [] = false
same_codes (x ∷ xs) (y ∷ ys) = nat_beq x y && same_codes xs ys

pub eq_of_same_codes : (xs ys : List ℕ) → same_codes xs ys ≡ true → xs ≡ ys
eq_of_same_codes [] [] h = λ i. []
eq_of_same_codes [] (y ∷ ys) h = cc
eq_of_same_codes (x ∷ xs) [] h = cc
eq_of_same_codes (x ∷ xs) (y ∷ ys) h = ground (arith, eq_of_same_codes xs ys)

-- `table.get(key)`, where the keys are texts.
abbrev pub get {ℓ} : {A : Type ℓ} → List ℕ → List (String × A) → Option A
get key [] = none
get key ((word, value) ∷ rest) = if same_codes key (codes word) then some value else get key rest

abbrev strip_front : String → String
strip_front String.[] = String.[]
strip_front (String.◌∷◌ c s) =
    let rest = strip_front s in if is_space (code c) then rest else String.◌∷◌ c s

abbrev end_with : Char → String → String
end_with c String.[] = if is_space (code c) then String.[] else String.◌∷◌ c String.[]
end_with c (String.◌∷◌ d s) = String.◌∷◌ c (String.◌∷◌ d s)

abbrev strip_back : String → String
strip_back String.[] = String.[]
strip_back (String.◌∷◌ c s) = end_with c (strip_back s)

-- `s.strip()`, on a text.
unfoldable pub strip_text : String → String
unfolding is_space
strip_text s = strip_back (strip_front s)
