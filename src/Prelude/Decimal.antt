-- ===== src/Prelude/Decimal.antt =====
-- Python's `Decimal` as the source uses it: an exact coefficient with its number of decimal places.
-- Two decimals of one value may differ in their places, as `10.0` and `10.00` do.
use Prim.Native.Nat.{ℕ, ◌^◌}
use mathlib.Core.Bool.{Bool, ◌&&◌, not}
use quant_execution_engine.Prelude.Tests.{if◌then◌else◌}
use quant_execution_engine.Prelude.Int.{ℤ, pos, ltb_ℤ, scale}

pub record Decimal : Type 0 where
  pub coeff : ℤ
  pub places : ℕ

-- `a < b`
unfoldable pub ltb_dec : Decimal → Decimal → Bool
unfolding scale
ltb_dec a b = ltb_ℤ (scale a.coeff (10 ^ b.places)) (scale b.coeff (10 ^ a.places))

-- `a > 0`
abbrev pub is_positive : Decimal → Bool
is_positive a = ltb_ℤ (pos 0) a.coeff

-- `a == b`, which compares values
unfoldable pub same_value : Decimal → Decimal → Bool
unfolding ltb_dec
same_value a b = not (ltb_dec a b) && not (ltb_dec b a)

-- `a * n` for an int
unfoldable pub times : Decimal → ℕ → Decimal
unfolding scale
times a n = record { coeff = scale a.coeff n; places = a.places }

-- `min(a, b)` and `max(a, b)`, which return their first argument where the two are equal
unfoldable pub min_dec : Decimal → Decimal → Decimal
min_dec a b = if ltb_dec b a then b else a

unfoldable pub max_dec : Decimal → Decimal → Decimal
max_dec a b = if ltb_dec a b then b else a

abbrev pub whole : ℕ → Decimal
whole n = record { coeff = pos n; places = 0 }
