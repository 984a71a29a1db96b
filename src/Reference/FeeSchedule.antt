-- ===== src/Reference/FeeSchedule.antt =====
-- reference/fee_schedule.py: the dated entries of the fee schedule. Dates are days and times are
-- milliseconds; the texts that only a reader sees are left out.
pub mod InForce
use quant_execution_engine.Prelude.{
  ℕ, ◌-◌, ◌*◌, ◌/◌, Bool, true, false, ◌&&◌, not, List, [], ◌∷◌, Option, none, some, String,
  same_text, keep, find, ltb, leb, map, if◌then◌else◌,
}
use quant_execution_engine.Prelude.Decimal.{Decimal, ltb_dec}

pub record FeeEntry : Type 0 where
  pub value : Decimal
  pub unit : String
  pub corroborated : Bool
  pub effective_from : ℕ
  pub recorded_utc : ℕ
  pub max_age_days : ℕ

abbrev day : ℕ
day = 86400000

unfoldable pub age_days : FeeEntry → ℕ → ℕ
age_days e now = (now - e.recorded_utc) / day

unfoldable pub is_stale : FeeEntry → ℕ → Bool
is_stale e now = ltb e.max_age_days (age_days e now)

pub record Instrument : Type 0 where
  pub series : List (String × List FeeEntry)

pub record FeeSchedule : Type 0 where
  pub instruments : List (String × Instrument)

-- What a lookup raises: `KeyError`, `IndexError`, where the series has no entry at all, and
-- `FeeScheduleStale`.
pub data Refusal : Type 0 where
  unknown_instrument unknown_field not_yet_effective empty_series stale : Refusal

pub data Lookup {ℓ} (A : Type ℓ) : Type ℓ where
  found : A → Lookup A
  refused : Refusal → Lookup A

infixl 5 ◌>>=◌
abbrev pub ◌>>=◌ {ℓ κ} : {A : Type ℓ} {B : Type κ} → Lookup A → (A → Lookup B) → Lookup B
found a >>= f = f a
refused r >>= f = refused r

-- `table[key]`
abbrev get_item {ℓ} : {A : Type ℓ} → Refusal → String → List (String × A) → Lookup A
get_item missing key [] = refused missing
get_item missing key ((word, value) ∷ rest) =
    if same_text word key then found value else get_item missing key rest

unfoldable pub series_for : FeeSchedule → String → String → Lookup (List FeeEntry)
series_for schedule instrument field = do
  inst ← get_item unknown_instrument instrument schedule.instruments
  get_item unknown_field field inst.series

abbrev pub or_else : Option FeeEntry → Option FeeEntry → Option FeeEntry
or_else none other = other
or_else (some e) other = some e

-- `applicable[-1]`
unfoldable pub last : List FeeEntry → Option FeeEntry
last [] = none
last (e ∷ rest) = or_else (last rest) (some e)

abbrev pub applicable : List FeeEntry → ℕ → List FeeEntry
applicable entries on = keep (λ e. leb e.effective_from on) entries

none_applicable : List FeeEntry → Refusal
none_applicable [] = empty_series
none_applicable (_ ∷ _) = not_yet_effective

fresh : FeeEntry → Bool → ℕ → Lookup FeeEntry
fresh e allow_stale now = if is_stale e now && not allow_stale then refused stale else found e

chosen : List FeeEntry → Option FeeEntry → Bool → ℕ → Lookup FeeEntry
chosen entries none allow_stale now = refused (none_applicable entries)
chosen entries (some e) allow_stale now = fresh e allow_stale now

-- `resolve`, on the series that it has looked up
unfoldable pub resolve_in : List FeeEntry → ℕ → Bool → ℕ → Lookup FeeEntry
unfolding last none_applicable fresh chosen
resolve_in entries on allow_stale now =
    chosen entries (last (applicable entries on)) allow_stale now

unfoldable pub resolve : FeeSchedule → String → String → ℕ → Bool → ℕ → Lookup FeeEntry
resolve schedule instrument field on allow_stale now = do
  entries ← series_for schedule instrument field
  resolve_in entries on allow_stale now

-- `get`: the entry of the day of a time.
unfoldable pub get : FeeSchedule → String → String → Bool → ℕ → Lookup FeeEntry
get schedule instrument field allow_stale now =
    resolve schedule instrument field (now / day) allow_stale now

pub data Verdict : Type 0 where
  at_or_below above : Verdict

pub record Comparison : Type 0 where
  pub observed : Decimal
  pub basis : Decimal
  pub basis_effective_from : ℕ
  pub verdict : Verdict

abbrev pub should_alert : Comparison → Bool
should_alert c = is_above c.verdict
  where
    is_above : Verdict → Bool
    is_above above = true
    is_above at_or_below = false

unfoldable pub compare : FeeSchedule → String → String → Decimal → ℕ → Bool → ℕ → Lookup Comparison
compare schedule instrument field observed on allow_stale now = do
  entry ← resolve schedule instrument field on allow_stale now
  found (record {
    observed = observed;
    basis = entry.value;
    basis_effective_from = entry.effective_from;
    verdict = if ltb_dec entry.value observed then above else at_or_below;
  })

-- `sorted(parsed, key=...)`, which keeps the order of equal keys.
insert : FeeEntry → List FeeEntry → List FeeEntry
insert e [] = e ∷ []
insert e (x ∷ rest) =
    let later = insert e rest in
    if leb e.effective_from x.effective_from then e ∷ x ∷ rest else x ∷ later

sorted : List FeeEntry → List FeeEntry
unfolding insert
sorted [] = []
sorted (e ∷ rest) = insert e (sorted rest)

-- A series as `load_fee_schedule` reads it from the entries of the file, in the file's order.
unfoldable pub load_series : List FeeEntry → List FeeEntry
unfolding sorted
load_series parsed = sorted parsed
