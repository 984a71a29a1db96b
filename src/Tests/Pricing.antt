-- ===== src/Tests/Pricing.antt =====
-- A fee whose entries the file has out of order.
use quant_execution_engine.Prelude.{
  ℕ, ◌≡◌, true, false, ◌&&◌, not, List, [], ◌∷◌, ◌++◌, none, some, arith, leb, if◌then◌else◌,
}
use quant_execution_engine.Prelude.Decimal.{whole}
use quant_execution_engine.Reference.FeeSchedule.{
  FeeEntry, is_stale, found, refused, stale, empty_series, not_yet_effective, resolve_in,
  load_series,
}
use quant_execution_engine.Reference.FeeSchedule.InForce.{in_force}
use quant_execution_engine.Reference.FeeSchedule.InForce.Lookups.{
  resolve_in_force, append_keeps_history,
}

abbrev entry_of : ℕ → FeeEntry
entry_of d = record {
  value = whole d;
  unit = "bps";
  corroborated = true;
  effective_from = d;
  recorded_utc = 0;
  max_age_days = 180;
}

abbrev file : List FeeEntry
file = entry_of 30 ∷ entry_of 10 ∷ entry_of 20 ∷ []

resolve_in_force_example : resolve_in (load_series file) 25 false 1000 ≡ elim (in_force file 25) [
  | none ↦ refused (elim file [ [] ↦ empty_series | _ ∷ _ ↦ not_yet_effective ])
  | some e ↦ if is_stale e 1000 && not false then refused stale else found e
]
resolve_in_force_example = resolve_in_force file 25 false 1000

append_keeps_history_example :
    resolve_in
      (load_series (entry_of 30 ∷ (entry_of 10 ∷ entry_of 20 ∷ []) ++ entry_of 40 ∷ []))
      25
      false
      1000
    ≡ (if leb 40 25
        then (if is_stale (entry_of 40) 1000 && not false
            then refused stale
            else found (entry_of 40))
        else resolve_in (load_series file) 25 false 1000)
append_keeps_history_example =
    append_keeps_history (entry_of 40) (entry_of 30) (entry_of 10 ∷ entry_of 20 ∷ []) 25 false 1000
      (omega arith, (omega arith, (omega arith, tt)))
