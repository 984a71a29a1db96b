-- ===== src/Reference/FeeSchedule/InForce.antt =====
-- The entry of a fee series that is in force on a day, described on the entries in the file's order.
pub mod Sorting
pub mod Lookups
use quant_execution_engine.Prelude.{
  ℕ, Bool, true, false, ◌&&◌, List, [], ◌∷◌, Option, none, some, ltb, leb, if◌then◌else◌,
}
use quant_execution_engine.Reference.FeeSchedule.{FeeEntry}

-- One more entry before those of which another is in force: it is in force only if it has begun,
-- and later than that one.
abbrev newer : ℕ → FeeEntry → Option FeeEntry → Option FeeEntry
newer on e none = if leb e.effective_from on then some e else none
newer on e (some other) =
    if leb e.effective_from on && ltb other.effective_from e.effective_from
    then some e
    else some other

-- The entry of a file that has begun by the day and began last, the later in the file on a tie.
abbrev pub in_force : List FeeEntry → ℕ → Option FeeEntry
in_force [] on = none
in_force (e ∷ rest) on = newer on e (in_force rest on)
