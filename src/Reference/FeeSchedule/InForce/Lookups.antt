-- ===== src/Reference/FeeSchedule/InForce/Lookups.antt =====
-- The lookups of reference/fee_schedule.py against the entry that is in force.
use quant_execution_engine.Prelude.{
  ℕ, ◌≤◌, ◌≡◌, ◌∙◌, sym, ap, refl, Bool, true, false, ◌&&◌, not, List, [], ◌∷◌, ◌++◌, Option, none,
  some, All, arith, leb, if◌then◌else◌,
}
use quant_execution_engine.Reference.FeeSchedule.{
  FeeEntry, is_stale, Lookup, found, refused, stale, empty_series, not_yet_effective,
  none_applicable, fresh, chosen, resolve_in, insert, sorted, load_series,
}
use quant_execution_engine.Reference.FeeSchedule.InForce.{in_force}
use quant_execution_engine.Reference.FeeSchedule.InForce.Sorting.{latest-load_series}

refused_insert :
    (e : FeeEntry) (entries : List FeeEntry)
    → none_applicable (insert e entries) ≡ not_yet_effective
unfolding none_applicable insert
refused_insert e [] = refl
refused_insert e (x ∷ rest) = ground arith

refused_load :
    (parsed : List FeeEntry) → none_applicable (load_series parsed) ≡ none_applicable parsed
unfolding load_series sorted none_applicable
refused_load [] = refl
refused_load (e ∷ rest) = refused_insert e (sorted rest)

-- Looking up a series that was loaded from a file, in whatever order the file has its entries,
-- answers the entry that has begun by the day and began last, the later in the file on a tie; it is
-- refused where there is none, and where that entry is stale and this was not allowed.
pub resolve_in_force :
    (parsed : List FeeEntry) (on : ℕ) (allow_stale : Bool) (now : ℕ)
    → resolve_in (load_series parsed) on allow_stale now ≡ elim (in_force parsed on) [
      | none ↦ refused (elim parsed [ [] ↦ empty_series | _ ∷ _ ↦ not_yet_effective ])
      | some e ↦ if is_stale e now && not allow_stale then refused stale else found e
    ]
unfolding resolve_in chosen fresh none_applicable
resolve_in_force parsed on allow_stale now =
    ap (λ l. chosen (load_series parsed) l allow_stale now) (latest-load_series parsed on)
    ∙ from (in_force parsed on)
  where
    from :
        (l : Option FeeEntry)
        → chosen (load_series parsed) l allow_stale now ≡ elim l [
          | none ↦ refused (none_applicable parsed)
          | some e ↦ if is_stale e now && not allow_stale then refused stale else found e
        ]
    from none = ap refused (refused_load parsed)
    from (some e) = refl

in_force_append :
    (parsed : List FeeEntry) (e : FeeEntry) (on : ℕ)
    → All (λ x. x.effective_from ≤ e.effective_from) parsed
    → in_force (parsed ++ e ∷ []) on
      ≡ (if leb e.effective_from on then some e else in_force parsed on)
in_force_append [] e on all = ground arith
in_force_append (x ∷ rest) e on (first, later) =
    let ih = in_force_append rest e on later in ground (arith, ih, first)

-- An entry that is appended to the file of a series, of a day that is none before those of the
-- entries there, is in force from its day on, and refused there only where it is stale and this was
-- not allowed; every lookup for an earlier day answers as before, if the file had an entry.
pub append_keeps_history :
    (e first : FeeEntry) (parsed : List FeeEntry) (on : ℕ) (allow_stale : Bool) (now : ℕ)
    → All (λ x. x.effective_from ≤ e.effective_from) (first ∷ parsed)
    → resolve_in (load_series (first ∷ parsed ++ e ∷ [])) on allow_stale now ≡ (
        if leb e.effective_from on
        then (if is_stale e now && not allow_stale then refused stale else found e)
        else resolve_in (load_series (first ∷ parsed)) on allow_stale now)
append_keeps_history e first parsed on allow_stale now all =
    resolve_in_force (first ∷ parsed ++ e ∷ []) on allow_stale now
    ∙ ap answer (in_force_append (first ∷ parsed) e on all)
    ∙ cases (leb e.effective_from on)
  where
    answer : Option FeeEntry → Lookup FeeEntry
    answer none = refused not_yet_effective
    answer (some l) = if is_stale l now && not allow_stale then refused stale else found l

    as_before :
        (l : Option FeeEntry)
        → answer l ≡ elim l [
          | none ↦ refused not_yet_effective
          | some l' ↦ if is_stale l' now && not allow_stale then refused stale else found l'
        ]
    as_before none = refl
    as_before (some l) = refl

    cases :
        (b : Bool)
        → answer (if b then some e else in_force (first ∷ parsed) on) ≡ (
            if b
            then (if is_stale e now && not allow_stale then refused stale else found e)
            else resolve_in (load_series (first ∷ parsed)) on allow_stale now)
    cases true = refl
    cases false =
        as_before (in_force (first ∷ parsed) on)
        ∙ sym (resolve_in_force (first ∷ parsed) on allow_stale now)
