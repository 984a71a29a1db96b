-- ===== src/Reference/FeeSchedule/InForce/Sorting.antt =====
-- The last applicable entry of a series that is kept sorted.
use quant_execution_engine.Prelude.{
  ℕ, ◌≤◌, ◌<◌, ◌≡◌, ◌∙◌, sym, ap, refl, List, [], ◌∷◌, Option, none, some, All, arith, leb,
  Bool-cases, leb→le, if◌then◌else◌, inl, inr,
}
use quant_execution_engine.Reference.FeeSchedule.{
  FeeEntry, last, or_else, applicable, insert, sorted, load_series,
}
use quant_execution_engine.Reference.FeeSchedule.InForce.{newer, in_force}

abbrev Begins : ℕ → List FeeEntry → Type 0
Begins d entries = All (λ e. d ≤ e.effective_from) entries

abbrev IsSorted : List FeeEntry → Type 0
IsSorted [] = Unit
IsSorted (e ∷ rest) = Begins e.effective_from rest × IsSorted rest

Begins-weaken : (d d' : ℕ) (entries : List FeeEntry) → d ≤ d' → Begins d' entries → Begins d entries
Begins-weaken d d' [] h all = tt
Begins-weaken d d' (e ∷ rest) h (first, later) =
    (omega (arith, h, first), Begins-weaken d d' rest h later)

insert-Begins :
    (d : ℕ) (e : FeeEntry) (entries : List FeeEntry)
    → d ≤ e.effective_from
    → Begins d entries
    → Begins d (insert e entries)
unfolding insert
insert-Begins d e [] h all = (h, tt)
insert-Begins d e (x ∷ rest) h (first, later) =
    let ih = insert-Begins d e rest h later in ground (arith, h, first, later, ih)

insert-IsSorted :
    (e : FeeEntry) (entries : List FeeEntry) → IsSorted entries → IsSorted (insert e entries)
unfolding insert
insert-IsSorted e [] v = (tt, tt)
insert-IsSorted e (x ∷ rest) (first, later) =
    elim (Bool-cases (leb e.effective_from x.effective_from)) [
      | inl h ↦ rw h (
          let early = leb→le e.effective_from x.effective_from h in
          (
            (early, Begins-weaken e.effective_from x.effective_from rest early first),
            (first, later),
          ))
      | inr h ↦ rw h (
          (
            insert-Begins x.effective_from e rest (ground (arith, h)) first,
            insert-IsSorted e rest later,
          ))
    ]

sorted-IsSorted : (entries : List FeeEntry) → IsSorted (sorted entries)
unfolding sorted
sorted-IsSorted [] = tt
sorted-IsSorted (e ∷ rest) = insert-IsSorted e (sorted rest) (sorted-IsSorted rest)

abbrev pub latest : List FeeEntry → ℕ → Option FeeEntry
latest entries on = last (applicable entries on)

latest_of :
    (x : FeeEntry) (rest : List FeeEntry) (on : ℕ)
    → latest (x ∷ rest) on
      ≡ or_else (latest rest on) (if leb x.effective_from on then some x else none)
unfolding last
latest_of x rest on = ground arith

latest-Begins :
    (d : ℕ) (entries : List FeeEntry) (on : ℕ)
    → Begins d entries
    → (b : FeeEntry) → latest entries on ≡ some b
    → d ≤ b.effective_from
unfolding last
latest-Begins d [] on all b h = cc
latest-Begins d (x ∷ rest) on (first, later) b h =
    from (latest rest on) refl (latest-Begins d rest on later)
  where
    from :
        (o : Option FeeEntry)
        → latest rest on ≡ o
        → ((c : FeeEntry) → latest rest on ≡ some c → d ≤ c.effective_from)
        → d ≤ b.effective_from
    from none e ih = ground (arith, e, h, first)
    from (some other) e ih = let known = ih other e in ground (arith, e, h, known)

-- The newer entry in front of the series, and behind an entry that begins before it.
newer_front :
    (e : FeeEntry) (on : ℕ) (l : Option FeeEntry)
    → ((b : FeeEntry) → l ≡ some b → e.effective_from ≤ b.effective_from)
    → or_else l (if leb e.effective_from on then some e else none) ≡ newer on e l
newer_front e on none h = refl
newer_front e on (some b) h = let early = h b refl in ground arith

newer_behind :
    (e x : FeeEntry) (on : ℕ) (l : Option FeeEntry)
    → x.effective_from < e.effective_from
    → or_else (newer on e l) (if leb x.effective_from on then some x else none)
      ≡ newer on e (or_else l (if leb x.effective_from on then some x else none))
newer_behind e x on none h = ground arith
newer_behind e x on (some b) h = ground arith

latest-insert :
    (e : FeeEntry) (entries : List FeeEntry) (on : ℕ)
    → IsSorted entries
    → latest (insert e entries) on ≡ newer on e (latest entries on)
unfolding insert last
latest-insert e [] on v = ground arith
latest-insert e (x ∷ rest) on (first, later) =
    elim (Bool-cases (leb e.effective_from x.effective_from)) [
      | inl h ↦ rw h (
          let early = leb→le e.effective_from x.effective_from h in
          latest_of e (x ∷ rest) on
          ∙ newer_front e on (latest (x ∷ rest) on) (
              latest-Begins e.effective_from (x ∷ rest) on
                (early, Begins-weaken e.effective_from x.effective_from rest early first)))
      | inr h ↦ rw h (
          latest_of x (insert e rest) on
          ∙ ap (λ l. or_else l (if leb x.effective_from on then some x else none))
              (latest-insert e rest on later)
          ∙ newer_behind e x on (latest rest on) (ground (arith, h))
          ∙ ap (newer on e) (sym (latest_of x rest on)))
    ]

-- The last applicable entry of a loaded series.
pub latest-load_series :
    (parsed : List FeeEntry) (on : ℕ) → latest (load_series parsed) on ≡ in_force parsed on
unfolding load_series sorted last
latest-load_series [] on = refl
latest-load_series (e ∷ rest) on =
    latest-insert e (sorted rest) on (sorted-IsSorted rest)
    ∙ ap (newer on e) (latest-load_series rest on)
