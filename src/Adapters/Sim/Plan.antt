-- ===== src/Adapters/Sim/Plan.antt =====
-- What the sim adapter of adapters/sim.py fills.
use quant_execution_engine.Prelude.{
  ℕ, suc, ◌+◌, ◌≤◌, ◌<◌, ◌≡◌, refl, true, false, List, [], ◌∷◌, all, ltb, arith, some, none, Option,
  String, inl, inr, Bool-cases, ◌⊎◌, ◌↔◌,
}
use quant_execution_engine.Prelude.Decimal.{Decimal}
use quant_execution_engine.Contracts.Enums.{fok, ioc}
use quant_execution_engine.Contracts.Errors.{ok, err, Result, ◌>>=◌}
use quant_execution_engine.Contracts.Orders.{NormalizedOrder, SimFills, absent, invalid, plan}
use quant_execution_engine.Adapters.Base.{FillReport, PlaceAck}
use quant_execution_engine.Adapters.Sim.{
  place, place_plan, acceptance, prefix_of, or_reference, reference_price, sum, reports, fill_plan,
  fok_check, FillPlan, quantities, refused, plan_of, plan_unless,
}

-- The quantity that an ack reports as executed.
abbrev pub executed : List FillReport → ℕ
executed [] = 0
executed (f ∷ rest) = f.quantity + executed rest

executed-reports :
    (prefix : String) (price : Decimal) (now i : ℕ) (fills : List ℕ)
    → executed (reports prefix price now i fills) ≡ sum fills
unfolding reports
executed-reports prefix price now i [] = refl
executed-reports prefix price now i (q ∷ rest) =
    omega (arith, executed-reports prefix price now (suc i) rest)

-- The plan of an accepted order stays within its quantity, meets it under FOK, and has no empty fill.
record IsSound (o : NormalizedOrder) (fills : List ℕ) : Type 0 where
  within : sum fills ≤ o.quantity
  whole_fok : o.tif ≡ fok → sum fills ≡ o.quantity
  no_empty : all (ltb 0) fills ≡ true

fok_check-IsSound :
    (o : NormalizedOrder) (xs fills : List ℕ)
    → fok_check o xs ≡ quantities fills
    → sum xs ≤ o.quantity
    → all (ltb 0) xs ≡ true
    → IsSound o fills
unfolding fok_check
fok_check-IsSound o [] fills h s a = ground arith
fok_check-IsSound o (q ∷ []) fills h s a = ground arith
fok_check-IsSound o (q ∷ r ∷ rest) fills h s a = ground arith

plan_of-IsSound :
    (o : NormalizedOrder) (asked : SimFills) (fills : List ℕ)
    → 0 < o.quantity
    → plan_of o asked ≡ quantities fills
    → IsSound o fills
unfolding plan_of
plan_of-IsSound o absent fills p h =
    fok_check-IsSound o (o.quantity ∷ []) fills h (omega arith) (ground arith)
plan_of-IsSound o invalid fills p h = cc
plan_of-IsSound o (plan xs) fills p h = elim (Bool-cases (all (ltb 0) xs)) [
  | inr a ↦ cc (let g = rw a at h in g)
  | inl a ↦ elim (Bool-cases (ltb o.quantity (sum xs))) [
    | inl big ↦ cc (let g = rw (a, big) at h in g)
    | inr small ↦ fok_check-IsSound o xs fills (rw (a, small) at h) (ground arith) a
  ]
]

fill_plan-IsSound :
    (o : NormalizedOrder) (reject : Option String) (fills : List ℕ)
    → 0 < o.quantity
    → plan_unless o reject ≡ quantities fills
    → IsSound o fills
unfolding plan_unless
fill_plan-IsSound o none fills p h = plan_of-IsSound o o.sim_fills fills p h
fill_plan-IsSound o (some reason) fills p h = cc

abbrev pub Accounts : NormalizedOrder → PlaceAck → Type 0
Accounts o ack =
    (executed ack.fills ≤ o.quantity)
    × (o.tif ≡ fok → executed ack.fills ≡ o.quantity)
    × ((ack.remainder_cancelled ≡ true) ↔ ((o.tif ≡ ioc) × (executed ack.fills < o.quantity)))

acceptance-Accounts :
    (o : NormalizedOrder) (fills : List ℕ) (now : ℕ) (price : Decimal)
    → IsSound o fills
    → Accounts o (acceptance o fills now price)
unfolding acceptance
acceptance-Accounts o fills now price s =
    let e = executed-reports (prefix_of o.client_order_id) price now 1 fills in
    (
      omega (arith, e, s.within),
      (λ t. omega (arith, e, s.whole_fok t)),
      ((λ h. ground (arith, e)), (λ h. ground (arith, e))),
    )

abbrev Answer : NormalizedOrder → PlaceAck → Type 0
Answer o ack =
    ((ack.rejected ≡ true) × (executed ack.fills ≡ 0)) ⊎ ((ack.rejected ≡ false) × Accounts o ack)

acceptance-Answer :
    (o : NormalizedOrder) (fills : List ℕ) (now : ℕ) (price : Result Decimal) (ack : PlaceAck)
    → IsSound o fills
    → (price >>= λ p. ok (acceptance o fills now p)) ≡ ok ack
    → Answer o ack
acceptance-Answer o fills now (err e) ack s h = cc
acceptance-Answer o fills now (ok p) ack s h =
    let e : acceptance o fills now p ≡ ack = cc in
    inr (rw (← e) (unfold acceptance in refl), rw (← e) (acceptance-Accounts o fills now p s))

place_plan-Answer :
    (default : Decimal) (quoted : Option Decimal) (now : ℕ) (o : NormalizedOrder) (ack : PlaceAck)
    (planned : FillPlan)
    → ((fills : List ℕ) → planned ≡ quantities fills → IsSound o fills)
    → place_plan default quoted now o planned ≡ ok ack
    → Answer o ack
unfolding place_plan
place_plan-Answer default quoted now o ack (refused reason) s h = inl (ground arith)
place_plan-Answer default quoted now o ack (quantities fills) s h =
    acceptance-Answer o fills now (or_reference quoted (reference_price o default)) ack
      (s fills refl) h

-- An order that the sim does not reject executes at most its quantity, exactly its quantity under
-- FOK, and reports a cancelled remainder exactly if it is an IOC order that is not wholly filled; one
-- that it rejects executes nothing.
pub place-Accounts :
    (default : Decimal) (quoted : Option Decimal) (now : ℕ) (o : NormalizedOrder) (ack : PlaceAck)
    → 0 < o.quantity
    → place default quoted now o ≡ ok ack
    → ((ack.rejected ≡ true) × (executed ack.fills ≡ 0)) ⊎ ((ack.rejected ≡ false) × Accounts o ack)
place-Accounts default quoted now o ack p h =
    place_plan-Answer default quoted now o ack (fill_plan o)
      (λ fills e. unfold fill_plan in fill_plan-IsSound o o.sim_reject fills p e)
      (unfold place in h)
