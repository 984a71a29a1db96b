-- ===== src/Core/World/Quiet.antt =====
-- The log of Core/World.antt against its store: how often an order was placed, and how often it
-- was stored.
use quant_execution_engine.Prelude.{
  ℕ, ◌+◌, ◌≤◌, ◌≡◌, refl, Bool, true, false, List, [], ◌∷◌, Option, none, some, String, same_text,
  arith, if◌then◌else◌,
}
use quant_execution_engine.Contracts.Errors.{Result, ok, err}
use quant_execution_engine.Db.Models.{OrderRow, Db}
use quant_execution_engine.Db.Repositories.{find_row, known}
use quant_execution_engine.Db.Repositories.Evolution.{Preserves, Preserves-refl, Preserves-trans}
use quant_execution_engine.Core.World.{
  Env, World, Action, Call, venue_place, inserted, pure, lift, ask, statement, query, waited,
  continue, ◌>>=◌, sql,
}

-- How many placements of an order the log holds, at any adapter.
abbrev pub places : String → List Call → ℕ
places cid [] = 0
places cid (venue_place a c ∷ t) = (if same_text cid c then 1 else 0) + places cid t
places cid (_ ∷ t) = places cid t

-- How many times the log holds that an order was stored.
abbrev pub inserts : String → List Call → ℕ
inserts cid [] = 0
inserts cid (inserted c ∷ t) = (if same_text cid c then 1 else 0) + inserts cid t
inserts cid (_ ∷ t) = inserts cid t

-- 1 for an order that is stored, and 0 for another.
abbrev pub stored : String → World → ℕ
stored cid w = if known (find_row cid w.db.orders) then 1 else 0

-- An order that the log is read for, whether the store held it before (1) or did not (0), and what
-- the store held then.
pub record Watched : Type 0 where
  pub order : String
  pub before : ℕ
  pub since : List OrderRow

-- No order is placed more often than it was stored, nor stored twice, with what the store held
-- before; and what it held then has moved along the frozen machine only.
pub record IsOnce (watch : Watched) (w : World) : Type 0 where
  pub placed : places watch.order w.trace ≤ inserts watch.order w.trace
  pub kept : inserts watch.order w.trace + watch.before ≤ stored watch.order w
  pub moved : Preserves watch.since w.db.orders

-- The other tasks take no order out of the store, and move each along the frozen machine.
abbrev pub IsFair : Env → Type 0
IsFair env = (t : List Call) (db : Db) → Preserves db.orders (env.others t db).orders

abbrev pub Safe {ℓ} : {A : Type ℓ} → Watched → Action A → Type 0
Safe watch m = (w : World) → IsOnce watch w → IsOnce watch (m w).1

-- A call that the log does not count.
abbrev pub is_quiet : Call → Bool
is_quiet (venue_place _ _) = false
is_quiet (inserted _) = false
is_quiet _ = true

known-Preserves :
    (cid : String) (xs ys : List OrderRow)
    → Preserves xs ys
    → known (find_row cid xs) ≡ true
    → known (find_row cid ys) ≡ true
known-Preserves cid xs ys p h = from_row (find_row cid xs) refl h
  where
    from_row :
        (found : Option OrderRow)
        → find_row cid xs ≡ found
        → known found ≡ true
        → known (find_row cid ys) ≡ true
    from_row none e k = cc
    from_row (some row) e k = let (row', e', _) = p cid row e in rw e'

pub stored-Preserves :
    (cid : String) (w w' : World)
    → Preserves w.db.orders w'.db.orders
    → stored cid w ≤ stored cid w'
stored-Preserves cid w w' p = ground (arith, known-Preserves cid w.db.orders w'.db.orders p)

pub quiet_counts :
    (cid : String) (call : Call) (t : List Call)
    → is_quiet call ≡ true
    → (places cid (call ∷ t) ≡ places cid t) × (inserts cid (call ∷ t) ≡ inserts cid t)
quiet_counts cid (venue_place a c) t q = cc
quiet_counts cid (inserted c) t q = cc
quiet_counts cid _ t q = (refl, refl)

module _ (env : Env) (fair : IsFair env) where
  pub stored-waited :
      (order : String) (call : Call) (w : World) → stored order w ≤ stored order (waited env call w)
  stored-waited order call w =
      stored-Preserves order w (waited env call w) (fair (call ∷ w.trace) w.db)

  pub waited-IsOnce :
      (watch : Watched) (call : Call) (w : World)
      → is_quiet call ≡ true
      → IsOnce watch w
      → IsOnce watch (waited env call w)
  waited-IsOnce watch call w q v =
      let c = quiet_counts watch.order call w.trace q in
      record {
        placed = omega (arith, v.placed, c);
        kept = omega (arith, v.kept, c, stored-waited watch.order call w);
        moved =
            Preserves-trans watch.since w.db.orders (waited env call w).db.orders v.moved
              (fair (call ∷ w.trace) w.db);
      }

  pub Safe-ask {ℓ} :
      {A : Type ℓ} (watch : Watched) (call : Call) (answer : List Call → A)
      → is_quiet call ≡ true
      → Safe watch (ask env call answer)
  unfolding ask
  Safe-ask watch call answer q w v = waited-IsOnce watch call w q v

  -- A statement that keeps every stored order.
  pub Safe-statement {ℓ} :
      {A : Type ℓ} (watch : Watched) (run : Db → Result A × Db)
      → ((db : Db) → Preserves db.orders (run db).1.orders)
      → Safe watch (statement env run)
  unfolding statement
  Safe-statement watch run keeps w v =
      let w' = waited env sql w in
      let v' = waited-IsOnce watch sql w refl v in
      record {
        placed = v'.placed;
        kept = omega (
          arith,
          v'.kept,
          stored-Preserves watch.order w' (record w' { db = (run w'.db).1 }) (keeps w'.db),
        );
        moved =
            Preserves-trans watch.since w'.db.orders (run w'.db).1.orders v'.moved (keeps w'.db);
      }

  pub Safe-query {ℓ} : {A : Type ℓ} (watch : Watched) (read : Db → A) → Safe watch (query env read)
  unfolding query
  Safe-query watch read =
      Safe-statement watch (λ db. (ok (read db), db)) (λ db. Preserves-refl db.orders)

module _ {ℓ} {A : Type ℓ} where
  pub Safe-pure : (watch : Watched) (a : A) → Safe watch (pure a)
  Safe-pure watch a w v = v

  pub Safe-lift : (watch : Watched) (r : Result A) → Safe watch (lift r)
  Safe-lift watch r w v = v

pub Safe-bind {ℓ κ} :
    {A : Type ℓ} {B : Type κ} (watch : Watched) (m : Action A) (f : A → Action B)
    → Safe watch m
    → ((a : A) → Safe watch (f a))
    → Safe watch (m >>= f)
unfolding ◌>>=◌
Safe-bind {A = A} watch m f sm sf w v = from_result (m w).0 (m w).1 (sm w v)
  where
    from_result : (r : Result A) (w' : World) → IsOnce watch w' → IsOnce watch (continue r f w').1
    from_result (ok a) w' v' = sf a w' v'
    from_result (err e) w' v' = v'

pub Safe-if {ℓ} :
    {A : Type ℓ} (watch : Watched) (b : Bool) (m n : Action A)
    → Safe watch m
    → Safe watch n
    → Safe watch (if b then m else n)
Safe-if watch true m n sm sn = sm
Safe-if watch false m n sm sn = sn

-- A step from one fact of the world to another; what the first part leaves is enough if it raises.
pub step_bind {ℓ κ} :
    {A : Type ℓ} {B : Type κ} (P Q R : World → Type 0) (m : Action A) (f : A → Action B)
    → ((w : World) → P w → Q (m w).1)
    → ((w : World) → Q w → R w)
    → ((a : A) (w : World) → Q w → R (f a w).1)
    → (w : World) → P w
    → R ((m >>= f) w).1
unfolding ◌>>=◌
step_bind {A = A} P Q R m f first weaken second w p = from_result (m w).0 (m w).1 (first w p)
  where
    from_result : (r : Result A) (w' : World) → Q w' → R (continue r f w').1
    from_result (ok a) w' q = second a w' q
    from_result (err e) w' q = weaken w' q
