-- ===== src/Db/Repositories/Evolution.antt =====
-- What may happen to the orders of db/repositories.py: each moves along the frozen machine.
use quant_execution_engine.Prelude.{
  ◌≡◌, refl, true, List, [], ◌∷◌, ◌++◌, some, String, same_text, eq_of_same_text, inl, inr, ◌⊎◌,
  subst, Bool-cases,
}
use quant_execution_engine.Contracts.Enums.{OrderState}
use quant_execution_engine.Core.StateMachine.{is_legal}
use quant_execution_engine.Core.StateMachine.Graph.{◌⟶◌, ◌⟶*◌, here, next, is_legal_iff}
use quant_execution_engine.Db.Models.{OrderRow}
use quant_execution_engine.Db.Repositories.{Schema, find_row, update_row}
use quant_execution_engine.Db.Repositories.Reads.{find_row-update_row, find_row-append}

-- The schema's trigger encodes the frozen machine, as core/state_machine.py says that it does.
abbrev pub IsFrozen : Schema → Type 0
IsFrozen schema = (a b : OrderState) → schema.trigger a b ≡ is_legal a b

-- What may happen to an order over its life: its status follows the machine, and what it was sent
-- as stays.
pub record Evolves (a b : OrderRow) : Type 0 where
  pub path : a.status ⟶* b.status
  pub same_id : b.client_order_id ≡ a.client_order_id
  pub same_broker : b.broker ≡ a.broker
  pub same_account : b.account ≡ a.account
  pub same_symbol : b.symbol ≡ a.symbol
  pub same_side : b.side ≡ a.side
  pub same_created : b.created_at ≡ a.created_at

pub Evolves-refl : (a : OrderRow) → Evolves a a
Evolves-refl a = record {
  path = here;
  same_id = refl;
  same_broker = refl;
  same_account = refl;
  same_symbol = refl;
  same_side = refl;
  same_created = refl;
}

path-trans : {r s t : OrderState} → r ⟶* s → s ⟶* t → r ⟶* t
path-trans here q = q
path-trans (next e p) q = next e (path-trans p q)

pub Evolves-trans : (a b c : OrderRow) → Evolves a b → Evolves b c → Evolves a c
Evolves-trans a b c p q = record {
  path = path-trans p.path q.path;
  same_id = cc (p.same_id, q.same_id);
  same_broker = cc (p.same_broker, q.same_broker);
  same_account = cc (p.same_account, q.same_account);
  same_symbol = cc (p.same_symbol, q.same_symbol);
  same_side = cc (p.same_side, q.same_side);
  same_created = cc (p.same_created, q.same_created);
}

-- No stored order is lost, and each one evolves.
abbrev pub Preserves : List OrderRow → List OrderRow → Type 0
Preserves rows rows' =
    (key : String) (row : OrderRow)
    → find_row key rows ≡ some row
    → (row' : OrderRow) × (find_row key rows' ≡ some row') × Evolves row row'

pub Preserves-refl : (rows : List OrderRow) → Preserves rows rows
Preserves-refl rows key row h = (row, h, Evolves-refl row)

pub Preserves-trans :
    (xs ys zs : List OrderRow) → Preserves xs ys → Preserves ys zs → Preserves xs zs
Preserves-trans xs ys zs p q key row h =
    let (row', h', e) = p key row h in
    let (row'', h'', e') = q key row' h' in (row'', h'', Evolves-trans row row' row'' e e')

pub update_row-Preserves :
    (cid : String) (f : OrderRow → OrderRow) (rows : List OrderRow)
    → ((row : OrderRow) → (f row).client_order_id ≡ row.client_order_id)
    → ((row : OrderRow) → find_row cid rows ≡ some row → Evolves row (f row))
    → Preserves rows (update_row cid f rows)
update_row-Preserves cid f rows keeps moves key row h = elim (Bool-cases (same_text key cid)) [
  | inl e ↦
      let k : key ≡ cid = eq_of_same_text key cid e in
      (f row, rw (find_row-update_row cid key f rows keeps, e, h), moves row (rw k at h))
  | inr e ↦ (row, rw (find_row-update_row cid key f rows keeps, e) h, Evolves-refl row)
]

pub append-Preserves : (rows : List OrderRow) (row : OrderRow) → Preserves rows (rows ++ (row ∷ []))
append-Preserves rows new_one key row h =
    (row, rw (find_row-append key rows new_one, h), Evolves-refl row)

pub Evolves-by :
    (row : OrderRow) (state : OrderState)
    → row.status ⟶* state
    → Evolves row (record row { status = state })
Evolves-by row state p = record {
  path = p;
  same_id = refl;
  same_broker = refl;
  same_account = refl;
  same_symbol = refl;
  same_side = refl;
  same_created = refl;
}

path_of_move : {s t : OrderState} → (s ≡ t) ⊎ (s ⟶ t) → s ⟶* t
path_of_move {s} (inl e) = subst (λ t. s ⟶* t) e here
path_of_move (inr e) = next e here

-- A move that the app guard accepts is a path.
pub path_of_is_legal : (s t : OrderState) → is_legal s t ≡ true → s ⟶* t
path_of_is_legal s t h = path_of_move ((is_legal_iff s t).0 h)

-- A write that leaves the table alone, or changes one row by `f`.
abbrev pub Wrote :
    String → (OrderRow → OrderRow) → (OrderRow → Type 0) → List OrderRow → List OrderRow → Type 0
Wrote cid f P rows rows' =
    (rows' ≡ rows)
    ⊎ (((row : OrderRow) → find_row cid rows ≡ some row → P row) × (rows' ≡ update_row cid f rows))

pub Wrote-Preserves :
    (cid : String) (f : OrderRow → OrderRow) (P : OrderRow → Type 0) (rows rows' : List OrderRow)
    → ((row : OrderRow) → (f row).client_order_id ≡ row.client_order_id)
    → ((row : OrderRow) → P row → Evolves row (f row))
    → Wrote cid f P rows rows'
    → Preserves rows rows'
Wrote-Preserves cid f P rows rows' keeps moves (inl e) = rw e (Preserves-refl rows)
Wrote-Preserves cid f P rows rows' keeps moves (inr (guard, e)) =
    rw e (update_row-Preserves cid f rows keeps (λ row h. moves row (guard row h)))
