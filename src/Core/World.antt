-- ===== src/Core/World.antt =====
-- The surroundings of core/: the store, the log of every call that leaves the process, and what the
-- services outside this repository answer.
pub mod Quiet
pub mod Inverse
use quant_execution_engine.Prelude.{
  ℕ, Bool, true, false, List, [], ◌∷◌, Option, none, some, String, if◌then◌else◌,
}
use quant_execution_engine.Prelude.Decimal.{Decimal}
use quant_execution_engine.Config.{Settings}
use quant_execution_engine.Contracts.Enums.{Market, Side, OrderType}
use quant_execution_engine.Contracts.Errors.{Error, Result, Done, ok, err}
use quant_execution_engine.Contracts.Orders.{NormalizedOrder}
use quant_execution_engine.Core.Stage.{Adapter, Installed}
use quant_execution_engine.Adapters.Base.{PlaceAck}
use quant_execution_engine.Adapters.Session.{SessionCircuitBreaker}
use quant_execution_engine.Db.Models.{Db}
use quant_execution_engine.Db.Repositories.{Schema}

-- The counters in Redis: `exe:rate:{second}`, and `exe:burst:{digest}`.
pub data Counter : Type 0 where
  rate : ℕ → Counter
  burst : ℕ → Counter

-- The text that a burst key digests, as its parts. `format(price, "f")` writes the coefficient with
-- its decimal places, so it tells decimals apart exactly as their two fields do.
pub record Fingerprint : Type 0 where
  pub account : String
  pub symbol : String
  pub side : Side
  pub quantity : ℕ
  pub order_type : OrderType
  pub price : Option Decimal

-- A call that leaves the process, as it is logged, the latest first. `inserted` marks that the
-- statement before it has stored a new order.
pub data Call : Type 0 where
  sql read_clock sleep get_kill_key set_kill_key delete_kill_key : Call
  incr expire : Counter → Call
  lock unlock get_orders : String → Call
  get_close : String → Market → Call
  get_quote : String → Call
  venue_place venue_cancel venue_amend : Adapter → String → Call
  inserted : String → Call

-- What the outside answers, as functions of all calls so far: any behaviour of the services is one
-- such value. `none` and `false` are a call that raises, where a comment says so.
pub record Env : Type 0 where
  pub redis_configured : Bool
  pub kill_key : List Call → Option Bool  -- is the key there; `none` raises
  pub write_kill_key : List Call → Bool  -- `false` raises
  pub count : Counter → List Call → Option ℕ  -- `none` raises
  pub set_ttl : Counter → List Call → Bool  -- `false` raises
  pub take_lock : String → List Call → Option Bool  -- `none` raises
  pub market_data_configured : Bool
  pub last_close : String → Market → List Call → Option Decimal
  pub quote : NormalizedOrder → List Call → Option Decimal
  pub place : Adapter → NormalizedOrder → List Call → Result PlaceAck
  pub cancel : Adapter → String → List Call → Result Bool  -- `ack.ok`
  pub amend : Adapter → String → Option Decimal → Option ℕ → List Call → Result Bool  -- `ack.ok`
  pub clock : List Call → ℕ  -- milliseconds
  pub digest : Fingerprint → ℕ
  -- What the other tasks of the process write to the store while this one waits for a call.
  pub others : List Call → Db → Db

-- The process: its settings, its injected adapters, the schema of its store and its surroundings.
pub record Node : Type 0 where
  pub settings : Settings
  pub installed : Installed
  pub schema : Schema
  pub env : Env

pub record World : Type 0 where
  pub db : Db
  pub trace : List Call
  pub breaker : Adapter → SessionCircuitBreaker

-- What was written before a raise stays written, so the world comes back beside an error too.
abbrev pub Action {ℓ} : Type ℓ → Type ℓ
Action A = World → Result A × World

module _ {ℓ} {A : Type ℓ} where
  abbrev pub pure : A → Action A
  pure a w = (ok a, w)

  abbrev pub raise : Error → Action A
  raise e w = (err e, w)

  abbrev pub lift : Result A → Action A
  lift r w = (r, w)

abbrev continue {ℓ κ} : {A : Type ℓ} {B : Type κ} → Result A → (A → Action B) → Action B
continue (ok a) f w = f a w
continue (err e) f w = (err e, w)

infixl 5 ◌>>=◌ ◌>>◌
unfoldable pub ◌>>=◌ {ℓ κ} : {A : Type ℓ} {B : Type κ} → Action A → (A → Action B) → Action B
◌>>=◌ m f w = continue (m w).0 f (m w).1

abbrev pub ◌>>◌ {ℓ κ} : {A : Type ℓ} {B : Type κ} → Action A → Action B → Action B
m >> k = m >>= λ _. k

-- Logs a call; the other tasks run while it is waited for.
abbrev pub waited : Env → Call → World → World
waited env call w = let t = call ∷ w.trace in record w { trace = t; db = env.others t w.db }

-- A call to a service outside, and its answer.
unfoldable pub ask {ℓ} : {A : Type ℓ} → Env → Call → (List Call → A) → Action A
ask env call answer w = let w' = waited env call w in (ok (answer w'.trace), w')

-- One statement on the store, or one transaction.
unfoldable pub statement {ℓ} : {A : Type ℓ} → Env → (Db → Result A × Db) → Action A
statement env run w =
    let w' = waited env sql w in let (r, db') = run w'.db in (r, record w' { db = db' })

-- A read of the store.
unfoldable pub query {ℓ} : {A : Type ℓ} → Env → (Db → A) → Action A
unfolding statement
query env read = statement env (λ db. (ok (read db), db))

-- A call whose answer is not read.
abbrev pub pause : Env → Call → Action Done
pause env call = ask env call (λ t. tt)

-- `datetime.now(UTC)`, or the store's `now()`
abbrev pub now : Env → Action ℕ
now env = ask env read_clock env.clock

-- Marks a stored order in the log. It is no call, so nothing runs meanwhile.
unfoldable pub mark : Call → Action Done
mark call w = (ok tt, record w { trace = call ∷ w.trace })
