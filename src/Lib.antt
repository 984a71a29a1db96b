-- ===== src/Lib.antt =====
-- A model of the order execution engine, and the theorems on it. Paths are those of the repository,
-- below src/quant_execution_engine.
--
-- The program takes orders for three brokers. A request reaches `OrderRouter` (core/router.py), which
-- asks the kill switch, the store, the capability matrix, the risk gate, the price band, the stage
-- ladder, the routing authority and the circuit breaker, takes a lock, stores the order, calls the
-- adapter and stores what it answers. Each real venue's reconciler repairs the store by what the venue
-- lists; the store publishes each change to the event hub, which fans it out to subscribers. The order
-- book service keeps the books that the venues stream; the sim venue prices its fills by them.
--
-- - Contracts: contracts/: the enums, the errors, `NormalizedOrder` with its validation, the
--   capability matrix. A raise is `err` of the type `Result`.
-- - Config: the fields of config/settings.py that the models read.
-- - Core.StateMachine, Core.Stage, Core.RoutingAuthority: the pure modules of core/ of those names.
-- - Core.World: the state that passes through the actions: the tables, the log of every call that
--   leaves the process, and the breakers. An `Action` returns the world beside an error too, since
--   what was written before a raise stays written.
-- - Core.KillSwitch, Core.Risk (with cache/counters.py), Core.PriceBand, Core.HandleRecovery: the
--   checks and the recovery loop, as actions.
-- - Core.Router: `submit` in Submit, with the lock of cache/single_flight.py; `_place_and_settle` in
--   Settle; `cancel`, `mass_cancel` and `get` in Cancel; `amend` in Amend; what they share in Parts.
--   Operations runs any sequence of them, with passes of the reconciler between.
-- - Db.Repositories: db/repositories.py on the tables of Db.Models, each function as one step;
--   Evolution says what may happen to a stored order.
-- - Events.Hub, Events.Subscription: events/hub.py.
-- - Adapters.Session, Adapters.RateLimit, Adapters.Sim, Adapters.SimPricing: the breaker, the token
--   bucket, the deterministic venue and the prices of its fills. Adapters.Views: the display of a
--   venue's orders.
-- - Adapters.Reconcile: what liberator/reconciler.py and streaming_pro/reconciler.py share: the
--   lost-ack match (Matching), the plan for one row (Planning), its execution (Repair) and the pass
--   over the store (Pass), each by an interface that the two fill.
-- - Adapters.Liberator, Adapters.StreamingPro: the reading of a venue order (Mapping), orders onto the
--   wire and rows back onto orders (Payloads), `place`, `cancel` and the order reads (Adapter), and
--   the reconciler of each (Planning, Loop).
-- - OrderBook.Cache, OrderBook.Subscribers: the two halves of order_book/service.py.
-- - Reference.FeeSchedule: reference/fee_schedule.py.
-- - Api.Guards, Api.Statuses: the guards of api/deps.py, the routes of api/ that ask them, and the
--   statuses of api/error_handlers.py.
-- - Tests: concrete runs.
--
-- What stands outside is a parameter. `Env` holds what Redis, the venues, the market data service and
-- the clock answer, each as a function of all calls so far, so any behaviour of theirs is one such
-- value; its `others` is what the other tasks of the process write to the store while this one waits.
-- Theorems on sequences assume that those keep each stored order on the frozen machine (`IsFair`),
-- that the trigger of the schema, which another repository holds, is the frozen graph (`IsFrozen`),
-- and that the injected handle resolver places no order (`IsSound`). For the recovery loop the clock
-- never goes back, and moves on while the process sleeps (`IsTicking`).
--
-- Bounds and fuel. Times are natural numbers of milliseconds, where the source has datetimes and
-- float seconds. `await_row` reads every 50 ms and is given two reads more than its budget holds;
-- `poll` is given the floor, the deadline and the time of the submit together: each read that leaves
-- the budget unspent is below the floor, or has moved the clock on towards the deadline. A quantity is
-- a natural number: the tests that refuse zero refuse the negative ones too. A decimal is an exact
-- coefficient with its places; products are exact, where the library rounds to 28 digits, and its
-- divisions are parameters. The token bucket counts in millionths of a token, exactly. The key of a
-- fill is kept as the parts of its text, and a price that is written as text as its decimal.
--
-- Not modelled: the HTTP API but for its guards and statuses, the reading of the settings,
-- connections and transports, the parsing of the venues' JSON, account and position values, the order
-- book's websocket client and the provider router before it, which has a single source and so never
-- switches, fee observations, the TOML of the fee schedule, exports and history pages, log lines and
-- the texts of errors but for those that are stored, and the columns `updated_at` and `metadata` but
-- for the keys that the sim adapter reads.
pub mod Prelude
pub mod Reference
pub mod OrderBook
pub mod Contracts
pub mod Config
pub mod Core
pub mod Events
pub mod Db
pub mod Api
pub mod Adapters
pub mod Tests
