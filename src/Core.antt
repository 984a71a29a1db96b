-- ===== src/Core.antt =====
-- core/: the rules that stand between a request and a venue.
pub mod StateMachine
pub mod Stage
pub mod RoutingAuthority
pub mod World
pub mod KillSwitch
pub mod Risk
pub mod PriceBand
pub mod HandleRecovery
pub mod Router
