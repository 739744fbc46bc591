-- ===== src/Tests.antt =====
-- Concrete services and concrete inputs: each theorem is applied where its conditions hold.
mod Services
mod Webhooks
pub mod Adapters
mod Secrets
mod Simulations
pub mod Clients
mod RuleSets
mod LookupSets
mod Subscriptions
mod Multiplexers
mod Relays
mod Commands
mod Ports
