-- ===== src/Tests.antt =====
-- Runs of the models at concrete inputs, and the theorems at inputs that meet their hypotheses.
pub mod Lists
pub mod Queues
pub mod Pools
pub mod Maps
pub mod Text
pub mod Tasks
pub mod Queries
pub mod Uris
pub mod Redis
pub mod Amqp
pub mod Sessions
pub mod Types
pub mod Answer
