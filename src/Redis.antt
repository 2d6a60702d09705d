-- ===== src/Redis.antt =====
-- src/redis: options, their URIs, the result backend and the broker.
pub mod Uri
pub mod Options
pub mod Backend
pub mod Broker
