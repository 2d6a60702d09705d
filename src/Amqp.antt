-- ===== src/Amqp.antt =====
-- src/amqp: the options and their URIs, the message broker and the result backend.
pub mod Uri
pub mod Channels
pub mod Broker
pub mod Backend
