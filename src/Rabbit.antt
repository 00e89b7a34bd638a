-- ===== src/Rabbit.antt =====
-- The RabbitMQ client library, rabbit-client-python/src/hs_rabbit_client.
pub mod Client
pub mod Watch
pub mod Tasks
