-- ===== src/Messaging.antt =====
-- shared_data_service/app/messaging: the batcher, the consumer's dispatch and the registry.
pub mod Batcher
pub mod Registry
pub mod Consumer
pub mod CloudEvents
