-- ===== src/Storage.antt =====
-- shared_data_service/app/database: the unit of work, and what PostgreSQL can store.
pub mod Uow
pub mod Inbox
