-- ===== src/Modules.antt =====
-- shared_data_service/app/modules/shared: the machinery that every module of the service runs on.
pub mod State
pub mod Table
pub mod Spec
pub mod Events
pub mod Service
pub mod Replica
pub mod Listing
pub mod Fields
pub mod Catalog
