-- ===== src/Tests.antt =====
-- Concrete runs of the development: the data of the tests, and each theorem at an input where its
-- hypotheses hold.
pub mod Data
pub mod Service
pub mod Storage
pub mod Routes
pub mod Messaging
pub mod Rabbit
pub mod Access
pub mod Suite
pub mod Report
pub mod Bench
pub mod Container
pub mod Catalog
pub mod Settings
