-- ===== src/Bench.antt =====
-- The benchmark suite, rabbit-benchmark/benchmark.
pub mod Hybrid
pub mod Fake
pub mod Harness
pub mod Runs
pub mod Options
pub mod Suite
pub mod Clients
pub mod Results
pub mod Statistics
pub mod AioPika
pub mod Drains
pub mod Report
