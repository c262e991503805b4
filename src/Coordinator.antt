-- ===== src/Coordinator.antt =====
-- dex_aggregator/executor/src/concurrency_coordinator: the workers share their records in DynamoDB.
pub mod Table
pub mod Nonces
pub mod Rows
pub mod Plans
pub mod Prestart
