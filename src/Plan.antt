-- ===== src/Plan.antt =====
-- dex_aggregator/execution_plan: the plan that the executor steps through.
pub mod Types
pub mod Steps
pub mod Validator
