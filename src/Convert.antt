-- ===== src/Convert.antt =====
-- dex_aggregator/execution_plan/src/graph_solution_to_execution_plan: a solution of the router becomes
-- an execution plan.
pub mod Steps
pub mod Edges
pub mod Converter
