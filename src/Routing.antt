-- ===== src/Routing.antt =====
-- dex_aggregator/routing: the graph of tokens, the search for paths, and the choice of the best.
pub mod Edge
pub mod Graph
pub mod Paths
pub mod GraphPath
pub mod Solution
pub mod Sor
