-- ===== src/Exec.antt =====
-- dex_aggregator/executor/src/executable: stepping a plan forward.
pub mod Status
pub mod Monad
pub mod Services
pub mod Eth
pub mod Xcm
pub mod Step
pub mod Path
pub mod Plan
pub mod Meta
