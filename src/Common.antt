-- ===== src/Common.antt =====
-- dex_aggregator/common: u128 arithmetic with 256-bit intermediate products.
pub mod Ratio
pub mod FixedPoint
