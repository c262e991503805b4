-- ===== src/Metadata.antt =====
-- dex_aggregator/chain_metadata: chains, tokens, addresses and the registry of supported chains.
pub mod Ids
pub mod Chains
pub mod Dex
pub mod Templates
