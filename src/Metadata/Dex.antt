-- ===== src/Metadata/Dex.antt =====
-- `DexId` and the constants of dex_aggregator/chain_metadata/src/registry/dex.rs, and `Dex` of
-- common.rs.
use privadex.Prelude.{ℕ, String, ◌≡◌, ◌↔◌, Bool, true, false, PartialEq, arith}
use privadex.Metadata.Ids.{UniversalChainId}
use privadex.Metadata.Chains.{astar, moonbeam, moonbase_alpha}

pub data DexId : Type 0 where
  arthswap beamswap stellaswap moonbase_uniswap : DexId

abbrev dex_beq : DexId → DexId → Bool
dex_beq arthswap arthswap = true
dex_beq beamswap beamswap = true
dex_beq stellaswap stellaswap = true
dex_beq moonbase_uniswap moonbase_uniswap = true
dex_beq _ _ = false

pub dex_beq_iff : (a b : DexId) → (dex_beq a b ≡ true) ↔ (a ≡ b)
dex_beq_iff a b = ground arith

instance abbrev pub dex_eq : PartialEq DexId
dex_eq = record { eq = dex_beq; eq_iff = dex_beq_iff }

pub record Dex : Type 0 where
  pub id : DexId
  pub chain_id : UniversalChainId
  pub fee_bps : ℕ
  pub graphql_url : String
  pub eth_dex_router : ℕ

abbrev pub arthswap_dex : Dex
arthswap_dex = record {
  id = arthswap;
  chain_id = astar;
  fee_bps = 30;
  graphql_url = "https://squid.subsquid.io/privadex-arthswap/v/v0/graphql";
  eth_dex_router = 0xE915D2393a08a00c5A463053edD31bAe2199b9e7;
}

abbrev pub beamswap_dex : Dex
beamswap_dex = record {
  id = beamswap;
  chain_id = moonbeam;
  fee_bps = 30;
  graphql_url = "https://squid.subsquid.io/privadex-beamswap/v/v0/graphql";
  eth_dex_router = 0x96b244391D98B62D19aE89b1A4dCcf0fc56970C7;
}

abbrev pub stellaswap_dex : Dex
stellaswap_dex = record {
  id = stellaswap;
  chain_id = moonbeam;
  fee_bps = 25;
  graphql_url = "https://squid.subsquid.io/privadex-stellaswap/v/v0/graphql";
  eth_dex_router = 0x70085a09d30d6f8c4ecf6ee10120d1847383bb57;
}

abbrev pub moonbase_uniswap_dex : Dex
moonbase_uniswap_dex = record {
  id = moonbase_uniswap;
  chain_id = moonbase_alpha;
  fee_bps = 30;
  graphql_url = "";
  eth_dex_router = 0x8a1932d6e26433f3037bd6c3a40c816222a6ccd4;
}
