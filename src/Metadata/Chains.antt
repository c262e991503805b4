-- ===== src/Metadata/Chains.antt =====
-- ChainInfo of dex_aggregator/chain_metadata/src/chain_info.rs, the constants of
-- registry/chain.rs, and the lookup of lib.rs.
use privadex.Prelude.{ℕ, ◌*◌, ◌^◌, String, Option, none, some, ◌==◌, if◌then◌else◌}
use privadex.Metadata.Ids.{
  UniversalChainId, substrate_relay_chain, substrate_parachain, polkadot, moonbase_relay, chain_eq,
}

pub data AddressType : Type 0 where
  ethereum ss58 : AddressType

pub data SignatureScheme : Type 0 where
  ethereum sr25519 : SignatureScheme

pub record ChainInfo : Type 0 where
  pub chain_id : UniversalChainId
  pub ss58_prefix_raw : Option ℕ
  pub xcm_address_type : AddressType
  pub sig_scheme : SignatureScheme
  pub evm_chain_id : Option ℕ
  pub weth_addr : Option ℕ
  pub avg_gas_fee_in_native_token : ℕ
  pub avg_bridge_fee_in_native_token : ℕ
  pub rpc_url : String
  pub subsquid_graphql_archive_url : String

abbrev pub moonbeam : UniversalChainId
moonbeam = substrate_parachain polkadot 2004

abbrev pub astar : UniversalChainId
astar = substrate_parachain polkadot 2006

abbrev pub polkadot_relay : UniversalChainId
polkadot_relay = substrate_relay_chain polkadot

abbrev pub moonbase_alpha : UniversalChainId
moonbase_alpha = substrate_parachain moonbase_relay 1000

abbrev pub moonbase_beta : UniversalChainId
moonbase_beta = substrate_parachain moonbase_relay 888

abbrev pub astar_info : ChainInfo
astar_info = record {
  chain_id = astar;
  ss58_prefix_raw = some 5;
  xcm_address_type = AddressType.ss58;
  sig_scheme = SignatureScheme.sr25519;
  evm_chain_id = some 592;
  weth_addr = some 0xAeaaf0e2c81Af264101B9129C00F4440cCF0F720;
  avg_gas_fee_in_native_token = 300_000 * 10 ^ 9;
  avg_bridge_fee_in_native_token = 200_000 * 10 ^ 9;
  rpc_url = "https://astar.public.blastapi.io";
  subsquid_graphql_archive_url = "https://astar.explorer.subsquid.io/graphql";
}

abbrev pub moonbeam_info : ChainInfo
moonbeam_info = record {
  chain_id = moonbeam;
  ss58_prefix_raw = some 1284;
  xcm_address_type = AddressType.ethereum;
  sig_scheme = SignatureScheme.ethereum;
  evm_chain_id = some 1284;
  weth_addr = some 0xacc15dc74880c9944775448304b263d191c6077f;
  avg_gas_fee_in_native_token = 12_000_000 * 10 ^ 9;
  avg_bridge_fee_in_native_token = 10_000_000 * 10 ^ 9;
  rpc_url = "https://moonbeam.public.blastapi.io";
  subsquid_graphql_archive_url = "https://moonbeam.explorer.subsquid.io/graphql";
}

abbrev pub polkadot_info : ChainInfo
polkadot_info = record {
  chain_id = polkadot_relay;
  ss58_prefix_raw = some 0;
  xcm_address_type = AddressType.ss58;
  sig_scheme = SignatureScheme.sr25519;
  evm_chain_id = none;
  weth_addr = none;
  avg_gas_fee_in_native_token = 190_000_000;
  avg_bridge_fee_in_native_token = 500_000_000;
  rpc_url = "https://polkadot.api.onfinality.io/rpc?apikey=[INSERT API KEY HERE]";
  subsquid_graphql_archive_url = "https://polkadot.explorer.subsquid.io/graphql";
}

abbrev pub moonbase_alpha_info : ChainInfo
moonbase_alpha_info = record {
  chain_id = moonbase_alpha;
  ss58_prefix_raw = some 1287;
  xcm_address_type = AddressType.ethereum;
  sig_scheme = SignatureScheme.ethereum;
  evm_chain_id = some 1287;
  weth_addr = some 0xd909178cc99d318e4d46e7e66a972955859670e1;
  avg_gas_fee_in_native_token = 12_000_000 * 10 ^ 9;
  avg_bridge_fee_in_native_token = 10_000_000 * 10 ^ 9;
  rpc_url = "https://moonbeam-alpha.api.onfinality.io/public";
  subsquid_graphql_archive_url = "https://moonbase.explorer.subsquid.io/graphql";
}

abbrev pub moonbase_beta_info : ChainInfo
moonbase_beta_info = record {
  chain_id = moonbase_beta;
  ss58_prefix_raw = some 1287;
  xcm_address_type = AddressType.ethereum;
  sig_scheme = SignatureScheme.ethereum;
  evm_chain_id = none;
  weth_addr = none;
  avg_gas_fee_in_native_token = 12_000_000 * 10 ^ 9;
  avg_bridge_fee_in_native_token = 10_000_000 * 10 ^ 9;
  rpc_url = "https://frag-moonbase-beta-rpc.g.moonbase.moonbeam.network";
  subsquid_graphql_archive_url = "";
}

unfoldable pub get_chain_info_from_chain_id : UniversalChainId → Option ChainInfo
get_chain_info_from_chain_id c =
    if c == astar
    then some astar_info
    else if c == moonbeam
    then some moonbeam_info
    else if c == polkadot_relay
    then some polkadot_info
    else if c == moonbase_alpha
    then some moonbase_alpha_info
    else if c == moonbase_beta
    then some moonbase_beta_info
    else none
