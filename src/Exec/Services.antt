-- ===== src/Exec/Services.antt =====
-- What the executor calls outside itself. Each call may answer nothing (an `Err` of its module) and
-- changes the state of the world. The functions behind are those of executor/src/eth_utils,
-- executor/src/substrate_utils and executor/src/extrinsic_call_factory.rs, which speak to RPC nodes
-- and indexers through third-party crates.
use privadex.Prelude.{ℕ, String, Bool, List, [], ◌∷◌, Option, none, some, ◌==◌, if◌then◌else◌}
use privadex.Metadata.Ids.{UniversalChainId, UniversalTokenId, UniversalAddress, address_eq}
use privadex.Plan.Types.{DexRouterFunction}
use privadex.Exec.Monad.{M}

pub record EthTransfer : Type 0 where
  pub is_txn_success : Bool
  pub from : ℕ
  pub to : ℕ
  pub amount : ℕ
  pub gas_fee_native : ℕ

pub record Erc20Transfer : Type 0 where
  pub is_txn_success : Bool
  pub token : ℕ
  pub from : ℕ
  pub to : ℕ
  pub amount : ℕ
  pub gas_fee_native : ℕ

pub record TxnSummary : Type 0 where
  pub is_txn_success : Bool
  pub gas_fee_native : ℕ

pub record ExtrinsicSummary : Type 0 where
  pub is_extrinsic_success : Bool
  pub block_num : ℕ
  pub extrinsic_index : ℕ

pub record XcmEventSummary : Type 0 where
  pub block_num : ℕ
  pub event_index : ℕ
  pub amount_out : ℕ

-- The first argument of a call is the RPC url, or the url of the indexer.
pub record Services : Type 1 where
  pub World : Type 0
  pub MultiLocation : Type 0
  pub SignedTransaction : Type 0
  pub RuntimeVersion : Type 0
  -- eth_utils::common
  pub block_number : String → World → Option ℕ × World
  pub eth_next_system_nonce : String → ℕ → World → Option ℕ × World
  pub send_raw_transaction : String → SignedTransaction → World → Option ℕ × World
  -- url, recipient, amount, key, EVM chain id, nonce
  pub create_send_eth_raw_txn :
      String → ℕ → ℕ → ℕ → ℕ → ℕ → World → Option SignedTransaction × World
  -- eth_utils::erc20_contract; url, token, recipient, amount, key, nonce
  pub erc20_contract_loads : String → ℕ → Bool
  pub erc20_transfer : String → ℕ → ℕ → ℕ → ℕ → ℕ → World → Option SignedTransaction × World
  -- eth_utils::weth_contract; url, contract, amount, key, nonce
  pub weth_contract_loads : String → ℕ → Bool
  pub weth_deposit : String → ℕ → ℕ → ℕ → ℕ → World → Option SignedTransaction × World
  pub weth_withdraw : String → ℕ → ℕ → ℕ → ℕ → World → Option SignedTransaction × World
  -- eth_utils::dex_router_contract; function, url, router, amount in, least amount out, path,
  -- recipient, deadline, key, nonce
  pub dex_router_contract_loads : String → ℕ → Bool
  pub dex_router_swap :
      DexRouterFunction
      → String
      → ℕ
      → ℕ
      → ℕ
      → List ℕ
      → ℕ
      → ℕ
      → ℕ
      → ℕ
      → World
      → Option SignedTransaction × World
  -- eth_utils::parse_txn_helper
  pub parse_transfer_from_eth_send_txn : String → ℕ → World → Option EthTransfer × World
  pub parse_transfer_from_erc20_txn : String → ℕ → World → Option Erc20Transfer × World
  pub parse_transfer_from_dex_swap_txn : String → ℕ → World → Option Erc20Transfer × World
  pub get_txn_summary : String → ℕ → World → Option TxnSummary × World
  -- eth_utils::astar_xcm_precompile_contract; url, token, amount, chain, recipient, key, nonce
  pub astar_xcm_contract_loads : String → Bool
  pub assets_xcm_transfer :
      String
      → UniversalTokenId
      → ℕ
      → UniversalChainId
      → UniversalAddress
      → ℕ
      → ℕ
      → World
      → Option SignedTransaction × World
  -- extrinsic_call_factory; the asset's location and amount, and the destination
  pub moonbeam_xtokens_transfer_multiasset : MultiLocation → ℕ → MultiLocation → Option (List ℕ)
  pub polkadot_xcm_limited_reserve_transfer_assets :
      MultiLocation → ℕ → MultiLocation → Option (List ℕ)
  pub moonbase_alpha_xtokens_transfer_multiasset :
      MultiLocation → ℕ → MultiLocation → Option (List ℕ)
  -- substrate_utils::node_rpc_utils; the account is given by its SS58 prefix and public key
  pub substrate_next_system_nonce : String → ℕ → ℕ → World → Option ℕ × World
  pub get_finalized_block_number : String → World → Option ℕ × World
  pub get_runtime_version : String → World → Option RuntimeVersion × World
  pub get_genesis_hash : String → World → Option ℕ × World
  -- signer, key, call data, nonce, version, genesis hash
  pub create_extrinsic : UniversalAddress → ℕ → List ℕ → ℕ → RuntimeVersion → ℕ → List ℕ
  pub send_extrinsic : String → List ℕ → World → Option ℕ × World
  -- substrate_utils::indexer_utils
  pub lookup_extrinsic_by_hash : String → ℕ → ℕ → ℕ → World → Option ExtrinsicSummary × World
  pub lookup_xcm_event_transfer :
      String
      → ℕ
      → ℕ
      → UniversalTokenId
      → UniversalTokenId
      → ℕ
      → UniversalAddress
      → World
      → Option XcmEventSummary × World

-- The part of `ExecuteStepMeta` that steps use.
pub record StepMeta (W : Type 0) : Type 0 where
  pub cur_timestamp : ℕ
  pub get_nonce : ℕ → UniversalChainId → ℕ → ℕ → M W ℕ
  pub finalize_execstep : ℕ → UniversalChainId → M W (Unit {0})
  pub drop_execstep : ℕ → UniversalChainId → M W (Unit {0})

-- executor/src/key_container.rs
pub record AddressKeyPair : Type 0 where
  pub address : UniversalAddress
  pub key : ℕ

abbrev pub KeyContainer : Type 0
KeyContainer = List AddressKeyPair

unfoldable pub get_key : KeyContainer → UniversalAddress → Option ℕ
get_key [] address = none
get_key (pair ∷ rest) address =
    if pair.address == address then some pair.key else get_key rest address
