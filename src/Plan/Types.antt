-- ===== src/Plan/Types.antt =====
-- The data of dex_aggregator/execution_plan/src/execution_plan.rs. `L` stands for the MultiLocation
-- of the xcm crate, which the plan only carries. Amounts are u128, block numbers and indices u32.
use privadex.Prelude.{ℕ, List, Option}
use privadex.Metadata.Ids.{UniversalChainId, UniversalTokenId, UniversalAddress}

pub record CommonExecutionMeta : Type 0 where
  pub src_addr : UniversalAddress
  pub dest_addr : UniversalAddress
  pub gas_fee_native : ℕ
  pub gas_fee_usd : ℕ

pub record EthPendingTxnId : Type 0 where
  pub txn_hash : ℕ
  pub end_block_num : ℕ

pub record SubstratePendingExtrinsicId : Type 0 where
  pub start_block_num : ℕ
  pub end_block_num : ℕ
  pub extrinsic_hash : ℕ

pub data PendingTxnId : Type 0 where
  ethereum : EthPendingTxnId → PendingTxnId
  substrate : SubstratePendingExtrinsicId → PendingTxnId

pub record SubstrateFinalizedExtrinsicId : Type 0 where
  pub block_num : ℕ
  pub extrinsic_index : ℕ

pub data FinalizedTxnId : Type 0 where
  ethereum : ℕ → FinalizedTxnId
  substrate : SubstrateFinalizedExtrinsicId → FinalizedTxnId

pub record SubstratePendingEventId : Type 0 where
  pub start_block_num : ℕ

pub record SubstrateEventId : Type 0 where
  pub block_num : ℕ
  pub event_index : ℕ

pub data EthStepStatus : Type 0 where
  not_started : EthStepStatus
  submitted : EthPendingTxnId → EthStepStatus
  dropped : EthStepStatus
  failed : ℕ → EthStepStatus
  confirmed : ℕ → EthStepStatus

pub data CrossChainStepStatus : Type 0 where
  not_started : CrossChainStepStatus
  submitted : PendingTxnId → SubstratePendingEventId → CrossChainStepStatus
  dropped : CrossChainStepStatus
  failed : FinalizedTxnId → CrossChainStepStatus
  local_confirmed : FinalizedTxnId → SubstratePendingEventId → CrossChainStepStatus
  confirmed : FinalizedTxnId → SubstrateEventId → CrossChainStepStatus

pub record EthSendStep : Type 0 where
  pub uuid : ℕ
  pub chain : UniversalChainId
  pub amount : Option ℕ
  pub common : CommonExecutionMeta
  pub status : EthStepStatus

pub record EthWrapStep : Type 0 where
  pub uuid : ℕ
  pub chain : UniversalChainId
  pub amount : Option ℕ
  pub common : CommonExecutionMeta
  pub status : EthStepStatus

pub record EthUnwrapStep : Type 0 where
  pub uuid : ℕ
  pub chain : UniversalChainId
  pub amount : Option ℕ
  pub common : CommonExecutionMeta
  pub status : EthStepStatus

pub record Erc20TransferStep : Type 0 where
  pub uuid : ℕ
  pub token : UniversalTokenId
  pub amount : Option ℕ
  pub common : CommonExecutionMeta
  pub status : EthStepStatus

pub data DexRouterFunction : Type 0 where
  swap_exact_eth_for_tokens swap_exact_tokens_for_tokens swap_exact_tokens_for_eth :
      DexRouterFunction

pub record EthDexSwapStep : Type 0 where
  pub uuid : ℕ
  pub dex_router_addr : ℕ
  pub dex_router_func : DexRouterFunction
  pub token_path : List UniversalTokenId
  pub amount_in : Option ℕ
  pub common : CommonExecutionMeta
  pub status : EthStepStatus

pub record XcmTransferStep (L : Type 0) : Type 0 where
  pub uuid : ℕ
  pub src_token : UniversalTokenId
  pub dest_token : UniversalTokenId
  pub token_asset_multilocation : L
  pub full_dest_multilocation : L
  pub amount_in : Option ℕ
  pub bridge_fee_native : ℕ
  pub bridge_fee_usd : ℕ
  pub common : CommonExecutionMeta
  pub status : CrossChainStepStatus

pub data ExecutionStepEnum (L : Type 0) : Type 0 where
  eth_send : EthSendStep → ExecutionStepEnum L
  erc20_transfer : Erc20TransferStep → ExecutionStepEnum L
  eth_wrap : EthWrapStep → ExecutionStepEnum L
  eth_unwrap : EthUnwrapStep → ExecutionStepEnum L
  eth_dex_swap : EthDexSwapStep → ExecutionStepEnum L
  xcm_transfer : XcmTransferStep L → ExecutionStepEnum L

pub record ExecutionStep (L : Type 0) : Type 0 where
  pub inner : ExecutionStepEnum L

pub record ExecutionPath (L : Type 0) : Type 0 where
  pub steps : List (ExecutionStep L)
  pub amount_out : Option ℕ

pub record ExecutionPlan (L : Type 0) : Type 0 where
  pub uuid : ℕ
  pub paths : List (ExecutionPath L)
  pub prestart_user_to_escrow_transfer : ExecutionStep L
  pub postend_escrow_to_user_transfer : ExecutionStep L
