-- ===== src/Exec/Xcm.antt =====
-- `impl Executable for XCMTransferStep`,
-- dex_aggregator/executor/src/executable/executable_step_helpers/executable_xcm_transfer.rs. Every
-- extrinsic is immortal (`Era::Immortal`), so the checkpoint hash is the genesis hash; the tip is 0.
pub mod Results
pub mod Remote
pub mod Sends
pub mod Transitions
use privadex.Prelude.{
  ℕ, String, ◌≡◌, refl, Bool, true, false, List, Option, none, some, ltb, ◌==◌, if◌then◌else◌,
}
use privadex.Prelude.Fallible.{Outcome, ok, err, panic, or_panic, ok_or}
use privadex.Common.Ratio.{add_u32}
use privadex.Metadata.Ids.{UniversalChainId, UniversalAddress, ethereum, substrate, chain_eq}
use privadex.Metadata.Chains.{
  ChainInfo, get_chain_info_from_chain_id, astar, moonbeam, polkadot_relay, moonbase_alpha,
}
use privadex.Plan.Types.{
  CommonExecutionMeta, XcmTransferStep, CrossChainStepStatus, PendingTxnId, FinalizedTxnId,
  EthPendingTxnId, SubstratePendingExtrinsicId, SubstratePendingEventId,
  SubstrateFinalizedExtrinsicId, SubstrateEventId, not_started, submitted, dropped, failed,
  local_confirmed, confirmed,
}
use privadex.Exec.Status.{
  ExecutableError, StepForwardResult, called_step_forward_on_finished_step,
  failed_to_find_chain_info, rpc_request_failed, ss58_address_format_not_found,
  unexpected_null_amount, secret_not_found, failed_to_load_astar_precompile_contract,
  failed_to_create_txn, unsupported_chain,
}
use privadex.Exec.Monad.{M, pure, raise, lift, map_err, ◌>>=◌, ◌>>◌}
use privadex.Exec.Services.{
  Services, StepMeta, KeyContainer, get_key, TxnSummary, ExtrinsicSummary, XcmEventSummary,
}
use privadex.Exec.Eth.{txn_num_blocks_alive, update_gas_fee, check_loads}
use privadex.Exec.Xcm.Results.{
  IntermediateStepResult, intermediate, complete_eth_submitted, complete_extrinsic_submitted,
  complete_local_confirmed, summarize, merge_remote, store_intermediate,
}

module _ (sv : Services) where
  unfoldable pub get_chain_utils : UniversalChainId → M sv.World (ChainInfo × ℕ)
  get_chain_utils chain_id = do
    info ← lift (ok_or (get_chain_info_from_chain_id chain_id) failed_to_find_chain_info)
    cur_block ← map_err (sv.get_finalized_block_number info.rpc_url) rpc_request_failed
    pure (info, cur_block)

  unfoldable pub xcm_system_nonce : ChainInfo → UniversalAddress → M sv.World ℕ
  xcm_system_nonce info (ethereum eth_addr) =
      map_err (sv.eth_next_system_nonce info.rpc_url eth_addr) rpc_request_failed
  xcm_system_nonce info (substrate substrate_addr) = do
    ss58_prefix ← lift (ok_or info.ss58_prefix_raw ss58_address_format_not_found)
    map_err (sv.substrate_next_system_nonce info.rpc_url ss58_prefix substrate_addr)
        rpc_request_failed

  unfoldable pub encoded_call_data :
      XcmTransferStep sv.MultiLocation → ℕ → Outcome ExecutableError (List ℕ)
  encoded_call_data s amount =
      if s.src_token.chain == moonbeam
      then ok_or
          (sv.moonbeam_xtokens_transfer_multiasset s.token_asset_multilocation amount
            s.full_dest_multilocation)
          failed_to_create_txn
      else if s.src_token.chain == polkadot_relay
      then ok_or
          (sv.polkadot_xcm_limited_reserve_transfer_assets s.token_asset_multilocation amount
            s.full_dest_multilocation)
          failed_to_create_txn
      else if s.src_token.chain == moonbase_alpha
      then ok_or
          (sv.moonbase_alpha_xtokens_transfer_multiasset s.token_asset_multilocation amount
            s.full_dest_multilocation)
          failed_to_create_txn
      else err unsupported_chain

  unfoldable pub execute_step_forward_if_notstarted_astar_precompile :
      XcmTransferStep sv.MultiLocation
      → String
      → ℕ
      → ℕ
      → ℕ
      → ℕ
      → ℕ
      → M sv.World IntermediateStepResult
  execute_step_forward_if_notstarted_astar_precompile s rpc_url src_cur_block dest_cur_block nonce
        amount key =
      do
        lift (
            check_loads (sv.astar_xcm_contract_loads rpc_url)
              failed_to_load_astar_precompile_contract)
        signed_txn ←
            map_err
              (sv.assets_xcm_transfer rpc_url s.src_token amount s.dest_token.chain
                s.common.dest_addr key nonce)
              failed_to_create_txn
        txn_hash ← map_err (sv.send_raw_transaction rpc_url signed_txn) rpc_request_failed
        pure (
            intermediate
              (submitted
                (PendingTxnId.ethereum (record {
                  txn_hash = txn_hash;
                  end_block_num = add_u32 src_cur_block txn_num_blocks_alive;
                }))
                (record { start_block_num = dest_cur_block }))
              none none)

  unfoldable pub execute_step_forward_if_notstarted_substrate_extrinsic :
      XcmTransferStep sv.MultiLocation
      → String
      → ℕ
      → ℕ
      → List ℕ
      → ℕ
      → ℕ
      → M sv.World IntermediateStepResult
  execute_step_forward_if_notstarted_substrate_extrinsic s rpc_url src_cur_block dest_cur_block
        call_data nonce key =
      do
        runtime_version ← map_err (sv.get_runtime_version rpc_url) rpc_request_failed
        genesis_hash ← map_err (sv.get_genesis_hash rpc_url) rpc_request_failed
        extrinsic_hash ←
            map_err
              (sv.send_extrinsic rpc_url (
                sv.create_extrinsic s.common.src_addr key call_data nonce runtime_version
                  genesis_hash))
              rpc_request_failed
        pure (
            intermediate
              (submitted
                (PendingTxnId.substrate (record {
                  start_block_num = src_cur_block;
                  end_block_num = add_u32 src_cur_block txn_num_blocks_alive;
                  extrinsic_hash = extrinsic_hash;
                }))
                (record { start_block_num = dest_cur_block }))
              none none)

  -- The rest of `execute_step_forward_if_notstarted`: the precompile on Astar, an extrinsic elsewhere.
  unfoldable pub send_transfer :
      XcmTransferStep sv.MultiLocation
      → String
      → ℕ
      → ℕ
      → ℕ
      → ℕ
      → ℕ
      → M sv.World IntermediateStepResult
  send_transfer s rpc_url src_cur_block dest_cur_block nonce amount key =
      if s.src_token.chain == astar
      then execute_step_forward_if_notstarted_astar_precompile s rpc_url src_cur_block
          dest_cur_block nonce amount key
      else do
        call_data ← lift (encoded_call_data s amount)
        execute_step_forward_if_notstarted_substrate_extrinsic s rpc_url src_cur_block
            dest_cur_block call_data nonce key

  unfoldable pub execute_step_forward_if_local_confirmed :
      XcmTransferStep sv.MultiLocation
      → FinalizedTxnId
      → SubstratePendingEventId
      → M sv.World (Option IntermediateStepResult)
  unfolding get_chain_utils complete_local_confirmed
  execute_step_forward_if_local_confirmed s txn_id pending = do
    amount ← lift (ok_or s.amount_in unexpected_null_amount)
    (info, dest_cur_block) ← get_chain_utils s.dest_token.chain
    summarize (complete_local_confirmed txn_id) (
        sv.lookup_xcm_event_transfer info.subsquid_graphql_archive_url pending.start_block_num
          dest_cur_block s.src_token s.dest_token amount s.common.dest_addr)

  unfoldable pub execute_step_forward_if_submitted_eth_helper :
      XcmTransferStep sv.MultiLocation
      → EthPendingTxnId
      → SubstratePendingEventId
      → M sv.World (Option IntermediateStepResult)
  unfolding get_chain_utils complete_eth_submitted
  execute_step_forward_if_submitted_eth_helper s pending event = do
    (info, src_cur_block) ← get_chain_utils s.src_token.chain
    if ltb pending.end_block_num src_cur_block
        then pure (some (intermediate dropped (some 0) (some 0)))
        else summarize (complete_eth_submitted pending event)
            (sv.get_txn_summary info.rpc_url pending.txn_hash)

  unfoldable pub execute_step_forward_if_submitted_substrate_helper :
      XcmTransferStep sv.MultiLocation
      → SubstratePendingExtrinsicId
      → SubstratePendingEventId
      → M sv.World (Option IntermediateStepResult)
  unfolding get_chain_utils complete_extrinsic_submitted
  execute_step_forward_if_submitted_substrate_helper s pending event = do
    (info, src_cur_block) ← get_chain_utils s.src_token.chain
    if ltb pending.end_block_num src_cur_block
        then pure (some (intermediate dropped (some 0) (some 0)))
        else summarize (complete_extrinsic_submitted event) (
            sv.lookup_extrinsic_by_hash info.subsquid_graphql_archive_url pending.start_block_num
              src_cur_block pending.extrinsic_hash)

  unfoldable pub submitted_helper :
      XcmTransferStep sv.MultiLocation
      → PendingTxnId
      → SubstratePendingEventId
      → M sv.World (Option IntermediateStepResult)
  submitted_helper s (PendingTxnId.ethereum pending) event =
      execute_step_forward_if_submitted_eth_helper s pending event
  submitted_helper s (PendingTxnId.substrate pending) event =
      execute_step_forward_if_submitted_substrate_helper s pending event

  -- The match on the result of `submitted_helper`.
  unfoldable pub check_remote :
      XcmTransferStep sv.MultiLocation
      → Option IntermediateStepResult
      → M sv.World (Option IntermediateStepResult)
  unfolding merge_remote
  check_remote s none = pure none
  check_remote s (some res) = elim res.new_status [
    | local_confirmed txn_id event ↦ λ w.
        let (answer, w') = execute_step_forward_if_local_confirmed s txn_id event w in
        (merge_remote res answer, w')
    | not_started ↦ pure (some res)
    | submitted p e ↦ pure (some res)
    | dropped ↦ pure (some res)
    | failed t ↦ pure (some res)
    | confirmed t e ↦ pure (some res)
  ]

  unfoldable pub execute_step_forward_if_submitted :
      XcmTransferStep sv.MultiLocation
      → PendingTxnId
      → SubstratePendingEventId
      → M sv.World (Option IntermediateStepResult)
  execute_step_forward_if_submitted s pending event = do
    res ← submitted_helper s pending event
    check_remote s res

  module _ (meta : StepMeta sv.World) (keys : KeyContainer) where
    unfoldable pub execute_step_forward_if_notstarted :
        XcmTransferStep sv.MultiLocation → M sv.World IntermediateStepResult
    unfolding get_chain_utils xcm_system_nonce
    execute_step_forward_if_notstarted s = do
      (src_info, src_cur_block) ← get_chain_utils s.src_token.chain
      (dest_info, dest_cur_block) ← get_chain_utils s.dest_token.chain
      system_nonce ← xcm_system_nonce src_info s.common.src_addr
      nonce ← meta.get_nonce s.uuid s.src_token.chain src_cur_block system_nonce
      amount ← lift (ok_or s.amount_in unexpected_null_amount)
      key ← lift (ok_or (get_key keys s.common.src_addr) secret_not_found)
      send_transfer s src_info.rpc_url src_cur_block dest_cur_block nonce amount key

    unfoldable pub intermediate_by_status :
        XcmTransferStep sv.MultiLocation
        → CrossChainStepStatus
        → M sv.World (Option IntermediateStepResult)
    intermediate_by_status s not_started = do
      res ← execute_step_forward_if_notstarted s
      pure (some res)
    intermediate_by_status s (submitted pending event) =
        execute_step_forward_if_submitted s pending event
    intermediate_by_status s (local_confirmed txn_id event) =
        execute_step_forward_if_local_confirmed s txn_id event
    intermediate_by_status s _ = raise called_step_forward_on_finished_step

    unfoldable pub execute_step_forward :
        XcmTransferStep sv.MultiLocation
        → M sv.World (XcmTransferStep sv.MultiLocation × StepForwardResult)
    unfolding store_intermediate
    execute_step_forward s = do
      res ← intermediate_by_status s s.status
      lift (store_intermediate s res)
