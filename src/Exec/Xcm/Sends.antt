-- ===== src/Exec/Xcm/Sends.antt =====
-- A transfer that has not started is submitted.
use privadex.Prelude.{Bool-cases, arith, inl, inr, ℕ, String, ◌≡◌, List, none, ◌==◌}
use privadex.Prelude.Fallible.{ok, ok_or}
use privadex.Common.Ratio.{add_u32}
use privadex.Metadata.Ids.{chain_eq}
use privadex.Metadata.Chains.{astar}
use privadex.Plan.Types.{XcmTransferStep, PendingTxnId, SubstratePendingEventId, submitted}
use privadex.Exec.Status.{
  rpc_request_failed, unexpected_null_amount, secret_not_found,
  failed_to_load_astar_precompile_contract, failed_to_create_txn,
}
use privadex.Exec.Monad.{lift, map_err, >>=-eq-ok}
use privadex.Exec.Services.{Services, StepMeta, KeyContainer, get_key}
use privadex.Exec.Eth.{txn_num_blocks_alive, check_loads}
use privadex.Exec.Xcm.Results.{IntermediateStepResult, intermediate}
use privadex.Exec.Xcm.{
  send_transfer, xcm_system_nonce, encoded_call_data, get_chain_utils,
  execute_step_forward_if_notstarted, execute_step_forward_if_notstarted_astar_precompile,
  execute_step_forward_if_notstarted_substrate_extrinsic,
}

abbrev pub IsSubmitted : IntermediateStepResult → Type 0
IsSubmitted res =
    (p : PendingTxnId) × (e : SubstratePendingEventId) × (res
      ≡ intermediate (submitted p e) none none)

module _ (sv : Services) where
  module _ (meta : StepMeta sv.World) (keys : KeyContainer) where
    sends_extrinsic :
        (s : XcmTransferStep sv.MultiLocation) (url : String) (b d : ℕ) (cd : List ℕ) (n k : ℕ)
        (w v : sv.World) (res : IntermediateStepResult)
        → execute_step_forward_if_notstarted_substrate_extrinsic sv s url b d cd n k w ≡ (ok res, v)
        → IsSubmitted res
    unfolding execute_step_forward_if_notstarted_substrate_extrinsic
    sends_extrinsic s url b d cd n k w v res h =
        let (rv, u1, _, h1) =
          >>=-eq-ok (map_err (sv.get_runtime_version url) rpc_request_failed) _ h in
        let (g, u2, _, h2) =
          >>=-eq-ok (map_err (sv.get_genesis_hash url) rpc_request_failed) _ h1 in
        let (x, u3, _, h3) =
          >>=-eq-ok
            (map_err (sv.send_extrinsic url (sv.create_extrinsic s.common.src_addr k cd n rv g))
              rpc_request_failed)
            _ h2 in
        (
          PendingTxnId.substrate (record {
            start_block_num = b;
            end_block_num = add_u32 b txn_num_blocks_alive;
            extrinsic_hash = x;
          }),
          record { start_block_num = d },
          ground arith,
        )

    sends_astar :
        (s : XcmTransferStep sv.MultiLocation) (url : String) (b d n a k : ℕ) (w v : sv.World)
        (res : IntermediateStepResult)
        → execute_step_forward_if_notstarted_astar_precompile sv s url b d n a k w ≡ (ok res, v)
        → IsSubmitted res
    unfolding execute_step_forward_if_notstarted_astar_precompile
    sends_astar s url b d n a k w v res h =
        let (_, u1, _, h1) =
          >>=-eq-ok
            (lift (
              check_loads (sv.astar_xcm_contract_loads url)
                failed_to_load_astar_precompile_contract))
            _ h in
        let (t, u2, _, h2) =
          >>=-eq-ok
            (map_err
              (sv.assets_xcm_transfer url s.src_token a s.dest_token.chain s.common.dest_addr k n)
              failed_to_create_txn)
            _ h1 in
        let (x, u3, _, h3) =
          >>=-eq-ok (map_err (sv.send_raw_transaction url t) rpc_request_failed) _ h2 in
        (
          PendingTxnId.ethereum
              (record { txn_hash = x; end_block_num = add_u32 b txn_num_blocks_alive }),
          record { start_block_num = d },
          ground arith,
        )

    send_transfer_lem :
        (s : XcmTransferStep sv.MultiLocation) (url : String) (b d n a k : ℕ) (w v : sv.World)
        (res : IntermediateStepResult)
        → send_transfer sv s url b d n a k w ≡ (ok res, v)
        → IsSubmitted res
    unfolding send_transfer
    send_transfer_lem s url b d n a k w v res h = elim (Bool-cases (s.src_token.chain == astar)) [
      | inl is_astar ↦ sends_astar s url b d n a k w v res (ground arith)
      | inr other ↦
          let (cd, u, _, h1) =
            >>=-eq-ok (lift (encoded_call_data sv s a))
              (λ cd. execute_step_forward_if_notstarted_substrate_extrinsic sv s url b d cd n k)
              {w = w} {w' = v} {b = res} (ground arith) in
          sends_extrinsic s url b d cd n k u v res h1
    ]

    pub notstarted_lem :
        (s : XcmTransferStep sv.MultiLocation) (w v : sv.World) (res : IntermediateStepResult)
        → execute_step_forward_if_notstarted sv meta keys s w ≡ (ok res, v)
        → IsSubmitted res
    unfolding execute_step_forward_if_notstarted
    notstarted_lem s w v res h =
        let ((info, b), u1, _, h1) = >>=-eq-ok (get_chain_utils sv s.src_token.chain) _ h in
        let ((_, d), u2, _, h2) = >>=-eq-ok (get_chain_utils sv s.dest_token.chain) _ h1 in
        let (sn, u3, _, h3) = >>=-eq-ok (xcm_system_nonce sv info s.common.src_addr) _ h2 in
        let (n, u4, _, h4) = >>=-eq-ok (meta.get_nonce s.uuid s.src_token.chain b sn) _ h3 in
        let (a, u5, _, h5) = >>=-eq-ok (lift (ok_or s.amount_in unexpected_null_amount)) _ h4 in
        let (k, u6, _, h6) =
          >>=-eq-ok (lift (ok_or (get_key keys s.common.src_addr) secret_not_found)) _ h5 in
        send_transfer_lem s info.rpc_url b d n a k u6 v res h6
