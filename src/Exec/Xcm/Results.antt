-- ===== src/Exec/Xcm/Results.antt =====
-- The pure parts of the XCM step, in executable_xcm_transfer.rs: the branches on what a chain or
-- an indexer answered, and how a result is stored.
use privadex.Prelude.{ℕ, true, false, Option, none, some, if◌then◌else◌}
use privadex.Prelude.Fallible.{Outcome, ok, err, panic}
use privadex.Metadata.Ids.{chain_eq}
use privadex.Plan.Types.{
  XcmTransferStep, CrossChainStepStatus, FinalizedTxnId, EthPendingTxnId, SubstratePendingEventId,
  failed, local_confirmed, confirmed,
}
use privadex.Exec.Status.{ExecutableError, StepForwardResult}
use privadex.Exec.Monad.{M}
use privadex.Exec.Services.{TxnSummary, ExtrinsicSummary, XcmEventSummary}
use privadex.Exec.Eth.{update_gas_fee}

pub record IntermediateStepResult : Type 0 where
  pub new_status : CrossChainStepStatus
  pub updated_gas_fee_native : Option ℕ
  pub amount_out : Option ℕ

abbrev pub intermediate : CrossChainStepStatus → Option ℕ → Option ℕ → IntermediateStepResult
intermediate st fee amount = record {
  new_status = st;
  updated_gas_fee_native = fee;
  amount_out = amount;
}

-- The branches on what the chain answers about a pending transaction or extrinsic.
unfoldable pub complete_eth_submitted :
    EthPendingTxnId → SubstratePendingEventId → TxnSummary → IntermediateStepResult
complete_eth_submitted pending event summary =
    if summary.is_txn_success
    then intermediate (local_confirmed (FinalizedTxnId.ethereum pending.txn_hash) event)
        (some summary.gas_fee_native) none
    else intermediate (failed (FinalizedTxnId.ethereum pending.txn_hash))
        (some summary.gas_fee_native) (some 0)

abbrev pub finalized_extrinsic : ExtrinsicSummary → FinalizedTxnId
finalized_extrinsic summary =
    FinalizedTxnId.substrate
      (record { block_num = summary.block_num; extrinsic_index = summary.extrinsic_index })

unfoldable pub complete_extrinsic_submitted :
    SubstratePendingEventId → ExtrinsicSummary → IntermediateStepResult
complete_extrinsic_submitted event summary =
    if summary.is_extrinsic_success
    then intermediate (local_confirmed (finalized_extrinsic summary) event) none none
    else intermediate (failed (finalized_extrinsic summary)) none (some 0)

unfoldable pub complete_local_confirmed : FinalizedTxnId → XcmEventSummary → IntermediateStepResult
complete_local_confirmed txn_id summary =
    intermediate
      (confirmed txn_id
        (record { block_num = summary.block_num; event_index = summary.event_index }))
      none (some summary.amount_out)

-- `if let Ok(summary) = … { Ok(Some(…)) } else { Ok(None) }`
abbrev pub summarize :
    {T W : Type 0}
    → (T → IntermediateStepResult)
    → (W → Option T × W)
    → M W (Option IntermediateStepResult)
summarize f call w = let (o, w') = call w in (ok (elim o [ none ↦ none | some t ↦ some (f t) ]), w')

-- A submitted transfer that is confirmed on its own chain takes what the remote chain answers, and
-- keeps its own gas fee; a remote lookup that fails or finds nothing leaves it confirmed locally.
unfoldable pub merge_remote :
    IntermediateStepResult
    → Outcome ExecutableError (Option IntermediateStepResult)
    → Outcome ExecutableError (Option IntermediateStepResult)
merge_remote res (ok (some c)) =
    ok (some (intermediate c.new_status res.updated_gas_fee_native c.amount_out))
merge_remote res (ok none) = ok (some res)
merge_remote res (err e) = ok (some res)
merge_remote res panic = panic

unfoldable pub store_intermediate :
    {L : Type 0}
    → XcmTransferStep L
    → Option IntermediateStepResult
    → Outcome ExecutableError (XcmTransferStep L × StepForwardResult)
store_intermediate s none = ok (s, record { did_status_change = false; amount_out = none })
store_intermediate s (some res) = elim (update_gas_fee s.common res.updated_gas_fee_native) [
  | none ↦ panic
  | some c ↦ ok (
    record s { status = res.new_status; common = c },
    record { did_status_change = true; amount_out = res.amount_out },
  )
]
