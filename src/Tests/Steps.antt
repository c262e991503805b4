-- ===== src/Tests/Steps.antt =====
-- Single steps: a payment that is sent, a crossing that its own chain confirms, and a crossing that
-- was never given an amount.
use privadex.Prelude.{◌*◌, ◌/◌, ◌≤◌, ◌≡◌, ◌↔◌, refl, Bool, true, none, some, arith}
use privadex.Prelude.Fallible.{ok}
use privadex.Common.Ratio.{mul_ratio_u128}
use privadex.Common.Ratio.Bounds.{mul_ratio_u128_exact}
use privadex.Plan.Types.{
  ExecutionStep, EthSendStep, XcmTransferStep, EthStepStatus, CrossChainStepStatus, PendingTxnId,
  FinalizedTxnId, confirmed,
}
use privadex.Exec.Status.{StepForwardResult}
use privadex.Exec.Services.{EthTransfer}
use privadex.Exec.Eth
use privadex.Exec.Eth.Completion.{complete_eth_transfer, complete_eth_transfer_iff}
use privadex.Exec.Xcm
use privadex.Exec.Step
use privadex.Exec.Step.Moves.{Forwarded, execute_step_forward-Forwarded}
use privadex.Tests.Mock.{mock, mock_meta, mock_keys, send_with, crossing_with, crossing_step}

abbrev started : StepForwardResult
started = record { did_status_change = true; amount_out = none }

abbrev sent : EthSendStep
sent = send_with (EthStepStatus.submitted (record { txn_hash = 77; end_block_num = 1064 }))

abbrev crossing : XcmTransferStep Bool
crossing = crossing_with (
    CrossChainStepStatus.submitted
      (PendingTxnId.ethereum (record { txn_hash = 77; end_block_num = 1064 }))
      (record { start_block_num = 2000 }))

abbrev crossed_here : XcmTransferStep Bool
crossed_here = record crossing {
  status =
      CrossChainStepStatus.local_confirmed (FinalizedTxnId.ethereum 77)
        (record { start_block_num = 2000 });
  common = record crossing.common { gas_fee_native = 21; gas_fee_usd = 42 };
}

abbrev unfunded : ExecutionStep Bool
unfunded = crossing_step CrossChainStepStatus.not_started

abbrev given_up : ExecutionStep Bool
given_up = crossing_step CrossChainStepStatus.dropped

gives_up : Step.execute_step_forward mock mock_meta mock_keys unfunded 0 ≡ (ok started, given_up, 1)
unfolding privadex.Exec.Step.execute_step_forward privadex.Plan.Steps.get_amount_in
    privadex.Exec.Step.get_status privadex.Plan.Steps.drop privadex.Plan.Steps.get_src_chain
    privadex.Plan.Steps.get_uuid privadex.Exec.Step.terminate_exec_step_if_dropped_or_finalized
gives_up = refl

execute_step_forward-Forwarded_example :
    Forwarded mock mock_meta mock_keys unfunded given_up started
execute_step_forward-Forwarded_example =
    execute_step_forward-Forwarded mock mock_meta mock_keys unfunded given_up started 0 1 gives_up

abbrev receipt : EthTransfer
receipt = record { is_txn_success = true; from = 1; to = 2; amount = 500; gas_fee_native = 21 }

complete_eth_transfer_iff_example :
    ((complete_eth_transfer 77 500 receipt).new_status ≡ confirmed 77)
    ↔ ((receipt.is_txn_success ≡ true) × (receipt.amount ≡ 500))
complete_eth_transfer_iff_example = complete_eth_transfer_iff 77 500 receipt

mul_ratio_u128_exact_example :
    (mul_ratio_u128 1000 9_995 10_000 ≡ some (1000 * 9_995 / 10_000))
    × (1000 * 9_995 / 10_000 ≤ 1000)
mul_ratio_u128_exact_example =
    mul_ratio_u128_exact 1000 9_995 10_000 (omega arith) (omega arith) (omega arith)
