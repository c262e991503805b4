-- ===== src/Tests/Plans.antt =====
-- A plan of one wrap: the user's payment is in flight.
use privadex.Prelude.{◌↔◌, ◌+◌, ◌≤◌, ◌≡◌, refl, Bool, true, List, [], ◌∷◌, none, some, arith}
use privadex.Prelude.Fallible.{ok}
use privadex.Plan.Types.{ExecutionPlan, EthStepStatus, not_started, submitted}
use privadex.Exec.Plan.{
  execute_step_forward, calc_amount_after_simple_fee, sum_exec_paths_amounts_out,
}
use privadex.Exec.Plan.Order.{PlanInOrder, awaiting, execute_step_forward-PlanInOrder}
use privadex.Exec.Plan.Weight.{plan_weight}
use privadex.Exec.Plan.Bounded.{Calls, none_yet, call, Calls-bounded}
use privadex.Exec.Plan.Payout.{payout_exact}
use privadex.Plan.Validator.{validate_execution_plan}
use privadex.Plan.Validator.Accepts.{IsValidPlan, validate_execution_plan_iff}
use privadex.Plan.Types.{ExecutionPath}
use privadex.Tests.Mock.{paired, mock, mock_meta, mock_keys, plan_with}

abbrev in_flight : EthStepStatus
in_flight = submitted (record { txn_hash = 70; end_block_num = 1064 })

abbrev paying : ExecutionPlan Bool
paying = plan_with in_flight not_started

paying-PlanInOrder : PlanInOrder paying
unfolding privadex.Exec.Step.get_status
paying-PlanInOrder = awaiting ((refl, tt), tt) refl

execute_step_forward-PlanInOrder_example :
    PlanInOrder (execute_step_forward mock mock_meta mock_keys paying 0).1
execute_step_forward-PlanInOrder_example =
    execute_step_forward-PlanInOrder mock mock_meta mock_keys paying 0 paying-PlanInOrder

abbrev paid : ExecutionPlan Bool
paid = (execute_step_forward mock mock_meta mock_keys paying 0).1

-- The payment is confirmed and the wrap is sent, in one call.
paying_pays :
    (execute_step_forward mock mock_meta mock_keys paying 0).0
    ≡ ok (record { did_status_change = true; amount_out = none })
unfolding privadex.Exec.Plan.execute_step_forward privadex.Exec.Plan.get_status
    privadex.Exec.Step.get_status privadex.Exec.Path.steps_status
    privadex.Exec.Step.execute_step_forward privadex.Plan.Steps.get_amount_in
    privadex.Exec.Step.inner_step_forward privadex.Exec.Eth.execute_step_forward
    privadex.Exec.Eth.execute_step_forward_if_inprogress
    privadex.Exec.Eth.execute_step_forward_if_notstarted
    privadex.Metadata.Chains.get_chain_info_from_chain_id privadex.Exec.Eth.Kinds.eth_send_result
    privadex.Exec.Eth.Kinds.eth_wrap_raw_txn
    privadex.Exec.Eth.Completion.verified_get_completed_step_result_for_eth_transfer
    privadex.Exec.Eth.store_advance privadex.Exec.Eth.get_updated_gas_fee_usd
    privadex.Common.Ratio.mul_ratio_u128
    privadex.Exec.Step.terminate_exec_step_if_dropped_or_finalized privadex.Plan.Steps.get_src_chain
    privadex.Plan.Steps.get_uuid privadex.Exec.Plan.all_succeeded privadex.Exec.Plan.any_part
    privadex.Exec.Plan.any_path privadex.Exec.Plan.forward_unfinished
    privadex.Exec.Plan.after_prestart privadex.Exec.Plan.forward_rest privadex.Exec.Plan.work_or_pay
    privadex.Exec.Plan.forward_paths privadex.Exec.Plan.forward_path privadex.Exec.Plan.after_path
    privadex.Exec.Plan.after_body privadex.Exec.Path.execute_step_forward privadex.Exec.Path.locate
    privadex.Exec.Path.forward_located privadex.Exec.Path.after_first
    privadex.Exec.Path.first_answered privadex.Exec.Path.first_paid privadex.Exec.Step.is_pending
    privadex.Exec.Services.get_key privadex.Exec.Path.any_status privadex.Exec.Path.last_status
paying_pays = refl

one_call : Calls mock mock_meta mock_keys paying paid 1
one_call =
    call (record { did_status_change = true; amount_out = none }) 0
      (execute_step_forward mock mock_meta mock_keys paying 0).2 (paired paying_pays) none_yet

Calls-bounded_example : plan_weight paid + 1 ≤ plan_weight paying
Calls-bounded_example = Calls-bounded mock mock_meta mock_keys paying-PlanInOrder one_call

validate_execution_plan_iff_example : (validate_execution_plan paying ≡ ok tt) ↔ IsValidPlan paying
validate_execution_plan_iff_example = validate_execution_plan_iff paying

abbrev paths_paid : List (ExecutionPath Bool)
paths_paid =
    record { steps = []; amount_out = some 480 } ∷ record { steps = []; amount_out = some 520 } ∷ []

payout_exact_example :
    (calc_amount_after_simple_fee (sum_exec_paths_amounts_out paths_paid) ≡ some 999) × (999 ≤ 1000)
unfolding privadex.Exec.Plan.Payout.total_amount_out
payout_exact_example = payout_exact paths_paid (omega arith)
