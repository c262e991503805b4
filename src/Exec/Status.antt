-- ===== src/Exec/Status.antt =====
-- dex_aggregator/executor/src/executable/traits.rs, but for the trait `Executable` itself, whose
-- methods are functions of the modules beside this one.
use privadex.Prelude.{ℕ, ◌≡◌, ◌↔◌, Bool, true, false, ◌||◌, Option, PartialEq, ◌==◌, arith}
use privadex.Plan.Types.{EthStepStatus, CrossChainStepStatus}

pub data ExecutableSimpleStatus : Type 0 where
  not_started in_progress failed dropped succeeded : ExecutableSimpleStatus

pub data ExecutableError : Type 0 where
  unknown_bad_state called_step_forward_on_finished_step called_step_forward_on_finished_plan
        eth_txn_dropped failed_to_create_txn failed_to_deserialize_from_s3 failed_to_find_chain_info
        failed_to_get_nonce failed_to_load_astar_precompile_contract failed_to_load_weth_contract
        failed_to_pull_from_s3 failed_to_save_to_s3 failed_to_update_dynamo_db
        prestart_step_not_started rpc_request_failed secret_not_found ss58_address_format_not_found
        substrate_indexer_lookup_failed unexpected_non_eth_address unexpected_null_amount
        unexpected_null_evm_chain_id unexpected_step_status unsupported_chain :
      ExecutableError

pub record StepForwardResult : Type 0 where
  pub did_status_change : Bool
  pub amount_out : Option ℕ

abbrev status_beq : ExecutableSimpleStatus → ExecutableSimpleStatus → Bool
status_beq not_started not_started = true
status_beq in_progress in_progress = true
status_beq failed failed = true
status_beq dropped dropped = true
status_beq succeeded succeeded = true
status_beq _ _ = false

pub status_beq_iff : (a b : ExecutableSimpleStatus) → (status_beq a b ≡ true) ↔ (a ≡ b)
status_beq_iff a b = ground arith

instance abbrev pub status_eq : PartialEq ExecutableSimpleStatus
status_eq = record { eq = status_beq; eq_iff = status_beq_iff }

abbrev pub eth_simple_status : EthStepStatus → ExecutableSimpleStatus
eth_simple_status EthStepStatus.not_started = not_started
eth_simple_status (EthStepStatus.submitted _) = in_progress
eth_simple_status EthStepStatus.dropped = dropped
eth_simple_status (EthStepStatus.failed _) = failed
eth_simple_status (EthStepStatus.confirmed _) = succeeded

abbrev pub cross_chain_simple_status : CrossChainStepStatus → ExecutableSimpleStatus
cross_chain_simple_status CrossChainStepStatus.not_started = not_started
cross_chain_simple_status CrossChainStepStatus.dropped = dropped
cross_chain_simple_status (CrossChainStepStatus.failed _) = failed
cross_chain_simple_status (CrossChainStepStatus.submitted _ _) = in_progress
cross_chain_simple_status (CrossChainStepStatus.local_confirmed _ _) = in_progress
cross_chain_simple_status (CrossChainStepStatus.confirmed _ _) = succeeded

-- The test that guards the `execute_step_forward` of paths and plans.
abbrev pub is_finished : ExecutableSimpleStatus → Bool
is_finished s = s == dropped || s == failed || s == succeeded
