-- ===== src/Tests/Unassigned.antt =====
-- A crossing that was never given an amount, on a chain whose record knows only step 1.
use privadex.Prelude.{ℕ, suc, ◌≡◌, refl, subst, Bool, true, List, [], ◌∷◌, none}
use privadex.Prelude.Fallible.{ok}
use privadex.Metadata.Chains.{astar}
use privadex.Plan.Types.{ExecutionStep, CrossChainStepStatus}
use privadex.Coordinator.Table.{NonceRow, lookup}
use privadex.Exec.Status.{StepForwardResult}
use privadex.Exec.Step.{execute_step_forward}
use privadex.Exec.Meta.{ChainManager, NonceManager, get_nonce_manager, dummy, live}
use privadex.Exec.Meta.Unassigned.{IsUnassigned, execute_step_forward-unassigned}
use privadex.Tests.Mock.{mock, mock_keys, crossing_step}
use privadex.Tests.Nonces.{table, busy_row}

abbrev astar_manager : NonceManager ℕ
astar_manager = record { table = table; get = λ w. busy_row; set = λ u w. suc w }

abbrev managers : List (ChainManager ℕ)
managers = record { chain = astar; manager = astar_manager } ∷ []

abbrev unfunded : ExecutionStep Bool
unfunded = crossing_step CrossChainStepStatus.not_started

abbrev dropping : StepForwardResult
dropping = record { did_status_change = true; amount_out = none }

busy_row-IsUnassigned : IsUnassigned table 3 busy_row
busy_row-IsUnassigned r same =
    subst (λ (q : NonceRow). lookup 3 q.exec_step_pending_block_added ≡ none) {x = busy_row} {y = r}
      same refl

execute_step_forward-unassigned_example :
    ¬ ((execute_step_forward mock (live mock 0 managers) mock_keys unfunded 0).0 ≡ ok dropping)
unfolding privadex.Plan.Steps.get_amount_in privadex.Plan.Steps.get_src_chain
    privadex.Plan.Steps.get_uuid get_nonce_manager
execute_step_forward-unassigned_example =
    execute_step_forward-unassigned mock 0 managers mock_keys unfunded astar astar_manager dropping
      0 refl refl refl busy_row-IsUnassigned

abbrev given_up : ExecutionStep Bool
given_up = crossing_step CrossChainStepStatus.dropped

-- Without cloud storage the same call drops the step.
drops_without_storage :
    execute_step_forward mock (dummy 0) mock_keys unfunded 0 ≡ (ok dropping, given_up, 0)
unfolding execute_step_forward privadex.Plan.Steps.get_amount_in privadex.Exec.Step.get_status
    privadex.Plan.Steps.drop privadex.Plan.Steps.get_src_chain privadex.Plan.Steps.get_uuid
    privadex.Exec.Step.terminate_exec_step_if_dropped_or_finalized dummy
drops_without_storage = refl
