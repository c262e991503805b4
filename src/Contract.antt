-- ===== src/Contract.antt =====
-- The messages of the contract that change a plan: dex_aggregator/executor/src/lib.rs
-- (execution_plan_step_forward, start_swap), with the calls of execute_step_meta.rs that reach the plans
-- in S3 and the rows of plans and of prestart transactions. A UUID, a hash and a network come in parsed,
-- and the keys of the contract are set.
pub mod Keeps
pub mod Swaps
pub mod Once
use privadex.Prelude.{
  ℕ, ◌≡◌, ◌⊎◌, Bool, true, false, ◌==◌, nat_eq, List, Option, none, some, if◌then◌else◌,
}
use privadex.Prelude.Fallible.{Outcome, ok, err, panic}
use privadex.Common.Ratio.{add_u32}
use privadex.Metadata.Ids.{UniversalChainId}
use privadex.Metadata.Chains.{get_chain_info_from_chain_id, ChainInfo}
use privadex.Plan.Types.{
  ExecutionStepEnum, ExecutionPlan, EthStepStatus, submitted, eth_send, erc20_transfer, eth_wrap,
  eth_unwrap, eth_dex_swap, xcm_transfer,
}
use privadex.Exec.Status.{
  ExecutableError, ExecutableSimpleStatus, StepForwardResult, called_step_forward_on_finished_plan,
  is_finished, failed_to_save_to_s3,
}
use privadex.Exec.Services.{Services, StepMeta, KeyContainer}
use privadex.Exec.Eth.{txn_num_blocks_alive}
use privadex.Exec.Plan
use privadex.Coordinator.Rows.{RowTable}
use privadex.Coordinator.Plans.{
  PlanRow, ExecutionPlanAssignerError, attempt_allocate_exec_plan, unallocate_exec_plan,
  remove_completed_execplan, register_exec_plan,
}
use privadex.Coordinator.Prestart.{
  PrestartRow, PrestartStepUniquenessEnforcerError, attempt_register_prestart_txn,
}

pub data ContractError : Type 0 where
  already_initialized db_request_failed execution_plan_claimed_by_another_worker
        failed_to_create_execution_plan failed_to_create_graph failed_to_pull_execution_plan
        failed_to_save_execution_plan no_path_found no_permissions prestart_txn_is_already_used
        invalid_address invalid_number invalid_execution_plan_uuid invalid_user_to_escrow_txn
        invalid_hex_addr_string invalid_token_string rpc_request_failed uninitialized_escrow
        unsupported_network :
      ContractError
  step_forward_failed : ExecutableError → ContractError

-- `executable_err == ExecutableError::CalledStepForwardOnFinishedPlan`
abbrev pub is_finished_plan_error : ExecutableError → Bool
is_finished_plan_error called_step_forward_on_finished_plan = true
is_finished_plan_error _ = false

-- The bucket of plans, with the documented behaviour of S3: an object that is read is the one stored,
-- and a write stores the object under its key or fails, perhaps after it has stored it.
pub record PlanStore (L : Type 0) : Type 1 where
  pub World : Type 0
  pub stored : World → ℕ → Option (ExecutionPlan L)
  pub get_object : ℕ → World → Outcome ExecutableError (ExecutionPlan L) × World
  pub put_object : ExecutionPlan L → World → Outcome ExecutableError (Unit {0}) × World
  pub get_object-reads :
      (u : ℕ) (w : World) (p : ExecutionPlan L) → (get_object u w).0 ≡ ok p → stored w u ≡ some p
  pub get_object-keeps : (u v : ℕ) (w : World) → stored (get_object u w).1 v ≡ stored w v
  pub put_object-stores :
      (p : ExecutionPlan L) (v : ℕ) (w : World)
      → (stored (put_object p w).1 v ≡ stored w v)
        ⊎ (stored (put_object p w).1 v ≡ (if v == p.uuid then some p else stored w v))

pub record Deployment : Type 1 where
  pub services : Services
  pub store : PlanStore services.MultiLocation
  pub plan_table : RowTable PlanRow
  pub prestart_table : RowTable PrestartRow

module _ (d : Deployment) where
  abbrev pub PlanOf : Type 0
  PlanOf = ExecutionPlan d.services.MultiLocation

  -- What lies outside the contract: each part has a world of its own.
  pub record Cloud : Type 0 where
    pub services_world : d.services.World
    pub store_world : d.store.World
    pub plan_world : d.plan_table.World
    pub prestart_world : d.prestart_table.World

  -- `if let Ok(true) = .. { true } else { false }`
  abbrev is_ok_true : {E : Type 0} → Outcome E Bool → Bool
  is_ok_true (ok b) = b
  is_ok_true _ = false

  module _ (now : ℕ) where
    unfoldable pub claim_exec_plan : ℕ → Cloud → Bool × Cloud
    unfolding attempt_allocate_exec_plan
    claim_exec_plan plan w =
        let (o, after) = attempt_allocate_exec_plan d.plan_table now plan w.plan_world in
        (is_ok_true o, record w { plan_world = after })

    unfoldable pub unclaim_exec_plan : ℕ → Cloud → Cloud
    unfolding unallocate_exec_plan
    unclaim_exec_plan plan w = record w {
      plan_world = (unallocate_exec_plan d.plan_table now plan w.plan_world).1;
    }

    unfoldable pub remove_completed_exec_plan : ℕ → Cloud → Cloud
    unfolding remove_completed_execplan
    remove_completed_exec_plan plan w = record w {
      plan_world = (remove_completed_execplan d.plan_table now plan w.plan_world).1;
    }

    unfoldable pub register_plan : ℕ → Cloud → Cloud
    unfolding register_exec_plan
    register_plan plan w = record w {
      plan_world = (register_exec_plan d.plan_table now plan w.plan_world).1;
    }

    unfoldable pub register_prestart_txn_hash : ℕ → Cloud → Bool × Cloud
    unfolding attempt_register_prestart_txn
    register_prestart_txn_hash txn_hash w =
        let (o, after) =
          attempt_register_prestart_txn d.prestart_table now txn_hash w.prestart_world in
        (is_ok_true o, record w { prestart_world = after })

  unfoldable pub pull_exec_plan_from_s3 : ℕ → Cloud → Outcome ExecutableError PlanOf × Cloud
  pull_exec_plan_from_s3 plan w =
      let (o, after) = d.store.get_object plan w.store_world in
      (o, record w { store_world = after })

  unfoldable pub save_exec_plan_to_s3 : PlanOf → Cloud → Cloud
  save_exec_plan_to_s3 plan w = record w { store_world = (d.store.put_object plan w.store_world).1 }

  abbrev pub Message : Type 0 → Type 0
  Message A = Cloud → Outcome ContractError A × Cloud

  module _ (meta : StepMeta d.services.World) (keys : KeyContainer) (now : ℕ) where
    -- The end of the message: a finished plan leaves the queue, another is given back.
    unfoldable pub give_back : ℕ → Option ExecutableSimpleStatus → Option ℕ → Message (Option ℕ)
    unfolding remove_completed_exec_plan unclaim_exec_plan
    give_back uuid none amount_out w = (panic, w)
    give_back uuid (some st) amount_out w = (
      ok amount_out,
      if is_finished st
          then remove_completed_exec_plan now uuid w
          else unclaim_exec_plan now uuid w,
    )

    unfoldable pub after_step_forward :
        ℕ → Outcome ExecutableError StepForwardResult → PlanOf → Message (Option ℕ)
    unfolding give_back save_exec_plan_to_s3 remove_completed_exec_plan unclaim_exec_plan
        Plan.get_status
    after_step_forward uuid (ok r) plan w =
        give_back uuid (Plan.get_status plan) r.amount_out
          (if r.did_status_change then save_exec_plan_to_s3 plan w else w)
    after_step_forward uuid (err e) plan w = (
      err (step_forward_failed e),
      if is_finished_plan_error e
          then remove_completed_exec_plan now uuid w
          else unclaim_exec_plan now uuid w,
    )
    after_step_forward uuid panic plan w = (panic, w)

    unfoldable pub forward_pulled : ℕ → Outcome ExecutableError PlanOf → Message (Option ℕ)
    unfolding after_step_forward Plan.execute_step_forward
    forward_pulled uuid (ok plan) w =
        let (o, plan', services_world) =
          Plan.execute_step_forward d.services meta keys plan w.services_world in
        after_step_forward uuid o plan' (record w { services_world = services_world })
    forward_pulled uuid (err e) w = (err failed_to_pull_execution_plan, w)
    forward_pulled uuid panic w = (panic, w)

    unfoldable pub forward_claimed : ℕ → Bool → Message (Option ℕ)
    unfolding forward_pulled pull_exec_plan_from_s3
    forward_claimed uuid false w = (err execution_plan_claimed_by_another_worker, w)
    forward_claimed uuid true w =
        let (o, w') = pull_exec_plan_from_s3 uuid w in forward_pulled uuid o w'

    unfoldable pub execution_plan_step_forward : ℕ → Message (Option ℕ)
    unfolding forward_claimed claim_exec_plan
    execution_plan_step_forward uuid w =
        let (claimed, w') = claim_exec_plan now uuid w in forward_claimed uuid claimed w'

  unfoldable pub block_answered : Option ℕ × d.services.World → Message ℕ
  block_answered (some n, sw) w = (ok n, record w { services_world = sw })
  block_answered (none, sw) w = (err rpc_request_failed, record w { services_world = sw })

  unfoldable pub block_at : Option ChainInfo → Message ℕ
  block_at none w = (err unsupported_network, w)
  block_at (some info) w =
      block_answered (d.services.get_finalized_block_number info.rpc_url w.services_world) w

  -- `Self::get_cur_block` of the contract
  unfoldable pub get_cur_block : UniversalChainId → Message ℕ
  unfolding block_at block_answered get_chain_info_from_chain_id
  get_cur_block chain w = block_at (get_chain_info_from_chain_id chain) w

  abbrev pub submitted_at : ℕ → ℕ → EthStepStatus
  submitted_at txn_hash cur_block =
      submitted
        (record { txn_hash = txn_hash; end_block_num = add_u32 cur_block txn_num_blocks_alive })

  -- The plan, with its prestart step in place of the one that it had.
  abbrev pub with_inner : PlanOf → ExecutionStepEnum d.services.MultiLocation → PlanOf
  with_inner plan inner = record plan {
    prestart_user_to_escrow_transfer = record { inner = inner };
  }

  -- The user's own transaction, set as the pending transaction of the prestart step.
  unfoldable pub mark_submitted :
      PlanOf → ExecutionStepEnum d.services.MultiLocation → ℕ → ℕ → Option PlanOf
  mark_submitted plan (eth_send s) txn_hash cur_block =
      some (with_inner plan (eth_send (record s { status = submitted_at txn_hash cur_block })))
  mark_submitted plan (erc20_transfer s) txn_hash cur_block =
      some
        (with_inner plan (erc20_transfer (record s { status = submitted_at txn_hash cur_block })))
  mark_submitted plan (eth_wrap s) txn_hash cur_block = none
  mark_submitted plan (eth_unwrap s) txn_hash cur_block = none
  mark_submitted plan (eth_dex_swap s) txn_hash cur_block = none
  mark_submitted plan (xcm_transfer s) txn_hash cur_block = none

  module _ (now : ℕ) where
    -- The last lines of start_swap: a transaction that is new starts its plan.
    unfoldable pub store_if_new : PlanOf → Bool × Cloud → Outcome ContractError ℕ × Cloud
    unfolding register_plan save_exec_plan_to_s3
    store_if_new plan (false, w) = (err prestart_txn_is_already_used, w)
    store_if_new plan (true, w) =
        (ok plan.uuid, register_plan now plan.uuid (save_exec_plan_to_s3 plan w))

    unfoldable pub store_marked : Option PlanOf → ℕ → Message ℕ
    unfolding store_if_new register_prestart_txn_hash
    store_marked none txn_hash w = (err invalid_user_to_escrow_txn, w)
    store_marked (some plan) txn_hash w =
        store_if_new plan (register_prestart_txn_hash now txn_hash w)

    unfoldable pub start_at :
        PlanOf → ℕ → Outcome ContractError ℕ × Cloud → Outcome ContractError ℕ × Cloud
    unfolding mark_submitted store_marked
    start_at plan txn_hash (ok cur_block, w) =
        store_marked
          (mark_submitted plan plan.prestart_user_to_escrow_transfer.inner txn_hash cur_block)
          txn_hash w
    start_at plan txn_hash (err e, w) = (err e, w)
    start_at plan txn_hash (panic, w) = (panic, w)

    unfoldable pub is_transfer : ExecutionStepEnum d.services.MultiLocation → Bool
    is_transfer (eth_send s) = true
    is_transfer (erc20_transfer s) = true
    is_transfer _ = false

    -- The block is asked for only in the arms of the match that mark the step.
    unfoldable pub start_computed : PlanOf → UniversalChainId → ℕ → Message ℕ
    unfolding start_at get_cur_block is_transfer
    start_computed plan src_chain txn_hash w =
        if is_transfer plan.prestart_user_to_escrow_transfer.inner
        then start_at plan txn_hash (get_cur_block src_chain w)
        else (err invalid_user_to_escrow_txn, w)

    -- `computed` is what compute_execution_plan ends in.
    unfoldable pub start_swap : Outcome ContractError PlanOf → UniversalChainId → ℕ → Message ℕ
    unfolding start_computed
    start_swap (ok plan) src_chain txn_hash w = start_computed plan src_chain txn_hash w
    start_swap (err e) src_chain txn_hash w = (err e, w)
    start_swap panic src_chain txn_hash w = (panic, w)
