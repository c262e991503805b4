-- ===== src/Exec/Eth.antt =====
-- The trait `EthExecutableHelper` and the `impl Executable` shared by the five kinds of Ethereum step,
-- in dex_aggregator/executor/src/executable/executable_step_helpers/executable_eth_steps.rs.
pub mod Transitions
pub mod Completion
pub mod Kinds
use privadex.Prelude.{
  ℕ, String, ◌≡◌, Bool, true, false, Option, none, some, is_some, unwrap_or, ltb, ◌==◌,
  if◌then◌else◌,
}
use privadex.Prelude.Fallible.{Outcome, ok, err, panic, or_panic, ok_or}
use privadex.Common.Ratio.{add_u32, mul_ratio_u128}
use privadex.Metadata.Ids.{UniversalChainId, UniversalAddress, ethereum, substrate}
use privadex.Metadata.Chains.{ChainInfo, get_chain_info_from_chain_id}
use privadex.Plan.Types.{
  CommonExecutionMeta, EthPendingTxnId, EthStepStatus, not_started, submitted, dropped, failed,
  confirmed,
}
use privadex.Exec.Status.{
  ExecutableError, StepForwardResult, ExecutableSimpleStatus, eth_simple_status, status_eq,
  called_step_forward_on_finished_step, failed_to_find_chain_info, rpc_request_failed,
  unexpected_non_eth_address,
}
use privadex.Exec.Monad.{M, pure, raise, lift, map_err, ◌>>=◌, ◌>>◌}
use privadex.Exec.Services.{Services, StepMeta, KeyContainer}

-- `TXN_NUM_BLOCKS_ALIVE` of executable_step.rs.
abbrev pub txn_num_blocks_alive : ℕ
txn_num_blocks_alive = 64

-- `get_updated_gas_fee_usd` of executable_step.rs: it panics when the old native fee is zero.
unfoldable pub get_updated_gas_fee_usd : ℕ → ℕ → ℕ → Option ℕ
get_updated_gas_fee_usd updated_gas_fee_native old_gas_fee_native old_gas_fee_usd =
    mul_ratio_u128 old_gas_fee_usd updated_gas_fee_native old_gas_fee_native

unfoldable pub update_gas_fee : CommonExecutionMeta → Option ℕ → Option CommonExecutionMeta
update_gas_fee c none = some c
update_gas_fee c (some updated) =
    elim (get_updated_gas_fee_usd updated c.gas_fee_native c.gas_fee_usd) [
      | none ↦ none
      | some usd ↦ some (record c { gas_fee_native = updated; gas_fee_usd = usd })
    ]

pub record CompletedStepResult : Type 0 where
  pub new_status : EthStepStatus
  pub actual_gas_fee_native : ℕ
  pub amount_out : ℕ

-- The statuses of a transaction that is in a block.
abbrev pub IsSettled : EthStepStatus → Type 0
IsSettled (failed _) = Unit
IsSettled (confirmed _) = Unit
IsSettled _ = ⊥

-- The `map_err` on the constructor of a contract handle.
unfoldable pub check_loads : Bool → ExecutableError → Outcome ExecutableError (Unit {0})
check_loads true e = ok tt
check_loads false e = err e

-- What a kind of step supplies, and what the shared code relies on.
pub record EthExecutableHelper (sv : Services) (S : Type 0) : Type 0 where
  pub status : S → EthStepStatus
  pub common : S → CommonExecutionMeta
  pub update : S → EthStepStatus → CommonExecutionMeta → S
  pub get_chain : S → Option UniversalChainId
  pub uuid : S → ℕ
  pub create_raw_txn :
      StepMeta sv.World → KeyContainer → S → ChainInfo → ℕ → M sv.World sv.SignedTransaction
  pub get_completed_step_result : S → String → ℕ → M sv.World (Option CompletedStepResult)
  pub status-update :
      (s : S) (st : EthStepStatus) (c : CommonExecutionMeta) → status (update s st c) ≡ st
  pub settles :
      (s : S) (url : String) (h : ℕ) (w v : sv.World) (c : CompletedStepResult)
      → get_completed_step_result s url h w ≡ (ok (some c), v)
      → IsSettled c.new_status

-- The three values that the match on the status computes.
pub record Advance : Type 0 where
  pub opt_new_status : Option EthStepStatus
  pub opt_actual_gas_fee_native : Option ℕ
  pub opt_amount_out : Option ℕ

abbrev completed_advance : Option CompletedStepResult → Advance
completed_advance none = record {
  opt_new_status = none;
  opt_actual_gas_fee_native = none;
  opt_amount_out = none;
}
completed_advance (some c) = record {
  opt_new_status = some c.new_status;
  opt_actual_gas_fee_native = some c.actual_gas_fee_native;
  opt_amount_out = some c.amount_out;
}

-- `self.status` and the fees are written only when nothing failed.
unfoldable pub store_advance :
    {sv : Services} {S : Type 0}
    → EthExecutableHelper sv S
    → S
    → Advance
    → Outcome ExecutableError (S × StepForwardResult)
unfolding update_gas_fee
store_advance e s a = elim (update_gas_fee (e.common s) a.opt_actual_gas_fee_native) [
  | none ↦ panic
  | some c ↦ ok (
    e.update s (unwrap_or a.opt_new_status (e.status s)) c,
    record { did_status_change = is_some a.opt_new_status; amount_out = a.opt_amount_out },
  )
]

module _ (sv : Services) where
  eth_system_nonce : ChainInfo → UniversalAddress → M sv.World ℕ
  eth_system_nonce info (ethereum src_addr) =
      map_err (sv.eth_next_system_nonce info.rpc_url src_addr) rpc_request_failed
  eth_system_nonce info (substrate _) = raise unexpected_non_eth_address

  module _ {S : Type 0} (e : EthExecutableHelper sv S) where
    unfoldable pub execute_step_forward_if_inprogress :
        S → EthPendingTxnId → M sv.World (Option CompletedStepResult)
    execute_step_forward_if_inprogress s pending = do
      chain ← lift (or_panic (e.get_chain s))
      info ← lift (ok_or (get_chain_info_from_chain_id chain) failed_to_find_chain_info)
      cur_block ← map_err (sv.block_number info.rpc_url) rpc_request_failed
      if ltb pending.end_block_num cur_block
          then pure
              (some (record { new_status = dropped; actual_gas_fee_native = 0; amount_out = 0 }))
          else e.get_completed_step_result s info.rpc_url pending.txn_hash

    module _ (meta : StepMeta sv.World) (keys : KeyContainer) where
      unfoldable pub execute_step_forward_if_notstarted : S → M sv.World EthStepStatus
      unfolding eth_system_nonce
      execute_step_forward_if_notstarted s = do
        chain ← lift (or_panic (e.get_chain s))
        info ← lift (ok_or (get_chain_info_from_chain_id chain) failed_to_find_chain_info)
        cur_block ← map_err (sv.block_number info.rpc_url) rpc_request_failed
        system_nonce ← eth_system_nonce info (e.common s).src_addr
        nonce ← meta.get_nonce (e.uuid s) chain cur_block system_nonce
        signed_txn ← e.create_raw_txn meta keys s info nonce
        txn_hash ← map_err (sv.send_raw_transaction info.rpc_url signed_txn) rpc_request_failed
        pure (
            submitted (record {
              txn_hash = txn_hash;
              end_block_num = add_u32 cur_block txn_num_blocks_alive;
            }))

      advance_by_status : S → EthStepStatus → M sv.World Advance
      advance_by_status s not_started = do
        new_status ← execute_step_forward_if_notstarted s
        pure (record {
          opt_new_status = some new_status;
          opt_actual_gas_fee_native = none;
          opt_amount_out = none;
        })
      advance_by_status s (submitted pending) = do
        res ← execute_step_forward_if_inprogress s pending
        pure (completed_advance res)
      advance_by_status s _ = raise called_step_forward_on_finished_step

      unfoldable pub execute_step_forward : S → M sv.World (S × StepForwardResult)
      unfolding advance_by_status
      execute_step_forward s = do a ← advance_by_status s (e.status s); lift (store_advance e s a)
