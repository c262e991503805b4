-- ===== src/Exec/Step.antt =====
-- `impl Executable for ExecutionStep`,
-- dex_aggregator/executor/src/executable/executable_step.rs. A call that fails leaves the step as the
-- code has changed it by then, so the state is a part of every outcome.
pub mod Moves
pub mod Weight
use privadex.Prelude.{ℕ, Bool, true, false, Option, none, some, unwrap_or, ltb, if◌then◌else◌, ◌==◌}
use privadex.Prelude.Fallible.{Outcome, ok, err, panic, or_panic}
use privadex.Common.Ratio.{add_u128}
use privadex.Plan.Types.{
  CommonExecutionMeta, ExecutionStepEnum, ExecutionStep, eth_send, erc20_transfer, eth_wrap,
  eth_unwrap, eth_dex_swap, xcm_transfer,
}
use privadex.Plan.Steps.{get_amount_in, drop, get_src_chain, get_uuid}
use privadex.Exec.Status.{
  ExecutableError, StepForwardResult, ExecutableSimpleStatus, eth_simple_status,
  cross_chain_simple_status, status_eq, not_started, in_progress, failed, dropped, succeeded,
}
use privadex.Exec.Monad.{M, pure, lift, ◌>>=◌, ◌>>◌}
use privadex.Exec.Services.{Services, StepMeta, KeyContainer}
use privadex.Exec.Eth
use privadex.Exec.Eth.Kinds.{
  eth_send_helper, erc20_transfer_helper, eth_wrap_helper, eth_unwrap_helper, eth_dex_swap_helper,
}
use privadex.Exec.Xcm

-- A method on `&mut self`: the new state comes with every outcome.
abbrev pub Run : Type 0 → Type 0 → Type 0
Run S W = S → W → Outcome ExecutableError StepForwardResult × S × W

abbrev eth_total_fee : ExecutableSimpleStatus → ℕ → Option ℕ
eth_total_fee st fee = if st == succeeded then some fee else none

module _ {L : Type 0} where
  abbrev inner_status : ExecutionStepEnum L → ExecutableSimpleStatus
  inner_status (eth_send step) = eth_simple_status step.status
  inner_status (erc20_transfer step) = eth_simple_status step.status
  inner_status (eth_wrap step) = eth_simple_status step.status
  inner_status (eth_unwrap step) = eth_simple_status step.status
  inner_status (eth_dex_swap step) = eth_simple_status step.status
  inner_status (xcm_transfer step) = cross_chain_simple_status step.status

  unfoldable pub get_status : ExecutionStep L → ExecutableSimpleStatus
  get_status s = inner_status s.inner

  abbrev inner_fee : ExecutionStepEnum L → ℕ
  inner_fee (eth_send step) = step.common.gas_fee_usd
  inner_fee (erc20_transfer step) = step.common.gas_fee_usd
  inner_fee (eth_wrap step) = step.common.gas_fee_usd
  inner_fee (eth_unwrap step) = step.common.gas_fee_usd
  inner_fee (eth_dex_swap step) = step.common.gas_fee_usd
  inner_fee (xcm_transfer step) = add_u128 step.common.gas_fee_usd step.bridge_fee_usd

  unfoldable pub get_total_fee_usd : ExecutionStep L → Option ℕ
  unfolding get_status
  get_total_fee_usd s = eth_total_fee (get_status s) (inner_fee s.inner)

  -- The test of a step that a path still has to work on.
  unfoldable pub is_pending : ExecutionStep L → Bool
  is_pending s = if get_status s == not_started then true else get_status s == in_progress

-- A call on the step inside the enum, which changes it in place.
abbrev pub rewrap :
    {W S I : Type 0} → (S → I) → M W (S × StepForwardResult) → M W (I × StepForwardResult)
rewrap inj call = do (s, r) ← call; pure (inj s, r)

module _ (sv : Services) (meta : StepMeta sv.World) (keys : KeyContainer) where
  unfoldable pub inner_step_forward :
      ExecutionStepEnum sv.MultiLocation
      → M sv.World (ExecutionStepEnum sv.MultiLocation × StepForwardResult)
  inner_step_forward (eth_send step) =
      rewrap eth_send (Eth.execute_step_forward sv (eth_send_helper sv) meta keys step)
  inner_step_forward (erc20_transfer step) =
      rewrap erc20_transfer (Eth.execute_step_forward sv (erc20_transfer_helper sv) meta keys step)
  inner_step_forward (eth_wrap step) =
      rewrap eth_wrap (Eth.execute_step_forward sv (eth_wrap_helper sv) meta keys step)
  inner_step_forward (eth_unwrap step) =
      rewrap eth_unwrap (Eth.execute_step_forward sv (eth_unwrap_helper sv) meta keys step)
  inner_step_forward (eth_dex_swap step) =
      rewrap eth_dex_swap (Eth.execute_step_forward sv (eth_dex_swap_helper sv) meta keys step)
  inner_step_forward (xcm_transfer step) =
      rewrap xcm_transfer (Xcm.execute_step_forward sv meta keys step)

  unfoldable pub terminate_exec_step_if_dropped_or_finalized :
      ExecutionStep sv.MultiLocation → M sv.World (Unit {0})
  terminate_exec_step_if_dropped_or_finalized s = elim (get_status s) [
    | failed ↦ do
      chain ← lift (or_panic (get_src_chain s))
      meta.finalize_execstep (get_uuid s) chain
    | succeeded ↦ do
      chain ← lift (or_panic (get_src_chain s))
      meta.finalize_execstep (get_uuid s) chain
    | dropped ↦ do chain ← lift (or_panic (get_src_chain s)); meta.drop_execstep (get_uuid s) chain
    | not_started ↦ pure tt
    | in_progress ↦ pure tt
  ]

  abbrev pub after_termination :
      ExecutionStep sv.MultiLocation
      → StepForwardResult
      → Outcome ExecutableError (Unit {0}) × sv.World
      → Outcome ExecutableError StepForwardResult × ExecutionStep sv.MultiLocation × sv.World
  after_termination s r (ok tt, w) = (ok r, s, w)
  after_termination s r (err e, w) = (err e, s, w)
  after_termination s r (panic, w) = (panic, s, w)

  abbrev pub after_inner :
      ExecutionStep sv.MultiLocation
      → Outcome ExecutableError (ExecutionStepEnum sv.MultiLocation × StepForwardResult) × sv.World
      → Outcome ExecutableError StepForwardResult × ExecutionStep sv.MultiLocation × sv.World
  after_inner s (ok (inner, r), w) =
      after_termination (record { inner = inner }) r
        (terminate_exec_step_if_dropped_or_finalized (record { inner = inner }) w)
  after_inner s (err e, w) = (err e, s, w)
  after_inner s (panic, w) = (panic, s, w)

  unfoldable pub execute_step_forward : Run (ExecutionStep sv.MultiLocation) sv.World
  execute_step_forward s w =
      if ltb 0 (unwrap_or (get_amount_in s) 0)
      then after_inner s (inner_step_forward s.inner w)
      else after_termination (drop s) (record { did_status_change = true; amount_out = none })
          (terminate_exec_step_if_dropped_or_finalized (drop s) w)
