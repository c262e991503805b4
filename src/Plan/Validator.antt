-- ===== src/Plan/Validator.antt =====
-- `validate_execution_plan` of dex_aggregator/execution_plan/src/validator.rs.
pub mod Accepts
use privadex.Prelude.{
  ℕ, Bool, true, false, List, [], ◌∷◌, ◌==◌, nat_eq, if◌then◌else◌, any, is_some,
}
use privadex.Prelude.Fallible.{Outcome, ok, err, panic, ◌>>◌}
use privadex.Metadata.Ids.{address_eq}
use privadex.Plan.Types.{
  CommonExecutionMeta, ExecutionStepEnum, ExecutionStep, ExecutionPath, ExecutionPlan, eth_send,
  erc20_transfer, eth_wrap, eth_unwrap, eth_dex_swap, xcm_transfer,
}
use privadex.Plan.Steps.{get_amount_in}

pub data ExecutionPlanValidationError : Type 0 where
  execution_plan_paths_length_zero execution_path_length_zero first_step_has_null_amount
        consecutive_same_dex_swaps consecutive_wraps consecutive_unwraps consecutive_wrap_unwrap
        consecutive_unwrap_wrap invalid_prestart_step invalid_postend_step swap_after_wrap
        wrap_src_dest_address_mismatch unexpected_eth_send unexpected_erc20_transfer
        unwrap_after_swap unwrap_src_dest_address_mismatch :
      ExecutionPlanValidationError

abbrev pub Validation : Type 0
Validation = Outcome ExecutionPlanValidationError (Unit {0})

abbrev pub is_empty {ℓ} : {A : Type ℓ} → List A → Bool
is_empty [] = true
is_empty (x ∷ xs) = false

same_addresses : CommonExecutionMeta → Bool
same_addresses c = c.src_addr == c.dest_addr

module _ {L : Type 0} where
  unfoldable pub validate_transfer : ExecutionPlanValidationError → ExecutionStepEnum L → Validation
  validate_transfer e (eth_send _) = ok tt
  validate_transfer e (erc20_transfer _) = ok tt
  validate_transfer e _ = err e

  -- `exec_path.steps[0].get_amount_in().is_none()`
  unfoldable pub validate_first : List (ExecutionStep L) → Validation
  unfolding get_amount_in
  validate_first [] = panic
  validate_first (s ∷ _) =
      if is_some (get_amount_in s) then ok tt else err first_step_has_null_amount

  validate_step : ExecutionStepEnum L → Validation
  unfolding same_addresses
  validate_step (eth_wrap step) =
      if same_addresses step.common then ok tt else err wrap_src_dest_address_mismatch
  validate_step (eth_unwrap step) =
      if same_addresses step.common then ok tt else err unwrap_src_dest_address_mismatch
  validate_step _ = ok tt

  unfoldable pub validate_steps : List (ExecutionStep L) → Validation
  unfolding validate_step
  validate_steps [] = ok tt
  validate_steps (s ∷ ss) = validate_step s.inner >> validate_steps ss

  -- The cases of the source in its order: the first that fits is taken.
  validate_pair : ExecutionStepEnum L → ExecutionStepEnum L → Validation
  validate_pair (eth_send _) _ = err unexpected_eth_send
  validate_pair _ (eth_send _) = err unexpected_eth_send
  validate_pair (erc20_transfer _) _ = err unexpected_erc20_transfer
  validate_pair _ (erc20_transfer _) = err unexpected_erc20_transfer
  validate_pair (eth_wrap _) (eth_wrap _) = err consecutive_wraps
  validate_pair (eth_wrap _) (eth_unwrap _) = err consecutive_wrap_unwrap
  validate_pair (eth_wrap _) (eth_dex_swap _) = err swap_after_wrap
  validate_pair (eth_unwrap _) (eth_unwrap _) = err consecutive_unwraps
  validate_pair (eth_unwrap _) (eth_wrap _) = err consecutive_unwrap_wrap
  validate_pair (eth_dex_swap _) (eth_unwrap _) = err unwrap_after_swap
  validate_pair (eth_dex_swap a) (eth_dex_swap b) =
      if a.dex_router_addr == b.dex_router_addr then err consecutive_same_dex_swaps else ok tt
  validate_pair _ _ = ok tt

  -- `for i in 0..(num_steps - 1)`
  unfoldable pub validate_pairs : List (ExecutionStep L) → Validation
  unfolding validate_pair
  validate_pairs [] = ok tt
  validate_pairs (s ∷ []) = ok tt
  validate_pairs (s ∷ t ∷ rest) = validate_pair s.inner t.inner >> validate_pairs (t ∷ rest)

  unfoldable pub validate_path : ExecutionPath L → Validation
  unfolding validate_first validate_steps validate_pairs
  validate_path p = validate_first p.steps >> validate_steps p.steps >> validate_pairs p.steps

  unfoldable pub validate_paths : List (ExecutionPath L) → Validation
  unfolding validate_path
  validate_paths [] = ok tt
  validate_paths (p ∷ ps) = validate_path p >> validate_paths ps

  unfoldable pub validate_execution_plan : ExecutionPlan L → Validation
  unfolding validate_transfer validate_paths
  validate_execution_plan plan =
      if is_empty plan.paths
      then err execution_plan_paths_length_zero
      else if any (λ p. is_empty p.steps) plan.paths
      then err execution_path_length_zero
      else do
        validate_transfer invalid_prestart_step plan.prestart_user_to_escrow_transfer.inner
        validate_transfer invalid_postend_step plan.postend_escrow_to_user_transfer.inner
        validate_paths plan.paths
