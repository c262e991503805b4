-- ===== src/Exec/Plan.antt =====
-- `impl Executable for ExecutionPlan`,
-- dex_aggregator/executor/src/executable/executable_plan.rs. `none` of a status is the panic of
-- `ExecutionPath::get_status` on a path without steps.
pub mod Order
pub mod Weight
pub mod Descends
pub mod Bounded
pub mod Payout
use privadex.Prelude.{
  ℕ, Bool, true, false, ◌||◌, Option, none, some, unwrap_or, List, [], ◌∷◌, if◌then◌else◌, ◌==◌,
}
use privadex.Prelude.Fallible.{Outcome, ok, err, panic}
use privadex.Common.Ratio.{add_u128, mul_ratio_u128}
use privadex.Plan.Types.{ExecutionStep, ExecutionPath, ExecutionPlan}
use privadex.Plan.Steps.{set_amount_in}
use privadex.Exec.Status.{
  ExecutableError, StepForwardResult, ExecutableSimpleStatus, status_eq, is_finished, not_started,
  in_progress, failed, dropped, succeeded, called_step_forward_on_finished_plan, unknown_bad_state,
  prestart_step_not_started,
}
use privadex.Exec.Services.{Services, StepMeta, KeyContainer}
use privadex.Exec.Step.{Run}
use privadex.Exec.Step
use privadex.Exec.Path

abbrev pub report : Bool → Option ℕ → StepForwardResult
report b a = record { did_status_change = b; amount_out = a }

-- `calc_amount_after_simple_fee`; the division is by a constant, so `none` is never reached.
unfoldable pub calc_amount_after_simple_fee : ℕ → Option ℕ
calc_amount_after_simple_fee amount_no_fee = mul_ratio_u128 amount_no_fee 9_995 10_000

module _ {L : Type 0} where
  unfoldable pub any_path : ExecutableSimpleStatus → List (ExecutionPath L) → Option Bool
  any_path st [] = some false
  any_path st (p ∷ ps) =
      let rest = any_path st ps in
      elim (Path.get_status p) [ none ↦ none | some x ↦ if x == st then some true else rest ]

  unfoldable pub all_succeeded : List (ExecutionPath L) → Option Bool
  all_succeeded [] = some true
  all_succeeded (p ∷ ps) =
      let rest = all_succeeded ps in
      elim (Path.get_status p) [
        | none ↦ none
        | some x ↦ if x == succeeded then rest else some false
      ]

  abbrev pub have_all_exec_paths_succeeded : ExecutionPlan L → Option Bool
  have_all_exec_paths_succeeded plan = all_succeeded plan.paths

  -- `prestart == st || postend == st || any path == st`
  unfoldable pub any_part : ExecutableSimpleStatus → ExecutionPlan L → Option Bool
  unfolding any_path
  any_part st plan =
      if Step.get_status plan.prestart_user_to_escrow_transfer == st
      then some true
      else if Step.get_status plan.postend_escrow_to_user_transfer == st
      then some true
      else any_path st plan.paths

  unfoldable pub get_status : ExecutionPlan L → Option ExecutableSimpleStatus
  unfolding any_part
  get_status plan =
      if Step.get_status plan.prestart_user_to_escrow_transfer == not_started
      then some not_started
      else if Step.get_status plan.postend_escrow_to_user_transfer == succeeded
      then some succeeded
      else elim (any_part dropped plan) [
        | none ↦ none
        | some true ↦ some dropped
        | some false ↦ elim (any_part failed plan) [
          | none ↦ none
          | some true ↦ some failed
          | some false ↦ some in_progress
        ]
      ]

  unfoldable pub sum_path_fees : List (ExecutionPath L) → ℕ → Option ℕ
  sum_path_fees [] fees_usd = some fees_usd
  sum_path_fees (p ∷ ps) fees_usd = elim (Path.get_total_fee_usd p) [
    | none ↦ none
    | some fee ↦ sum_path_fees ps (add_u128 fees_usd (unwrap_or fee 0))
  ]

  -- The outer `none` is a panic.
  unfoldable pub get_total_fee_usd : ExecutionPlan L → Option (Option ℕ)
  unfolding sum_path_fees
  get_total_fee_usd plan = elim (have_all_exec_paths_succeeded plan) [
    | none ↦ none
    | some false ↦ some none
    | some true ↦ elim (sum_path_fees plan.paths 0) [
      | none ↦ none
      | some fees ↦ some (
          some (
            add_u128 fees
              (unwrap_or (Step.get_total_fee_usd plan.postend_escrow_to_user_transfer) 0)))
    ]
  ]

  unfoldable pub sum_amounts : List (ExecutionPath L) → ℕ → ℕ
  sum_amounts [] amount_out = amount_out
  sum_amounts (p ∷ ps) amount_out = sum_amounts ps (add_u128 amount_out (unwrap_or p.amount_out 0))

  abbrev pub sum_exec_paths_amounts_out : List (ExecutionPath L) → ℕ
  sum_exec_paths_amounts_out paths = sum_amounts paths 0

  abbrev pub with_prestart : ExecutionPlan L → ExecutionStep L → ExecutionPlan L
  with_prestart plan s = record plan { prestart_user_to_escrow_transfer = s }

  abbrev pub with_paths : ExecutionPlan L → List (ExecutionPath L) → ExecutionPlan L
  with_paths plan ps = record plan { paths = ps }

  abbrev pub with_postend : ExecutionPlan L → ExecutionStep L → ExecutionPlan L
  with_postend plan s = record plan { postend_escrow_to_user_transfer = s }

abbrev pub PlanOutcome : Type 0 → Type 0 → Type 0
PlanOutcome L W = Outcome ExecutableError StepForwardResult × ExecutionPlan L × W

abbrev pub PathsOutcome : Type 0 → Type 0 → Type 0
PathsOutcome L W = Outcome ExecutableError Bool × List (ExecutionPath L) × W

module _ {L W : Type 0} where
  abbrev pub after_paths : ExecutionPlan L → PathsOutcome L W → PlanOutcome L W
  after_paths plan (ok changed, ps, w) = (ok (report changed none), with_paths plan ps, w)
  after_paths plan (err e, ps, w) = (err e, with_paths plan ps, w)
  after_paths plan (panic, ps, w) = (panic, with_paths plan ps, w)

  abbrev pub after_postend :
      ExecutionPlan L
      → Bool
      → Outcome ExecutableError StepForwardResult × ExecutionStep L × W
      → PlanOutcome L W
  after_postend plan changed (ok r, s, w) =
      (ok (report (changed || r.did_status_change) r.amount_out), with_postend plan s, w)
  after_postend plan changed (err e, s, w) = (err e, with_postend plan s, w)
  after_postend plan changed (panic, s, w) = (panic, with_postend plan s, w)

  -- The loop's result with the path in front that it has dealt with.
  abbrev pub keep_path : ExecutionPath L → PathsOutcome L W → PathsOutcome L W
  keep_path p (o, ps, w) = (o, p ∷ ps, w)

  -- `let StepForwardResult { did_status_change, amount_out: _ } = …?`
  abbrev pub path_answer :
      Outcome ExecutableError StepForwardResult × ExecutionPath L × W
      → Outcome ExecutableError Bool × ExecutionPath L × W
  path_answer (ok r, p, w) = (ok r.did_status_change, p, w)
  path_answer (err e, p, w) = (err e, p, w)
  path_answer (panic, p, w) = (panic, p, w)

  -- The end of the loop's body: `rest` is what the loop does with the paths behind, `ps`.
  unfoldable pub after_body :
      ExecutionPath L
      → List (ExecutionPath L)
      → Bool
      → W
      → PathsOutcome L W
      → Option ExecutableSimpleStatus
      → PathsOutcome L W
  after_body p ps changed w rest none = (panic, p ∷ ps, w)
  after_body p ps changed w rest (some dropped) = (ok changed, p ∷ ps, w)
  after_body p ps changed w rest (some failed) = (ok changed, p ∷ ps, w)
  after_body p ps changed w rest (some not_started) = keep_path p rest
  after_body p ps changed w rest (some in_progress) = keep_path p rest
  after_body p ps changed w rest (some succeeded) = keep_path p rest

  unfoldable pub after_path :
      Outcome ExecutableError Bool × ExecutionPath L × W
      → List (ExecutionPath L)
      → Bool
      → (Bool → W → PathsOutcome L W)
      → PathsOutcome L W
  unfolding after_body
  after_path (err e, p, w) ps changed rest = (err e, p ∷ ps, w)
  after_path (panic, p, w) ps changed rest = (panic, p ∷ ps, w)
  after_path (ok c, p, w) ps changed rest =
      after_body p ps (changed || c) w (rest (changed || c) w) (Path.get_status p)

module _ (sv : Services) (meta : StepMeta sv.World) (keys : KeyContainer) where
  -- The call in the loop's body, which leaves a finished path alone.
  unfoldable pub forward_path :
      ExecutionPath sv.MultiLocation
      → sv.World
      → Outcome ExecutableError Bool × ExecutionPath sv.MultiLocation × sv.World
  forward_path p w = elim (Path.get_status p) [
    | none ↦ (panic, p, w)
    | some st ↦
        if is_finished st
        then (ok false, p, w)
        else path_answer (Path.execute_step_forward sv meta keys p w)
  ]

  -- The loop over the paths, which stops at one that is dropped or has failed.
  unfoldable pub forward_paths :
      List (ExecutionPath sv.MultiLocation)
      → Bool
      → sv.World
      → PathsOutcome sv.MultiLocation sv.World
  unfolding forward_path after_path
  forward_paths [] changed w = (ok changed, [], w)
  forward_paths (p ∷ ps) changed w = after_path (forward_path p w) ps changed (forward_paths ps)

  unfoldable pub pay_out :
      Bool
      → ExecutionPlan sv.MultiLocation
      → sv.World
      → Option ℕ
      → PlanOutcome sv.MultiLocation sv.World
  pay_out changed plan w none = (panic, plan, w)
  pay_out changed plan w (some amount) = after_postend plan changed (
      Step.execute_step_forward sv meta keys
        (set_amount_in plan.postend_escrow_to_user_transfer amount) w)

  -- The last branch: the escrow pays the user what the paths brought in, less the fee.
  unfoldable pub forward_postend :
      Bool → ExecutionPlan sv.MultiLocation → sv.World → PlanOutcome sv.MultiLocation sv.World
  unfolding pay_out
  forward_postend changed plan w =
      pay_out changed plan w (calc_amount_after_simple_fee (sum_exec_paths_amounts_out plan.paths))

  unfoldable pub work_or_pay :
      Bool
      → ExecutionPlan sv.MultiLocation
      → sv.World
      → Option Bool
      → PlanOutcome sv.MultiLocation sv.World
  unfolding forward_paths forward_postend
  work_or_pay changed plan w none = (panic, plan, w)
  work_or_pay changed plan w (some false) = after_paths plan (forward_paths plan.paths changed w)
  work_or_pay changed plan w (some true) = forward_postend changed plan w

  -- What follows once the prestart step has succeeded.
  unfoldable pub forward_rest :
      Bool → ExecutionPlan sv.MultiLocation → sv.World → PlanOutcome sv.MultiLocation sv.World
  unfolding work_or_pay
  forward_rest changed plan w = work_or_pay changed plan w (have_all_exec_paths_succeeded plan)

  unfoldable pub after_prestart :
      ExecutionPlan sv.MultiLocation
      → Outcome ExecutableError StepForwardResult × ExecutionStep sv.MultiLocation × sv.World
      → PlanOutcome sv.MultiLocation sv.World
  unfolding forward_rest
  after_prestart plan (err e, s, w) = (err e, with_prestart plan s, w)
  after_prestart plan (panic, s, w) = (panic, with_prestart plan s, w)
  after_prestart plan (ok r, s, w) =
      if Step.get_status s == succeeded
      then forward_rest r.did_status_change (with_prestart plan s) w
      else (ok (report r.did_status_change none), with_prestart plan s, w)

  -- The match on the status of the prestart step.
  unfoldable pub forward_unfinished :
      ExecutionPlan sv.MultiLocation
      → sv.World
      → ExecutableSimpleStatus
      → PlanOutcome sv.MultiLocation sv.World
  unfolding after_prestart
  forward_unfinished plan w not_started = (err prestart_step_not_started, plan, w)
  forward_unfinished plan w failed = (err unknown_bad_state, plan, w)
  forward_unfinished plan w dropped = (err unknown_bad_state, plan, w)
  forward_unfinished plan w in_progress =
      after_prestart plan
        (Step.execute_step_forward sv meta keys plan.prestart_user_to_escrow_transfer w)
  forward_unfinished plan w succeeded = forward_rest false plan w

  unfoldable pub execute_step_forward : Run (ExecutionPlan sv.MultiLocation) sv.World
  unfolding forward_unfinished
  execute_step_forward plan w = elim (get_status plan) [
    | none ↦ (panic, plan, w)
    | some st ↦
        if is_finished st
        then (err called_step_forward_on_finished_plan, plan, w)
        else forward_unfinished plan w (Step.get_status plan.prestart_user_to_escrow_transfer)
  ]
