-- ===== src/Exec/Path.antt =====
-- `impl Executable for ExecutionPath`,
-- dex_aggregator/executor/src/executable/executable_path.rs. A call that fails leaves the path as the
-- code has changed it by then.
pub mod Order
pub mod Keeps
pub mod Pays
pub mod Weight
use privadex.Prelude.{
  ℕ, Bool, true, false, Option, none, some, unwrap_or, List, [], ◌∷◌, ◌++◌, if◌then◌else◌, ◌==◌,
}
use privadex.Prelude.Fallible.{Outcome, ok, err, panic}
use privadex.Common.Ratio.{add_u128}
use privadex.Plan.Types.{ExecutionStep, ExecutionPath}
use privadex.Plan.Steps.{set_amount_in}
use privadex.Exec.Status.{
  ExecutableError, StepForwardResult, ExecutableSimpleStatus, status_eq, is_finished, not_started,
  in_progress, failed, dropped, succeeded, called_step_forward_on_finished_step, unknown_bad_state,
}
use privadex.Exec.Services.{Services, StepMeta, KeyContainer}
use privadex.Exec.Step.{Run, is_pending}
use privadex.Exec.Step

-- The first step that is still to be worked on, between the steps before it and after it.
pub record Located (L : Type 0) : Type 0 where
  pub before : List (ExecutionStep L)
  pub step : ExecutionStep L
  pub after : List (ExecutionStep L)

module _ {L : Type 0} where
  unfoldable pub any_status : ExecutableSimpleStatus → List (ExecutionStep L) → Bool
  any_status st [] = false
  any_status st (s ∷ ss) = if Step.get_status s == st then true else any_status st ss

  unfoldable pub last_status : ExecutionStep L → List (ExecutionStep L) → ExecutableSimpleStatus
  last_status s [] = Step.get_status s
  last_status s (t ∷ ts) = last_status t ts

  -- `get_status` of the steps of a path; `none` is the panic on a path without steps.
  unfoldable pub steps_status : List (ExecutionStep L) → Option ExecutableSimpleStatus
  unfolding any_status last_status
  steps_status [] = none
  steps_status (s ∷ ss) = some (
      if Step.get_status s == not_started
      then not_started
      else if last_status s ss == succeeded
      then succeeded
      else if any_status dropped (s ∷ ss)
      then dropped
      else if any_status failed (s ∷ ss)
      then failed
      else in_progress)

  abbrev pub get_status : ExecutionPath L → Option ExecutableSimpleStatus
  get_status p = steps_status p.steps

  unfoldable pub sum_step_fees : List (ExecutionStep L) → ℕ → ℕ
  sum_step_fees [] fees_usd = fees_usd
  sum_step_fees (s ∷ ss) fees_usd =
      sum_step_fees ss (add_u128 fees_usd (unwrap_or (Step.get_total_fee_usd s) 0))

  -- The outer `none` is the panic of `get_status`.
  unfoldable pub get_total_fee_usd : ExecutionPath L → Option (Option ℕ)
  unfolding sum_step_fees
  get_total_fee_usd p = elim (get_status p) [
    | none ↦ none
    | some st ↦ some (if st == succeeded then some (sum_step_fees p.steps 0) else none)
  ]

  abbrev pub behind : ExecutionStep L → Option (Located L) → Option (Located L)
  behind s none = none
  behind s (some l) = some (record l { before = s ∷ l.before })

  unfoldable pub locate : List (ExecutionStep L) → Option (Located L)
  locate [] = none
  locate (s ∷ ss) =
      let rest = locate ss in
      if is_pending s then some (record { before = []; step = s; after = ss }) else behind s rest

  abbrev pub path_of : List (ExecutionStep L) → List (ExecutionStep L) → Option ℕ → ExecutionPath L
  path_of before rest amount_out = record { steps = before ++ rest; amount_out = amount_out }

-- The pattern `StepForwardResult { did_status_change: true, amount_out: Some(_) }`.
abbrev pub changed_amount : StepForwardResult → Option ℕ
changed_amount r = if r.did_status_change then r.amount_out else none

abbrev pub report : Bool → Option ℕ → StepForwardResult
report b a = record { did_status_change = b; amount_out = a }

abbrev pub PathOutcome : Type 0 → Type 0 → Type 0
PathOutcome L W = Outcome ExecutableError StepForwardResult × ExecutionPath L × W

module _ {L W : Type 0} where
  -- The second step has reported an amount: `hands_on` says that it has succeeded.
  unfoldable pub second_paid :
      List (ExecutionStep L)
      → ExecutionStep L
      → List (ExecutionStep L)
      → Option ℕ
      → W
      → ℕ
      → Bool
      → PathOutcome L W
  second_paid before n [] out w a hands_on =
      (ok (report true (some a)), path_of before (n ∷ []) (some a), w)
  second_paid before n (m ∷ ms) out w a true =
      (ok (report true none), path_of before (n ∷ set_amount_in m a ∷ ms) out, w)
  second_paid before n (m ∷ ms) out w a false =
      (ok (report true (some a)), path_of before (n ∷ m ∷ ms) (some a), w)

  unfoldable pub second_answered :
      List (ExecutionStep L)
      → ExecutionStep L
      → List (ExecutionStep L)
      → Option ℕ
      → W
      → Option ℕ
      → PathOutcome L W
  unfolding second_paid
  second_answered before n rest out w none =
      (ok (report true none), path_of before (n ∷ rest) out, w)
  second_answered before n rest out w (some a) =
      second_paid before n rest out w a (Step.get_status n == succeeded)

  -- What follows the call on the second step: `before` ends with the first one.
  unfoldable pub after_second :
      List (ExecutionStep L)
      → List (ExecutionStep L)
      → Option ℕ
      → Outcome ExecutableError StepForwardResult × ExecutionStep L × W
      → PathOutcome L W
  unfolding second_answered
  after_second before rest out (err e, n, w) = (err e, path_of before (n ∷ rest) out, w)
  after_second before rest out (panic, n, w) = (panic, path_of before (n ∷ rest) out, w)
  after_second before rest out (ok r, n, w) = second_answered before n rest out w (changed_amount r)

module _ (sv : Services) (meta : StepMeta sv.World) (keys : KeyContainer) where
  -- The first step has reported an amount: `hands_on` says that it has succeeded.
  unfoldable pub first_paid :
      List (ExecutionStep sv.MultiLocation)
      → ExecutionStep sv.MultiLocation
      → List (ExecutionStep sv.MultiLocation)
      → Option ℕ
      → sv.World
      → ℕ
      → Bool
      → PathOutcome sv.MultiLocation sv.World
  unfolding after_second
  first_paid before s [] out w a hands_on =
      (ok (report true (some a)), path_of before (s ∷ []) (some a), w)
  first_paid before s (n ∷ ns) out w a true =
      after_second (before ++ s ∷ []) ns out
        (Step.execute_step_forward sv meta keys (set_amount_in n a) w)
  first_paid before s (n ∷ ns) out w a false =
      (ok (report true (some a)), path_of before (s ∷ n ∷ ns) (some a), w)

  unfoldable pub first_answered :
      List (ExecutionStep sv.MultiLocation)
      → ExecutionStep sv.MultiLocation
      → List (ExecutionStep sv.MultiLocation)
      → Option ℕ
      → sv.World
      → StepForwardResult
      → Option ℕ
      → PathOutcome sv.MultiLocation sv.World
  unfolding first_paid
  first_answered before s rest out w r none =
      (ok (report r.did_status_change none), path_of before (s ∷ rest) out, w)
  first_answered before s rest out w r (some a) =
      first_paid before s rest out w a (Step.get_status s == succeeded)

  -- What follows the call on the first step.
  unfoldable pub after_first :
      List (ExecutionStep sv.MultiLocation)
      → List (ExecutionStep sv.MultiLocation)
      → Option ℕ
      → Outcome ExecutableError StepForwardResult × ExecutionStep sv.MultiLocation × sv.World
      → PathOutcome sv.MultiLocation sv.World
  unfolding first_answered
  after_first before rest out (err e, s, w) = (err e, path_of before (s ∷ rest) out, w)
  after_first before rest out (panic, s, w) = (panic, path_of before (s ∷ rest) out, w)
  after_first before rest out (ok r, s, w) = first_answered before s rest out w r (changed_amount r)

  unfoldable pub forward_located :
      ExecutionPath sv.MultiLocation
      → sv.World
      → Option (Located sv.MultiLocation)
      → PathOutcome sv.MultiLocation sv.World
  unfolding after_first
  forward_located p w none = (err unknown_bad_state, p, w)
  forward_located p w (some l) =
      after_first l.before l.after p.amount_out (Step.execute_step_forward sv meta keys l.step w)

  unfoldable pub execute_step_forward : Run (ExecutionPath sv.MultiLocation) sv.World
  unfolding forward_located
  execute_step_forward p w = elim (get_status p) [
    | none ↦ (panic, p, w)
    | some st ↦
        if is_finished st
        then (err called_step_forward_on_finished_step, p, w)
        else forward_located p w (locate p.steps)
  ]
