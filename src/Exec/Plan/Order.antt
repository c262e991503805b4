-- ===== src/Exec/Plan/Order.antt =====
-- The order in which a plan works on its parts.
use privadex.Prelude.{
  ℕ, ◌≡◌, refl, ◌⊎◌, inl, inr, Bool, true, false, ◌||◌, Bool-cases, Option, none, some,
  Option-cases, List, [], ◌∷◌, All, ◌==◌,
}
use privadex.Prelude.Fallible.{Outcome, ok, err, panic}
use privadex.Plan.Types.{ExecutionStep, ExecutionPath, ExecutionPlan}
use privadex.Plan.Steps.{set_amount_in}
use privadex.Exec.Status.{
  ExecutableError, StepForwardResult, ExecutableSimpleStatus, status_eq, is_finished, not_started,
  in_progress, failed, dropped, succeeded,
}
use privadex.Exec.Services.{Services, StepMeta, KeyContainer}
use privadex.Exec.Step
use privadex.Exec.Path
use privadex.Exec.Path.Order.{Fresh, InOrder, Fresh-InOrder}
use privadex.Exec.Path.Keeps.{execute_step_forward-InOrder}
use privadex.Exec.Plan.{
  pay_out, work_or_pay, path_answer, PathsOutcome, after_body, after_path, execute_step_forward,
  forward_unfinished, after_prestart, forward_rest, forward_postend, forward_paths, forward_path,
  after_paths, after_postend, all_succeeded, get_status, calc_amount_after_simple_fee,
  sum_exec_paths_amounts_out, PlanOutcome, with_prestart,
}

module _ {L : Type 0} where
  abbrev pub PathsInOrder : List (ExecutionPath L) → Type 0
  PathsInOrder = All (λ p. InOrder p.steps)

  abbrev pub PathsFresh : List (ExecutionPath L) → Type 0
  PathsFresh = All (λ p. Fresh p.steps)

  -- Before the user's payment has arrived nothing else has started; before every path has succeeded
  -- the payout has not.
  pub data PlanInOrder (plan : ExecutionPlan L) : Type 0 where
    awaiting :
        PathsFresh plan.paths
        → Step.get_status plan.postend_escrow_to_user_transfer ≡ not_started
        → PlanInOrder plan
    swapping :
        Step.get_status plan.prestart_user_to_escrow_transfer ≡ succeeded
        → PathsInOrder plan.paths
        → Step.get_status plan.postend_escrow_to_user_transfer ≡ not_started
        → PlanInOrder plan
    paying_out :
        Step.get_status plan.prestart_user_to_escrow_transfer ≡ succeeded
        → PathsInOrder plan.paths
        → all_succeeded plan.paths ≡ some true
        → PlanInOrder plan

  -- A plan on which no work has begun but the user's payment.
  pub record IsFreshPlan (plan : ExecutionPlan L) : Type 0 where
    pub fresh_paths : PathsFresh plan.paths
    pub unpaid : Step.get_status plan.postend_escrow_to_user_transfer ≡ not_started

  pub PathsFresh-InOrder : (ps : List (ExecutionPath L)) → PathsFresh ps → PathsInOrder ps
  PathsFresh-InOrder [] f = tt
  PathsFresh-InOrder (p ∷ ps) (q, f) = (Fresh-InOrder p.steps q, PathsFresh-InOrder ps f)

module _ {L W : Type 0} where
  abbrev pub OutcomeInOrder : PlanOutcome L W → Type 0
  OutcomeInOrder x = PlanInOrder x.1

  after_body-InOrder :
      (p : ExecutionPath L) (ps : List (ExecutionPath L)) (c : Bool) (w : W)
      (rest : PathsOutcome L W) (st : Option ExecutableSimpleStatus)
      → InOrder p.steps
      → PathsInOrder ps
      → PathsInOrder rest.1
      → PathsInOrder (after_body p ps c w rest st).1
  unfolding after_body
  after_body-InOrder p ps c w rest none o os r = (o, os)
  after_body-InOrder p ps c w rest (some dropped) o os r = (o, os)
  after_body-InOrder p ps c w rest (some failed) o os r = (o, os)
  after_body-InOrder p ps c w rest (some not_started) o os r = (o, r)
  after_body-InOrder p ps c w rest (some in_progress) o os r = (o, r)
  after_body-InOrder p ps c w rest (some succeeded) o os r = (o, r)

  after_path-InOrder :
      (x : Outcome ExecutableError Bool × ExecutionPath L × W) (ps : List (ExecutionPath L))
      (c : Bool) (rest : Bool → W → PathsOutcome L W)
      → InOrder x.1.steps
      → PathsInOrder ps
      → ((b : Bool) (w : W) → PathsInOrder (rest b w).1)
      → PathsInOrder (after_path x ps c rest).1
  unfolding after_path
  after_path-InOrder (err e, p, w) ps c rest o os r = (o, os)
  after_path-InOrder (panic, p, w) ps c rest o os r = (o, os)
  after_path-InOrder (ok b, p, w) ps c rest o os r =
      after_body-InOrder p ps (c || b) w (rest (c || b) w) (Path.get_status p) o os (r (c || b) w)

  path_answer-InOrder :
      (x : Outcome ExecutableError StepForwardResult × ExecutionPath L × W)
      → InOrder x.1.steps
      → InOrder (path_answer x).1.steps
  path_answer-InOrder (ok r, p, w) o = o
  path_answer-InOrder (err e, p, w) o = o
  path_answer-InOrder (panic, p, w) o = o

module _ (sv : Services) (meta : StepMeta sv.World) (keys : KeyContainer) where
  forward_path-InOrder :
      (p : ExecutionPath sv.MultiLocation) (w : sv.World)
      → InOrder p.steps
      → InOrder (forward_path sv meta keys p w).1.steps
  unfolding forward_path
  forward_path-InOrder p w o = elim (Option-cases (Path.get_status p)) [
    | inl stuck ↦ rw (stuck, forward_path) o
    | inr (st, q) ↦ elim (Bool-cases (is_finished st)) [
      | inl finished ↦ rw (q, finished, forward_path) o
      | inr unfinished ↦
          rw (q, unfinished, forward_path)
            (path_answer-InOrder (Path.execute_step_forward sv meta keys p w)
              (execute_step_forward-InOrder sv meta keys p w o))
    ]
  ]

  forward_paths-InOrder :
      (ps : List (ExecutionPath sv.MultiLocation)) (c : Bool) (w : sv.World)
      → PathsInOrder ps
      → PathsInOrder (forward_paths sv meta keys ps c w).1
  unfolding forward_paths
  forward_paths-InOrder [] c w o = tt
  forward_paths-InOrder (p ∷ ps) c w (o, os) =
      after_path-InOrder (forward_path sv meta keys p w) ps c (forward_paths sv meta keys ps)
        (forward_path-InOrder p w o) os (λ b v. forward_paths-InOrder ps b v os)

  after_paths-InOrder :
      (plan : ExecutionPlan sv.MultiLocation)
      (x : Outcome ExecutableError Bool × List (ExecutionPath sv.MultiLocation) × sv.World)
      → Step.get_status plan.prestart_user_to_escrow_transfer ≡ succeeded
      → Step.get_status plan.postend_escrow_to_user_transfer ≡ not_started
      → PathsInOrder x.1
      → OutcomeInOrder (after_paths plan x)
  after_paths-InOrder plan (ok c, ps, w) a b o = swapping a o b
  after_paths-InOrder plan (err e, ps, w) a b o = swapping a o b
  after_paths-InOrder plan (panic, ps, w) a b o = swapping a o b

  after_postend-InOrder :
      (plan : ExecutionPlan sv.MultiLocation) (c : Bool)
      (x : Outcome ExecutableError StepForwardResult × ExecutionStep sv.MultiLocation × sv.World)
      → Step.get_status plan.prestart_user_to_escrow_transfer ≡ succeeded
      → PathsInOrder plan.paths
      → all_succeeded plan.paths ≡ some true
      → OutcomeInOrder (after_postend plan c x)
  after_postend-InOrder plan c (ok r, s, w) a o d = paying_out a o d
  after_postend-InOrder plan c (err e, s, w) a o d = paying_out a o d
  after_postend-InOrder plan c (panic, s, w) a o d = paying_out a o d

  -- A plan past its prestart step.
  abbrev pub IsStarted : ExecutionPlan sv.MultiLocation → Type 0
  IsStarted plan =
      (Step.get_status plan.prestart_user_to_escrow_transfer ≡ succeeded)
      × PathsInOrder plan.paths
      × ((Step.get_status plan.postend_escrow_to_user_transfer ≡ not_started)
          ⊎ (all_succeeded plan.paths ≡ some true))

  started : (plan : ExecutionPlan sv.MultiLocation) → IsStarted plan → PlanInOrder plan
  started plan (a, o, inl b) = swapping a o b
  started plan (a, o, inr d) = paying_out a o d

  pay_out-InOrder :
      (c : Bool) (plan : ExecutionPlan sv.MultiLocation) (w : sv.World) (a : Option ℕ)
      → IsStarted plan
      → all_succeeded plan.paths ≡ some true
      → OutcomeInOrder (pay_out sv meta keys c plan w a)
  unfolding pay_out
  pay_out-InOrder c plan w none s d = started plan s
  pay_out-InOrder c plan w (some n) (a, o, e) d =
      after_postend-InOrder plan c
        (Step.execute_step_forward sv meta keys
          (set_amount_in plan.postend_escrow_to_user_transfer n) w)
        a o d

  work_or_pay-InOrder :
      (c : Bool) (plan : ExecutionPlan sv.MultiLocation) (w : sv.World) (x : Option Bool)
      → IsStarted plan
      → all_succeeded plan.paths ≡ x
      → OutcomeInOrder (work_or_pay sv meta keys c plan w x)
  unfolding work_or_pay forward_postend
  work_or_pay-InOrder c plan w none s q = started plan s
  work_or_pay-InOrder c plan w (some true) s q =
      pay_out-InOrder c plan w
        (calc_amount_after_simple_fee (sum_exec_paths_amounts_out plan.paths)) s q
  work_or_pay-InOrder c plan w (some false) (a, o, inl b) q =
      after_paths-InOrder plan (forward_paths sv meta keys plan.paths c w) a b
        (forward_paths-InOrder plan.paths c w o)
  work_or_pay-InOrder c plan w (some false) (a, o, inr d) q = cc

  forward_rest-InOrder :
      (c : Bool) (plan : ExecutionPlan sv.MultiLocation) (w : sv.World)
      → IsStarted plan
      → OutcomeInOrder (forward_rest sv meta keys c plan w)
  unfolding forward_rest
  forward_rest-InOrder c plan w s = work_or_pay-InOrder c plan w (all_succeeded plan.paths) s refl

  after_prestart-InOrder :
      (plan : ExecutionPlan sv.MultiLocation)
      (x : Outcome ExecutableError StepForwardResult × ExecutionStep sv.MultiLocation × sv.World)
      → PathsFresh plan.paths
      → Step.get_status plan.postend_escrow_to_user_transfer ≡ not_started
      → OutcomeInOrder (after_prestart sv meta keys plan x)
  unfolding after_prestart
  after_prestart-InOrder plan (err e, s, w) f b = awaiting f b
  after_prestart-InOrder plan (panic, s, w) f b = awaiting f b
  after_prestart-InOrder plan (ok r, s, w) f b =
      elim (Bool-cases (Step.get_status s == succeeded)) [
        | inl paid ↦
            rw (paid, after_prestart)
              (forward_rest-InOrder r.did_status_change (with_prestart plan s) w (
                (status_eq.eq_iff (Step.get_status s) succeeded).0 paid,
                PathsFresh-InOrder plan.paths f,
                inl b,
              ))
        | inr unpaid ↦ rw (unpaid, after_prestart) (awaiting f b)
      ]

  pub fresh_if_in_progress :
      (plan : ExecutionPlan sv.MultiLocation)
      → PlanInOrder plan
      → Step.get_status plan.prestart_user_to_escrow_transfer ≡ in_progress
      → PathsFresh plan.paths × (Step.get_status plan.postend_escrow_to_user_transfer ≡ not_started)
  fresh_if_in_progress plan (awaiting f b) q = (f, b)
  fresh_if_in_progress plan (swapping a o b) q = cc
  fresh_if_in_progress plan (paying_out a o d) q = cc

  pub IsStarted-if_succeeded :
      (plan : ExecutionPlan sv.MultiLocation)
      → PlanInOrder plan
      → Step.get_status plan.prestart_user_to_escrow_transfer ≡ succeeded
      → IsStarted plan
  IsStarted-if_succeeded plan (awaiting f b) q = (q, PathsFresh-InOrder plan.paths f, inl b)
  IsStarted-if_succeeded plan (swapping a o b) q = (a, o, inl b)
  IsStarted-if_succeeded plan (paying_out a o d) q = (a, o, inr d)

  forward_unfinished-InOrder :
      (plan : ExecutionPlan sv.MultiLocation) (w : sv.World) (st : ExecutableSimpleStatus)
      → PlanInOrder plan
      → Step.get_status plan.prestart_user_to_escrow_transfer ≡ st
      → OutcomeInOrder (forward_unfinished sv meta keys plan w st)
  unfolding forward_unfinished
  forward_unfinished-InOrder plan w not_started o q = o
  forward_unfinished-InOrder plan w failed o q = o
  forward_unfinished-InOrder plan w dropped o q = o
  forward_unfinished-InOrder plan w in_progress o q =
      let (f, b) = fresh_if_in_progress plan o q in
      after_prestart-InOrder plan
        (Step.execute_step_forward sv meta keys plan.prestart_user_to_escrow_transfer w) f b
  forward_unfinished-InOrder plan w succeeded o q =
      forward_rest-InOrder false plan w (IsStarted-if_succeeded plan o q)

  -- The invariant of a plan: whatever a call on it ends in, no path and no payout has started before
  -- the user's payment has succeeded, and the payout has not started before every path has succeeded.
  pub execute_step_forward-PlanInOrder :
      (plan : ExecutionPlan sv.MultiLocation) (w : sv.World)
      → PlanInOrder plan
      → OutcomeInOrder (execute_step_forward sv meta keys plan w)
  unfolding execute_step_forward
  execute_step_forward-PlanInOrder plan w o = elim (Option-cases (get_status plan)) [
    | inl stuck ↦ rw (stuck, execute_step_forward) o
    | inr (st, q) ↦ elim (Bool-cases (is_finished st)) [
      | inl finished ↦ rw (q, finished, execute_step_forward) o
      | inr unfinished ↦
          rw (q, unfinished, execute_step_forward)
            (forward_unfinished-InOrder plan w
              (Step.get_status plan.prestart_user_to_escrow_transfer) o refl)
    ]
  ]
