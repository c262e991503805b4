-- ===== src/Exec/Plan/Descends.antt =====
-- A call on a plan uses up the changes that it reports.
use privadex.Prelude.{
  ℕ, ◌+◌, ◌≤◌, ◌≡◌, refl, ap, ◌⊎◌, inl, inr, Bool, true, false, ◌||◌, Bool-cases, Option, none,
  some, Option-cases, ◌==◌, arith,
}
use privadex.Prelude.Fallible.{Outcome, ok, err, panic}
use privadex.Plan.Types.{ExecutionStep, ExecutionPlan}
use privadex.Plan.Steps.{set_amount_in}
use privadex.Exec.Status.{
  ExecutableError, StepForwardResult, ExecutableSimpleStatus, status_eq, is_finished, not_started,
  in_progress, failed, dropped, succeeded,
}
use privadex.Exec.Services.{Services, StepMeta, KeyContainer}
use privadex.Exec.Step
use privadex.Exec.Path.Order.{set_amount_in-status}
use privadex.Exec.Plan.{
  pay_out, work_or_pay, PathsOutcome, execute_step_forward, forward_unfinished, after_prestart,
  forward_rest, forward_postend, forward_paths, after_paths, after_postend, get_status,
  calc_amount_after_simple_fee, sum_exec_paths_amounts_out, with_prestart,
  have_all_exec_paths_succeeded,
}
use privadex.Exec.Plan.{any_part}
use privadex.Exec.Plan.Order.{
  PlanInOrder, PathsInOrder, fresh_if_in_progress, IsStarted-if_succeeded, PathsFresh-InOrder,
}
use privadex.Exec.Step.Weight.{tick, weight, set_amount_in-weight}
use privadex.Exec.Step.Weight.{execute_step_forward-descends as step-descends}
use privadex.Exec.Plan.Weight.{
  paths_weight, plan_weight, or_tick, Within, reported, forward_paths-Within,
}

module _ {L W : Type 0} where
  after_paths-Within :
      (plan : ExecutionPlan L) (x : PathsOutcome L W) (n : ℕ)
      → ((b : Bool)
          → x.0 ≡ ok b
          → weight plan.prestart_user_to_escrow_transfer
              + paths_weight x.1
              + weight plan.postend_escrow_to_user_transfer
              + tick b
            ≤ n)
      → Within n (after_paths plan x)
  unfolding plan_weight
  after_paths-Within plan (ok b, ps, w) n le =
      λ r h. reported _ n (record { did_status_change = b; amount_out = none }) r (le b refl) h
  after_paths-Within plan (err e, ps, w) n le = λ r h. cc
  after_paths-Within plan (panic, ps, w) n le = λ r h. cc

  after_postend-Within :
      (plan : ExecutionPlan L) (c : Bool)
      (x : Outcome ExecutableError StepForwardResult × ExecutionStep L × W) (n : ℕ)
      → ((r : StepForwardResult)
          → x.0 ≡ ok r
          → weight plan.prestart_user_to_escrow_transfer
              + paths_weight plan.paths
              + weight x.1
              + (tick c + tick r.did_status_change)
            ≤ n)
      → Within n (after_postend plan c x)
  unfolding plan_weight
  after_postend-Within plan c (ok d, s, w) n le = λ r h.
      reported _ n
        (record { did_status_change = c || d.did_status_change; amount_out = d.amount_out }) r
        (omega (arith, le d refl, or_tick c d.did_status_change)) h
  after_postend-Within plan c (err e, s, w) n le = λ r h. cc
  after_postend-Within plan c (panic, s, w) n le = λ r h. cc

module _ (sv : Services) (meta : StepMeta sv.World) (keys : KeyContainer) where
  abbrev IsPending : ExecutionStep sv.MultiLocation → Type 0
  IsPending s = (Step.get_status s ≡ not_started) ⊎ (Step.get_status s ≡ in_progress)

  forward_postend-Within :
      (c : Bool) (plan : ExecutionPlan sv.MultiLocation) (w : sv.World) (a : Option ℕ)
      → IsPending plan.postend_escrow_to_user_transfer
      → Within (plan_weight plan + tick c) (pay_out sv meta keys c plan w a)
  unfolding pay_out plan_weight
  forward_postend-Within c plan w none p = λ r h. cc
  forward_postend-Within c plan w (some a) p =
      let s = set_amount_in plan.postend_escrow_to_user_transfer a in
      after_postend-Within plan c (Step.execute_step_forward sv meta keys s w)
        (plan_weight plan + tick c)
        (λ r h.
          let below =
            step-descends sv meta keys s (Step.execute_step_forward sv meta keys s w).1 r w
              (Step.execute_step_forward sv meta keys s w).2
              (rw (set_amount_in-status plan.postend_escrow_to_user_transfer a) p) (ground arith) in
          omega (arith, below, set_amount_in-weight plan.postend_escrow_to_user_transfer a))

  work_or_pay-Within :
      (c : Bool) (plan : ExecutionPlan sv.MultiLocation) (w : sv.World) (x : Option Bool)
      → PathsInOrder plan.paths
      → IsPending plan.postend_escrow_to_user_transfer
      → Within (plan_weight plan + tick c) (work_or_pay sv meta keys c plan w x)
  unfolding work_or_pay forward_postend plan_weight
  work_or_pay-Within c plan w none o p = λ r h. cc
  work_or_pay-Within c plan w (some true) o p =
      forward_postend-Within c plan w
        (calc_amount_after_simple_fee (sum_exec_paths_amounts_out plan.paths)) p
  work_or_pay-Within c plan w (some false) o p =
      after_paths-Within plan (forward_paths sv meta keys plan.paths c w)
        (plan_weight plan + tick c)
        (λ b h. omega (arith, forward_paths-Within sv meta keys plan.paths c w o b h))

  after_prestart-Within :
      (plan : ExecutionPlan sv.MultiLocation)
      (x : Outcome ExecutableError StepForwardResult × ExecutionStep sv.MultiLocation × sv.World)
      (n : ℕ)
      → PathsInOrder plan.paths
      → IsPending plan.postend_escrow_to_user_transfer
      → ((r : StepForwardResult)
          → x.0 ≡ ok r
          → plan_weight (with_prestart plan x.1) + tick r.did_status_change ≤ n)
      → Within n (after_prestart sv meta keys plan x)
  unfolding after_prestart forward_rest
  after_prestart-Within plan (err e, s, w) n o p le r h = cc
  after_prestart-Within plan (panic, s, w) n o p le r h = cc
  after_prestart-Within plan (ok d, s, w) n o p le r h =
      elim (Bool-cases (Step.get_status s == succeeded)) [
        | inl paid ↦
            let below : Within (plan_weight (with_prestart plan s) + tick d.did_status_change)
                (forward_rest sv meta keys d.did_status_change (with_prestart plan s) w) =
              work_or_pay-Within d.did_status_change (with_prestart plan s) w
                (have_all_exec_paths_succeeded (with_prestart plan s)) o p in
            rw (paid, after_prestart)
              (omega (arith, below r (rw (paid, after_prestart) at h), le d refl))
        | inr unpaid ↦
            rw (unpaid, after_prestart)
              (reported _ n (record { did_status_change = d.did_status_change; amount_out = none })
                r (le d refl) (rw (unpaid, after_prestart) at h))
      ]

  postend-IsPending :
      (plan : ExecutionPlan sv.MultiLocation) (st : ExecutableSimpleStatus)
      → get_status plan ≡ some st
      → is_finished st ≡ false
      → (Step.get_status plan.prestart_user_to_escrow_transfer == not_started) ≡ false
      → IsPending plan.postend_escrow_to_user_transfer
  unfolding get_status any_part
  postend-IsPending plan st q n started = ground arith

  forward_unfinished-Within :
      (plan : ExecutionPlan sv.MultiLocation) (w : sv.World) (st st' : ExecutableSimpleStatus)
      → PlanInOrder plan
      → get_status plan ≡ some st'
      → is_finished st' ≡ false
      → Step.get_status plan.prestart_user_to_escrow_transfer ≡ st
      → Within (plan_weight plan) (forward_unfinished sv meta keys plan w st)
  unfolding forward_unfinished forward_rest plan_weight
  forward_unfinished-Within plan w not_started st' o g n q = λ r h. cc
  forward_unfinished-Within plan w failed st' o g n q = λ r h. cc
  forward_unfinished-Within plan w dropped st' o g n q = λ r h. cc
  forward_unfinished-Within plan w in_progress st' o g n q =
      let (f, b) = fresh_if_in_progress sv meta keys plan o q in
      let s = plan.prestart_user_to_escrow_transfer in
      after_prestart-Within plan (Step.execute_step_forward sv meta keys s w) (plan_weight plan)
        (PathsFresh-InOrder plan.paths f) (inl b)
        (λ r h.
          let below =
            step-descends sv meta keys s (Step.execute_step_forward sv meta keys s w).1 r w
              (Step.execute_step_forward sv meta keys s w).2 (inr q) (ground arith) in
          omega (arith, below))
  forward_unfinished-Within plan w succeeded st' o g n q = λ r h.
      let (a, os, e) = IsStarted-if_succeeded sv meta keys plan o q in
      let below =
        work_or_pay-Within false plan w (have_all_exec_paths_succeeded plan) os
          (postend-IsPending plan st' g n (rw (q) refl)) r h in
      omega (arith, below)

  -- A call on a plan in order that reports a change has used up at least one of its changes.
  pub execute_step_forward-descends :
      (plan plan' : ExecutionPlan sv.MultiLocation) (r : StepForwardResult) (w v : sv.World)
      → PlanInOrder plan
      → execute_step_forward sv meta keys plan w ≡ (ok r, plan', v)
      → plan_weight plan' + tick r.did_status_change ≤ plan_weight plan
  unfolding execute_step_forward
  execute_step_forward-descends plan plan' r w v o h = elim (Option-cases (get_status plan)) [
    | inl stuck ↦ cc (rw (stuck, execute_step_forward) at h)
    | inr (st, q) ↦ elim (Bool-cases (is_finished st)) [
      | inl finished ↦ cc (rw (q, finished, execute_step_forward) at h)
      | inr unfinished ↦
          let pre = Step.get_status plan.prestart_user_to_escrow_transfer in
          let k : forward_unfinished sv meta keys plan w pre ≡ (ok r, plan', v) =
            rw (q, unfinished, execute_step_forward) at h in
          rw⁻¹ (ap (λ x. x.1) k)
            (forward_unfinished-Within plan w pre st o q unfinished refl r (ap (λ x. x.0) k))
    ]
  ]
