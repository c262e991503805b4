-- ===== src/Exec/Plan/Bounded.antt =====
-- Every run of calls on a plan is bounded.
use privadex.Prelude.{ℕ, ◌+◌, ◌≤◌, ◌≡◌, ap, arith}
use privadex.Prelude.Fallible.{ok}
use privadex.Plan.Types.{ExecutionPlan}
use privadex.Exec.Status.{StepForwardResult, status_eq}
use privadex.Exec.Services.{Services, StepMeta, KeyContainer}
use privadex.Exec.Plan.{execute_step_forward}
use privadex.Exec.Plan.Order.{PlanInOrder, execute_step_forward-PlanInOrder}
use privadex.Exec.Step.Weight.{tick}
use privadex.Exec.Plan.Weight.{plan_weight}
use privadex.Exec.Plan.Descends.{execute_step_forward-descends}

module _ (sv : Services) (meta : StepMeta sv.World) (keys : KeyContainer) where
  -- `changes` of the calls in a row, each from where the one before it ended, reported a change.
  pub data Calls : (plan plan' : ExecutionPlan sv.MultiLocation) (changes : ℕ) → Type 0 where
    none_yet : {plan : ExecutionPlan sv.MultiLocation} → Calls plan plan 0
    call :
        {plan plan1 plan' : ExecutionPlan sv.MultiLocation} {changes : ℕ} (r : StepForwardResult)
        (w v : sv.World)
        → execute_step_forward sv meta keys plan w ≡ (ok r, plan1, v)
        → Calls plan1 plan' changes
        → Calls plan plan' (tick r.did_status_change + changes)

  -- From a plan in order at most `plan_weight plan` calls ever report a change, whatever the services
  -- answer from call to call: two for each step on one chain, three for each cross-chain transfer.
  pub Calls-bounded :
      {plan plan' : ExecutionPlan sv.MultiLocation} {changes : ℕ}
      → PlanInOrder plan
      → Calls plan plan' changes
      → plan_weight plan' + changes ≤ plan_weight plan
  Calls-bounded o none_yet = omega arith
  Calls-bounded {plan = plan} o (call {plan1 = plan1} r w v e rest) =
      let below = execute_step_forward-descends sv meta keys plan plan1 r w v o e in
      let kept : PlanInOrder plan1 =
        rw⁻¹ (ap (λ x. x.1) e) (execute_step_forward-PlanInOrder sv meta keys plan w o) in
      omega (arith, below, Calls-bounded kept rest)
