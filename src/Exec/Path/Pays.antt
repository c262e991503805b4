-- ===== src/Exec/Path/Pays.antt =====
-- The amount that a path reports when a call completes it, and the call on a step it comes from.
use privadex.Prelude.{ℕ, ◌≡◌, refl, sym, ◌∙◌, true, none, some, List, [], ◌∷◌, ◌++◌, arith}
use privadex.Prelude.Fallible.{Outcome, ok}
use privadex.Plan.Types.{ExecutionStep, ExecutionPath}
use privadex.Exec.Status.{ExecutableError, StepForwardResult, status_eq, not_started, succeeded}
use privadex.Exec.Services.{Services, StepMeta, KeyContainer}
use privadex.Exec.Step.{is_pending}
use privadex.Exec.Step
use privadex.Exec.Path.{
  last_status, steps_status, changed_amount, execute_step_forward, get_status, PathOutcome, report,
}
use privadex.Exec.Path.Order.{Fresh}

module _ {L : Type 0} where
  Fresh-last :
      (s : ExecutionStep L) (ss : List (ExecutionStep L))
      → Step.get_status s ≡ not_started
      → Fresh ss
      → last_status s ss ≡ not_started
  unfolding last_status
  Fresh-last s [] q f = q
  Fresh-last s (t ∷ ts) q (q', f) = Fresh-last t ts q' f

  Fresh-after :
      (s : ExecutionStep L) (ss : List (ExecutionStep L))
      → last_status s ss ≡ succeeded
      → Fresh ss
      → (ss ≡ []) × (Step.get_status s ≡ succeeded)
  unfolding last_status
  Fresh-after s [] q f = (refl, q)
  Fresh-after s (t ∷ ts) q (q', f) = let r = Fresh-last t ts q' f in cc

  last_at :
      (b : ExecutionStep L) (before : List (ExecutionStep L)) (s : ExecutionStep L)
      (rest : List (ExecutionStep L))
      → last_status b (before ++ s ∷ rest) ≡ last_status s rest
  unfolding last_status
  last_at b [] s rest = refl
  last_at b (c ∷ cs) s rest = last_at c cs s rest

  head_last :
      (ss : List (ExecutionStep L)) (s : ExecutionStep L)
      → steps_status (s ∷ ss) ≡ some succeeded
      → last_status s ss ≡ succeeded
  unfolding steps_status
  head_last ss s h = ground arith

  -- A path that has succeeded, with steps that have not started at its end: there are none.
  pub succeeded_at :
      (before : List (ExecutionStep L)) (s : ExecutionStep L) (rest : List (ExecutionStep L))
      → steps_status (before ++ s ∷ rest) ≡ some succeeded
      → Fresh rest
      → (rest ≡ []) × (Step.get_status s ≡ succeeded)
  succeeded_at [] s rest h f = Fresh-after s rest (head_last rest s h) f
  succeeded_at (b ∷ bs) s rest h f =
      Fresh-after s rest (sym (last_at b bs s rest) ∙ head_last (bs ++ s ∷ rest) b h) f

module _ (sv : Services) (meta : StepMeta sv.World) (keys : KeyContainer) where
  -- A call on a step has left `s` and reported the amount `a`.
  pub record Brought (s : ExecutionStep sv.MultiLocation) (a : ℕ) : Type 0 where
    pub before_call : ExecutionStep sv.MultiLocation
    pub answer : StepForwardResult
    pub from_world : sv.World
    pub to_world : sv.World
    pub called :
        Step.execute_step_forward sv meta keys before_call from_world ≡ (ok answer, s, to_world)
    pub reported : changed_amount answer ≡ some a

  -- The amount that the path holds and the report has is what the last step brought in.
  abbrev pub Paid : StepForwardResult → ExecutionPath sv.MultiLocation → Type 0
  Paid r p =
      (a : ℕ) × (p.amount_out ≡ some a)
      × (r ≡ report true (some a))
      × (before : List (ExecutionStep sv.MultiLocation)) × (s : ExecutionStep sv.MultiLocation)
      × (p.steps ≡ before ++ s ∷ [])
      × Brought s a

  -- What is shown of an outcome: if the call succeeded and the path has, the path is paid.
  abbrev PaidIfDone : PathOutcome sv.MultiLocation sv.World → Type 0
  PaidIfDone x =
      (r : StepForwardResult) → x.0 ≡ ok r → steps_status x.1.steps ≡ some succeeded → Paid r x.1

  -- The call on a step does not succeed without reporting an amount, and what it reports it brought.
  abbrev Reports :
      Outcome ExecutableError StepForwardResult × ExecutionStep sv.MultiLocation × sv.World → Type 0
  Reports x =
      (r : StepForwardResult)
      → x.0 ≡ ok r
      → (Step.get_status x.1 ≡ succeeded → changed_amount r ≡ none → ⊥)
        × ((a : ℕ) → changed_amount r ≡ some a → Brought x.1 a)
