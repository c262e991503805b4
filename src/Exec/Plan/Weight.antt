-- ===== src/Exec/Plan/Weight.antt =====
-- How many more times the statuses in a plan can change, and that the loop over the paths uses them up.
use privadex.Prelude.{
  ℕ, ◌+◌, ◌≤◌, ◌≡◌, refl, sym, inl, inr, Bool, false, ◌||◌, Bool-cases, Option, none, some,
  Option-cases, List, [], ◌∷◌, arith,
}
use privadex.Prelude.Fallible.{Outcome, ok, err, panic}
use privadex.Plan.Types.{ExecutionPath, ExecutionPlan}
use privadex.Exec.Status.{
  ExecutableError, StepForwardResult, ExecutableSimpleStatus, status_eq, is_finished, not_started,
  in_progress, failed, dropped, succeeded,
}
use privadex.Exec.Services.{Services, StepMeta, KeyContainer}
use privadex.Exec.Path
use privadex.Exec.Path.Order.{InOrder}
use privadex.Exec.Plan.{
  path_answer, PathsOutcome, after_body, after_path, forward_paths, forward_path, PlanOutcome,
}
use privadex.Exec.Plan.Order.{PathsInOrder}
use privadex.Exec.Step.Weight.{tick, weight}
use privadex.Exec.Path.Weight.{steps_weight}
use privadex.Exec.Path.Weight.{execute_step_forward-descends as path-descends}

module _ {L : Type 0} where
  unfoldable pub paths_weight : List (ExecutionPath L) → ℕ
  paths_weight [] = 0
  paths_weight (p ∷ ps) = steps_weight p.steps + paths_weight ps

  unfoldable pub plan_weight : ExecutionPlan L → ℕ
  unfolding paths_weight
  plan_weight plan =
      weight plan.prestart_user_to_escrow_transfer
      + paths_weight plan.paths
      + weight plan.postend_escrow_to_user_transfer

pub or_tick : (b c : Bool) → tick (b || c) ≤ tick b + tick c
or_tick b c = ground arith

-- What is shown of the loop's outcome, begun with weight `n` (the changes counted so far included).
abbrev pub PathsWithin : {L W : Type 0} → ℕ → PathsOutcome L W → Type 0
PathsWithin n x = (b : Bool) → x.0 ≡ ok b → paths_weight x.1 + tick b ≤ n

abbrev pub Within : {L W : Type 0} → ℕ → PlanOutcome L W → Type 0
Within n x = (r : StepForwardResult) → x.0 ≡ ok r → plan_weight x.1 + tick r.did_status_change ≤ n

pub counted :
    (m n : ℕ) (b1 b : Bool)
    → m + tick b1 ≤ n
    → ◌≡◌ {A = Outcome ExecutableError Bool} (ok b1) (ok b)
    → m + tick b ≤ n
counted m n b1 b le h = let q : b1 ≡ b = ground arith in rw (sym q) le

pub reported :
    (m n : ℕ) (r1 r : StepForwardResult)
    → m + tick r1.did_status_change ≤ n
    → ◌≡◌ {A = Outcome ExecutableError StepForwardResult} (ok r1) (ok r)
    → m + tick r.did_status_change ≤ n
reported m n r1 r le h = let q : r1 ≡ r = ground arith in rw (sym q) le

module _ {L W : Type 0} where
  after_body-Within :
      (p : ExecutionPath L) (ps : List (ExecutionPath L)) (c : Bool) (w : W)
      (rest : PathsOutcome L W) (st : Option ExecutableSimpleStatus) (n : ℕ)
      → paths_weight (p ∷ ps) + tick c ≤ n
      → ((b : Bool) → rest.0 ≡ ok b → steps_weight p.steps + paths_weight rest.1 + tick b ≤ n)
      → PathsWithin n (after_body p ps c w rest st)
  unfolding after_body paths_weight
  after_body-Within p ps c w rest none n le r = λ b h. cc
  after_body-Within p ps c w rest (some dropped) n le r = λ b h. counted _ n c b le h
  after_body-Within p ps c w rest (some failed) n le r = λ b h. counted _ n c b le h
  after_body-Within p ps c w rest (some not_started) n le r = r
  after_body-Within p ps c w rest (some in_progress) n le r = r
  after_body-Within p ps c w rest (some succeeded) n le r = r

  after_path-Within :
      (x : Outcome ExecutableError Bool × ExecutionPath L × W) (ps : List (ExecutionPath L))
      (c : Bool) (rest : Bool → W → PathsOutcome L W) (n : ℕ)
      → ((b : Bool) → x.0 ≡ ok b → steps_weight x.1.steps + tick b + paths_weight ps + tick c ≤ n)
      → ((b : Bool) (w : W) → PathsWithin (paths_weight ps + tick b) (rest b w))
      → PathsWithin n (after_path x ps c rest)
  unfolding after_path paths_weight
  after_path-Within (err e, p, w) ps c rest n le r = λ b h. cc
  after_path-Within (panic, p, w) ps c rest n le r = λ b h. cc
  after_path-Within (ok d, p, w) ps c rest n le r =
      after_body-Within p ps (c || d) w (rest (c || d) w) (Path.get_status p) n
        (omega (arith, le d refl, or_tick c d))
        (λ b h. omega (arith, le d refl, or_tick c d, r (c || d) w b h))

  path_answer-Within :
      (p : ExecutionPath L) (x : Outcome ExecutableError StepForwardResult × ExecutionPath L × W)
      → ((r : StepForwardResult)
          → x.0 ≡ ok r
          → steps_weight x.1.steps + tick r.did_status_change ≤ steps_weight p.steps)
      → (b : Bool) → (path_answer x).0 ≡ ok b
      → steps_weight (path_answer x).1.steps + tick b ≤ steps_weight p.steps
  path_answer-Within p (ok r, p', w) le b h =
      counted (steps_weight p'.steps) (steps_weight p.steps) r.did_status_change b (le r refl) h
  path_answer-Within p (err e, p', w) le b h = cc
  path_answer-Within p (panic, p', w) le b h = cc

module _ (sv : Services) (meta : StepMeta sv.World) (keys : KeyContainer) where
  forward_path-Within :
      (p : ExecutionPath sv.MultiLocation) (w : sv.World)
      → InOrder p.steps
      → (b : Bool) → (forward_path sv meta keys p w).0 ≡ ok b
      → steps_weight (forward_path sv meta keys p w).1.steps + tick b ≤ steps_weight p.steps
  unfolding forward_path
  forward_path-Within p w o b h = elim (Option-cases (Path.get_status p)) [
    | inl stuck ↦ cc (rw (stuck, forward_path) at h)
    | inr (st, q) ↦ elim (Bool-cases (is_finished st)) [
      | inl finished ↦
          rw (q, finished, forward_path)
            (counted (steps_weight p.steps) (steps_weight p.steps) false b (omega arith)
              (rw (q, finished, forward_path) at h))
      | inr unfinished ↦
          rw (q, unfinished, forward_path)
            (path_answer-Within p (Path.execute_step_forward sv meta keys p w)
              (λ r e.
                path-descends sv meta keys p (Path.execute_step_forward sv meta keys p w).1 r w
                  (Path.execute_step_forward sv meta keys p w).2 o (ground arith))
              b (rw (q, unfinished, forward_path) at h))
    ]
  ]

  pub forward_paths-Within :
      (ps : List (ExecutionPath sv.MultiLocation)) (c : Bool) (w : sv.World)
      → PathsInOrder ps
      → PathsWithin (paths_weight ps + tick c) (forward_paths sv meta keys ps c w)
  unfolding forward_paths paths_weight
  forward_paths-Within [] c w o = λ b h. counted 0 (0 + tick c) c b (omega arith) h
  forward_paths-Within (p ∷ ps) c w (o, os) =
      after_path-Within (forward_path sv meta keys p w) ps c (forward_paths sv meta keys ps)
        (paths_weight (p ∷ ps) + tick c) (λ b h. omega (arith, forward_path-Within p w o b h))
        (λ b v. forward_paths-Within ps b v os)
