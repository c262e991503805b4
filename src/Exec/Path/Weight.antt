-- ===== src/Exec/Path/Weight.antt =====
-- How many more times the statuses of a path's steps can change.
use privadex.Prelude.{
  ℕ, ◌+◌, ◌≤◌, ◌≡◌, refl, sym, ap, ◌⊎◌, inl, inr, Bool, true, false, Bool-cases, Option, none, some,
  Option-cases, List, [], ◌∷◌, ◌++◌, ◌==◌, arith,
}
use privadex.Prelude.Fallible.{Outcome, ok, err, panic}
use privadex.Plan.Types.{ExecutionStep, ExecutionPath}
use privadex.Plan.Steps.{set_amount_in}
use privadex.Exec.Status.{
  ExecutableError, StepForwardResult, status_eq, is_finished, not_started, in_progress, failed,
  dropped, succeeded,
}
use privadex.Exec.Services.{Services, StepMeta, KeyContainer}
use privadex.Exec.Step.{is_pending}
use privadex.Exec.Step
use privadex.Exec.Path.{
  second_paid, second_answered, first_paid, first_answered, forward_located, Located, locate,
  any_status, steps_status, changed_amount, after_first, after_second, execute_step_forward,
  PathOutcome, report,
}
use privadex.Exec.Path.Order.{Fresh, InOrder, set_amount_in-status, locate_lem, unfinished_lem}
use privadex.Exec.Step.Weight.{
  tick, weight, set_amount_in-weight, execute_step_forward-descends as step-descends,
}

module _ {L : Type 0} where
  unfoldable pub steps_weight : List (ExecutionStep L) → ℕ
  steps_weight [] = 0
  steps_weight (s ∷ ss) = weight s + steps_weight ss

  pub steps_weight-append :
      (xs ys : List (ExecutionStep L)) → steps_weight (xs ++ ys) ≡ steps_weight xs + steps_weight ys
  unfolding steps_weight
  steps_weight-append [] ys = omega arith
  steps_weight-append (x ∷ xs) ys = omega (arith, steps_weight-append xs ys)

  steps_weight-at :
      (before : List (ExecutionStep L)) (s : ExecutionStep L) (rest : List (ExecutionStep L))
      → steps_weight (before ++ s ∷ rest) ≡ steps_weight before + weight s + steps_weight rest
  unfolding steps_weight
  steps_weight-at before s rest = omega (arith, steps_weight-append before (s ∷ rest))

-- What is shown of an outcome that began with weight `n`: a call that succeeds stays within it.
abbrev Within : {L W : Type 0} → ℕ → PathOutcome L W → Type 0
Within n x =
    (r : StepForwardResult) → x.0 ≡ ok r → steps_weight x.1.steps + tick r.did_status_change ≤ n

-- What the first call used up is paid for by `n`.
reported :
    (m n : ℕ) (r1 r : StepForwardResult)
    → m + tick r1.did_status_change ≤ n
    → ◌≡◌ {A = Outcome ExecutableError StepForwardResult} (ok r1) (ok r)
    → m + tick r.did_status_change ≤ n
reported m n r1 r b h = let q : r1 ≡ r = ground arith in rw (sym q) b

changed_tick :
    (r : StepForwardResult) (a : ℕ) → changed_amount r ≡ some a → tick r.did_status_change ≡ 1
changed_tick r a h = ground arith

module _ {L W : Type 0} where
  second_paid-Within :
      (before : List (ExecutionStep L)) (k : ExecutionStep L) (rest : List (ExecutionStep L))
      (out : Option ℕ) (w : W) (a : ℕ) (b : Bool) (n : ℕ)
      → steps_weight before + weight k + steps_weight rest + 1 ≤ n
      → Within n (second_paid before k rest out w a b)
  unfolding second_paid steps_weight
  second_paid-Within before k [] out w a b n le r h =
      reported _ n (report true (some a)) r (omega (arith, steps_weight-at before k [])) h
  second_paid-Within before k (m ∷ ms) out w a true n le r h =
      reported _ n (report true none) r
        (omega (arith, steps_weight-at before k (set_amount_in m a ∷ ms), set_amount_in-weight m a))
        h
  second_paid-Within before k (m ∷ ms) out w a false n le r h =
      reported _ n (report true (some a)) r (omega (arith, steps_weight-at before k (m ∷ ms))) h

  after_second-Within :
      (before rest : List (ExecutionStep L)) (out : Option ℕ)
      (x : Outcome ExecutableError StepForwardResult × ExecutionStep L × W) (n : ℕ)
      → ((r : StepForwardResult)
          → x.0 ≡ ok r
          → steps_weight before + weight x.1 + steps_weight rest + 1 ≤ n)
      → Within n (after_second before rest out x)
  unfolding after_second
  after_second-Within before rest out (err e, k, w) n le = λ r h. cc
  after_second-Within before rest out (panic, k, w) n le = λ r h. cc
  after_second-Within before rest out (ok r1, k, w) n le = by_amount (changed_amount r1)
    where
      by_amount : (c : Option ℕ) → Within n (second_answered before k rest out w c)
      by_amount none = λ r h.
          reported _ n (report true none) r
            (omega (arith, le r1 refl, steps_weight-at before k rest)) h
      by_amount (some a) =
          second_paid-Within before k rest out w a (Step.get_status k == succeeded) n (le r1 refl)

module _ (sv : Services) (meta : StepMeta sv.World) (keys : KeyContainer) where
  call_weight :
      (s : ExecutionStep sv.MultiLocation) (w : sv.World) (r : StepForwardResult)
      → (Step.get_status s ≡ not_started) ⊎ (Step.get_status s ≡ in_progress)
      → (Step.execute_step_forward sv meta keys s w).0 ≡ ok r
      → weight (Step.execute_step_forward sv meta keys s w).1 + tick r.did_status_change ≤ weight s
  call_weight s w r p h =
      let x = Step.execute_step_forward sv meta keys s w in
      step-descends sv meta keys s x.1 r w x.2 p (ground arith)

  first_paid-Within :
      (before : List (ExecutionStep sv.MultiLocation)) (s : ExecutionStep sv.MultiLocation)
      (rest : List (ExecutionStep sv.MultiLocation)) (out : Option ℕ) (w : sv.World) (a : ℕ)
      (b : Bool) (n : ℕ)
      → Fresh rest
      → steps_weight before + weight s + steps_weight rest + 1 ≤ n
      → Within n (first_paid sv meta keys before s rest out w a b)
  unfolding first_paid steps_weight
  first_paid-Within before s [] out w a b n f le =
      λ r h. reported _ n (report true (some a)) r (omega (arith, steps_weight-at before s [])) h
  first_paid-Within before s (k ∷ ks) out w a true n (q, f) le =
      after_second-Within (before ++ s ∷ []) ks out
        (Step.execute_step_forward sv meta keys (set_amount_in k a) w) n
        (λ r h.
          let below =
            call_weight (set_amount_in k a) w r (inl (rw (set_amount_in-status k a) q)) h in
          omega (arith, below, set_amount_in-weight k a, steps_weight-at before s []))
  first_paid-Within before s (k ∷ ks) out w a false n f le = λ r h.
      reported _ n (report true (some a)) r (omega (arith, steps_weight-at before s (k ∷ ks))) h

  after_first-Within :
      (before rest : List (ExecutionStep sv.MultiLocation)) (out : Option ℕ)
      (x : Outcome ExecutableError StepForwardResult × ExecutionStep sv.MultiLocation × sv.World)
      (n : ℕ)
      → Fresh rest
      → ((r : StepForwardResult)
          → x.0 ≡ ok r
          → steps_weight before + weight x.1 + steps_weight rest + tick r.did_status_change ≤ n)
      → Within n (after_first sv meta keys before rest out x)
  unfolding after_first
  after_first-Within before rest out (err e, s, w) n f le = λ r h. cc
  after_first-Within before rest out (panic, s, w) n f le = λ r h. cc
  after_first-Within before rest out (ok r1, s, w) n f le = by_amount (changed_amount r1) refl
    where
      by_amount :
          (c : Option ℕ)
          → changed_amount r1 ≡ c
          → Within n (first_answered sv meta keys before s rest out w r1 c)
      by_amount none q = λ r h.
          reported _ n (report r1.did_status_change none) r
            (omega (arith, le r1 refl, steps_weight-at before s rest)) h
      by_amount (some a) q =
          first_paid-Within before s rest out w a (Step.get_status s == succeeded) n f
            (omega (arith, le r1 refl, changed_tick r1 a q))

  pending_cases :
      (s : ExecutionStep sv.MultiLocation)
      → is_pending s ≡ true
      → (Step.get_status s ≡ not_started) ⊎ (Step.get_status s ≡ in_progress)
  unfolding is_pending
  pending_cases s h = ground arith

  forward_located-Within :
      (p : ExecutionPath sv.MultiLocation) (w : sv.World) (l : Option (Located sv.MultiLocation))
      → locate p.steps ≡ l
      → InOrder p.steps
      → any_status dropped p.steps ≡ false
      → any_status failed p.steps ≡ false
      → Within (steps_weight p.steps) (forward_located sv meta keys p w l)
  unfolding forward_located
  forward_located-Within p w none q o nd nf = λ r h. cc
  forward_located-Within p w (some l) q o nd nf =
      let (e, _, f, pend) = locate_lem p.steps l o nd nf q in
      after_first-Within l.before l.after p.amount_out
        (Step.execute_step_forward sv meta keys l.step w) (steps_weight p.steps) f
        (λ r h.
          let below = call_weight l.step w r (pending_cases l.step pend) h in
          omega (arith, below, ap steps_weight e, steps_weight-at l.before l.step l.after))

  -- A call on a path in order that reports a change has used up at least one of its changes.
  pub execute_step_forward-descends :
      (p p' : ExecutionPath sv.MultiLocation) (r : StepForwardResult) (w v : sv.World)
      → InOrder p.steps
      → execute_step_forward sv meta keys p w ≡ (ok r, p', v)
      → steps_weight p'.steps + tick r.did_status_change ≤ steps_weight p.steps
  unfolding execute_step_forward
  execute_step_forward-descends p p' r w v o h = elim (Option-cases (steps_status p.steps)) [
    | inl stuck ↦ cc (rw (stuck, execute_step_forward) at h)
    | inr (st, q) ↦ elim (Bool-cases (is_finished st)) [
      | inl finished ↦ cc (rw (q, finished, execute_step_forward) at h)
      | inr unfinished ↦
          let (nd, nf) = unfinished_lem p.steps st o q unfinished in
          let k : forward_located sv meta keys p w (locate p.steps) ≡ (ok r, p', v) =
            rw (q, unfinished, execute_step_forward) at h in
          rw⁻¹ (ap (λ x. x.1) k)
            (forward_located-Within p w (locate p.steps) refl o nd nf r (ap (λ x. x.0) k))
    ]
  ]
