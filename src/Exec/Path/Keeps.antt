-- ===== src/Exec/Path/Keeps.antt =====
-- Every call on a path keeps its steps in order, also a call that fails or panics.
use privadex.Prelude.{
  ℕ, ◌≡◌, refl, inl, inr, Bool, true, false, Bool-cases, Option, none, some, Option-cases, List, [],
  ◌∷◌, ◌++◌, ◌==◌,
}
use privadex.Prelude.Fallible.{Outcome, ok, err, panic}
use privadex.Plan.Types.{ExecutionStep, ExecutionPath}
use privadex.Plan.Steps.{set_amount_in}
use privadex.Exec.Status.{
  ExecutableError, StepForwardResult, status_eq, is_finished, failed, dropped, succeeded,
}
use privadex.Exec.Services.{Services, StepMeta, KeyContainer}
use privadex.Exec.Step.{is_pending}
use privadex.Exec.Step
use privadex.Exec.Path.{
  second_paid, second_answered, first_paid, first_answered, forward_located, Located, locate,
  any_status, steps_status, changed_amount, after_first, after_second, execute_step_forward,
  PathOutcome,
}
use privadex.Exec.Path.Order.{
  Fresh, Done, InOrder, set_amount_in-status, InOrder-at, Done-snoc, locate_lem, unfinished_lem,
}

module _ {L W : Type 0} where
  abbrev pub OutcomeInOrder : PathOutcome L W → Type 0
  OutcomeInOrder x = InOrder x.1.steps

  second_paid-InOrder :
      (before : List (ExecutionStep L)) (n : ExecutionStep L) (rest : List (ExecutionStep L))
      (out : Option ℕ) (w : W) (a : ℕ) (b : Bool)
      → Done before
      → Fresh rest
      → OutcomeInOrder (second_paid before n rest out w a b)
  unfolding second_paid
  second_paid-InOrder before n [] out w a b d f = InOrder-at before n [] d tt
  second_paid-InOrder before n (m ∷ ms) out w a true d (q, f) =
      InOrder-at before n (set_amount_in m a ∷ ms) d (rw (set_amount_in-status m a) q, f)
  second_paid-InOrder before n (m ∷ ms) out w a false d f = InOrder-at before n (m ∷ ms) d f

  after_second-InOrder :
      (before rest : List (ExecutionStep L)) (out : Option ℕ)
      (r : Outcome ExecutableError StepForwardResult × ExecutionStep L × W)
      → Done before
      → Fresh rest
      → OutcomeInOrder (after_second before rest out r)
  unfolding after_second
  after_second-InOrder before rest out (err e, n, w) d f = InOrder-at before n rest d f
  after_second-InOrder before rest out (panic, n, w) d f = InOrder-at before n rest d f
  after_second-InOrder before rest out (ok r, n, w) d f = by_amount (changed_amount r)
    where
      by_amount : (c : Option ℕ) → OutcomeInOrder (second_answered before n rest out w c)
      by_amount none = InOrder-at before n rest d f
      by_amount (some a) =
          second_paid-InOrder before n rest out w a (Step.get_status n == succeeded) d f

module _ (sv : Services) (meta : StepMeta sv.World) (keys : KeyContainer) where
  first_paid-InOrder :
      (before : List (ExecutionStep sv.MultiLocation)) (s : ExecutionStep sv.MultiLocation)
      (rest : List (ExecutionStep sv.MultiLocation)) (out : Option ℕ) (w : sv.World) (a : ℕ)
      (b : Bool)
      → Done before
      → Fresh rest
      → (b ≡ true → Step.get_status s ≡ succeeded)
      → OutcomeInOrder (first_paid sv meta keys before s rest out w a b)
  unfolding first_paid
  first_paid-InOrder before s [] out w a b d f q = InOrder-at before s [] d tt
  first_paid-InOrder before s (n ∷ ns) out w a true d (_, f) q =
      after_second-InOrder (before ++ s ∷ []) ns out
        (Step.execute_step_forward sv meta keys (set_amount_in n a) w)
        (Done-snoc before s d (q refl)) f
  first_paid-InOrder before s (n ∷ ns) out w a false d f q = InOrder-at before s (n ∷ ns) d f

  after_first-InOrder :
      (before rest : List (ExecutionStep sv.MultiLocation)) (out : Option ℕ)
      (r : Outcome ExecutableError StepForwardResult × ExecutionStep sv.MultiLocation × sv.World)
      → Done before
      → Fresh rest
      → OutcomeInOrder (after_first sv meta keys before rest out r)
  unfolding after_first
  after_first-InOrder before rest out (err e, s, w) d f = InOrder-at before s rest d f
  after_first-InOrder before rest out (panic, s, w) d f = InOrder-at before s rest d f
  after_first-InOrder before rest out (ok r, s, w) d f = by_amount (changed_amount r)
    where
      by_amount :
          (c : Option ℕ) → OutcomeInOrder (first_answered sv meta keys before s rest out w r c)
      by_amount none = InOrder-at before s rest d f
      by_amount (some a) =
          first_paid-InOrder before s rest out w a (Step.get_status s == succeeded) d f
            (λ y. (status_eq.eq_iff (Step.get_status s) succeeded).0 y)

  forward_located-InOrder :
      (p : ExecutionPath sv.MultiLocation) (w : sv.World) (l : Option (Located sv.MultiLocation))
      → locate p.steps ≡ l
      → InOrder p.steps
      → any_status dropped p.steps ≡ false
      → any_status failed p.steps ≡ false
      → OutcomeInOrder (forward_located sv meta keys p w l)
  unfolding forward_located
  forward_located-InOrder p w none q o nd nf = o
  forward_located-InOrder p w (some l) q o nd nf =
      let (_, d, f, _) = locate_lem p.steps l o nd nf q in
      after_first-InOrder l.before l.after p.amount_out
        (Step.execute_step_forward sv meta keys l.step w) d f

  -- The invariant of a path: whatever a call on it ends in, a result, an error or a panic, steps in
  -- order stay in order: some have succeeded, the next is being worked on, the rest have not started.
  pub execute_step_forward-InOrder :
      (p : ExecutionPath sv.MultiLocation) (w : sv.World)
      → InOrder p.steps
      → OutcomeInOrder (execute_step_forward sv meta keys p w)
  unfolding execute_step_forward
  execute_step_forward-InOrder p w o = elim (Option-cases (steps_status p.steps)) [
    | inl stuck ↦ rw (stuck, execute_step_forward) o
    | inr (st, q) ↦ elim (Bool-cases (is_finished st)) [
      | inl finished ↦ rw (q, finished, execute_step_forward) o
      | inr unfinished ↦
          let (nd, nf) = unfinished_lem p.steps st o q unfinished in
          rw (q, unfinished, execute_step_forward)
            (forward_located-InOrder p w (locate p.steps) refl o nd nf)
    ]
  ]
