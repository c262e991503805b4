-- ===== src/Exec/Path/Order.antt =====
-- The order in which a path works on its steps.
use privadex.Prelude.{
  ℕ, ◌≡◌, refl, ap, subst, ◌⊎◌, inl, inr, true, false, Bool-cases, some, Option-cases, List, [],
  ◌∷◌, ◌++◌, All, ◌==◌, arith,
}
use privadex.Plan.Types.{
  ExecutionStepEnum, ExecutionStep, eth_send, erc20_transfer, eth_wrap, eth_unwrap, eth_dex_swap,
  xcm_transfer,
}
use privadex.Plan.Steps.{set_amount_in}
use privadex.Exec.Status.{
  ExecutableSimpleStatus, status_eq, is_finished, not_started, failed, dropped, succeeded,
}
use privadex.Exec.Step.{is_pending}
use privadex.Exec.Step
use privadex.Exec.Path.{Located, locate, behind, any_status, steps_status}

module _ {L : Type 0} where
  abbrev pub Fresh : List (ExecutionStep L) → Type 0
  Fresh = All (λ s. Step.get_status s ≡ not_started)

  abbrev pub Done : List (ExecutionStep L) → Type 0
  Done = All (λ s. Step.get_status s ≡ succeeded)

  -- Steps that have succeeded, then one in any state, then steps that have not started.
  abbrev pub InOrder : List (ExecutionStep L) → Type 0
  InOrder [] = Unit
  InOrder (s ∷ ss) = ((Step.get_status s ≡ succeeded) × InOrder ss) ⊎ Fresh ss

  pub set_amount_in-status :
      (s : ExecutionStep L) (a : ℕ) → Step.get_status (set_amount_in s a) ≡ Step.get_status s
  unfolding Step.get_status set_amount_in
  set_amount_in-status s a = by_kind s.inner
    where
      by_kind :
          (i : ExecutionStepEnum L)
          → Step.get_status (set_amount_in (record { inner = i }) a)
            ≡ Step.get_status (record { inner = i })
      by_kind (eth_send step) = refl
      by_kind (erc20_transfer step) = refl
      by_kind (eth_wrap step) = refl
      by_kind (eth_unwrap step) = refl
      by_kind (eth_dex_swap step) = refl
      by_kind (xcm_transfer step) = refl

  pub Fresh-InOrder : (ss : List (ExecutionStep L)) → Fresh ss → InOrder ss
  Fresh-InOrder [] f = tt
  Fresh-InOrder (s ∷ ss) (q, f) = inr f

  pub InOrder-at :
      (before : List (ExecutionStep L)) (s : ExecutionStep L) (after : List (ExecutionStep L))
      → Done before
      → Fresh after
      → InOrder (before ++ s ∷ after)
  InOrder-at [] s after d f = inr f
  InOrder-at (b ∷ bs) s after (q, d) f = inl (q, InOrder-at bs s after d f)

  pub Done-snoc :
      (before : List (ExecutionStep L)) (s : ExecutionStep L)
      → Done before
      → Step.get_status s ≡ succeeded
      → Done (before ++ s ∷ [])
  Done-snoc [] s d q = (q, tt)
  Done-snoc (b ∷ bs) s (p, d) q = (p, Done-snoc bs s d q)

  -- Where `locate` stops in steps that are in order and hold none that is dropped or has failed.
  abbrev pub IsSplit : List (ExecutionStep L) → Located L → Type 0
  IsSplit ss l =
      (ss ≡ l.before ++ l.step ∷ l.after)
      × Done l.before
      × Fresh l.after
      × (is_pending l.step ≡ true)

  pending_or_done :
      (s : ExecutionStep L)
      → is_pending s ≡ false
      → (Step.get_status s == dropped) ≡ false
      → (Step.get_status s == failed) ≡ false
      → Step.get_status s ≡ succeeded
  unfolding is_pending
  pending_or_done s p d f = ground arith

  pending_not_done : (s : ExecutionStep L) → is_pending s ≡ true → Step.get_status s ≡ succeeded → ⊥
  unfolding is_pending
  pending_not_done s p d = ground arith

  any_status-tail :
      (st : ExecutableSimpleStatus) (s : ExecutionStep L) (ss : List (ExecutionStep L))
      → any_status st (s ∷ ss) ≡ false
      → ((Step.get_status s == st) ≡ false) × (any_status st ss ≡ false)
  unfolding any_status
  any_status-tail st s ss h = elim (Bool-cases (Step.get_status s == st)) [
    | inl y ↦ cc (rw (y) at h)
    | inr n ↦ (n, ground arith)
  ]

  order_behind : (s : ExecutionStep L) (ss : List (ExecutionStep L)) → InOrder (s ∷ ss) → InOrder ss
  order_behind s ss (inl (q, o)) = o
  order_behind s ss (inr f) = Fresh-InOrder ss f

  pending_tail :
      (s : ExecutionStep L) (ss : List (ExecutionStep L))
      → InOrder (s ∷ ss)
      → is_pending s ≡ true
      → Fresh ss
  pending_tail s ss (inl (q, o)) p = absurd (pending_not_done s p q)
  pending_tail s ss (inr f) p = f

  IsSplit-behind :
      (s : ExecutionStep L) (ss : List (ExecutionStep L)) (r l : Located L)
      → Step.get_status s ≡ succeeded
      → IsSplit ss r
      → behind s (some r) ≡ some l
      → IsSplit (s ∷ ss) l
  IsSplit-behind s ss r l q (e, d, f, p) h =
      let same : record r { before = s ∷ r.before } ≡ l = ground arith in
      subst {A = Located L} (IsSplit (s ∷ ss)) same (ap (λ xs. s ∷ xs) e, (q, d), f, p)

  pub locate_lem :
      (ss : List (ExecutionStep L)) (l : Located L)
      → InOrder ss
      → any_status dropped ss ≡ false
      → any_status failed ss ≡ false
      → locate ss ≡ some l
      → IsSplit ss l
  unfolding locate
  locate_lem [] l o d f h = cc
  locate_lem (s ∷ ss) l o d f h = elim (Bool-cases (is_pending s)) [
    | inl p ↦
        let same : record { before = []; step = s; after = ss } ≡ l = ground arith in
        subst {A = Located L} (IsSplit (s ∷ ss)) same (refl, tt, pending_tail s ss o p, p)
    | inr n ↦
        let (d1, d2) = any_status-tail dropped s ss d in
        let (f1, f2) = any_status-tail failed s ss f in
        elim (Option-cases (locate ss)) [
          | inl none_left ↦ cc (rw (n, none_left, locate) at h)
          | inr (r, found) ↦
              IsSplit-behind s ss r l (pending_or_done s n d1 f1)
                (locate_lem ss r (order_behind s ss o) d2 f2 found) (ground arith)
        ]
  ]

  -- A path that is not finished has no step that is dropped or has failed.
  Fresh-has_no :
      (st : ExecutableSimpleStatus) (ss : List (ExecutionStep L))
      → (not_started == st) ≡ false
      → Fresh ss
      → any_status st ss ≡ false
  unfolding any_status
  Fresh-has_no st [] n f = refl
  Fresh-has_no st (s ∷ ss) n (q, f) = ground (arith, Fresh-has_no st ss n f)

  Fresh-tail :
      (s : ExecutionStep L) (ss : List (ExecutionStep L))
      → InOrder (s ∷ ss)
      → Step.get_status s ≡ not_started
      → Fresh ss
  Fresh-tail s ss (inl (q, o)) p = cc
  Fresh-tail s ss (inr f) p = f

  pub unfinished_lem :
      (ss : List (ExecutionStep L)) (st : ExecutableSimpleStatus)
      → InOrder ss
      → steps_status ss ≡ some st
      → is_finished st ≡ false
      → (any_status dropped ss ≡ false) × (any_status failed ss ≡ false)
  unfolding steps_status
  unfinished_lem [] st o h n = cc
  unfinished_lem (s ∷ ss) st o h n = elim (Bool-cases (Step.get_status s == not_started)) [
    | inl fresh ↦
        let rest = Fresh-tail s ss o (ground arith) in
        (
          ground (arith, Fresh-has_no dropped ss refl rest),
          ground (arith, Fresh-has_no failed ss refl rest),
        )
    | inr started ↦ (ground arith, ground arith)
  ]
