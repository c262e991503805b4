-- ===== src/Plan/Validator/Accepts.antt =====
-- What an accepted plan is.
use privadex.Prelude.{
  if◌then◌else◌, ℕ, ◌≡◌, ◌≢◌, refl, ◌↔◌, Bool, false, List, [], ◌∷◌, some, arith, All, any,
}
use privadex.Prelude.Fallible.{ok, err, ◌>>◌, >>-ok_iff}
use privadex.Plan.Types.{
  ExecutionStepEnum, ExecutionStep, ExecutionPath, ExecutionPlan, eth_send, erc20_transfer,
  eth_wrap, eth_unwrap, eth_dex_swap, xcm_transfer,
}
use privadex.Plan.Steps.{get_amount_in}
use privadex.Plan.Validator.{
  validate_transfer, validate_first, validate_step, validate_steps, validate_pair, validate_pairs,
  validate_path, validate_paths, validate_execution_plan, invalid_prestart_step,
  invalid_postend_step, execution_plan_paths_length_zero, execution_path_length_zero,
  ExecutionPlanValidationError, is_empty, Validation,
}

guards_iff :
    (a b : Bool) (e f : ExecutionPlanValidationError) (k : Validation)
    → ((if a then err e else if b then err f else k) ≡ ok tt)
      ↔ ((a ≡ false) × (b ≡ false) × (k ≡ ok tt))
guards_iff a b e f k = ground arith

is_empty_iff {ℓ} : {A : Type ℓ} (xs : List A) → (is_empty xs ≡ false) ↔ (xs ≢ [])
is_empty_iff xs = ground arith

module _ {L : Type 0} where
  -- The prestart and postend steps move the native token or an ERC20 token.
  abbrev pub IsTransfer : ExecutionStepEnum L → Type 0
  IsTransfer (eth_send _) = Unit
  IsTransfer (erc20_transfer _) = Unit
  IsTransfer _ = ⊥

  -- A wrap or an unwrap stays at one address.
  abbrev pub StaysPut : ExecutionStepEnum L → Type 0
  StaysPut (eth_wrap s) = s.common.src_addr ≡ s.common.dest_addr
  StaysPut (eth_unwrap s) = s.common.src_addr ≡ s.common.dest_addr
  StaysPut _ = Unit

  -- Two steps that may follow one another: neither could have been merged with the other.
  abbrev pub MayFollow : ExecutionStepEnum L → ExecutionStepEnum L → Type 0
  MayFollow (eth_wrap _) (xcm_transfer _) = Unit
  MayFollow (eth_unwrap _) (eth_dex_swap _) = Unit
  MayFollow (eth_unwrap _) (xcm_transfer _) = Unit
  MayFollow (eth_dex_swap _) (eth_wrap _) = Unit
  MayFollow (eth_dex_swap a) (eth_dex_swap b) = a.dex_router_addr ≢ b.dex_router_addr
  MayFollow (eth_dex_swap _) (xcm_transfer _) = Unit
  MayFollow (xcm_transfer _) (eth_wrap _) = Unit
  MayFollow (xcm_transfer _) (eth_unwrap _) = Unit
  MayFollow (xcm_transfer _) (eth_dex_swap _) = Unit
  MayFollow (xcm_transfer _) (xcm_transfer _) = Unit
  MayFollow _ _ = ⊥

  abbrev pub Chained : List (ExecutionStep L) → Type 0
  Chained [] = Unit
  Chained (s ∷ []) = Unit
  Chained (s ∷ t ∷ rest) = MayFollow s.inner t.inner × Chained (t ∷ rest)

  abbrev pub HasAmount : List (ExecutionStep L) → Type 0
  HasAmount [] = ⊥
  HasAmount (s ∷ _) = (a : ℕ) × (get_amount_in s ≡ some a)

  -- A transfer is the only step of its path.
  abbrev pub TransfersAlone : List (ExecutionStep L) → Type 0
  TransfersAlone [] = Unit
  TransfersAlone (s ∷ []) = Unit
  TransfersAlone (s ∷ t ∷ rest) = All (λ x. ¬ IsTransfer x.inner) (s ∷ t ∷ rest)

  pub record IsValidPath (p : ExecutionPath L) : Type 0 where
    pub first_amount : HasAmount p.steps
    pub stays_put : All (λ s. StaysPut s.inner) p.steps
    pub transfers_alone : TransfersAlone p.steps
    pub chained : Chained p.steps

  pub record IsValidPlan (plan : ExecutionPlan L) : Type 0 where
    pub some_path : plan.paths ≢ []
    pub prestart : IsTransfer plan.prestart_user_to_escrow_transfer.inner
    pub postend : IsTransfer plan.postend_escrow_to_user_transfer.inner
    pub paths : All IsValidPath plan.paths

  MayFollow-neither :
      (s t : ExecutionStepEnum L) → MayFollow s t → (¬ IsTransfer s) × (¬ IsTransfer t)
  MayFollow-neither s t = ground arith

  Chained-rest :
      (s : ExecutionStep L) (ss : List (ExecutionStep L))
      → Chained (s ∷ ss)
      → All (λ x. ¬ IsTransfer x.inner) ss
  Chained-rest s [] h = tt
  Chained-rest s (t ∷ rest) h = ((MayFollow-neither s.inner t.inner h.0).1, Chained-rest t rest h.1)

  Chained-alone : (ss : List (ExecutionStep L)) → Chained ss → TransfersAlone ss
  Chained-alone [] h = tt
  Chained-alone (s ∷ []) h = tt
  Chained-alone (s ∷ t ∷ rest) h =
      ((MayFollow-neither s.inner t.inner h.0).0, Chained-rest s (t ∷ rest) h)

  validate_pair-MayFollow :
      (s t : ExecutionStepEnum L) → (validate_pair s t ≡ ok tt) ↔ MayFollow s t
  unfolding validate_pair
  validate_pair-MayFollow s t = ground arith

  validate_step-StaysPut : (s : ExecutionStepEnum L) → (validate_step s ≡ ok tt) ↔ StaysPut s
  unfolding validate_step
  validate_step-StaysPut s = ground arith

  validate_steps-StaysPut :
      (ss : List (ExecutionStep L)) → (validate_steps ss ≡ ok tt) ↔ All (λ s. StaysPut s.inner) ss
  unfolding validate_steps
  validate_steps-StaysPut [] = (λ _. tt, λ _. refl)
  validate_steps-StaysPut (s ∷ ss) =
      let both = >>-ok_iff (validate_step s.inner) (validate_steps ss) in
      let here = validate_step-StaysPut s.inner in
      let rest = validate_steps-StaysPut ss in
      (λ h. (here.0 (both.0 h).0, rest.0 (both.0 h).1), λ h. both.1 (here.1 h.0, rest.1 h.1))

  validate_pairs-Chained : (ss : List (ExecutionStep L)) → (validate_pairs ss ≡ ok tt) ↔ Chained ss
  unfolding validate_pairs
  validate_pairs-Chained [] = (λ _. tt, λ _. refl)
  validate_pairs-Chained (s ∷ []) = (λ _. tt, λ _. refl)
  validate_pairs-Chained (s ∷ t ∷ rest) =
      let both = >>-ok_iff (validate_pair s.inner t.inner) (validate_pairs (t ∷ rest)) in
      let here = validate_pair-MayFollow s.inner t.inner in
      let more = validate_pairs-Chained (t ∷ rest) in
      (λ h. (here.0 (both.0 h).0, more.0 (both.0 h).1), λ h. both.1 (here.1 h.0, more.1 h.1))

  validate_first-HasAmount :
      (ss : List (ExecutionStep L)) → (validate_first ss ≡ ok tt) ↔ HasAmount ss
  unfolding validate_first
  validate_first-HasAmount [] = (λ h. cc, λ h. absurd h)
  validate_first-HasAmount (s ∷ ss) = ground arith

  validate_path-IsValidPath : (p : ExecutionPath L) → (validate_path p ≡ ok tt) ↔ IsValidPath p
  unfolding validate_path
  validate_path-IsValidPath p =
      let first = validate_first-HasAmount p.steps in
      let steps = validate_steps-StaysPut p.steps in
      let pairs = validate_pairs-Chained p.steps in
      let one =
        >>-ok_iff (validate_first p.steps >> validate_steps p.steps) (validate_pairs p.steps) in
      let two = >>-ok_iff (validate_first p.steps) (validate_steps p.steps) in
      (
        λ h. record {
          first_amount = first.0 (two.0 (one.0 h).0).0;
          stays_put = steps.0 (two.0 (one.0 h).0).1;
          transfers_alone = Chained-alone p.steps (pairs.0 (one.0 h).1);
          chained = pairs.0 (one.0 h).1;
        },
        λ v. one.1 (two.1 (first.1 v.first_amount, steps.1 v.stays_put), pairs.1 v.chained),
      )

  validate_paths-IsValidPath :
      (ps : List (ExecutionPath L)) → (validate_paths ps ≡ ok tt) ↔ All IsValidPath ps
  unfolding validate_paths
  validate_paths-IsValidPath [] = (λ _. tt, λ _. refl)
  validate_paths-IsValidPath (p ∷ ps) =
      let both = >>-ok_iff (validate_path p) (validate_paths ps) in
      let here = validate_path-IsValidPath p in
      let rest = validate_paths-IsValidPath ps in
      (λ h. (here.0 (both.0 h).0, rest.0 (both.0 h).1), λ h. both.1 (here.1 h.0, rest.1 h.1))

  -- A valid path has a step, so the guard on empty paths lets valid plans through.
  IsValidPath-not_empty :
      (ps : List (ExecutionPath L)) → All IsValidPath ps → any (λ p. is_empty p.steps) ps ≡ false
  IsValidPath-not_empty [] h = refl
  IsValidPath-not_empty (p ∷ ps) h = ground (arith, h.0.first_amount, IsValidPath-not_empty ps h.1)

  validate_transfer-IsTransfer :
      (e : ExecutionPlanValidationError) (s : ExecutionStepEnum L)
      → (validate_transfer e s ≡ ok tt) ↔ IsTransfer s
  unfolding validate_transfer
  validate_transfer-IsTransfer e s = ground arith

  -- The validator accepts a plan exactly when the plan has a path, starts and ends with a transfer,
  -- and each of its paths has a first amount, keeps wraps and unwraps at one address, and has only
  -- steps that may follow one another, a transfer only as the one step of its path. The comments on the
  -- errors of the validator expect no transfer in a path at all; the validator looks at the kinds of the
  -- steps only in pairs, and accepts a path of one.
  pub validate_execution_plan_iff :
      (plan : ExecutionPlan L) → (validate_execution_plan plan ≡ ok tt) ↔ IsValidPlan plan
  unfolding validate_execution_plan
  validate_execution_plan_iff plan =
      let before = plan.prestart_user_to_escrow_transfer.inner in
      let after = plan.postend_escrow_to_user_transfer.inner in
      let start = validate_transfer-IsTransfer invalid_prestart_step before in
      let end = validate_transfer-IsTransfer invalid_postend_step after in
      let paths = validate_paths-IsValidPath plan.paths in
      let fst =
        >>-ok_iff (validate_transfer invalid_prestart_step before)
          (validate_transfer invalid_postend_step after >> validate_paths plan.paths) in
      let snd =
        >>-ok_iff (validate_transfer invalid_postend_step after) (validate_paths plan.paths) in
      let guards =
        guards_iff (is_empty plan.paths) (any (λ p. is_empty p.steps) plan.paths)
          execution_plan_paths_length_zero execution_path_length_zero
          (validate_transfer invalid_prestart_step before
            >> (validate_transfer invalid_postend_step after >> validate_paths plan.paths)) in
      (
        λ h.
            let k = fst.0 (guards.0 h).2 in
            let m = snd.0 k.1 in
            record {
              some_path = (is_empty_iff plan.paths).0 (guards.0 h).0;
              prestart = start.0 k.0;
              postend = end.0 m.0;
              paths = paths.0 m.1;
            },
        λ v. guards.1 (
          (is_empty_iff plan.paths).1 v.some_path,
          IsValidPath-not_empty plan.paths v.paths,
          fst.1 (start.1 v.prestart, snd.1 (end.1 v.postend, paths.1 v.paths)),
        ),
      )
