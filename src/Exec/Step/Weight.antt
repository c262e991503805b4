-- ===== src/Exec/Step/Weight.antt =====
-- How many more times the status of a step can change.
use privadex.Prelude.{
  ℕ, ◌+◌, ◌≤◌, ◌<◌, ◌≡◌, refl, ◌⊎◌, inl, inr, Bool, true, false, Bool-cases, none, unwrap_or, ltb,
  arith, sym,
}
use privadex.Prelude.Fallible.{Outcome, ok, err, panic}
use privadex.Plan.Types.{
  EthStepStatus, CrossChainStepStatus, ExecutionStepEnum, ExecutionStep, eth_send, erc20_transfer,
  eth_wrap, eth_unwrap, eth_dex_swap, xcm_transfer,
}
use privadex.Plan.Steps.{get_amount_in, drop, set_amount_in}
use privadex.Exec.Status.{
  ExecutableError, StepForwardResult, eth_simple_status, cross_chain_simple_status, not_started,
  in_progress,
}
use privadex.Exec.Monad.{>>=-eq-ok}
use privadex.Exec.Services.{Services, StepMeta, KeyContainer}
use privadex.Exec.Eth
use privadex.Exec.Eth.{IsSettled, EthExecutableHelper}
use privadex.Exec.Eth.Kinds.{
  eth_send_helper, erc20_transfer_helper, eth_wrap_helper, eth_unwrap_helper, eth_dex_swap_helper,
}
use privadex.Exec.Eth.Transitions.{EthTransition, execute_step_forward-EthTransition}
use privadex.Exec.Xcm
use privadex.Exec.Xcm.Transitions.{XcmTransition, execute_step_forward-XcmTransition}
use privadex.Exec.Step.{
  get_status, rewrap, execute_step_forward, inner_step_forward, after_inner,
  terminate_exec_step_if_dropped_or_finalized,
}
use privadex.Exec.Step.Moves.{report, after_termination-ok}

abbrev pub tick : Bool → ℕ
tick true = 1
tick false = 0

abbrev eth_weight : EthStepStatus → ℕ
eth_weight EthStepStatus.not_started = 2
eth_weight (EthStepStatus.submitted p) = 1
eth_weight _ = 0

abbrev xcm_weight : CrossChainStepStatus → ℕ
xcm_weight CrossChainStepStatus.not_started = 3
xcm_weight (CrossChainStepStatus.submitted p e) = 2
xcm_weight (CrossChainStepStatus.local_confirmed t e) = 1
xcm_weight _ = 0

eth_pending :
    (st : EthStepStatus)
    → (eth_simple_status st ≡ not_started) ⊎ (eth_simple_status st ≡ in_progress)
    → 0 < eth_weight st
eth_pending st q = ground arith

xcm_pending :
    (st : CrossChainStepStatus)
    → (cross_chain_simple_status st ≡ not_started) ⊎ (cross_chain_simple_status st ≡ in_progress)
    → 0 < xcm_weight st
xcm_pending st q = ground arith

module _ {L : Type 0} where
  abbrev inner_weight : ExecutionStepEnum L → ℕ
  inner_weight (eth_send step) = eth_weight step.status
  inner_weight (erc20_transfer step) = eth_weight step.status
  inner_weight (eth_wrap step) = eth_weight step.status
  inner_weight (eth_unwrap step) = eth_weight step.status
  inner_weight (eth_dex_swap step) = eth_weight step.status
  inner_weight (xcm_transfer step) = xcm_weight step.status

  unfoldable pub weight : ExecutionStep L → ℕ
  weight s = inner_weight s.inner

  pub set_amount_in-weight : (s : ExecutionStep L) (a : ℕ) → weight (set_amount_in s a) ≡ weight s
  unfolding weight set_amount_in
  set_amount_in-weight s a = by_kind s.inner
    where
      by_kind :
          (i : ExecutionStepEnum L)
          → weight (set_amount_in (record { inner = i }) a) ≡ weight (record { inner = i })
      by_kind (eth_send step) = refl
      by_kind (erc20_transfer step) = refl
      by_kind (eth_wrap step) = refl
      by_kind (eth_unwrap step) = refl
      by_kind (eth_dex_swap step) = refl
      by_kind (xcm_transfer step) = refl

  drop-weight : (s : ExecutionStep L) → weight (drop s) ≡ 0
  unfolding weight drop
  drop-weight s = by_kind s.inner
    where
      by_kind : (i : ExecutionStepEnum L) → weight (drop (record { inner = i })) ≡ 0
      by_kind (eth_send step) = refl
      by_kind (erc20_transfer step) = refl
      by_kind (eth_wrap step) = refl
      by_kind (eth_unwrap step) = refl
      by_kind (eth_dex_swap step) = refl
      by_kind (xcm_transfer step) = refl

  pub pending-weight :
      (s : ExecutionStep L)
      → (get_status s ≡ not_started) ⊎ (get_status s ≡ in_progress)
      → 0 < weight s
  unfolding weight get_status
  pending-weight s = by_kind s.inner
    where
      by_kind :
          (i : ExecutionStepEnum L)
          → (get_status (record { inner = i }) ≡ not_started)
            ⊎ (get_status (record { inner = i }) ≡ in_progress)
          → 0 < weight (record { inner = i })
      by_kind (eth_send step) = eth_pending step.status
      by_kind (erc20_transfer step) = eth_pending step.status
      by_kind (eth_wrap step) = eth_pending step.status
      by_kind (eth_unwrap step) = eth_pending step.status
      by_kind (eth_dex_swap step) = eth_pending step.status
      by_kind (xcm_transfer step) = xcm_pending step.status

settled_weight : (st : EthStepStatus) → IsSettled st → eth_weight st ≡ 0
settled_weight (EthStepStatus.failed h) s = refl
settled_weight (EthStepStatus.confirmed h) s = refl
settled_weight EthStepStatus.not_started s = absurd s
settled_weight (EthStepStatus.submitted p) s = absurd s
settled_weight EthStepStatus.dropped s = absurd s

eth_descends :
    {st st' : EthStepStatus} {r : StepForwardResult}
    → EthTransition st st' r
    → eth_weight st' + tick r.did_status_change ≤ eth_weight st
eth_descends (EthTransition.sends p a b c) = rw (a, b, c) (omega arith)
eth_descends (EthTransition.waits p a b c) = rw (a, b, c) (omega arith)
eth_descends (EthTransition.expires p a b c) = rw (a, b, c) (omega arith)
eth_descends {st' = st'} (EthTransition.settles p x a b c) =
    rw (a, settled_weight st' b, c) (omega arith)

xcm_in_progress :
    (st : CrossChainStepStatus) → cross_chain_simple_status st ≡ in_progress → 0 < xcm_weight st
xcm_in_progress st q = ground arith

xcm_descends :
    {st st' : CrossChainStepStatus} {r : StepForwardResult}
    → XcmTransition st st' r
    → xcm_weight st' + tick r.did_status_change ≤ xcm_weight st
xcm_descends (XcmTransition.sends p e a b c) = rw (a, b, c) (omega arith)
xcm_descends (XcmTransition.waits a b c) = rw (a, c) (omega arith)
xcm_descends (XcmTransition.expires p e a b c) = rw (a, b, c) (omega arith)
xcm_descends (XcmTransition.fails p e t a b c) = rw (a, b, c) (omega arith)
xcm_descends (XcmTransition.confirms_locally p e t a b c) = rw (a, b, c) (omega arith)
xcm_descends {st = st} (XcmTransition.arrives t v x a b c) =
    rw (b, c) (omega (arith, xcm_in_progress st a))

module _ (sv : Services) (meta : StepMeta sv.World) (keys : KeyContainer) where
  eth-descends :
      {S : Type 0} (e : EthExecutableHelper sv S) (inj : S → ExecutionStepEnum sv.MultiLocation)
      → ((s : S) → weight (record { inner = inj s }) ≡ eth_weight (e.status s))
      → (s : S) (i' : ExecutionStepEnum sv.MultiLocation) (r : StepForwardResult) (w v : sv.World)
      → rewrap inj (Eth.execute_step_forward sv e meta keys s) w ≡ (ok (i', r), v)
      → weight (record { inner = i' }) + tick r.did_status_change
        ≤ weight (record { inner = inj s })
  eth-descends e inj same s i' r w v h =
      let ((s', r'), u, e1, h1) = >>=-eq-ok (Eth.execute_step_forward sv e meta keys s) _ h in
      let q : inj s' ≡ i' = ground arith in
      let qr : r' ≡ r = ground arith in
      let below : eth_weight (e.status s') + tick r'.did_status_change ≤ eth_weight (e.status s) =
        eth_descends (execute_step_forward-EthTransition sv e meta keys s s' r' w u e1) in
      rw (sym q, sym qr, same s, same s') below

  inner-descends :
      (i i' : ExecutionStepEnum sv.MultiLocation) (r : StepForwardResult) (w v : sv.World)
      → inner_step_forward sv meta keys i w ≡ (ok (i', r), v)
      → weight (record { inner = i' }) + tick r.did_status_change ≤ weight (record { inner = i })
  unfolding inner_step_forward weight
  inner-descends (eth_send s) i' r w v h =
      eth-descends (eth_send_helper sv) eth_send (λ s. refl) s i' r w v h
  inner-descends (erc20_transfer s) i' r w v h =
      eth-descends (erc20_transfer_helper sv) erc20_transfer (λ s. refl) s i' r w v h
  inner-descends (eth_wrap s) i' r w v h =
      eth-descends (eth_wrap_helper sv) eth_wrap (λ s. refl) s i' r w v h
  inner-descends (eth_unwrap s) i' r w v h =
      eth-descends (eth_unwrap_helper sv) eth_unwrap (λ s. refl) s i' r w v h
  inner-descends (eth_dex_swap s) i' r w v h =
      eth-descends (eth_dex_swap_helper sv) eth_dex_swap (λ s. refl) s i' r w v h
  inner-descends (xcm_transfer s) i' r w v h =
      let ((s', r'), u, e1, h1) = >>=-eq-ok (Xcm.execute_step_forward sv meta keys s) _ h in
      let q : xcm_transfer s' ≡ i' = ground arith in
      let qr : r' ≡ r = ground arith in
      let below : xcm_weight s'.status + tick r'.did_status_change ≤ xcm_weight s.status =
        xcm_descends (execute_step_forward-XcmTransition sv meta keys s s' r' w u e1) in
      rw (sym q, sym qr) below

  -- A call on a pending step that reports a change has used up at least one of its changes.
  pub execute_step_forward-descends :
      (s s' : ExecutionStep sv.MultiLocation) (r : StepForwardResult) (w v : sv.World)
      → (get_status s ≡ not_started) ⊎ (get_status s ≡ in_progress)
      → execute_step_forward sv meta keys s w ≡ (ok r, s', v)
      → weight s' + tick r.did_status_change ≤ weight s
  unfolding execute_step_forward
  execute_step_forward-descends s s' r w v p h =
      elim (Bool-cases (ltb 0 (unwrap_or (get_amount_in s) 0))) [
        | inl funded ↦ by_inner (inner_step_forward sv meta keys s.inner w) refl (ground arith)
        | inr empty ↦
            let (q, qr) =
              after_termination-ok sv meta keys (drop s) s' (report true none) r v
                (terminate_exec_step_if_dropped_or_finalized sv meta keys (drop s) w)
                (ground arith) in
            rw (sym q, sym qr, drop-weight s) (omega (arith, pending-weight s p))
      ]
    where
      by_inner :
          (o : Outcome ExecutableError (ExecutionStepEnum sv.MultiLocation × StepForwardResult)
            × sv.World)
          → inner_step_forward sv meta keys s.inner w ≡ o
          → after_inner sv meta keys s o ≡ (ok r, s', v)
          → weight s' + tick r.did_status_change ≤ weight s
      by_inner (ok (i, r1), u) e k =
          let (q, qr) =
            after_termination-ok sv meta keys (record { inner = i }) s' r1 r v
              (terminate_exec_step_if_dropped_or_finalized sv meta keys (record { inner = i }) u)
              k in
          let m : weight (record { inner = i }) + tick r1.did_status_change ≤ weight s =
            inner-descends s.inner i r1 w u e in
          rw (sym q, sym qr) m
      by_inner (err x, u) e k = cc
      by_inner (panic, u) e k = cc
