-- ===== src/Exec/Step/Moves.antt =====
-- What one call does to the status of a step, whatever its kind.
use privadex.Prelude.{
  ℕ, ◌≡◌, ◌<◌, refl, ◌⊎◌, inl, inr, Bool, true, false, Bool-cases, Option, none, some, unwrap_or,
  ltb, arith, sym,
}
use privadex.Prelude.Fallible.{Outcome, ok, err, panic}
use privadex.Plan.Types.{
  EthStepStatus, CrossChainStepStatus, ExecutionStepEnum, ExecutionStep, eth_send, erc20_transfer,
  eth_wrap, eth_unwrap, eth_dex_swap, xcm_transfer,
}
use privadex.Plan.Steps.{get_amount_in, drop}
use privadex.Exec.Status.{
  ExecutableError, StepForwardResult, ExecutableSimpleStatus, eth_simple_status,
  cross_chain_simple_status, not_started, in_progress, failed, dropped, succeeded,
}
use privadex.Exec.Monad.{>>=-eq-ok}
use privadex.Exec.Services.{Services, StepMeta, KeyContainer}
use privadex.Exec.Eth
use privadex.Exec.Eth.{IsSettled, EthExecutableHelper}
use privadex.Exec.Eth.Kinds.{
  eth_send_helper, erc20_transfer_helper, eth_wrap_helper, eth_unwrap_helper, eth_dex_swap_helper,
}
use privadex.Exec.Eth.Transitions.{EthTransition, execute_step_forward-EthTransition}
use privadex.Exec.Xcm
use privadex.Exec.Xcm.Transitions.{XcmTransition, execute_step_forward-XcmTransition}
use privadex.Exec.Step.{
  get_status, rewrap, execute_step_forward, inner_step_forward, after_inner, after_termination,
  terminate_exec_step_if_dropped_or_finalized,
}

abbrev pub report : Bool → Option ℕ → StepForwardResult
report b a = record { did_status_change = b; amount_out = a }

-- A call on a step with something to spend takes the status `st` to `st'` and reports `r`.
pub data Move (st st' : ExecutableSimpleStatus) (r : StepForwardResult) : Type 0 where
  sends : st ≡ not_started → st' ≡ in_progress → r ≡ report true none → Move st st' r
  waits : st ≡ in_progress → st' ≡ in_progress → r ≡ report false none → Move st st' r
  crosses : st ≡ in_progress → st' ≡ in_progress → r ≡ report true none → Move st st' r
  expires : st ≡ in_progress → st' ≡ dropped → r ≡ report true (some 0) → Move st st' r
  fails : (a : ℕ) → st ≡ in_progress → st' ≡ failed → r ≡ report true (some a) → Move st st' r
  succeeds : (a : ℕ) → st ≡ in_progress → st' ≡ succeeded → r ≡ report true (some a) → Move st st' r

settled_cases :
    (st : EthStepStatus)
    → IsSettled st
    → (eth_simple_status st ≡ failed) ⊎ (eth_simple_status st ≡ succeeded)
settled_cases (EthStepStatus.failed h) s = inl refl
settled_cases (EthStepStatus.confirmed h) s = inr refl
settled_cases EthStepStatus.not_started s = absurd s
settled_cases (EthStepStatus.submitted p) s = absurd s
settled_cases EthStepStatus.dropped s = absurd s

EthTransition-Move :
    {st st' : EthStepStatus} {r : StepForwardResult}
    → EthTransition st st' r
    → Move (eth_simple_status st) (eth_simple_status st') r
EthTransition-Move (EthTransition.sends p a b c) = sends (ground arith) (ground arith) c
EthTransition-Move (EthTransition.waits p a b c) = waits (ground arith) (ground arith) c
EthTransition-Move (EthTransition.expires p a b c) = expires (ground arith) (ground arith) c
EthTransition-Move {st' = st'} (EthTransition.settles p x a b c) = elim (settled_cases st' b) [
  | inl f ↦ fails x (ground arith) f c
  | inr s ↦ succeeds x (ground arith) s c
]

XcmTransition-Move :
    {st st' : CrossChainStepStatus} {r : StepForwardResult}
    → XcmTransition st st' r
    → Move (cross_chain_simple_status st) (cross_chain_simple_status st') r
XcmTransition-Move (XcmTransition.sends p e a b c) = sends (ground arith) (ground arith) c
XcmTransition-Move (XcmTransition.waits a b c) = waits b (ground arith) c
XcmTransition-Move (XcmTransition.expires p e a b c) = expires (ground arith) (ground arith) c
XcmTransition-Move (XcmTransition.fails p e t a b c) = fails 0 (ground arith) (ground arith) c
XcmTransition-Move (XcmTransition.confirms_locally p e t a b c) =
    crosses (ground arith) (ground arith) c
XcmTransition-Move (XcmTransition.arrives t v x a b c) = succeeds x a (ground arith) c

module _ (sv : Services) (meta : StepMeta sv.World) (keys : KeyContainer) where
  eth_helper-Move :
      {S : Type 0} (e : EthExecutableHelper sv S) (inj : S → ExecutionStepEnum sv.MultiLocation)
      → ((s : S) → get_status (record { inner = inj s }) ≡ eth_simple_status (e.status s))
      → (s : S) (i' : ExecutionStepEnum sv.MultiLocation) (r : StepForwardResult) (w v : sv.World)
      → rewrap inj (Eth.execute_step_forward sv e meta keys s) w ≡ (ok (i', r), v)
      → Move (get_status (record { inner = inj s })) (get_status (record { inner = i' })) r
  eth_helper-Move e inj same s i' r w v h =
      let ((s', r'), u, e1, h1) = >>=-eq-ok (Eth.execute_step_forward sv e meta keys s) _ h in
      let q : inj s' ≡ i' = ground arith in
      let qr : r' ≡ r = ground arith in
      let moved : Move (eth_simple_status (e.status s)) (eth_simple_status (e.status s')) r' =
        EthTransition-Move (execute_step_forward-EthTransition sv e meta keys s s' r' w u e1) in
      rw (sym q, sym qr, same s, same s') moved

  inner-Move :
      (i i' : ExecutionStepEnum sv.MultiLocation) (r : StepForwardResult) (w v : sv.World)
      → inner_step_forward sv meta keys i w ≡ (ok (i', r), v)
      → Move (get_status (record { inner = i })) (get_status (record { inner = i' })) r
  unfolding inner_step_forward get_status
  inner-Move (eth_send s) i' r w v h =
      eth_helper-Move (eth_send_helper sv) eth_send (λ s. refl) s i' r w v h
  inner-Move (erc20_transfer s) i' r w v h =
      eth_helper-Move (erc20_transfer_helper sv) erc20_transfer (λ s. refl) s i' r w v h
  inner-Move (eth_wrap s) i' r w v h =
      eth_helper-Move (eth_wrap_helper sv) eth_wrap (λ s. refl) s i' r w v h
  inner-Move (eth_unwrap s) i' r w v h =
      eth_helper-Move (eth_unwrap_helper sv) eth_unwrap (λ s. refl) s i' r w v h
  inner-Move (eth_dex_swap s) i' r w v h =
      eth_helper-Move (eth_dex_swap_helper sv) eth_dex_swap (λ s. refl) s i' r w v h
  inner-Move (xcm_transfer s) i' r w v h =
      let ((s', r'), u, e1, h1) = >>=-eq-ok (Xcm.execute_step_forward sv meta keys s) _ h in
      let q : xcm_transfer s' ≡ i' = ground arith in
      let qr : r' ≡ r = ground arith in
      let moved : Move (cross_chain_simple_status s.status) (cross_chain_simple_status s'.status)
          r' =
        XcmTransition-Move (execute_step_forward-XcmTransition sv meta keys s s' r' w u e1) in
      rw (sym q, sym qr) moved

  -- A call that succeeds moves a step with something to spend, and drops one without.
  pub data Forwarded (s s' : ExecutionStep sv.MultiLocation) (r : StepForwardResult) : Type 0 where
    moved :
        0 < unwrap_or (get_amount_in s) 0 → Move (get_status s) (get_status s') r → Forwarded s s' r
    gave_up :
        unwrap_or (get_amount_in s) 0 ≡ 0
        → s' ≡ drop s
        → get_status s' ≡ dropped
        → r ≡ report true none
        → Forwarded s s' r

  pub after_termination-ok :
      (s s' : ExecutionStep sv.MultiLocation) (r r' : StepForwardResult) (v : sv.World)
      (t : Outcome ExecutableError (Unit {0}) × sv.World)
      → after_termination sv meta keys s r t ≡ (ok r', s', v)
      → (s ≡ s') × (r ≡ r')
  after_termination-ok s s' r r' v (ok tt, u) h = (ground arith, ground arith)
  after_termination-ok s s' r r' v (err e, u) h = cc
  after_termination-ok s s' r r' v (panic, u) h = cc

  drop-status : (s : ExecutionStep sv.MultiLocation) → get_status (drop s) ≡ dropped
  unfolding get_status drop
  drop-status s = by_kind s.inner
    where
      by_kind :
          (i : ExecutionStepEnum sv.MultiLocation)
          → get_status (drop (record { inner = i })) ≡ dropped
      by_kind (eth_send step) = refl
      by_kind (erc20_transfer step) = refl
      by_kind (eth_wrap step) = refl
      by_kind (eth_unwrap step) = refl
      by_kind (eth_dex_swap step) = refl
      by_kind (xcm_transfer step) = refl

  -- A call that succeeds on a step with a positive amount moves its status along the machine of `Move`
  -- with the report that the code gives for the move (for a step that expires an amount of 0, where the
  -- comment on `amount_out` has None); a step without one is dropped, and the call reports a change
  -- without an amount.
  pub execute_step_forward-Forwarded :
      (s s' : ExecutionStep sv.MultiLocation) (r : StepForwardResult) (w v : sv.World)
      → execute_step_forward sv meta keys s w ≡ (ok r, s', v)
      → Forwarded s s' r
  unfolding execute_step_forward
  execute_step_forward-Forwarded s s' r w v h =
      elim (Bool-cases (ltb 0 (unwrap_or (get_amount_in s) 0))) [
        | inl funded ↦
            by_inner (ground arith) (inner_step_forward sv meta keys s.inner w) refl (ground arith)
        | inr empty ↦
            let (q, qr) =
              after_termination-ok (drop s) s' (report true none) r v
                (terminate_exec_step_if_dropped_or_finalized sv meta keys (drop s) w)
                (ground arith) in
            gave_up (ground arith) (sym q) (rw (sym q) (drop-status s)) (sym qr)
      ]
    where
      by_inner :
          0 < unwrap_or (get_amount_in s) 0
          → (o : Outcome ExecutableError (ExecutionStepEnum sv.MultiLocation × StepForwardResult)
              × sv.World)
          → inner_step_forward sv meta keys s.inner w ≡ o
          → after_inner sv meta keys s o ≡ (ok r, s', v)
          → Forwarded s s' r
      by_inner funded (ok (i, r1), u) e k =
          let (q, qr) =
            after_termination-ok (record { inner = i }) s' r1 r v
              (terminate_exec_step_if_dropped_or_finalized sv meta keys (record { inner = i }) u)
              k in
          let m : Move (get_status s) (get_status (record { inner = i })) r1 =
            inner-Move s.inner i r1 w u e in
          moved funded (rw (sym q, sym qr) m)
      by_inner funded (err x, u) e k = cc
      by_inner funded (panic, u) e k = cc
