-- ===== src/Exec/Xcm/Transitions.antt =====
-- The status machine of an XCM step.
use privadex.Prelude.{
  subst, arith, inl, inr, is_some, Option-cases, ℕ, ◌≡◌, refl, Bool, true, false, Option, none,
  some,
}
use privadex.Prelude.Fallible.{ok}
use privadex.Metadata.Ids.{chain_eq}
use privadex.Plan.Types.{
  XcmTransferStep, CrossChainStepStatus, PendingTxnId, FinalizedTxnId, SubstratePendingEventId,
  SubstrateEventId, not_started, submitted, dropped, failed, local_confirmed, confirmed,
}
use privadex.Exec.Status.{cross_chain_simple_status, in_progress, StepForwardResult}
use privadex.Exec.Monad.{>>=-eq-ok}
use privadex.Exec.Services.{Services, StepMeta, KeyContainer}
use privadex.Exec.Eth.{update_gas_fee}
use privadex.Exec.Xcm.Results.{IntermediateStepResult, store_intermediate}
use privadex.Exec.Xcm.{
  execute_step_forward, intermediate_by_status, execute_step_forward_if_notstarted,
}
use privadex.Exec.Xcm.Remote.{expired, refused, confirmed_here, local_confirmed_lem, submitted_lem}
use privadex.Exec.Xcm.Sends.{notstarted_lem}

abbrev report : Bool → Option ℕ → StepForwardResult
report b a = record { did_status_change = b; amount_out = a }

-- One successful call takes the status `st` to `st'` and reports `r`. The pending event of a
-- transfer confirmed on its own chain is the one it was submitted with.
pub data XcmTransition (st st' : CrossChainStepStatus) (r : StepForwardResult) : Type 0 where
  sends :
      (p : PendingTxnId) (e : SubstratePendingEventId)
      → st ≡ not_started
      → st' ≡ submitted p e
      → r ≡ report true none
      → XcmTransition st st' r
  waits :
      (st' ≡ st)
      → cross_chain_simple_status st ≡ in_progress
      → r ≡ report false none
      → XcmTransition st st' r
  expires :
      (p : PendingTxnId) (e : SubstratePendingEventId)
      → st ≡ submitted p e
      → st' ≡ dropped
      → r ≡ report true (some 0)
      → XcmTransition st st' r
  fails :
      (p : PendingTxnId) (e : SubstratePendingEventId) (t : FinalizedTxnId)
      → st ≡ submitted p e
      → st' ≡ failed t
      → r ≡ report true (some 0)
      → XcmTransition st st' r
  confirms_locally :
      (p : PendingTxnId) (e : SubstratePendingEventId) (t : FinalizedTxnId)
      → st ≡ submitted p e
      → st' ≡ local_confirmed t e
      → r ≡ report true none
      → XcmTransition st st' r
  arrives :
      (t : FinalizedTxnId) (v : SubstrateEventId) (a : ℕ)
      → cross_chain_simple_status st ≡ in_progress
      → st' ≡ confirmed t v
      → r ≡ report true (some a)
      → XcmTransition st st' r

store_intermediate_lem :
    {L : Type 0} (s s' : XcmTransferStep L) (o : Option IntermediateStepResult)
    (r : StepForwardResult)
    → store_intermediate s o ≡ ok (s', r)
    → (s'.status ≡ elim o [ none ↦ s.status | some res ↦ res.new_status ])
      × (r ≡ report (is_some o) (elim o [ none ↦ none | some res ↦ res.amount_out ]))
unfolding store_intermediate
store_intermediate_lem s s' none r h = (ground arith, ground arith)
store_intermediate_lem s s' (some res) r h =
    elim (Option-cases (update_gas_fee s.common res.updated_gas_fee_native)) [
      | inl stuck ↦ cc (rw (stuck, store_intermediate) at h)
      | inr (c, priced) ↦ (ground arith, ground arith)
    ]

module _ (sv : Services) where
  module _ (meta : StepMeta sv.World) (keys : KeyContainer) where
    by_status_lem :
        (s : XcmTransferStep sv.MultiLocation) (st : CrossChainStepStatus) (w v : sv.World)
        (o : Option IntermediateStepResult)
        → intermediate_by_status sv meta keys s st w ≡ (ok o, v)
        → XcmTransition st
            (elim o [ none ↦ st | some res ↦ res.new_status ])
            (report (is_some o) (elim o [ none ↦ none | some res ↦ res.amount_out ]))
    unfolding intermediate_by_status
    by_status_lem s not_started w v o h =
        let (res, u, e1, h1) = >>=-eq-ok (execute_step_forward_if_notstarted sv meta keys s) _ h in
        let (p, e, q) = notstarted_lem sv meta keys s w u res e1 in
        let o_is : some res ≡ o = ground arith in
        subst {A = Option IntermediateStepResult}
          (λ o.
            XcmTransition not_started (elim o [ none ↦ not_started | some res ↦ res.new_status ])
              (report (is_some o) (elim o [ none ↦ none | some res ↦ res.amount_out ])))
          o_is (sends p e refl (ground arith) (ground arith))
    by_status_lem s (submitted p e) w v none h = waits refl refl refl
    by_status_lem s (submitted p e) w v (some res) h = elim (submitted_lem sv s p e w v res h) [
      | inl (expired q a) ↦ expires p e refl q (ground arith)
      | inl (refused t q a) ↦ fails p e t refl q (ground arith)
      | inl (confirmed_here t q a) ↦ confirms_locally p e t refl q (ground arith)
      | inr (t, ev, a, q, r) ↦ arrives t ev a refl q (ground arith)
    ]
    by_status_lem s (local_confirmed t e) w v none h = waits refl refl refl
    by_status_lem s (local_confirmed t e) w v (some res) h =
        let (t', ev, a, q, r) = local_confirmed_lem sv s t e w v res h in
        arrives t' ev a refl q (ground arith)
    by_status_lem s _ w v o h = cc

    pub execute_step_forward-XcmTransition :
        (s s' : XcmTransferStep sv.MultiLocation) (r : StepForwardResult) (w v : sv.World)
        → execute_step_forward sv meta keys s w ≡ (ok (s', r), v)
        → XcmTransition s.status s'.status r
    unfolding execute_step_forward
    execute_step_forward-XcmTransition s s' r w v h =
        let (o, u, e1, h1) = >>=-eq-ok (intermediate_by_status sv meta keys s s.status) _ h in
        let (q, reported) = store_intermediate_lem s s' o r (ground arith) in
        rw (q, reported) (by_status_lem s s.status w u o e1)
