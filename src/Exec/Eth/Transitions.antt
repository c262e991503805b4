-- ===== src/Exec/Eth/Transitions.antt =====
-- The status machine of an Ethereum step.
use privadex.Prelude.{
  ℕ, ◌≡◌, refl, Bool, true, false, Option, none, some, is_some, unwrap_or, arith, ltb, Bool-cases,
  Option-cases, inl, inr, ◌⊎◌, if◌then◌else◌,
}
use privadex.Prelude.Fallible.{ok, or_panic, ok_or}
use privadex.Metadata.Chains.{ChainInfo, get_chain_info_from_chain_id}
use privadex.Plan.Types.{
  CommonExecutionMeta, EthPendingTxnId, EthStepStatus, not_started, submitted, dropped,
}
use privadex.Exec.Status.{failed_to_find_chain_info, rpc_request_failed, StepForwardResult}
use privadex.Exec.Monad.{pure, lift, map_err, >>=-eq-ok}
use privadex.Exec.Services.{Services, StepMeta, KeyContainer}
use privadex.Exec.Eth.{
  EthExecutableHelper, CompletedStepResult, Advance, IsSettled, store_advance, execute_step_forward,
  completed_advance, update_gas_fee, execute_step_forward_if_notstarted,
  execute_step_forward_if_inprogress, advance_by_status,
}

abbrev report : Bool → Option ℕ → StepForwardResult
report b a = record { did_status_change = b; amount_out = a }

-- One successful call takes the status `st` to `st'` and reports `r`.
pub data EthTransition (st st' : EthStepStatus) (r : StepForwardResult) : Type 0 where
  sends :
      (p : EthPendingTxnId)
      → st ≡ not_started
      → st' ≡ submitted p
      → r ≡ report true none
      → EthTransition st st' r
  waits :
      (p : EthPendingTxnId)
      → st ≡ submitted p
      → st' ≡ submitted p
      → r ≡ report false none
      → EthTransition st st' r
  expires :
      (p : EthPendingTxnId)
      → st ≡ submitted p
      → st' ≡ dropped
      → r ≡ report true (some 0)
      → EthTransition st st' r
  settles :
      (p : EthPendingTxnId) (a : ℕ)
      → st ≡ submitted p
      → IsSettled st'
      → r ≡ report true (some a)
      → EthTransition st st' r

module _ (sv : Services) {S : Type 0} (e : EthExecutableHelper sv S) where
  store_advance_lem :
      (s s' : S) (a : Advance) (r : StepForwardResult)
      → store_advance e s a ≡ ok (s', r)
      → (c : CommonExecutionMeta) × (s' ≡ e.update s (unwrap_or a.opt_new_status (e.status s)) c)
        × (r ≡ report (is_some a.opt_new_status) a.opt_amount_out)
  unfolding store_advance
  store_advance_lem s s' a r h =
      elim (Option-cases (update_gas_fee (e.common s) a.opt_actual_gas_fee_native)) [
        | inl stuck ↦ cc (rw (stuck, store_advance) at h)
        | inr (c, priced) ↦ (c, ground arith, ground arith)
      ]

  inprogress_result :
      (s : S) (p : EthPendingTxnId) (c : CompletedStepResult) (w v : sv.World)
      → execute_step_forward_if_inprogress sv e s p w ≡ (ok (some c), v)
      → ((c.new_status ≡ dropped) × (c.amount_out ≡ 0)) ⊎ IsSettled c.new_status
  unfolding execute_step_forward_if_inprogress
  inprogress_result s p c w v h =
      let (chain, w1, e1, h1) = >>=-eq-ok (lift (or_panic (e.get_chain s))) _ h in
      let (info, w2, e2, h2) =
        >>=-eq-ok (lift (ok_or (get_chain_info_from_chain_id chain) failed_to_find_chain_info)) _
          h1 in
      let (block, w3, e3, h3) =
        >>=-eq-ok (map_err (sv.block_number info.rpc_url) rpc_request_failed) _ h2 in
      by_block info block w3 h3
    where
      by_block :
          (info : ChainInfo) (block : ℕ) (u : sv.World)
          → (if ltb p.end_block_num block
                then pure (
                    some
                      (record { new_status = dropped; actual_gas_fee_native = 0; amount_out = 0 }))
                else e.get_completed_step_result s info.rpc_url p.txn_hash)
              u
            ≡ (ok (some c), v)
          → ((c.new_status ≡ dropped) × (c.amount_out ≡ 0)) ⊎ IsSettled c.new_status
      by_block info block u k = elim (Bool-cases (ltb p.end_block_num block)) [
        | inl late ↦ inl (ground arith, ground arith)
        | inr in_time ↦ inr (e.settles s info.rpc_url p.txn_hash u v c (ground arith))
      ]

  module _ (meta : StepMeta sv.World) (keys : KeyContainer) where
    notstarted-submitted :
        (s : S) (st : EthStepStatus) (w v : sv.World)
        → execute_step_forward_if_notstarted sv e meta keys s w ≡ (ok st, v)
        → (p : EthPendingTxnId) × (st ≡ submitted p)
    unfolding execute_step_forward_if_notstarted
    notstarted-submitted s st w v h = ground arith

    -- The transition of the three values, before they are stored.
    advance_transition :
        (s : S) (st : EthStepStatus) (a : Advance) (w v : sv.World)
        → advance_by_status sv e meta keys s st w ≡ (ok a, v)
        → EthTransition st
            (unwrap_or a.opt_new_status st)
            (report (is_some a.opt_new_status) a.opt_amount_out)
    unfolding advance_by_status
    advance_transition s not_started a w v h =
        let (st, u, e1, h1) = >>=-eq-ok (execute_step_forward_if_notstarted sv e meta keys s) _ h in
        let (p, q) = notstarted-submitted s st w u e1 in sends p refl (ground arith) (ground arith)
    advance_transition s (submitted p) a w v h =
        let (res, u, e1, h1) = >>=-eq-ok (execute_step_forward_if_inprogress sv e s p) _ h in
        by_result res e1 (ground arith)
      where
        by_result :
            (res : Option CompletedStepResult) {u : sv.World}
            → execute_step_forward_if_inprogress sv e s p w ≡ (ok res, u)
            → a ≡ completed_advance res
            → EthTransition
                (submitted p)
                (unwrap_or a.opt_new_status (submitted p))
                (report (is_some a.opt_new_status) a.opt_amount_out)
        by_result none r q = waits p refl (ground arith) (ground arith)
        by_result (some c) {u} r q = elim (inprogress_result s p c w u r) [
          | inl (d, z) ↦ expires p refl (ground arith) (ground arith)
          | inr settled ↦ settles p c.amount_out refl (rw q settled) (ground arith)
        ]
    advance_transition s _ a w v h = cc

    pub execute_step_forward-EthTransition :
        (s s' : S) (r : StepForwardResult) (w v : sv.World)
        → execute_step_forward sv e meta keys s w ≡ (ok (s', r), v)
        → EthTransition (e.status s) (e.status s') r
    unfolding execute_step_forward
    execute_step_forward-EthTransition s s' r w v h =
        let (a, u, e1, h1) = >>=-eq-ok (advance_by_status sv e meta keys s (e.status s)) _ h in
        let (c, q, reported) = store_advance_lem s s' a r (ground arith) in
        rw (q, e.status-update, reported) (advance_transition s (e.status s) a w u e1)
