-- ===== src/Exec/Xcm/Remote.antt =====
-- What becomes of a transfer in flight: on its own chain, and then on the remote chain.
use privadex.Prelude.{
  subst, Bool-cases, arith, inl, inr, ◌⊎◌, ℕ, ◌≡◌, refl, Option, none, some, ltb,
}
use privadex.Prelude.Fallible.{Outcome, ok, err, panic, ok_or}
use privadex.Metadata.Ids.{chain_eq}
use privadex.Plan.Types.{
  XcmTransferStep, PendingTxnId, FinalizedTxnId, EthPendingTxnId, SubstratePendingExtrinsicId,
  SubstratePendingEventId, SubstrateEventId, dropped, failed, local_confirmed, confirmed,
}
use privadex.Exec.Status.{ExecutableError, unexpected_null_amount}
use privadex.Exec.Monad.{lift, >>=-eq-ok}
use privadex.Exec.Services.{Services, TxnSummary, ExtrinsicSummary}
use privadex.Exec.Xcm.Results.{
  finalized_extrinsic, IntermediateStepResult, complete_eth_submitted, complete_extrinsic_submitted,
  complete_local_confirmed, summarize, merge_remote,
}
use privadex.Exec.Xcm.{
  get_chain_utils, execute_step_forward_if_submitted, execute_step_forward_if_local_confirmed,
  submitted_helper, check_remote, execute_step_forward_if_submitted_eth_helper,
  execute_step_forward_if_submitted_substrate_helper,
}

-- What a pending transfer turns into before the remote chain is asked.
pub data LocalResult (e : SubstratePendingEventId) (res : IntermediateStepResult) : Type 0 where
  expired : res.new_status ≡ dropped → res.amount_out ≡ some 0 → LocalResult e res
  refused :
      (t : FinalizedTxnId) → res.new_status ≡ failed t → res.amount_out ≡ some 0 → LocalResult e res
  confirmed_here :
      (t : FinalizedTxnId)
      → res.new_status ≡ local_confirmed t e
      → res.amount_out ≡ none
      → LocalResult e res

complete_eth_submitted_lem :
    (p : EthPendingTxnId) (e : SubstratePendingEventId) (t : TxnSummary)
    → LocalResult e (complete_eth_submitted p e t)
unfolding complete_eth_submitted
complete_eth_submitted_lem p e t = elim (Bool-cases t.is_txn_success) [
  | inl good ↦ confirmed_here (FinalizedTxnId.ethereum p.txn_hash) (ground arith) (ground arith)
  | inr bad ↦ refused (FinalizedTxnId.ethereum p.txn_hash) (ground arith) (ground arith)
]

complete_extrinsic_submitted_lem :
    (e : SubstratePendingEventId) (t : ExtrinsicSummary)
    → LocalResult e (complete_extrinsic_submitted e t)
unfolding complete_extrinsic_submitted
complete_extrinsic_submitted_lem e t = elim (Bool-cases t.is_extrinsic_success) [
  | inl good ↦ confirmed_here (finalized_extrinsic t) (ground arith) (ground arith)
  | inr bad ↦ refused (finalized_extrinsic t) (ground arith) (ground arith)
]

module _ {T W : Type 0} where
  summarize-eq-some :
      (f : T → IntermediateStepResult) (call : W → Option T × W) (w v : W)
      (res : IntermediateStepResult)
      → summarize f call w ≡ (ok (some res), v)
      → (t : T) × (res ≡ f t)
  summarize-eq-some f call w v res h = by_answer (call w) h
    where
      by_answer :
          (r : Option T × W)
          → ◌≡◌ {A = Outcome ExecutableError (Option IntermediateStepResult) × W}
              (ok (elim r.0 [ none ↦ none | some t ↦ some (f t) ]), r.1)
              (ok (some res), v)
          → (t : T) × (res ≡ f t)
      by_answer (none, u) k = cc
      by_answer (some t, u) k = (t, ground arith)

-- What the remote chain answers.
abbrev pub Arrival : IntermediateStepResult → Type 0
Arrival res =
    (t : FinalizedTxnId) × (v : SubstrateEventId) × (a : ℕ) × (res.new_status ≡ confirmed t v)
    × (res.amount_out ≡ some a)

merge_remote_lem :
    (e : SubstratePendingEventId) (res out : IntermediateStepResult)
    (answer : Outcome ExecutableError (Option IntermediateStepResult))
    → LocalResult e res
    → ((c : IntermediateStepResult) → answer ≡ ok (some c) → Arrival c)
    → merge_remote res answer ≡ ok (some out)
    → LocalResult e out ⊎ Arrival out
unfolding merge_remote
merge_remote_lem e res out (ok (some c)) here arrival h =
    let (t, v, a, q, r) = arrival c refl in inr (t, v, a, ground arith, ground arith)
merge_remote_lem e res out (ok none) here arrival h =
    let q : res ≡ out = ground arith in
    inl (subst {A = IntermediateStepResult} (LocalResult e) q here)
merge_remote_lem e res out (err x) here arrival h =
    let q : res ≡ out = ground arith in
    inl (subst {A = IntermediateStepResult} (LocalResult e) q here)
merge_remote_lem e res out panic here arrival h = cc

module _ (sv : Services) where
  eth_helper_lem :
      (s : XcmTransferStep sv.MultiLocation) (p : EthPendingTxnId) (e : SubstratePendingEventId)
      (w v : sv.World) (res : IntermediateStepResult)
      → execute_step_forward_if_submitted_eth_helper sv s p e w ≡ (ok (some res), v)
      → LocalResult e res
  unfolding execute_step_forward_if_submitted_eth_helper
  eth_helper_lem s p e w v res h =
      let ((info, block), u, _, k) = >>=-eq-ok (get_chain_utils sv s.src_token.chain) _ h in
      elim (Bool-cases (ltb p.end_block_num block)) [
        | inl late ↦ expired (ground arith) (ground arith)
        | inr in_time ↦
            let (t, q) =
              summarize-eq-some (complete_eth_submitted p e)
                (sv.get_txn_summary info.rpc_url p.txn_hash) u v res (ground arith) in
            rw q (complete_eth_submitted_lem p e t)
      ]

  substrate_helper_lem :
      (s : XcmTransferStep sv.MultiLocation) (p : SubstratePendingExtrinsicId)
      (e : SubstratePendingEventId) (w v : sv.World) (res : IntermediateStepResult)
      → execute_step_forward_if_submitted_substrate_helper sv s p e w ≡ (ok (some res), v)
      → LocalResult e res
  unfolding execute_step_forward_if_submitted_substrate_helper
  substrate_helper_lem s p e w v res h =
      let ((info, block), u, _, k) = >>=-eq-ok (get_chain_utils sv s.src_token.chain) _ h in
      elim (Bool-cases (ltb p.end_block_num block)) [
        | inl late ↦ expired (ground arith) (ground arith)
        | inr in_time ↦
            let (t, q) =
              summarize-eq-some (complete_extrinsic_submitted e)
                (sv.lookup_extrinsic_by_hash info.subsquid_graphql_archive_url p.start_block_num
                  block p.extrinsic_hash)
                u v res (ground arith) in
            rw q (complete_extrinsic_submitted_lem e t)
      ]

  submitted_helper_lem :
      (s : XcmTransferStep sv.MultiLocation) (p : PendingTxnId) (e : SubstratePendingEventId)
      (w v : sv.World) (res : IntermediateStepResult)
      → submitted_helper sv s p e w ≡ (ok (some res), v)
      → LocalResult e res
  unfolding submitted_helper
  submitted_helper_lem s (PendingTxnId.ethereum p) e = eth_helper_lem s p e
  submitted_helper_lem s (PendingTxnId.substrate p) e = substrate_helper_lem s p e

  pub local_confirmed_lem :
      (s : XcmTransferStep sv.MultiLocation) (t : FinalizedTxnId) (e : SubstratePendingEventId)
      (w v : sv.World) (res : IntermediateStepResult)
      → execute_step_forward_if_local_confirmed sv s t e w ≡ (ok (some res), v)
      → Arrival res
  unfolding execute_step_forward_if_local_confirmed complete_local_confirmed
  local_confirmed_lem s t e w v res h =
      let (a, u, _, k) = >>=-eq-ok (lift (ok_or s.amount_in unexpected_null_amount)) _ h in
      let ((info, block), u', _, k') = >>=-eq-ok (get_chain_utils sv s.dest_token.chain) _ k in
      let (summary, q) =
        summarize-eq-some (complete_local_confirmed t)
          (sv.lookup_xcm_event_transfer info.subsquid_graphql_archive_url e.start_block_num block
            s.src_token s.dest_token a s.common.dest_addr)
          u' v res k' in
      (
        t,
        record { block_num = summary.block_num; event_index = summary.event_index },
        summary.amount_out,
        ground arith,
        ground arith,
      )

  check_remote_lem :
      (s : XcmTransferStep sv.MultiLocation) (e : SubstratePendingEventId)
      (res out : IntermediateStepResult) (w v : sv.World)
      → LocalResult e res
      → check_remote sv s (some res) w ≡ (ok (some out), v)
      → LocalResult e out ⊎ Arrival out
  unfolding check_remote merge_remote
  check_remote_lem s e res out w v (expired q a) h =
      let same : res ≡ out = ground arith in
      inl (subst {A = IntermediateStepResult} (LocalResult e) same (expired q a))
  check_remote_lem s e res out w v (refused t q a) h =
      let same : res ≡ out = ground arith in
      inl (subst {A = IntermediateStepResult} (LocalResult e) same (refused t q a))
  check_remote_lem s e res out w v (confirmed_here t q a) h =
      by_answer (execute_step_forward_if_local_confirmed sv s t e w) refl h
    where
      by_answer :
          (r : Outcome ExecutableError (Option IntermediateStepResult) × sv.World)
          → execute_step_forward_if_local_confirmed sv s t e w ≡ r
          → check_remote sv s (some res) w ≡ (ok (some out), v)
          → LocalResult e out ⊎ Arrival out
      by_answer (answer, u) asked k =
          merge_remote_lem e res out answer (confirmed_here t q a)
            (λ c r. local_confirmed_lem s t e w u c (ground arith)) (ground arith)

  pub submitted_lem :
      (s : XcmTransferStep sv.MultiLocation) (p : PendingTxnId) (e : SubstratePendingEventId)
      (w v : sv.World) (out : IntermediateStepResult)
      → execute_step_forward_if_submitted sv s p e w ≡ (ok (some out), v)
      → LocalResult e out ⊎ Arrival out
  unfolding execute_step_forward_if_submitted check_remote
  submitted_lem s p e w v out h =
      let (res, u, e1, h1) = >>=-eq-ok (submitted_helper sv s p e) _ h in by_result res e1 h1
    where
      by_result :
          (res : Option IntermediateStepResult) {u : sv.World}
          → submitted_helper sv s p e w ≡ (ok res, u)
          → check_remote sv s res u ≡ (ok (some out), v)
          → LocalResult e out ⊎ Arrival out
      by_result none e1 h1 = cc
      by_result (some res) {u} e1 h1 =
          check_remote_lem s e res out u v (submitted_helper_lem s p e w u res e1) h1
