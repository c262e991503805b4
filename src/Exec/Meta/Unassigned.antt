-- ===== src/Exec/Meta/Unassigned.antt =====
-- A step that holds no nonce cannot be dropped: the record of nonces refuses.
use privadex.Prelude.{ℕ, ◌≡◌, refl, ◌∙◌, true, List, none, some, unwrap_or}
use privadex.Prelude.Fallible.{Outcome, ok, err, panic}
use privadex.Metadata.Ids.{UniversalChainId}
use privadex.Plan.Types.{
  ExecutionStepEnum, ExecutionStep, eth_send, erc20_transfer, eth_wrap, eth_unwrap, eth_dex_swap,
  xcm_transfer,
}
use privadex.Plan.Steps.{get_amount_in, drop, get_src_chain, get_uuid}
use privadex.Coordinator.Table.{
  NonceRow, NonceTable, DynamoDbError, IsServed, applied, refused, lost, unanswered, lookup,
  process_dropped_step_request,
}
use privadex.Coordinator.Nonces.{
  NonceManagerError, answer_with, decode_assignment, attempt_existing_assignment, drop_execstep,
  drop_execstep_from_id, drop_found,
}
use privadex.Exec.Status.{ExecutableError, StepForwardResult, dropped, failed_to_update_dynamo_db}
use privadex.Exec.Services.{Services, KeyContainer}
use privadex.Exec.Step.{
  get_status, execute_step_forward, terminate_exec_step_if_dropped_or_finalized, after_termination,
}
use privadex.Exec.Meta.{NonceManager, ChainManager, get_nonce_manager, live, as_executable}

module _ {L : Type 0} where
  drop_lem :
      (s : ExecutionStep L)
      → (get_status (drop s) ≡ dropped)
        × (get_src_chain (drop s) ≡ get_src_chain s)
        × (get_uuid (drop s) ≡ get_uuid s)
  unfolding get_status drop get_src_chain get_uuid
  drop_lem s = by_kind s.inner
    where
      by_kind :
          (i : ExecutionStepEnum L)
          → (get_status (drop (record { inner = i })) ≡ dropped)
            × (get_src_chain (drop (record { inner = i })) ≡ get_src_chain (record { inner = i }))
            × (get_uuid (drop (record { inner = i })) ≡ get_uuid (record { inner = i }))
      by_kind (eth_send step) = (refl, refl, refl)
      by_kind (erc20_transfer step) = (refl, refl, refl)
      by_kind (eth_wrap step) = (refl, refl, refl)
      by_kind (eth_unwrap step) = (refl, refl, refl)
      by_kind (eth_dex_swap step) = (refl, refl, refl)
      by_kind (xcm_transfer step) = (refl, refl, refl)

-- The row has no entry for the step, and other workers do not add one meanwhile.
abbrev pub IsUnassigned : (t : NonceTable) → ℕ → t.World → Type 0
IsUnassigned t step w =
    (r : NonceRow) → t.Meanwhile (t.row w) r → lookup step r.exec_step_pending_block_added ≡ none

-- The condition of the request fails.
IsServed-missing :
    (step nonce : ℕ) (before after : NonceRow) (answer : Outcome DynamoDbError NonceRow)
    → IsServed (process_dropped_step_request step nonce) before after answer
    → lookup step before.exec_step_pending_block_added ≡ none
    → (e : DynamoDbError) × (answer ≡ err e)
unfolding process_dropped_step_request
IsServed-missing step nonce before after answer (applied c a e) h = cc (rw h at c)
IsServed-missing step nonce before after answer (refused c a e) h =
    (DynamoDbError.conditional_check_failed, a)
IsServed-missing step nonce before after answer (lost a e) h =
    (DynamoDbError.generic_request_failed, a)
IsServed-missing step nonce before after answer (unanswered c a e) h =
    (DynamoDbError.generic_request_failed, a)

drop_missing :
    (t : NonceTable) (step : ℕ) (w : t.World)
    → IsUnassigned t step w
    → (drop_execstep_from_id t step w).0 ≡ ok tt
    → ⊥
unfolding drop_execstep_from_id attempt_existing_assignment drop_execstep
drop_missing t step w none_there = by_found (answer_with (decode_assignment step) (t.get_item w).0)
  where
    by_found :
        (o : Outcome NonceManagerError ℕ) → (drop_found t step (o, (t.get_item w).1)).0 ≡ ok tt → ⊥
    by_found (ok n) k =
        let u = (t.get_item w).1 in
        let (before, m, served) = t.update_item-IsServed (process_dropped_step_request step n) u in
        let missing =
          none_there before
            (t.Meanwhile-trans (t.row w) (t.row u) before (t.get_item-Meanwhile w) m) in
        let (e, answer) = IsServed-missing step n before _ _ served missing in
        cc (rw (answer, drop_execstep) at k)
    by_found (err e) k = cc
    by_found panic k = cc

module _ (sv : Services) (now : ℕ) (managers : List (ChainManager sv.World))
    (keys : KeyContainer) where
  live_drop_missing :
      (chain : UniversalChainId) (step : ℕ) (m : NonceManager sv.World) (w : sv.World)
      → get_nonce_manager managers chain ≡ some m
      → IsUnassigned m.table step (m.get w)
      → ((live sv now managers).drop_execstep step chain w).0 ≡ ok tt
      → ⊥
  unfolding live
  live_drop_missing chain step m w found missing k =
      drop_missing m.table step (m.get w) missing
        (as_executable_ok (drop_execstep_from_id m.table step (m.get w)).0 (rw (found, live) at k))
    where
      as_executable_ok :
          (o : Outcome NonceManagerError (Unit {0}))
          → as_executable o failed_to_update_dynamo_db ≡ ok tt
          → o ≡ ok tt
      as_executable_ok (ok u) h = refl
      as_executable_ok (err e) h = cc
      as_executable_ok panic h = cc

  after_termination_ok :
      (s : ExecutionStep sv.MultiLocation) (x : Outcome ExecutableError (Unit {0}) × sv.World)
      (r : StepForwardResult)
      → (after_termination sv
          (live sv now managers)
          keys
          s
          (record { did_status_change = true; amount_out = none })
          x).0
        ≡ ok r
      → x.0 ≡ ok tt
  after_termination_ok s (ok u, w) r h = refl
  after_termination_ok s (err e, w) r h = cc
  after_termination_ok s (panic, w) r h = cc

  terminates :
      (s : ExecutionStep sv.MultiLocation) (chain : UniversalChainId) (w : sv.World)
      → get_status s ≡ dropped
      → get_src_chain s ≡ some chain
      → (terminate_exec_step_if_dropped_or_finalized sv (live sv now managers) keys s w).0 ≡ ok tt
      → ((live sv now managers).drop_execstep (get_uuid s) chain w).0 ≡ ok tt
  unfolding terminate_exec_step_if_dropped_or_finalized
  terminates s chain w is_dropped src h =
      rw (is_dropped, src, terminate_exec_step_if_dropped_or_finalized) at h

  -- A call on a step without a positive amount never succeeds while its chain has a manager and the
  -- row of that chain has no entry for the step, if no other worker adds one meanwhile.
  pub execute_step_forward-unassigned :
      (s : ExecutionStep sv.MultiLocation) (chain : UniversalChainId) (m : NonceManager sv.World)
      (r : StepForwardResult) (w : sv.World)
      → unwrap_or (get_amount_in s) 0 ≡ 0
      → get_src_chain s ≡ some chain
      → get_nonce_manager managers chain ≡ some m
      → IsUnassigned m.table (get_uuid s) (m.get w)
      → ¬ ((execute_step_forward sv (live sv now managers) keys s w).0 ≡ ok r)
  unfolding execute_step_forward terminate_exec_step_if_dropped_or_finalized
  execute_step_forward-unassigned s chain m r w unfunded src found missing h =
      let (is_dropped, same_chain, same_uuid) = drop_lem s in
      let d = drop s in
      let ended =
        after_termination_ok d
          (terminate_exec_step_if_dropped_or_finalized sv (live sv now managers) keys d w) r
          (rw (unfunded, execute_step_forward) at h) in
      live_drop_missing chain (get_uuid d) m w found (rw (same_uuid) missing)
        (terminates d chain w is_dropped (same_chain ∙ src) ended)
