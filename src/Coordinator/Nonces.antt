-- ===== src/Coordinator/Nonces.antt =====
-- `NonceManager`, dex_aggregator/executor/src/concurrency_coordinator/nonce_manager.rs.
pub mod Unique
pub mod Assigns
use privadex.Prelude.{
  ℕ, Bool, true, false, List, Option, none, some, is_some, ltb, ◌&&◌, if◌then◌else◌,
}
use privadex.Prelude.Fallible.{Outcome, ok, err, panic}
use privadex.Common.Ratio.{u32_mod}
use privadex.Coordinator.Table.{
  NonceRow, UpdateRequest, NonceTable, DynamoDbError, lookup, cold_start_request,
  next_nonce_request, reclaim_dropped_nonce_request, process_finalized_step_request,
  process_dropped_step_request,
}

pub data NonceManagerError : Type 0 where
  conditional_check_failed unexpected_deserialization_error unlikely_all_nonce_getters_failed
        update_failed :
      NonceManagerError

-- `From<DynamoDbError>`
abbrev pub nonce_error : DynamoDbError → NonceManagerError
nonce_error DynamoDbError.generic_request_failed = update_failed
nonce_error DynamoDbError.conditional_check_failed = NonceManagerError.conditional_check_failed

-- What an attempt makes of the answer of the table.
abbrev pub answer_with {ℓ} :
    {A : Type ℓ}
    → (NonceRow → Outcome NonceManagerError A)
    → Outcome DynamoDbError NonceRow
    → Outcome NonceManagerError A
answer_with f (ok row) = f row
answer_with f (err e) = err (nonce_error e)
answer_with f panic = panic

-- `decoded.Attributes.ExecStepPendingNonce.M.num.N`
abbrev pub decode_nonce : ℕ → NonceRow → Outcome NonceManagerError ℕ
decode_nonce step row = elim (lookup step row.exec_step_pending_nonce) [
  | none ↦ err unexpected_deserialization_error
  | some nonce ↦ if ltb nonce u32_mod then ok nonce else err unexpected_deserialization_error
]

-- The projection holds both entries of the step or is empty. What is no u32 is not read as one.
abbrev pub decode_assignment : ℕ → NonceRow → Outcome NonceManagerError ℕ
decode_assignment step row = elim (lookup step row.exec_step_pending_nonce) [
  | none ↦ err NonceManagerError.conditional_check_failed
  | some nonce ↦ elim (lookup step row.exec_step_pending_block_added) [
    | none ↦ err NonceManagerError.conditional_check_failed
    | some block ↦
        if ltb nonce u32_mod && ltb block u32_mod
        then ok nonce
        else err NonceManagerError.conditional_check_failed
  ]
]

-- `else if let Ok(nonce) = …`
abbrev pub or_else :
    {W : Type 0}
    → Outcome NonceManagerError ℕ × W
    → (W → Outcome NonceManagerError ℕ × W)
    → Outcome NonceManagerError ℕ × W
or_else (ok nonce, w) next = (ok nonce, w)
or_else (err e, w) next = next w
or_else (panic, w) next = (panic, w)

module _ (t : NonceTable) where
  abbrev pub Call : Type 0 → Type 0
  Call A = t.World → Outcome NonceManagerError A × t.World

  abbrev pub update_with {ℓ} :
      {A : Type ℓ}
      → UpdateRequest
      → (NonceRow → Outcome NonceManagerError A)
      → t.World
      → Outcome NonceManagerError A × t.World
  update_with q f w = let (o, w') = t.update_item q w in (answer_with f o, w')

  unfoldable pub attempt_cold_start : ℕ → ℕ → ℕ → Call ℕ
  attempt_cold_start step cur_block system_nonce =
      update_with (cold_start_request step cur_block system_nonce) (λ row. ok system_nonce)

  unfoldable pub attempt_next_nonce : ℕ → ℕ → Call ℕ
  attempt_next_nonce step cur_block =
      update_with (next_nonce_request step cur_block) (decode_nonce step)

  unfoldable pub attempt_existing_assignment : ℕ → Call ℕ
  attempt_existing_assignment step w =
      let (o, w') = t.get_item w in (answer_with (decode_assignment step) o, w')

  unfoldable pub attempt_reclaim_dropped_nonce : ℕ → ℕ → Call ℕ
  attempt_reclaim_dropped_nonce step cur_block =
      update_with (reclaim_dropped_nonce_request step cur_block) (decode_nonce step)

  abbrev pub all_failed : Call ℕ
  all_failed w = (err unlikely_all_nonce_getters_failed, w)

  unfoldable pub get_nonce : ℕ → ℕ → ℕ → Call ℕ
  get_nonce step cur_block system_nonce w =
      or_else (attempt_cold_start step cur_block system_nonce w) (λ w1.
        or_else (attempt_next_nonce step cur_block w1) (λ w2.
          or_else (attempt_existing_assignment step w2)
            (λ w3. or_else (attempt_reclaim_dropped_nonce step cur_block w3) all_failed)))

  unfoldable pub finalize_execstep : ℕ → ℕ → Call (Unit {0})
  finalize_execstep step cur_block =
      update_with (process_finalized_step_request step cur_block) (λ row. ok tt)

  unfoldable pub drop_execstep : ℕ → ℕ → Call (Unit {0})
  drop_execstep step dropped_nonce =
      update_with (process_dropped_step_request step dropped_nonce) (λ row. ok tt)

  abbrev pub drop_found :
      ℕ → Outcome NonceManagerError ℕ × t.World → Outcome NonceManagerError (Unit {0}) × t.World
  drop_found step (ok nonce, w) = drop_execstep step nonce w
  drop_found step (err e, w) = (err e, w)
  drop_found step (panic, w) = (panic, w)

  unfoldable pub drop_execstep_from_id : ℕ → Call (Unit {0})
  drop_execstep_from_id step w = drop_found step (attempt_existing_assignment step w)
