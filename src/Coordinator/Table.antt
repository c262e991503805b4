-- ===== src/Coordinator/Table.antt =====
-- The row of one chain in the table of nonces, the requests of `DynamoDbNonceRequestFactory`
-- (dynamodb_request_factory.rs) on it, and what the documentation of DynamoDB says of a request. A
-- request is a condition and an update; a map of the row is a list of entries by step.
use privadex.Prelude.{
  ℕ, ◌+◌, ◌<◌, ◌≡◌, ◌⊎◌, Bool, true, false, not, ◌&&◌, List, [], ◌∷◌, ◌++◌, Option, none, some,
  is_some, ltb, ◌==◌, nat_eq, if◌then◌else◌, length,
}
use privadex.Prelude.Fallible.{Outcome, ok, err}
use privadex.Common.Ratio.{add_u32, u32_mod}

pub record Entry : Type 0 where
  pub step : ℕ
  pub value : ℕ

abbrev pub lookup : ℕ → List Entry → Option ℕ
lookup step [] = none
lookup step (e ∷ es) = if e.step == step then some e.value else lookup step es

abbrev pub remove : ℕ → List Entry → List Entry
remove step [] = []
remove step (e ∷ es) = let rest = remove step es in if e.step == step then rest else e ∷ rest

-- `SET map.step = value`
abbrev pub put : ℕ → ℕ → List Entry → List Entry
put step value es = record { step = step; value = value } ∷ remove step es

pub record NonceRow : Type 0 where
  pub block_at_last_confirmed_nonce : ℕ
  pub dropped_nonces : List ℕ
  pub exec_step_pending_nonce : List Entry
  pub exec_step_pending_block_added : List Entry
  pub next_nonce : ℕ

pub record UpdateRequest : Type 0 where
  pub condition : NonceRow → Bool
  pub update : NonceRow → NonceRow

unfoldable pub cold_start_request : ℕ → ℕ → ℕ → UpdateRequest
cold_start_request step cur_block system_nonce = record {
  condition = λ row. length row.exec_step_pending_nonce == 0;
  update = λ row. record {
    block_at_last_confirmed_nonce = cur_block;
    dropped_nonces = [];
    exec_step_pending_nonce = record { step = step; value = system_nonce } ∷ [];
    exec_step_pending_block_added = record { step = step; value = cur_block } ∷ [];
    next_nonce = add_u32 system_nonce 1;
  };
}

unfoldable pub next_nonce_request : ℕ → ℕ → UpdateRequest
next_nonce_request step cur_block = record {
  condition = λ row.
      not (is_some (lookup step row.exec_step_pending_nonce))
      && (length row.dropped_nonces == 0 && ltb 0 (length row.exec_step_pending_nonce));
  update = λ row. record row {
    exec_step_pending_block_added = put step cur_block row.exec_step_pending_block_added;
    exec_step_pending_nonce = put step row.next_nonce row.exec_step_pending_nonce;
    next_nonce = row.next_nonce + 1;
  };
}

-- `… = DroppedNonces[0] REMOVE DroppedNonces[0]`
abbrev pub reclaim_first : ℕ → ℕ → NonceRow → List ℕ → NonceRow
reclaim_first step cur_block row [] = row
reclaim_first step cur_block row (first ∷ rest) = record row {
  exec_step_pending_block_added = put step cur_block row.exec_step_pending_block_added;
  exec_step_pending_nonce = put step first row.exec_step_pending_nonce;
  dropped_nonces = rest;
}

unfoldable pub reclaim_dropped_nonce_request : ℕ → ℕ → UpdateRequest
reclaim_dropped_nonce_request step cur_block = record {
  condition = λ row.
      not (is_some (lookup step row.exec_step_pending_nonce))
      && (ltb 0 (length row.dropped_nonces) && ltb 0 (length row.exec_step_pending_nonce));
  update = λ row. reclaim_first step cur_block row row.dropped_nonces;
}

unfoldable pub process_finalized_step_request : ℕ → ℕ → UpdateRequest
process_finalized_step_request step cur_block = record {
  condition = λ row. true;
  update = λ row. record row {
    block_at_last_confirmed_nonce = cur_block;
    exec_step_pending_block_added = remove step row.exec_step_pending_block_added;
    exec_step_pending_nonce = remove step row.exec_step_pending_nonce;
  };
}

unfoldable pub process_dropped_step_request : ℕ → ℕ → UpdateRequest
process_dropped_step_request step dropped_nonce = record {
  condition = λ row. is_some (lookup step row.exec_step_pending_block_added);
  update = λ row. record row {
    dropped_nonces = row.dropped_nonces ++ dropped_nonce ∷ [];
    exec_step_pending_block_added = remove step row.exec_step_pending_block_added;
    exec_step_pending_nonce = remove step row.exec_step_pending_nonce;
  };
}

pub data DynamoDbError : Type 0 where
  generic_request_failed conditional_check_failed : DynamoDbError

-- A conditional update is atomic: it is applied and answered with the new values, it is refused
-- because its condition does not hold, or the request fails on its way there or back.
pub data IsServed (q : UpdateRequest) (before after : NonceRow)
    (answer : Outcome DynamoDbError NonceRow) : Type 0 where
  applied :
      q.condition before ≡ true
      → answer ≡ ok (q.update before)
      → after ≡ q.update before
      → IsServed q before after answer
  refused :
      q.condition before ≡ false
      → answer ≡ err conditional_check_failed
      → after ≡ before
      → IsServed q before after answer
  lost : answer ≡ err generic_request_failed → after ≡ before → IsServed q before after answer
  unanswered :
      q.condition before ≡ true
      → answer ≡ err generic_request_failed
      → after ≡ q.update before
      → IsServed q before after answer

-- What requests of other workers do to the row, one after the other, each with or without its condition.
-- A drop is taken to give back the nonce that its step holds: its worker has read the nonce before, and
-- the condition of the request looks only at the block.
pub data Requests (row : NonceRow) : NonceRow → Type 0 where
  none_yet : Requests row row
  cold_start :
      {r : NonceRow} (step block system_nonce : ℕ)
      → system_nonce + 1 < u32_mod
      → Requests row r
      → Requests row ((cold_start_request step block system_nonce).update r)
  next_nonce :
      {r : NonceRow} (step block : ℕ)
      → Requests row r
      → Requests row ((next_nonce_request step block).update r)
  reclaim :
      {r : NonceRow} (step block : ℕ)
      → Requests row r
      → Requests row ((reclaim_dropped_nonce_request step block).update r)
  finalize :
      {r : NonceRow} (step block : ℕ)
      → Requests row r
      → Requests row ((process_finalized_step_request step block).update r)
  drop :
      {r : NonceRow} (step held : ℕ)
      → lookup step r.exec_step_pending_nonce ≡ some held
      → Requests row r
      → Requests row ((process_dropped_step_request step held).update r)

-- The service, as one worker sees it. Before a request is served, other workers may have changed the row
-- (`Meanwhile`). A GetItem without ConsistentRead is eventually consistent: it answers a row that is or
-- was the row of the table (`Readable`).
pub record NonceTable : Type 1 where
  pub World : Type 0
  pub row : World → NonceRow
  pub Meanwhile : NonceRow → NonceRow → Type 0
  pub Readable : World → NonceRow → Type 0
  pub update_item : UpdateRequest → World → Outcome DynamoDbError NonceRow × World
  pub get_item : World → Outcome DynamoDbError NonceRow × World
  pub Meanwhile-Requests : (r s : NonceRow) → Meanwhile r s → Requests r s
  pub Meanwhile-trans : (r s u : NonceRow) → Meanwhile r s → Meanwhile s u → Meanwhile r u
  pub update_item-IsServed :
      (q : UpdateRequest) (w : World)
      → (before : NonceRow) × Meanwhile (row w) before
        × IsServed q before (row (update_item q w).1) (update_item q w).0
  pub update_item-Readable :
      (q : UpdateRequest) (w : World) (r : NonceRow)
      → Readable (update_item q w).1 r
      → Readable w r ⊎ (Meanwhile (row w) r ⊎ (r ≡ row (update_item q w).1))
  pub get_item-Meanwhile : (w : World) → Meanwhile (row w) (row (get_item w).1)
  pub get_item-reads :
      (w : World) (r : NonceRow) → (get_item w).0 ≡ ok r → Readable (get_item w).1 r
  pub get_item-Readable :
      (w : World) (r : NonceRow) → Readable (get_item w).1 r → Readable w r ⊎ Meanwhile (row w) r
