-- ===== src/Coordinator/Rows.antt =====
-- A row of DynamoDB that several workers share, with the documented behaviour of a conditional update:
-- it is atomic, and it is applied, refused because its condition does not hold, or lost on the way
-- there or back.
use privadex.Prelude.{◌≡◌, Bool, true, false}
use privadex.Prelude.Fallible.{Outcome, ok, err}
use privadex.Coordinator.Table.{DynamoDbError, generic_request_failed, conditional_check_failed}

pub record Request (R : Type 0) : Type 0 where
  pub condition : R → Bool
  pub update : R → R

pub data Serves {R : Type 0} (q : Request R) (before after : R)
    (answer : Outcome DynamoDbError (Unit {0})) : Type 0 where
  applied :
      q.condition before ≡ true
      → answer ≡ ok tt
      → after ≡ q.update before
      → Serves q before after answer
  refused :
      q.condition before ≡ false
      → answer ≡ err conditional_check_failed
      → after ≡ before
      → Serves q before after answer
  lost : answer ≡ err generic_request_failed → after ≡ before → Serves q before after answer
  unanswered :
      q.condition before ≡ true
      → answer ≡ err generic_request_failed
      → after ≡ q.update before
      → Serves q before after answer

pub record RowTable (R : Type 0) : Type 1 where
  pub World : Type 0
  pub row : World → R
  pub update_item : Request R → World → Outcome DynamoDbError (Unit {0}) × World
  pub update_item-Serves :
      (q : Request R) (w : World) → Serves q (row w) (row (update_item q w).1) (update_item q w).0
