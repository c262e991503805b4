-- ===== src/Coordinator/Plans.antt =====
-- The row of execution plans: `DynamoDbExecPlanRequestFactory` of dynamodb_request_factory.rs, and
-- `ExecutionPlanAssigner`, execution_plan_assigner.rs. A map of the row is a list of pairs.
pub mod Claims
use privadex.Prelude.{
  ℕ, ◌+◌, ◌-◌, ◌%◌, Bool, true, false, not, ◌||◌, List, Option, none, some, ltb, nat_eq,
}
use privadex.Prelude.Fallible.{Outcome, ok, err, panic}
use privadex.Prelude.Maps.{get, insert, erase, add, remove}
use privadex.Common.Ratio.{u64_mod}
use privadex.Coordinator.Table.{DynamoDbError}
use privadex.Coordinator.Rows.{Request, RowTable}

pub record PlanRow : Type 0 where
  pub worker_is_allocated : List (ℕ × Bool)
  pub worker_assignment_update_epoch_millis : List (ℕ × ℕ)
  pub plans : List ℕ

-- `WorkerIsAllocated.plan <> :true`, which holds also of an attribute that is not there.
abbrev pub is_not_true : Option Bool → Bool
is_not_true none = true
is_not_true (some b) = not b

-- `WorkerAssignmentUpdateEpochMillis.plan < :minepochmillis`
abbrev pub is_before : Option ℕ → ℕ → Bool
is_before none limit = false
is_before (some millis) limit = ltb millis limit

-- `SET` of both maps and `ADD Plans :plan`.
unfoldable pub set_assignment : ℕ → Bool → ℕ → PlanRow → PlanRow
set_assignment plan allocated now row = record {
  worker_is_allocated = insert plan allocated row.worker_is_allocated;
  worker_assignment_update_epoch_millis = insert plan now row.worker_assignment_update_epoch_millis;
  plans = add plan row.plans;
}

-- `now_epoch_millis - 60_000` on u64.
abbrev pub min_epoch_millis : ℕ → ℕ
min_epoch_millis now = (now + u64_mod - 60_000) % u64_mod

unfoldable pub allocate_execplan_request : ℕ → ℕ → Request PlanRow
unfolding set_assignment
allocate_execplan_request plan now = record {
  condition = λ row.
      is_not_true (get plan row.worker_is_allocated)
      || is_before (get plan row.worker_assignment_update_epoch_millis) (min_epoch_millis now);
  update = set_assignment plan true now;
}

unfoldable pub unallocate_execplan_request : ℕ → ℕ → Request PlanRow
unfolding set_assignment
unallocate_execplan_request plan now = record {
  condition = λ row. true;
  update = set_assignment plan false now;
}

unfoldable pub remove_completed_execplan_request : ℕ → Request PlanRow
remove_completed_execplan_request plan = record {
  condition = λ row. true;
  update = λ row. record {
    worker_is_allocated = erase plan row.worker_is_allocated;
    worker_assignment_update_epoch_millis = erase plan row.worker_assignment_update_epoch_millis;
    plans = remove plan row.plans;
  };
}

pub data ExecutionPlanAssignerError : Type 0 where
  conditional_check_failed unexpected_deserialization_error update_failed :
      ExecutionPlanAssignerError

-- `From<DynamoDbError>`
abbrev pub assigner_error : DynamoDbError → ExecutionPlanAssignerError
assigner_error DynamoDbError.generic_request_failed = update_failed
assigner_error DynamoDbError.conditional_check_failed =
    ExecutionPlanAssignerError.conditional_check_failed

abbrev pub allocated : Outcome DynamoDbError (Unit {0}) → Outcome ExecutionPlanAssignerError Bool
allocated (ok _) = ok true
allocated (err DynamoDbError.conditional_check_failed) = ok false
allocated (err DynamoDbError.generic_request_failed) = err update_failed
allocated panic = panic

abbrev pub updated :
    Outcome DynamoDbError (Unit {0}) → Outcome ExecutionPlanAssignerError (Unit {0})
updated (ok _) = ok tt
updated (err e) = err (assigner_error e)
updated panic = panic

module _ (t : RowTable PlanRow) (millis_since_epoch : ℕ) where
  unfoldable pub attempt_allocate_exec_plan :
      ℕ → t.World → Outcome ExecutionPlanAssignerError Bool × t.World
  attempt_allocate_exec_plan plan w =
      let (answer, after) = t.update_item (allocate_execplan_request plan millis_since_epoch) w in
      (allocated answer, after)

  unfoldable pub unallocate_exec_plan :
      ℕ → t.World → Outcome ExecutionPlanAssignerError (Unit {0}) × t.World
  unallocate_exec_plan plan w =
      let (answer, after) = t.update_item (unallocate_execplan_request plan millis_since_epoch) w in
      (updated answer, after)

  unfoldable pub remove_completed_execplan :
      ℕ → t.World → Outcome ExecutionPlanAssignerError (Unit {0}) × t.World
  remove_completed_execplan plan w =
      let (answer, after) = t.update_item (remove_completed_execplan_request plan) w in
      (updated answer, after)

  unfoldable pub register_exec_plan :
      ℕ → t.World → Outcome ExecutionPlanAssignerError (Unit {0}) × t.World
  unfolding unallocate_exec_plan
  register_exec_plan = unallocate_exec_plan
