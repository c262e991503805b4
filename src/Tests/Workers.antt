-- ===== src/Tests/Workers.antt =====
-- Workers on one plan, registrations of one transaction, and a worker's message to the contract.
use privadex.Prelude.{
  ℕ, ◌≡◌, ◌≢◌, subst, refl, sym, inl, inr, Bool, false, ◌==◌, nat_eq, Bool-cases, List, [], ◌∷◌,
  Option, none, some, if◌then◌else◌,
}
use privadex.Prelude.Fallible.{Outcome, ok, err}
use mathlib.Core.List.Memᴰ
use privadex.Plan.Types.{ExecutionPlan, not_started, submitted}
use privadex.Exec.Plan.Order.{PlanInOrder, awaiting}
use privadex.Exec.Status.{ExecutableError, failed_to_pull_from_s3}
use privadex.Coordinator.Table.{DynamoDbError, conditional_check_failed}
use privadex.Coordinator.Rows.{Request, RowTable, Serves, applied, refused}
use privadex.Coordinator.Plans.{PlanRow}
use privadex.Coordinator.Plans.Claims.{Shared, none_yet}
use privadex.Coordinator.Prestart.{PrestartRow, attempt_register_prestart_txn}
use privadex.Metadata.Chains.{moonbeam}
use privadex.Exec.Plan.Order.{IsFreshPlan}
use privadex.Contract.Once.{Messages, forward, start_swap-once}
use privadex.Contract.Keeps.{start_swap-AllInOrder}
use privadex.Contract.{
  ContractError, start_swap, PlanStore, Deployment, Cloud, execution_plan_step_forward,
}
use privadex.Contract.Keeps.{AllInOrder}
use privadex.Tests.Mock.{mock, mock_meta, mock_keys, plan_with}

abbrev no_row : PlanRow
no_row = record {
  worker_is_allocated = [];
  worker_assignment_update_epoch_millis = [];
  plans = 7 ∷ [];
}

abbrev idle : Shared
idle = record { row = no_row; now = 100_000; workers = [] }

-- A row that serves every request.
abbrev serve_row : {R : Type 0} → Request R → R → Outcome DynamoDbError (Unit {0}) × R
serve_row q row =
    if q.condition row then (ok tt, q.update row) else (err conditional_check_failed, row)

serve_row-Serves :
    {R : Type 0} (q : Request R) (row : R) → Serves q row (serve_row q row).1 (serve_row q row).0
serve_row-Serves q row = elim (Bool-cases (q.condition row)) [
  | inl holds ↦ rw (holds) (applied holds refl refl)
  | inr fails ↦ rw (fails) (refused fails refl refl)
]

abbrev row_table : (R : Type 0) → RowTable R
row_table R = record {
  World = R;
  row = λ w. w;
  update_item = serve_row;
  update_item-Serves = serve_row-Serves;
}

abbrev no_txns : PrestartRow
no_txns = record { last_update_epoch_millis = 0; txn_hash = [] }

-- A bucket that holds the plan whose payment is in flight, and takes every write.
abbrev in_flight : ExecutionPlan Bool
in_flight = plan_with (submitted (record { txn_hash = 70; end_block_num = 1064 })) not_started

abbrev read_object : Option (ExecutionPlan Bool) → Outcome ExecutableError (ExecutionPlan Bool)
read_object (some p) = ok p
read_object none = err failed_to_pull_from_s3

read_object_stored :
    (o : Option (ExecutionPlan Bool)) (p : ExecutionPlan Bool) → read_object o ≡ ok p → o ≡ some p
read_object_stored none p h = cc
read_object_stored (some q) p h = cc

abbrev bucket : PlanStore Bool
bucket = record {
  World = ℕ → Option (ExecutionPlan Bool);
  stored = λ w. w;
  get_object = λ u w. (read_object (w u), w);
  put_object = λ p w. (ok tt, λ v. if ◌==◌ ⦃e = nat_eq⦄ v p.uuid then some p else w v);
  get_object-reads = λ u w p h. read_object_stored (w u) p h;
  get_object-keeps = λ u v w. refl;
  put_object-stores = λ p v w. inr refl;
}

abbrev deployed : Deployment
deployed = record {
  services = mock;
  store = bucket;
  plan_table = row_table PlanRow;
  prestart_table = row_table PrestartRow;
}

abbrev cloud : Cloud deployed
cloud = record {
  services_world = 0;
  store_world = λ u. if ◌==◌ ⦃e = nat_eq⦄ u 4 then some in_flight else none;
  plan_world = no_row;
  prestart_world = no_txns;
}

some_eq : {A : Type 0} (a b : A) → some a ≡ some b → a ≡ b
some_eq a b h = cc h

not_stored : {A : Type 0} (a : A) → ◌≡◌ {A = Option A} none (some a) → ⊥
not_stored a h = cc h

cloud-AllInOrder : AllInOrder deployed cloud
unfolding privadex.Exec.Step.get_status
cloud-AllInOrder u p h = elim (Bool-cases (◌==◌ ⦃e = nat_eq⦄ u 4)) [
  | inl same ↦
      subst (PlanInOrder {L = Bool}) (some_eq in_flight p (rw (same) at h))
        (awaiting ((refl, tt), tt) refl)
  | inr other ↦ absurd (not_stored p (rw (other) at h))
]

abbrev new_plan : ExecutionPlan Bool
new_plan = plan_with not_started not_started

started : (start_swap deployed 100_000 (ok new_plan) moonbeam 70 cloud).0 ≡ ok 4
unfolding start_swap privadex.Contract.start_computed privadex.Contract.is_transfer
    privadex.Contract.start_at privadex.Contract.get_cur_block privadex.Contract.block_at
    privadex.Contract.block_answered privadex.Contract.mark_submitted privadex.Contract.store_marked
    privadex.Contract.store_if_new privadex.Contract.register_prestart_txn_hash
    attempt_register_prestart_txn privadex.Coordinator.Prestart.add_prestart_txn
    privadex.Prelude.Maps.contains privadex.Metadata.Chains.get_chain_info_from_chain_id
started = refl

abbrev after_swap : Cloud deployed
after_swap = (start_swap deployed 100_000 (ok new_plan) moonbeam 70 cloud).1

-- A worker steps the plan forward before the second try.
start_swap-once_example : ¬ (
    (start_swap deployed 200_000
      (ok new_plan)
      moonbeam
      70
      (execution_plan_step_forward deployed mock_meta mock_keys 150_000 4 after_swap).1).0
    ≡ ok 4)
start_swap-once_example =
    start_swap-once deployed 70 100_000 200_000 4 4 (ok new_plan) (ok new_plan) moonbeam moonbeam
      cloud (execution_plan_step_forward deployed mock_meta mock_keys 150_000 4 after_swap).1
      started (forward mock_meta mock_keys 150_000 4 Messages.none_yet)

new_plan-IsFreshPlan : IsFreshPlan new_plan
unfolding privadex.Exec.Step.get_status
new_plan-IsFreshPlan = record { fresh_paths = ((refl, tt), tt); unpaid = refl }

ok_eq :
    (a b : ExecutionPlan Bool)
    → ◌≡◌ {A = Outcome ContractError (ExecutionPlan Bool)} (ok a) (ok b)
    → a ≡ b
ok_eq a b h = cc h

only_new_plan :
    (plan : ExecutionPlan Bool)
    → ◌≡◌ {A = Outcome ContractError (ExecutionPlan Bool)} (ok new_plan) (ok plan)
    → IsFreshPlan plan
only_new_plan plan h = subst (IsFreshPlan {L = Bool}) (ok_eq new_plan plan h) new_plan-IsFreshPlan

start_swap-AllInOrder_example : AllInOrder deployed after_swap
start_swap-AllInOrder_example =
    start_swap-AllInOrder deployed 100_000 70 (ok new_plan) moonbeam cloud only_new_plan
      cloud-AllInOrder
