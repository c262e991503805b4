-- ===== src/Coordinator/Prestart.antt =====
-- `PrestartStepUniquenessEnforcer` (prestart_step_uniqueness_enforcer.rs) and its request
-- (`DynamoDbPrestartTxnsRequestFactory` of dynamodb_request_factory.rs).
use privadex.Prelude.{ℕ, ◌≡◌, Bool, true, false, not, List, [], ◌∷◌, nat_eq, arith}
use privadex.Prelude.Fallible.{Outcome, ok, err, panic}
use privadex.Prelude.Maps.{contains, add}
use privadex.Coordinator.Table.{DynamoDbError}
use privadex.Coordinator.Rows.{Request, RowTable, Serves, applied, refused, lost, unanswered}

pub record PrestartRow : Type 0 where
  pub last_update_epoch_millis : ℕ
  pub txn_hash : List ℕ

pub data PrestartStepUniquenessEnforcerError : Type 0 where
  conditional_check_failed unexpected_deserialization_error update_failed :
      PrestartStepUniquenessEnforcerError

unfoldable pub add_prestart_txn : ℕ → ℕ → Request PrestartRow
add_prestart_txn txn_hash now_epoch_millis = record {
  condition = λ row. not (contains txn_hash row.txn_hash);
  update = λ row. record {
    last_update_epoch_millis = now_epoch_millis;
    txn_hash = add txn_hash row.txn_hash;
  };
}

-- `.map_or_else(..)` on the answer.
abbrev pub registered :
    Outcome DynamoDbError (Unit {0}) → Outcome PrestartStepUniquenessEnforcerError Bool
registered (ok _) = ok true
registered (err DynamoDbError.conditional_check_failed) = ok false
registered (err DynamoDbError.generic_request_failed) = err update_failed
registered panic = panic

module _ (t : RowTable PrestartRow) (millis_since_epoch : ℕ) where
  unfoldable pub attempt_register_prestart_txn :
      ℕ → t.World → Outcome PrestartStepUniquenessEnforcerError Bool × t.World
  attempt_register_prestart_txn txn_hash w =
      let (answer, after) = t.update_item (add_prestart_txn txn_hash millis_since_epoch) w in
      (registered answer, after)

module _ (t : RowTable PrestartRow) where
  abbrev pub IsRegistered : ℕ → t.World → Type 0
  IsRegistered txn_hash w = contains txn_hash (t.row w).txn_hash ≡ true

  contains-add_prestart :
      (h k now : ℕ) (row : PrestartRow)
      → contains h row.txn_hash ≡ true
      → contains h ((add_prestart_txn k now).update row).txn_hash ≡ true
  unfolding add_prestart_txn add contains
  contains-add_prestart h k now row r = ground arith

  contains-add_self :
      (h now : ℕ) (row : PrestartRow)
      → contains h ((add_prestart_txn h now).update row).txn_hash ≡ true
  unfolding add_prestart_txn add contains
  contains-add_self h now row = ground arith

  -- Whatever becomes of a request, a hash that is registered stays registered.
  pub attempt-keeps :
      (h k now : ℕ) (w : t.World)
      → IsRegistered h w
      → IsRegistered h (attempt_register_prestart_txn t now k w).1
  unfolding attempt_register_prestart_txn
  attempt-keeps h k now w r = by_answer (t.update_item-Serves (add_prestart_txn k now) w)
    where
      by_answer :
          {after : PrestartRow} {answer : Outcome DynamoDbError (Unit {0})}
          → Serves (add_prestart_txn k now) (t.row w) after answer
          → contains h after.txn_hash ≡ true
      by_answer (applied c a e) = rw e (contains-add_prestart h k now (t.row w) r)
      by_answer (refused c a e) = rw e r
      by_answer (lost a e) = rw e r
      by_answer (unanswered c a e) = rw e (contains-add_prestart h k now (t.row w) r)

  pub attempt-registers :
      (h now : ℕ) (w : t.World)
      → (attempt_register_prestart_txn t now h w).0 ≡ ok true
      → IsRegistered h (attempt_register_prestart_txn t now h w).1
  unfolding attempt_register_prestart_txn
  attempt-registers h now w r = by_answer (t.update_item-Serves (add_prestart_txn h now) w) r
    where
      by_answer :
          {after : PrestartRow} {answer : Outcome DynamoDbError (Unit {0})}
          → Serves (add_prestart_txn h now) (t.row w) after answer
          → registered answer ≡ ok true
          → contains h after.txn_hash ≡ true
      by_answer (applied c a e) k = rw e (contains-add_self h now (t.row w))
      by_answer (refused c a e) k = cc
      by_answer (lost a e) k = cc
      by_answer (unanswered c a e) k = cc

  pub attempt-refuses :
      (h now : ℕ) (w : t.World)
      → IsRegistered h w
      → (attempt_register_prestart_txn t now h w).0 ≡ ok true
      → ⊥
  unfolding attempt_register_prestart_txn add_prestart_txn
  attempt-refuses h now w seen r = by_answer (t.update_item-Serves (add_prestart_txn h now) w) r
    where
      by_answer :
          {after : PrestartRow} {answer : Outcome DynamoDbError (Unit {0})}
          → Serves (add_prestart_txn h now) (t.row w) after answer
          → registered answer ≡ ok true
          → ⊥
      by_answer (applied c a e) k = ground (arith, seen, c)
      by_answer (refused c a e) k = cc
      by_answer (lost a e) k = cc
      by_answer (unanswered c a e) k = cc

  -- The registrations that other workers make in between, each with its time and its hash.
  unfoldable pub register_all : List (ℕ × ℕ) → t.World → t.World
  unfolding attempt_register_prestart_txn
  register_all [] w = w
  register_all ((now, k) ∷ more) w = register_all more (attempt_register_prestart_txn t now k w).1
