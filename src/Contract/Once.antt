-- ===== src/Contract/Once.antt =====
-- One plan for each transaction of a user, over any run of messages of
-- dex_aggregator/executor/src/lib.rs.
use privadex.Prelude.{
  ℕ, ◌≡◌, refl, sym, subst, Bool, true, false, Option, none, some, Bool-cases, inl, inr,
}
use privadex.Prelude.Fallible.{Outcome, ok, err, panic}
use privadex.Metadata.Ids.{UniversalChainId}
use privadex.Exec.Status.{ExecutableError, ExecutableSimpleStatus, StepForwardResult, is_finished}
use privadex.Exec.Services.{StepMeta, KeyContainer}
use privadex.Exec.Plan
use privadex.Coordinator.Prestart.{IsRegistered, attempt-keeps, attempt-registers, attempt-refuses}
use privadex.Contract.{
  ContractError, Deployment, Cloud, PlanOf, is_ok_true, register_plan, register_prestart_txn_hash,
  save_exec_plan_to_s3, store_if_new, start_swap, execution_plan_step_forward, forward_claimed,
  forward_pulled, after_step_forward, give_back, claim_exec_plan, unclaim_exec_plan,
  remove_completed_exec_plan, pull_exec_plan_from_s3, is_finished_plan_error,
}
use privadex.Contract.Swaps.{Ending, before_it, with_it, start_swap-Ending}

module _ (d : Deployment) where
  ok_true : {E : Type 0} (o : Outcome E Bool) → is_ok_true d o ≡ true → o ≡ ok true
  ok_true (ok true) h = refl
  ok_true (ok false) h = cc h
  ok_true (err e) h = cc h
  ok_true panic h = cc h

  -- The transaction is in the set of those that have started a plan.
  abbrev IsUsed : ℕ → Cloud d → Type 0
  IsUsed h w = IsRegistered d.prestart_table h w.prestart_world

  stored_prestart :
      (now : ℕ) (plan : PlanOf d) (b : Bool) (v : Cloud d)
      → (store_if_new d now plan (b, v)).1.prestart_world ≡ v.prestart_world
  unfolding store_if_new register_plan save_exec_plan_to_s3
  stored_prestart now plan true v = refl
  stored_prestart now plan false v = refl

  stored_if :
      (now : ℕ) (plan : PlanOf d) (b : Bool) (v : Cloud d) (uuid : ℕ)
      → (store_if_new d now plan (b, v)).0 ≡ ok uuid
      → b ≡ true
  unfolding store_if_new
  stored_if now plan true v uuid h = refl
  stored_if now plan false v uuid h = cc h

  Ending-keeps :
      {computed : Outcome ContractError (PlanOf d)} (now h k : ℕ) (w : Cloud d)
      (x : Outcome ContractError ℕ × Cloud d)
      → Ending d now k computed w x
      → IsUsed h w
      → IsUsed h x.1
  unfolding register_prestart_txn_hash
  Ending-keeps now h k w _ (before_it o v no_plan s p) used =
      subst (IsRegistered d.prestart_table h) (sym p) used
  Ending-keeps now h k w _ (with_it plan v m s p) used =
      subst (IsRegistered d.prestart_table h)
        (sym (
          stored_prestart now plan (register_prestart_txn_hash d now k v).0
            (register_prestart_txn_hash d now k v).1))
        (attempt-keeps d.prestart_table h k now v.prestart_world
          (subst (IsRegistered d.prestart_table h) (sym p) used))

  Ending-uses :
      {computed : Outcome ContractError (PlanOf d)} (now h uuid : ℕ) (w : Cloud d)
      (x : Outcome ContractError ℕ × Cloud d)
      → Ending d now h computed w x
      → x.0 ≡ ok uuid
      → IsUsed h x.1
  unfolding register_prestart_txn_hash
  Ending-uses now h uuid w _ (before_it o v no_plan s p) e = absurd (no_plan uuid e)
  Ending-uses now h uuid w _ (with_it plan v m s p) e =
      subst (IsRegistered d.prestart_table h)
        (sym (
          stored_prestart now plan (register_prestart_txn_hash d now h v).0
            (register_prestart_txn_hash d now h v).1))
        (attempt-registers d.prestart_table h now v.prestart_world (
          ok_true _ (
            stored_if now plan (register_prestart_txn_hash d now h v).0
              (register_prestart_txn_hash d now h v).1 uuid e)))

  Ending-refuses :
      {computed : Outcome ContractError (PlanOf d)} (now h uuid : ℕ) (w : Cloud d)
      (x : Outcome ContractError ℕ × Cloud d)
      → Ending d now h computed w x
      → IsUsed h w
      → x.0 ≡ ok uuid
      → ⊥
  unfolding register_prestart_txn_hash
  Ending-refuses now h uuid w _ (before_it o v no_plan s p) used e = no_plan uuid e
  Ending-refuses now h uuid w _ (with_it plan v m s p) used e =
      attempt-refuses d.prestart_table h now v.prestart_world
        (subst (IsRegistered d.prestart_table h) (sym p) used)
        (ok_true _ (
          stored_if now plan (register_prestart_txn_hash d now h v).0
            (register_prestart_txn_hash d now h v).1 uuid e))

  module _ (meta : StepMeta d.services.World) (keys : KeyContainer) (now : ℕ) where
    give_back_prestart :
        (uuid : ℕ) (st : Option ExecutableSimpleStatus) (a : Option ℕ) (w : Cloud d)
        → (give_back d meta keys now uuid st a w).1.prestart_world ≡ w.prestart_world
    unfolding give_back remove_completed_exec_plan unclaim_exec_plan
    give_back_prestart uuid none a w = refl
    give_back_prestart uuid (some st) a w = elim (Bool-cases (is_finished st)) [
      | inl finished ↦ rw (finished)
      | inr unfinished ↦ rw (unfinished)
    ]

    after_prestart_world :
        (uuid : ℕ) (o : Outcome ExecutableError StepForwardResult) (plan : PlanOf d) (w : Cloud d)
        → (after_step_forward d meta keys now uuid o plan w).1.prestart_world ≡ w.prestart_world
    unfolding after_step_forward remove_completed_exec_plan unclaim_exec_plan save_exec_plan_to_s3
    after_prestart_world uuid (ok r) plan w = elim (Bool-cases r.did_status_change) [
      | inl changed ↦ rw (changed) (
          give_back_prestart uuid (Plan.get_status plan) r.amount_out
            (save_exec_plan_to_s3 d plan w))
      | inr unchanged ↦
          rw (unchanged) (give_back_prestart uuid (Plan.get_status plan) r.amount_out w)
    ]
    after_prestart_world uuid (err e) plan w = elim (Bool-cases (is_finished_plan_error e)) [
      | inl finished ↦ rw (finished)
      | inr unfinished ↦ rw (unfinished)
    ]
    after_prestart_world uuid panic plan w = refl

    pulled_prestart :
        (uuid : ℕ) (o : Outcome ExecutableError (PlanOf d)) (w : Cloud d)
        → (forward_pulled d meta keys now uuid o w).1.prestart_world ≡ w.prestart_world
    unfolding forward_pulled
    pulled_prestart uuid (ok plan) w =
        after_prestart_world uuid
          (Plan.execute_step_forward d.services meta keys plan w.services_world).0 _ _
    pulled_prestart uuid (err e) w = refl
    pulled_prestart uuid panic w = refl

    claimed_prestart :
        (uuid : ℕ) (claimed : Bool) (w : Cloud d)
        → (forward_claimed d meta keys now uuid claimed w).1.prestart_world ≡ w.prestart_world
    unfolding forward_claimed pull_exec_plan_from_s3
    claimed_prestart uuid false w = refl
    claimed_prestart uuid true w = pulled_prestart uuid (pull_exec_plan_from_s3 d uuid w).0 _

    forward_prestart :
        (uuid : ℕ) (w : Cloud d)
        → (execution_plan_step_forward d meta keys now uuid w).1.prestart_world ≡ w.prestart_world
    unfolding execution_plan_step_forward claim_exec_plan
    forward_prestart uuid w = claimed_prestart uuid (claim_exec_plan d now uuid w).0 _

  -- The worlds that messages of any callers lead to.
  pub data Messages (w : Cloud d) : Cloud d → Type 0 where
    none_yet : Messages w w
    swap :
        {v : Cloud d} (now txn_hash : ℕ) (computed : Outcome ContractError (PlanOf d))
        (src_chain : UniversalChainId)
        → Messages w v
        → Messages w (start_swap d now computed src_chain txn_hash v).1
    forward :
        {v : Cloud d} (meta : StepMeta d.services.World) (keys : KeyContainer) (now uuid : ℕ)
        → Messages w v
        → Messages w (execution_plan_step_forward d meta keys now uuid v).1

  Messages-IsUsed : {w v : Cloud d} (h : ℕ) → Messages w v → IsUsed h w → IsUsed h v
  Messages-IsUsed h none_yet used = used
  Messages-IsUsed h (swap {v = v} now k computed src_chain more) used =
      Ending-keeps now h k v _ (start_swap-Ending d now k computed src_chain v)
        (Messages-IsUsed h more used)
  Messages-IsUsed h (forward {v = v} meta keys now uuid more) used =
      subst (IsRegistered d.prestart_table h) (sym (forward_prestart meta keys now uuid v))
        (Messages-IsUsed h more used)

  -- Once a transaction of a user has started a plan, it never starts another, whatever messages come in
  -- between, in whatever order and however they end.
  pub start_swap-once :
      (h now later uuid other : ℕ) (computed again : Outcome ContractError (PlanOf d))
      (src_chain src_again : UniversalChainId) (w v : Cloud d)
      → (start_swap d now computed src_chain h w).0 ≡ ok uuid
      → Messages (start_swap d now computed src_chain h w).1 v
      → ¬ ((start_swap d later again src_again h v).0 ≡ ok other)
  start_swap-once h now later uuid other computed again src_chain src_again w v first messages
        second =
      Ending-refuses later h other v _ (start_swap-Ending d later h again src_again v)
        (Messages-IsUsed h messages
          (Ending-uses now h uuid w _ (start_swap-Ending d now h computed src_chain w) first))
        second
