-- ===== src/Contract/Keeps.antt =====
-- The plans that the contract holds in S3, through a message of dex_aggregator/executor/src/lib.rs.
use privadex.Prelude.{
  ℕ, ◌≡◌, ◌∙◌, subst, ap, arith, sym, inl, inr, Bool, true, false, ◌==◌, nat_eq, Bool-cases, some,
}
use privadex.Prelude.Fallible.{Outcome, ok}
use privadex.Metadata.Ids.{UniversalChainId}
use privadex.Contract.Swaps.{Ending, before_it, with_it, start_swap-Ending}
use privadex.Exec.Plan
use privadex.Exec.Step
use privadex.Exec.Plan.Order.{PlanInOrder, awaiting, PathsFresh, IsFreshPlan}
use privadex.Contract.{
  ContractError, start_swap, store_if_new, register_plan, register_prestart_txn_hash, Deployment,
  Cloud, PlanOf, save_exec_plan_to_s3,
}

module _ (d : Deployment) where
  -- Every plan in the bucket is in order.
  abbrev pub AllInOrder : Cloud d → Type 0
  AllInOrder w = (u : ℕ) (p : PlanOf d) → d.store.stored w.store_world u ≡ some p → PlanInOrder p

  save-AllInOrder :
      (plan : PlanOf d) (w : Cloud d)
      → PlanInOrder plan
      → AllInOrder w
      → AllInOrder (save_exec_plan_to_s3 d plan w)
  unfolding save_exec_plan_to_s3
  save-AllInOrder plan w o all u p h = elim (d.store.put_object-stores plan u w.store_world) [
    | inl kept ↦ all u p (sym kept ∙ h)
    | inr written ↦ elim (Bool-cases (◌==◌ ⦃e = nat_eq⦄ u plan.uuid)) [
      | inl same ↦ subst PlanInOrder (ground arith) o
      | inr other ↦ all u p (ground arith)
    ]
  ]

  IsFreshPlan-PlanInOrder :
      (base plan : PlanOf d)
      → IsFreshPlan base
      → plan.paths ≡ base.paths
      → plan.postend_escrow_to_user_transfer ≡ base.postend_escrow_to_user_transfer
      → PlanInOrder plan
  IsFreshPlan-PlanInOrder base plan f a b =
      awaiting (subst PathsFresh (sym a) f.fresh_paths) (ap (λ s. Step.get_status s) b ∙ f.unpaid)

  store_if_new-AllInOrder :
      (now : ℕ) (plan : PlanOf d) (b : Bool) (v : Cloud d)
      → PlanInOrder plan
      → AllInOrder v
      → AllInOrder (store_if_new d now plan (b, v)).1
  unfolding store_if_new register_plan
  store_if_new-AllInOrder now plan true v o all = save-AllInOrder plan v o all
  store_if_new-AllInOrder now plan false v o all = all

  Ending-AllInOrder :
      (now h : ℕ) (computed : Outcome ContractError (PlanOf d)) (w : Cloud d)
      (x : Outcome ContractError ℕ × Cloud d)
      → ((plan : PlanOf d) → computed ≡ ok plan → IsFreshPlan plan)
      → Ending d now h computed w x
      → AllInOrder w
      → AllInOrder x.1
  unfolding register_prestart_txn_hash
  Ending-AllInOrder now h computed w _ fresh (before_it o v no_plan s p) all =
      λ u q at. all u q (ap (λ c. d.store.stored c u) (sym s) ∙ at)
  Ending-AllInOrder now h computed w _ fresh (with_it plan v (base, made, a, b) s p) all =
      store_if_new-AllInOrder now plan (register_prestart_txn_hash d now h v).0
        (register_prestart_txn_hash d now h v).1
        (IsFreshPlan-PlanInOrder base plan (fresh base made) a b)
        (λ u q at. all u q (ap (λ c. d.store.stored c u) (sym s) ∙ at))

  -- If every plan in the bucket is in order and the plan that was computed, if there is one, has no path
  -- and no payout that has started, then every plan in the bucket is in order after start_swap, whatever
  -- it ends in.
  pub start_swap-AllInOrder :
      (now h : ℕ) (computed : Outcome ContractError (PlanOf d)) (src_chain : UniversalChainId)
      (w : Cloud d)
      → ((plan : PlanOf d) → computed ≡ ok plan → IsFreshPlan plan)
      → AllInOrder w
      → AllInOrder (start_swap d now computed src_chain h w).1
  start_swap-AllInOrder now h computed src_chain w fresh all =
      Ending-AllInOrder now h computed w _ fresh (start_swap-Ending d now h computed src_chain w)
        all
