-- ===== src/Contract/Swaps.antt =====
-- How start_swap of dex_aggregator/executor/src/lib.rs ends: before the transaction is registered, or
-- with the registration and, when that succeeds, the plan.
use privadex.Prelude.{ℕ, ◌≡◌, refl, inl, inr, Bool-cases, Option, none, some}
use privadex.Prelude.Fallible.{Outcome, ok, err, panic}
use privadex.Metadata.Ids.{UniversalChainId}
use privadex.Metadata.Chains.{ChainInfo, get_chain_info_from_chain_id}
use privadex.Plan.Types.{
  ExecutionStepEnum, eth_send, erc20_transfer, eth_wrap, eth_unwrap, eth_dex_swap, xcm_transfer,
}
use privadex.Contract.{
  ContractError, Deployment, Cloud, PlanOf, register_prestart_txn_hash, block_answered, block_at,
  get_cur_block, mark_submitted, store_if_new, store_marked, start_at, is_transfer, start_computed,
  start_swap,
}

module _ (d : Deployment) (now : ℕ) (txn_hash : ℕ) where
  -- The plan but for its prestart step.
  abbrev pub IsMarked : Outcome ContractError (PlanOf d) → PlanOf d → Type 0
  IsMarked computed plan =
      (base : PlanOf d) × (computed ≡ ok base)
      × (plan.paths ≡ base.paths)
      × (plan.postend_escrow_to_user_transfer ≡ base.postend_escrow_to_user_transfer)

  -- The plan is stored exactly in the second case.
  pub data Ending (computed : Outcome ContractError (PlanOf d)) (w : Cloud d)
      : Outcome ContractError ℕ × Cloud d → Type 0 where
    before_it :
        (o : Outcome ContractError ℕ) (v : Cloud d)
        → ((uuid : ℕ) → o ≡ ok uuid → ⊥)
        → v.store_world ≡ w.store_world
        → v.prestart_world ≡ w.prestart_world
        → Ending computed w (o, v)
    with_it :
        (plan : PlanOf d) (v : Cloud d)
        → IsMarked computed plan
        → v.store_world ≡ w.store_world
        → v.prestart_world ≡ w.prestart_world
        → Ending computed w (store_if_new d now plan (register_prestart_txn_hash d now txn_hash v))

  stops :
      (computed : Outcome ContractError (PlanOf d)) (e : ContractError) (w v : Cloud d)
      → v.store_world ≡ w.store_world
      → v.prestart_world ≡ w.prestart_world
      → Ending computed w (err e, v)
  stops computed e w v s p = before_it (err e) v (λ uuid h. cc h) s p

  store_marked-Ending :
      (computed : Outcome ContractError (PlanOf d)) (marked : Option (PlanOf d)) (w v : Cloud d)
      → ((p : PlanOf d) → marked ≡ some p → IsMarked computed p)
      → v.store_world ≡ w.store_world
      → v.prestart_world ≡ w.prestart_world
      → Ending computed w (store_marked d now marked txn_hash v)
  unfolding store_marked
  store_marked-Ending computed none w v m s p = stops computed _ w v s p
  store_marked-Ending computed (some plan) w v m s p = with_it plan v (m plan refl) s p

  mark-IsMarked :
      (plan : PlanOf d) (cur_block : ℕ) (p : PlanOf d)
      → mark_submitted d plan plan.prestart_user_to_escrow_transfer.inner txn_hash cur_block
        ≡ some p
      → IsMarked (ok plan) p
  unfolding mark_submitted
  mark-IsMarked plan cur_block p = by_kind plan.prestart_user_to_escrow_transfer.inner
    where
      by_kind :
          (k : ExecutionStepEnum d.services.MultiLocation)
          → mark_submitted d plan k txn_hash cur_block ≡ some p
          → IsMarked (ok plan) p
      by_kind (eth_send t) h = (plan, refl, cc h, cc h)
      by_kind (erc20_transfer t) h = (plan, refl, cc h, cc h)
      by_kind (eth_wrap t) h = cc h
      by_kind (eth_unwrap t) h = cc h
      by_kind (eth_dex_swap t) h = cc h
      by_kind (xcm_transfer t) h = cc h

  -- Asking for the block changes neither the bucket nor the registrations.
  start_at-Ending :
      (plan : PlanOf d) (w : Cloud d) (info : Option ChainInfo)
      → Ending (ok plan) w (start_at d now plan txn_hash (block_at d info w))
  unfolding start_at block_at block_answered
  start_at-Ending plan w none = stops _ _ w w refl refl
  start_at-Ending plan w (some info) =
      by_answer (d.services.get_finalized_block_number info.rpc_url w.services_world)
    where
      by_answer :
          (x : Option ℕ × d.services.World)
          → Ending (ok plan) w (start_at d now plan txn_hash (block_answered d x w))
      by_answer (none, sw) = stops _ _ w _ refl refl
      by_answer (some n, sw) = store_marked-Ending (ok plan) _ w _ (mark-IsMarked plan n) refl refl

  pub start_swap-Ending :
      (computed : Outcome ContractError (PlanOf d)) (src_chain : UniversalChainId) (w : Cloud d)
      → Ending computed w (start_swap d now computed src_chain txn_hash w)
  unfolding start_swap start_computed get_cur_block
  start_swap-Ending (ok plan) src_chain w =
      elim (Bool-cases (is_transfer d now plan.prestart_user_to_escrow_transfer.inner)) [
        | inl transfer ↦
            rw (transfer) (start_at-Ending plan w (get_chain_info_from_chain_id src_chain))
        | inr other ↦ rw (other) (stops _ _ w w refl refl)
      ]
  start_swap-Ending (err e) src_chain w = stops _ e w w refl refl
  start_swap-Ending panic src_chain w = before_it panic w (λ uuid h. cc h) refl refl
