-- ===== src/Exec/Meta.antt =====
-- `ExecuteStepMeta`, dex_aggregator/executor/src/executable/execute_step_meta.rs, as far as steps use
-- it: without cloud storage, and with one nonce manager for each supported chain.
pub mod Unassigned
use privadex.Prelude.{ℕ, List, [], ◌∷◌, Option, none, some, ◌==◌, if◌then◌else◌}
use privadex.Prelude.Fallible.{Outcome, ok, err, panic, ok_or}
use privadex.Metadata.Ids.{UniversalChainId, chain_eq}
use privadex.Metadata.Chains.{get_chain_info_from_chain_id}
use privadex.Exec.Status.{
  ExecutableError, failed_to_find_chain_info, failed_to_get_nonce, failed_to_update_dynamo_db,
  rpc_request_failed, unsupported_chain,
}
use privadex.Exec.Monad.{M, pure, lift, map_err, ◌>>=◌, ◌>>◌}
use privadex.Exec.Services.{Services, StepMeta}
use privadex.Coordinator.Table.{NonceTable}
use privadex.Coordinator.Nonces.{NonceManagerError}
use privadex.Coordinator.Nonces

-- `ExecuteStepMeta::NoCloudStorage`
unfoldable pub dummy : {W : Type 0} → ℕ → StepMeta W
dummy cur_timestamp = record {
  cur_timestamp = cur_timestamp;
  get_nonce = λ step chain cur_block system_nonce. pure system_nonce;
  finalize_execstep = λ step chain. pure tt;
  drop_execstep = λ step chain. pure tt;
}

-- The table of a chain is a part of the world that the manager of the chain reads and writes.
pub record NonceManager (W : Type 0) : Type 1 where
  pub table : NonceTable
  pub get : W → table.World
  pub set : table.World → W → W

pub record ChainManager (W : Type 0) : Type 1 where
  pub chain : UniversalChainId
  pub manager : NonceManager W

-- `.filter(|(chain, _)| *chain == chain_id).next()`
unfoldable pub get_nonce_manager :
    {W : Type 0} → List (ChainManager W) → UniversalChainId → Option (NonceManager W)
get_nonce_manager [] chain_id = none
get_nonce_manager (c ∷ cs) chain_id =
    if c.chain == chain_id then some c.manager else get_nonce_manager cs chain_id

-- `map_err(|_| e)` on a call of the manager.
abbrev pub as_executable {ℓ} :
    {A : Type ℓ} → Outcome NonceManagerError A → ExecutableError → Outcome ExecutableError A
as_executable (ok a) e = ok a
as_executable (err f) e = err e
as_executable panic e = panic

module _ {W : Type 0} where
  abbrev pub with_manager {ℓ} :
      {A : Type ℓ} (m : NonceManager W)
      → (m.table.World → Outcome NonceManagerError A × m.table.World)
      → ExecutableError
      → W
      → Outcome ExecutableError A × W
  with_manager m call e w = let (o, u) = call (m.get w) in (as_executable o e, m.set u w)

module _ (sv : Services) where
  unfoldable pub get_cur_block : UniversalChainId → M sv.World ℕ
  get_cur_block chain_id = do
    info ← lift (ok_or (get_chain_info_from_chain_id chain_id) failed_to_find_chain_info)
    map_err (sv.get_finalized_block_number info.rpc_url) rpc_request_failed

  -- `ExecuteStepMeta::WithCloudStorage`
  unfoldable pub live : ℕ → List (ChainManager sv.World) → StepMeta sv.World
  unfolding get_nonce_manager get_cur_block
  live cur_timestamp managers = record {
    cur_timestamp = cur_timestamp;
    get_nonce = λ step chain cur_block system_nonce w. elim (get_nonce_manager managers chain) [
      | none ↦ (err unsupported_chain, w)
      | some m ↦
          with_manager m (Nonces.get_nonce m.table step cur_block system_nonce) failed_to_get_nonce
            w
    ];
    finalize_execstep = λ step chain w. elim (get_nonce_manager managers chain) [
      | none ↦ (err unsupported_chain, w)
      | some m ↦
          (get_cur_block chain >>= λ cur_block.
          with_manager m (Nonces.finalize_execstep m.table step cur_block)
            failed_to_update_dynamo_db)
            w
    ];
    drop_execstep = λ step chain w. elim (get_nonce_manager managers chain) [
      | none ↦ (err unsupported_chain, w)
      | some m ↦
          with_manager m (Nonces.drop_execstep_from_id m.table step) failed_to_update_dynamo_db w
    ];
  }
