-- ===== src/Exec/Eth/Kinds.antt =====
-- The five kinds of Ethereum step: `impl EthExecutableHelper for …` of executable_eth_steps.rs.
use privadex.Prelude.{
  String, ℕ, ◌-◌, ◌+◌, ◌≡◌, refl, List, [], ◌∷◌, Option, none, some, ltb, if◌then◌else◌,
}
use privadex.Prelude.Fallible.{Outcome, ok, err, panic, or_panic, ok_or}
use privadex.Common.Ratio.{u64_mod}
use privadex.Metadata.Ids.{
  UniversalTokenId, UniversalAddress, ethereum, substrate, ChainTokenId, native, erc20, xc20,
  xc20_eth_address,
}
use privadex.Metadata.Chains.{ChainInfo}
use privadex.Plan.Types.{EthSendStep, Erc20TransferStep, EthWrapStep, EthUnwrapStep, EthDexSwapStep}
use privadex.Plan.Steps.{first_chain}
use privadex.Exec.Status.{
  ExecutableError, unexpected_non_eth_address, unexpected_null_amount, secret_not_found,
  unexpected_null_evm_chain_id, failed_to_create_txn, failed_to_load_weth_contract,
}
use privadex.Exec.Monad.{M, lift, map_err, ◌>>=◌, ◌>>◌, >>=-eq-ok}
use privadex.Exec.Services.{Services, StepMeta, KeyContainer, get_key}
use privadex.Exec.Eth.{check_loads, EthExecutableHelper, CompletedStepResult, IsSettled}
use privadex.Exec.Eth.Completion.{
  verified_get_completed_step_result_for_eth_transfer,
  verified_get_completed_step_result_for_erc20_transfer, get_completed_step_result_for_known_amount,
  get_completed_step_result_for_dex_swap, eth_transfer-IsSettled, erc20_transfer-IsSettled,
  known_amount-IsSettled, dex_swap-IsSettled,
}

-- `DEX_SWAP_LIFE_MILLIS`
abbrev dex_swap_life_millis : ℕ
dex_swap_life_millis = 480_000

eth_addr : UniversalAddress → Outcome ExecutableError ℕ
eth_addr (ethereum a) = ok a
eth_addr (substrate _) = err unexpected_non_eth_address

token_eth_addr : ChainTokenId → Outcome ExecutableError ℕ
unfolding xc20_eth_address
token_eth_addr native = err unexpected_non_eth_address
token_eth_addr (erc20 addr) = ok addr
token_eth_addr (xc20 asset_id) = ok (xc20_eth_address asset_id)

-- The panic of `get_completed_step_result` on the native token.
expect_token_eth_addr : ChainTokenId → Option ℕ
unfolding xc20_eth_address
expect_token_eth_addr native = none
expect_token_eth_addr (erc20 addr) = some addr
expect_token_eth_addr (xc20 asset_id) = some (xc20_eth_address asset_id)

swap_path : List UniversalTokenId → Outcome ExecutableError (List ℕ)
unfolding token_eth_addr
swap_path [] = ok []
swap_path (t ∷ ts) = elim (token_eth_addr t.id) [
  | ok a ↦ elim (swap_path ts) [ ok as' ↦ ok (a ∷ as') | err e ↦ err e | panic ↦ panic ]
  | err e ↦ err e
  | panic ↦ panic
]

swap_deadline : ℕ → ℕ
swap_deadline now =
    if ltb (u64_mod - 1 - dex_swap_life_millis) now then u64_mod - 1 else now + dex_swap_life_millis

module _ (sv : Services) (meta : StepMeta sv.World) (keys : KeyContainer) where
  unfoldable pub eth_send_raw_txn : EthSendStep → ChainInfo → ℕ → M sv.World sv.SignedTransaction
  unfolding eth_addr
  eth_send_raw_txn s info nonce = do
    to_addr ← lift (eth_addr s.common.dest_addr)
    amount ← lift (ok_or s.amount unexpected_null_amount)
    key ← lift (ok_or (get_key keys s.common.src_addr) secret_not_found)
    evm_chain_id ← lift (ok_or info.evm_chain_id unexpected_null_evm_chain_id)
    map_err (sv.create_send_eth_raw_txn info.rpc_url to_addr amount key evm_chain_id nonce)
        failed_to_create_txn

  unfoldable pub erc20_transfer_raw_txn :
      Erc20TransferStep → ChainInfo → ℕ → M sv.World sv.SignedTransaction
  unfolding eth_addr token_eth_addr check_loads
  erc20_transfer_raw_txn s info nonce = do
    to_addr ← lift (eth_addr s.common.dest_addr)
    amount ← lift (ok_or s.amount unexpected_null_amount)
    key ← lift (ok_or (get_key keys s.common.src_addr) secret_not_found)
    token ← lift (token_eth_addr s.token.id)
    lift (check_loads (sv.erc20_contract_loads info.rpc_url token) failed_to_load_weth_contract)
    map_err (sv.erc20_transfer info.rpc_url token to_addr amount key nonce) failed_to_create_txn

  unfoldable pub eth_wrap_raw_txn : EthWrapStep → ChainInfo → ℕ → M sv.World sv.SignedTransaction
  unfolding check_loads
  eth_wrap_raw_txn s info nonce = do
    amount ← lift (ok_or s.amount unexpected_null_amount)
    key ← lift (ok_or (get_key keys s.common.src_addr) secret_not_found)
    weth ← lift (ok_or info.weth_addr failed_to_load_weth_contract)
    lift (check_loads (sv.weth_contract_loads info.rpc_url weth) failed_to_load_weth_contract)
    map_err (sv.weth_deposit info.rpc_url weth amount key nonce) failed_to_create_txn

  unfoldable pub eth_unwrap_raw_txn :
      EthUnwrapStep → ChainInfo → ℕ → M sv.World sv.SignedTransaction
  unfolding check_loads
  eth_unwrap_raw_txn s info nonce = do
    amount ← lift (ok_or s.amount unexpected_null_amount)
    key ← lift (ok_or (get_key keys s.common.src_addr) secret_not_found)
    weth ← lift (ok_or info.weth_addr failed_to_load_weth_contract)
    lift (check_loads (sv.weth_contract_loads info.rpc_url weth) failed_to_load_weth_contract)
    map_err (sv.weth_withdraw info.rpc_url weth amount key nonce) failed_to_create_txn

  unfoldable pub eth_dex_swap_raw_txn :
      EthDexSwapStep → ChainInfo → ℕ → M sv.World sv.SignedTransaction
  unfolding eth_addr swap_path swap_deadline check_loads
  eth_dex_swap_raw_txn s info nonce = do
    amount_in ← lift (ok_or s.amount_in unexpected_null_amount)
    path ← lift (swap_path s.token_path)
    to_addr ← lift (eth_addr s.common.dest_addr)
    key ← lift (ok_or (get_key keys s.common.src_addr) secret_not_found)
    lift (
        check_loads (sv.dex_router_contract_loads info.rpc_url s.dex_router_addr)
          failed_to_load_weth_contract)
    map_err
        (sv.dex_router_swap s.dex_router_func info.rpc_url s.dex_router_addr amount_in 0 path
          to_addr (swap_deadline meta.cur_timestamp) key nonce)
        failed_to_create_txn

module _ (sv : Services) where
  unfoldable pub eth_send_result :
      EthSendStep → String → ℕ → M sv.World (Option CompletedStepResult)
  eth_send_result s rpc_url txn_hash = do
    amount ← lift (or_panic s.amount)
    verified_get_completed_step_result_for_eth_transfer sv rpc_url txn_hash amount

  unfoldable pub erc20_transfer_result :
      Erc20TransferStep → String → ℕ → M sv.World (Option CompletedStepResult)
  unfolding expect_token_eth_addr
  erc20_transfer_result s rpc_url txn_hash = do
    token ← lift (or_panic (expect_token_eth_addr s.token.id))
    amount ← lift (or_panic s.amount)
    verified_get_completed_step_result_for_erc20_transfer sv rpc_url txn_hash token amount

  unfoldable pub eth_wrap_result :
      EthWrapStep → String → ℕ → M sv.World (Option CompletedStepResult)
  eth_wrap_result s rpc_url txn_hash = do
    amount ← lift (or_panic s.amount)
    get_completed_step_result_for_known_amount sv rpc_url txn_hash amount

  unfoldable pub eth_unwrap_result :
      EthUnwrapStep → String → ℕ → M sv.World (Option CompletedStepResult)
  eth_unwrap_result s rpc_url txn_hash = do
    amount ← lift (or_panic s.amount)
    get_completed_step_result_for_known_amount sv rpc_url txn_hash amount

  pub eth_send-settles :
      (s : EthSendStep) (url : String) (h : ℕ) (w v : sv.World) (c : CompletedStepResult)
      → eth_send_result s url h w ≡ (ok (some c), v)
      → IsSettled c.new_status
  unfolding eth_send_result
  eth_send-settles s url h w v c k =
      let (a, u, _, settled) = >>=-eq-ok (lift (or_panic s.amount)) _ k in
      eth_transfer-IsSettled sv url h a u v c settled

  pub erc20_transfer-settles :
      (s : Erc20TransferStep) (url : String) (h : ℕ) (w v : sv.World) (c : CompletedStepResult)
      → erc20_transfer_result s url h w ≡ (ok (some c), v)
      → IsSettled c.new_status
  unfolding erc20_transfer_result
  erc20_transfer-settles s url h w v c k =
      let (t, u, _, k1) = >>=-eq-ok (lift (or_panic (expect_token_eth_addr s.token.id))) _ k in
      let (a, u', _, settled) = >>=-eq-ok (lift (or_panic s.amount)) _ k1 in
      erc20_transfer-IsSettled sv url h t a u' v c settled

  pub eth_wrap-settles :
      (s : EthWrapStep) (url : String) (h : ℕ) (w v : sv.World) (c : CompletedStepResult)
      → eth_wrap_result s url h w ≡ (ok (some c), v)
      → IsSettled c.new_status
  unfolding eth_wrap_result
  eth_wrap-settles s url h w v c k =
      let (a, u, _, settled) = >>=-eq-ok (lift (or_panic s.amount)) _ k in
      known_amount-IsSettled sv url h a u v c settled

  pub eth_unwrap-settles :
      (s : EthUnwrapStep) (url : String) (h : ℕ) (w v : sv.World) (c : CompletedStepResult)
      → eth_unwrap_result s url h w ≡ (ok (some c), v)
      → IsSettled c.new_status
  unfolding eth_unwrap_result
  eth_unwrap-settles s url h w v c k =
      let (a, u, _, settled) = >>=-eq-ok (lift (or_panic s.amount)) _ k in
      known_amount-IsSettled sv url h a u v c settled

  abbrev pub eth_send_helper : EthExecutableHelper sv EthSendStep
  eth_send_helper = record {
    status = λ s. s.status;
    common = λ s. s.common;
    update = λ s st c. record s { status = st; common = c };
    get_chain = λ s. some s.chain;
    uuid = λ s. s.uuid;
    create_raw_txn = eth_send_raw_txn sv;
    get_completed_step_result = eth_send_result;
    status-update = λ s st c. refl;
    settles = eth_send-settles;
  }

  abbrev pub erc20_transfer_helper : EthExecutableHelper sv Erc20TransferStep
  erc20_transfer_helper = record {
    status = λ s. s.status;
    common = λ s. s.common;
    update = λ s st c. record s { status = st; common = c };
    get_chain = λ s. some s.token.chain;
    uuid = λ s. s.uuid;
    create_raw_txn = erc20_transfer_raw_txn sv;
    get_completed_step_result = erc20_transfer_result;
    status-update = λ s st c. refl;
    settles = erc20_transfer-settles;
  }

  abbrev pub eth_wrap_helper : EthExecutableHelper sv EthWrapStep
  eth_wrap_helper = record {
    status = λ s. s.status;
    common = λ s. s.common;
    update = λ s st c. record s { status = st; common = c };
    get_chain = λ s. some s.chain;
    uuid = λ s. s.uuid;
    create_raw_txn = eth_wrap_raw_txn sv;
    get_completed_step_result = eth_wrap_result;
    status-update = λ s st c. refl;
    settles = eth_wrap-settles;
  }

  abbrev pub eth_unwrap_helper : EthExecutableHelper sv EthUnwrapStep
  eth_unwrap_helper = record {
    status = λ s. s.status;
    common = λ s. s.common;
    update = λ s st c. record s { status = st; common = c };
    get_chain = λ s. some s.chain;
    uuid = λ s. s.uuid;
    create_raw_txn = eth_unwrap_raw_txn sv;
    get_completed_step_result = eth_unwrap_result;
    status-update = λ s st c. refl;
    settles = eth_unwrap-settles;
  }

  abbrev pub eth_dex_swap_helper : EthExecutableHelper sv EthDexSwapStep
  eth_dex_swap_helper = record {
    status = λ s. s.status;
    common = λ s. s.common;
    update = λ s st c. record s { status = st; common = c };
    get_chain = λ s. first_chain s.token_path;
    uuid = λ s. s.uuid;
    create_raw_txn = eth_dex_swap_raw_txn sv;
    get_completed_step_result = λ s. get_completed_step_result_for_dex_swap sv;
    status-update = λ s st c. refl;
    settles = λ s url h w v c. dex_swap-IsSettled sv url h w v c;
  }
