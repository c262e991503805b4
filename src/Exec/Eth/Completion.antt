-- ===== src/Exec/Eth/Completion.antt =====
-- The module `helpers` of executable_eth_steps.rs, without the feature `mock-txn-send`: what the
-- receipt of a transaction says about the step that sent it.
use privadex.Prelude.{
  subst, ℕ, String, ◌≡◌, ◌↔◌, Bool, true, not, ◌||◌, Option, none, some, ◌==◌, nat_eq,
  if◌then◌else◌, arith,
}
use privadex.Prelude.Fallible.{Outcome, ok}
use privadex.Plan.Types.{confirmed, failed}
use privadex.Exec.Status.{ExecutableError}
use privadex.Exec.Services.{Services, EthTransfer, Erc20Transfer, TxnSummary}
use privadex.Exec.Eth.{CompletedStepResult, IsSettled}

abbrev pub confirmed_with : ℕ → ℕ → ℕ → CompletedStepResult
confirmed_with txn_hash fee amount = record {
  new_status = confirmed txn_hash;
  actual_gas_fee_native = fee;
  amount_out = amount;
}

abbrev pub failed_with : ℕ → ℕ → CompletedStepResult
failed_with txn_hash fee = record {
  new_status = failed txn_hash;
  actual_gas_fee_native = fee;
  amount_out = 0;
}

unfoldable pub is_eth_transfer_invalid : EthTransfer → ℕ → Bool
is_eth_transfer_invalid t expected_amount = not (t.amount == expected_amount)

unfoldable pub is_erc20_transfer_invalid : Erc20Transfer → ℕ → ℕ → Bool
is_erc20_transfer_invalid t expected_token expected_amount =
    not (t.amount == expected_amount) || not (t.token == expected_token)

-- The branches on a parsed receipt.
unfoldable pub complete_eth_transfer : ℕ → ℕ → EthTransfer → CompletedStepResult
unfolding is_eth_transfer_invalid
complete_eth_transfer txn_hash expected_amount t =
    if is_eth_transfer_invalid t expected_amount
    then failed_with txn_hash t.gas_fee_native
    else if t.is_txn_success
    then confirmed_with txn_hash t.gas_fee_native expected_amount
    else failed_with txn_hash t.gas_fee_native

unfoldable pub complete_erc20_transfer : ℕ → ℕ → ℕ → Erc20Transfer → CompletedStepResult
unfolding is_erc20_transfer_invalid
complete_erc20_transfer txn_hash expected_token expected_amount t =
    if is_erc20_transfer_invalid t expected_token expected_amount
    then failed_with txn_hash t.gas_fee_native
    else if t.is_txn_success
    then confirmed_with txn_hash t.gas_fee_native expected_amount
    else failed_with txn_hash t.gas_fee_native

unfoldable pub complete_known_amount : ℕ → ℕ → TxnSummary → CompletedStepResult
complete_known_amount txn_hash amount t =
    if t.is_txn_success
    then confirmed_with txn_hash t.gas_fee_native amount
    else failed_with txn_hash t.gas_fee_native

unfoldable pub complete_dex_swap : ℕ → Erc20Transfer → CompletedStepResult
complete_dex_swap txn_hash t =
    if t.is_txn_success
    then confirmed_with txn_hash t.gas_fee_native t.amount
    else failed_with txn_hash t.gas_fee_native

-- `if let Ok(parsed) = … { Some(…) } else { None }`
abbrev pub complete {ℓ} :
    {T : Type ℓ} {W : Type 0}
    → (T → CompletedStepResult)
    → (W → Option T × W)
    → W
    → Outcome ExecutableError (Option CompletedStepResult) × W
complete f call w = let (o, w') = call w in (ok (elim o [ none ↦ none | some t ↦ some (f t) ]), w')

module _ (sv : Services) where
  unfoldable pub verified_get_completed_step_result_for_eth_transfer :
      String → ℕ → ℕ → sv.World → Outcome ExecutableError (Option CompletedStepResult) × sv.World
  unfolding complete_eth_transfer
  verified_get_completed_step_result_for_eth_transfer rpc_url eth_send_txn expected_amount =
      complete (complete_eth_transfer eth_send_txn expected_amount)
        (sv.parse_transfer_from_eth_send_txn rpc_url eth_send_txn)

  unfoldable pub verified_get_completed_step_result_for_erc20_transfer :
      String
      → ℕ
      → ℕ
      → ℕ
      → sv.World
      → Outcome ExecutableError (Option CompletedStepResult) × sv.World
  unfolding complete_erc20_transfer
  verified_get_completed_step_result_for_erc20_transfer rpc_url txn expected_token expected_amount =
      complete (complete_erc20_transfer txn expected_token expected_amount)
        (sv.parse_transfer_from_erc20_txn rpc_url txn)

  unfoldable pub get_completed_step_result_for_known_amount :
      String → ℕ → ℕ → sv.World → Outcome ExecutableError (Option CompletedStepResult) × sv.World
  unfolding complete_known_amount
  get_completed_step_result_for_known_amount rpc_url txn_hash amount =
      complete (complete_known_amount txn_hash amount) (sv.get_txn_summary rpc_url txn_hash)

  unfoldable pub get_completed_step_result_for_dex_swap :
      String → ℕ → sv.World → Outcome ExecutableError (Option CompletedStepResult) × sv.World
  unfolding complete_dex_swap
  get_completed_step_result_for_dex_swap rpc_url txn_hash =
      complete (complete_dex_swap txn_hash) (sv.parse_transfer_from_dex_swap_txn rpc_url txn_hash)

-- Every receipt settles its transaction.
complete_eth_transfer-IsSettled :
    (h a : ℕ) (t : EthTransfer) → IsSettled (complete_eth_transfer h a t).new_status
unfolding complete_eth_transfer
complete_eth_transfer-IsSettled h a t = ground arith

complete_erc20_transfer-IsSettled :
    (h k a : ℕ) (t : Erc20Transfer) → IsSettled (complete_erc20_transfer h k a t).new_status
unfolding complete_erc20_transfer
complete_erc20_transfer-IsSettled h k a t = ground arith

complete_known_amount-IsSettled :
    (h a : ℕ) (t : TxnSummary) → IsSettled (complete_known_amount h a t).new_status
unfolding complete_known_amount
complete_known_amount-IsSettled h a t = ground arith

complete_dex_swap-IsSettled :
    (h : ℕ) (t : Erc20Transfer) → IsSettled (complete_dex_swap h t).new_status
unfolding complete_dex_swap
complete_dex_swap-IsSettled h t = ground arith

module _ {T W : Type 0} where
  complete-IsSettled :
      (f : T → CompletedStepResult) (call : W → Option T × W)
      → ((t : T) → IsSettled (f t).new_status)
      → (w v : W) (c : CompletedStepResult) → complete f call w ≡ (ok (some c), v)
      → IsSettled c.new_status
  complete-IsSettled f call settled w v c h = by_answer (call w) h
    where
      by_answer :
          (r : Option T × W)
          → ◌≡◌ {A = Outcome ExecutableError (Option CompletedStepResult) × W}
              (ok (elim r.0 [ none ↦ none | some t ↦ some (f t) ]), r.1)
              (ok (some c), v)
          → IsSettled c.new_status
      by_answer (none, u) k = cc
      by_answer (some t, u) k =
          let q : f t ≡ c = ground arith in
          subst (λ (r : CompletedStepResult). IsSettled r.new_status) q (settled t)

module _ (sv : Services) where
  pub eth_transfer-IsSettled :
      (url : String) (h a : ℕ) (w v : sv.World) (c : CompletedStepResult)
      → verified_get_completed_step_result_for_eth_transfer sv url h a w ≡ (ok (some c), v)
      → IsSettled c.new_status
  unfolding verified_get_completed_step_result_for_eth_transfer
  eth_transfer-IsSettled url h a = complete-IsSettled _ _ (complete_eth_transfer-IsSettled h a)

  pub erc20_transfer-IsSettled :
      (url : String) (h k a : ℕ) (w v : sv.World) (c : CompletedStepResult)
      → verified_get_completed_step_result_for_erc20_transfer sv url h k a w ≡ (ok (some c), v)
      → IsSettled c.new_status
  unfolding verified_get_completed_step_result_for_erc20_transfer
  erc20_transfer-IsSettled url h k a =
      complete-IsSettled _ _ (complete_erc20_transfer-IsSettled h k a)

  pub known_amount-IsSettled :
      (url : String) (h a : ℕ) (w v : sv.World) (c : CompletedStepResult)
      → get_completed_step_result_for_known_amount sv url h a w ≡ (ok (some c), v)
      → IsSettled c.new_status
  unfolding get_completed_step_result_for_known_amount
  known_amount-IsSettled url h a = complete-IsSettled _ _ (complete_known_amount-IsSettled h a)

  pub dex_swap-IsSettled :
      (url : String) (h : ℕ) (w v : sv.World) (c : CompletedStepResult)
      → get_completed_step_result_for_dex_swap sv url h w ≡ (ok (some c), v)
      → IsSettled c.new_status
  unfolding get_completed_step_result_for_dex_swap
  dex_swap-IsSettled url h = complete-IsSettled _ _ (complete_dex_swap-IsSettled h)

-- The receipt of a native transfer confirms its step exactly when the transaction succeeded and moved
-- the expected amount, whatever its sender and its recipient are.
pub complete_eth_transfer_iff :
    (txn_hash expected : ℕ) (t : EthTransfer)
    → ((complete_eth_transfer txn_hash expected t).new_status ≡ confirmed txn_hash)
      ↔ ((t.is_txn_success ≡ true) × (t.amount ≡ expected))
unfolding complete_eth_transfer
complete_eth_transfer_iff txn_hash expected t = ground arith
