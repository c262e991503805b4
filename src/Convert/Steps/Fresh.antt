-- ===== src/Convert/Steps/Fresh.antt =====
-- The steps that helper_to_single_exec_step.rs makes have not started, and spend what they are given.
use privadex.Prelude.{ℕ, ◌≡◌, any, not, List, [], ◌∷◌, Option, some, Bool-cases, inl, inr, ◌==◌}
use privadex.Prelude.Panics.{>>=-eq-some}
use privadex.Metadata.Ids.{token_eq}
use privadex.Metadata.Chains.{get_chain_info_from_chain_id}
use privadex.Metadata.Dex.{dex_eq}
use privadex.Metadata.Templates.{Xcm, WalletMultiLocationTemplate, get_full_dest_multilocation}
use privadex.Plan.Types.{
  EthStepStatus, EthWrapStep, EthUnwrapStep, EthDexSwapStep, XcmTransferStep, CrossChainStepStatus,
  DexRouterFunction,
}
use privadex.Routing.Edge.{WrapEdge, UnwrapEdge, XcmBridgeEdge, ConstantProductAmmSwapEdge}
use privadex.Convert.Steps.{
  convert_wrap_to_exec_step, convert_unwrap_to_exec_step, convert_xcm_bridge_to_exec_step,
  convert_same_dex_swaps_to_exec_step, same_dex_step, expect, get_escrow_receive_xcm_address,
}

pub wrap_status :
    (e : WrapEdge) (uuid : ℕ) (amount : Option ℕ) (s : EthWrapStep)
    → convert_wrap_to_exec_step e uuid amount ≡ some s
    → (s.status ≡ EthStepStatus.not_started) × (s.amount ≡ amount)
unfolding convert_wrap_to_exec_step
wrap_status e uuid amount s h =
    let (info, _, made) = >>=-eq-some (get_chain_info_from_chain_id e.src_token.chain) _ h in
    (cc, cc)

pub unwrap_status :
    (e : UnwrapEdge) (uuid : ℕ) (amount : Option ℕ) (s : EthUnwrapStep)
    → convert_unwrap_to_exec_step e uuid amount ≡ some s
    → (s.status ≡ EthStepStatus.not_started) × (s.amount ≡ amount)
unfolding convert_unwrap_to_exec_step
unwrap_status e uuid amount s h =
    let (info, _, made) = >>=-eq-some (get_chain_info_from_chain_id e.src_token.chain) _ h in
    (cc, cc)

pub swap_status :
    (cs : List ConstantProductAmmSwapEdge) (uuid : ℕ) (amount : Option ℕ) (f : DexRouterFunction)
    (s : EthDexSwapStep)
    → convert_same_dex_swaps_to_exec_step cs uuid amount f ≡ some s
    → (s.status ≡ EthStepStatus.not_started) × (s.amount_in ≡ amount)
unfolding convert_same_dex_swaps_to_exec_step same_dex_step
swap_status [] uuid amount f s h = cc
swap_status (c ∷ rest) uuid amount f s h =
    elim (Bool-cases (any (λ e. not (e.dex.id == c.dex.id)) (c ∷ rest))) [
      | inl mixed ↦ absurd (cc (rw (mixed, convert_same_dex_swaps_to_exec_step) at h))
      | inr same ↦
          let (info, _, made) =
            >>=-eq-some (get_chain_info_from_chain_id c.dex.chain_id) _
              (rw (same, convert_same_dex_swaps_to_exec_step) at h) in
          (cc, cc)
    ]

module _ (x : Xcm) where
  pub bridge_status :
      (e : XcmBridgeEdge x.MultiLocation (WalletMultiLocationTemplate x)) (uuid : ℕ)
      (amount : Option ℕ) (s : XcmTransferStep x.MultiLocation)
      → convert_xcm_bridge_to_exec_step x e uuid amount ≡ some s
      → (s.status ≡ CrossChainStepStatus.not_started) × (s.amount_in ≡ amount)
  unfolding convert_xcm_bridge_to_exec_step
  bridge_status e uuid amount s h =
      let (src_info, _, h1) = >>=-eq-some (get_chain_info_from_chain_id e.src_token.chain) _ h in
      let (dest_info, _, h2) = >>=-eq-some (get_chain_info_from_chain_id e.dest_token.chain) _ h1 in
      let (full, _, made) =
        >>=-eq-some
          (expect (
            get_full_dest_multilocation x e.dest_multilocation_template
              (get_escrow_receive_xcm_address dest_info)))
          _ h2 in
      (cc, cc)
