-- ===== src/Convert/Steps/Singles.antt =====
-- What the step of a single wrap, unwrap or bridge keeps of its edge.
use privadex.Prelude.{ℕ, ◌≡◌, Option, some}
use privadex.Prelude.Panics.{>>=-eq-some}
use privadex.Prelude.Fallible.{Outcome, ok, err, panic}
use privadex.Metadata.Chains.{ChainInfo, get_chain_info_from_chain_id}
use privadex.Metadata.Templates.{
  Xcm, TemplateError, WalletMultiLocationTemplate, get_full_dest_multilocation,
}
use privadex.Plan.Types.{EthWrapStep, EthUnwrapStep, XcmTransferStep}
use privadex.Routing.Edge.{WrapEdge, UnwrapEdge, XcmBridgeEdge}
use privadex.Convert.Steps.{
  convert_wrap_to_exec_step, convert_unwrap_to_exec_step, convert_xcm_bridge_to_exec_step, expect,
  get_escrow_receive_xcm_address,
}

pub wrap_step_ok :
    (e : WrapEdge) (uuid : ℕ) (amount : Option ℕ) (s : EthWrapStep)
    → convert_wrap_to_exec_step e uuid amount ≡ some s
    → s.chain ≡ e.src_token.chain
unfolding convert_wrap_to_exec_step
wrap_step_ok e uuid amount s h =
    let (info, _, made) = >>=-eq-some (get_chain_info_from_chain_id e.src_token.chain) _ h in cc

pub unwrap_step_ok :
    (e : UnwrapEdge) (uuid : ℕ) (amount : Option ℕ) (s : EthUnwrapStep)
    → convert_unwrap_to_exec_step e uuid amount ≡ some s
    → s.chain ≡ e.src_token.chain
unfolding convert_unwrap_to_exec_step
unwrap_step_ok e uuid amount s h =
    let (info, _, made) = >>=-eq-some (get_chain_info_from_chain_id e.src_token.chain) _ h in cc

expect_ok {ℓ} : {A : Type ℓ} (o : Outcome TemplateError A) (a : A) → expect o ≡ some a → o ≡ ok a
expect_ok (ok b) a h = cc h
expect_ok (err e) a h = cc h
expect_ok panic a h = cc h

pub bridge_step_ok :
    (x : Xcm) (e : XcmBridgeEdge x.MultiLocation (WalletMultiLocationTemplate x)) (uuid : ℕ)
    (amount : Option ℕ) (s : XcmTransferStep x.MultiLocation)
    → convert_xcm_bridge_to_exec_step x e uuid amount ≡ some s
    → (s.src_token ≡ e.src_token)
      × (s.dest_token ≡ e.dest_token)
      × (s.token_asset_multilocation ≡ e.token_asset_multilocation)
      × (info : ChainInfo) × (get_chain_info_from_chain_id e.dest_token.chain ≡ some info)
      × (s.common.dest_addr ≡ get_escrow_receive_xcm_address info)
      × (get_full_dest_multilocation x e.dest_multilocation_template s.common.dest_addr
          ≡ ok s.full_dest_multilocation)
unfolding convert_xcm_bridge_to_exec_step
bridge_step_ok x e uuid amount s h =
    let (src_info, _, h1) = >>=-eq-some (get_chain_info_from_chain_id e.src_token.chain) _ h in
    let (dest_info, at_dest, h2) =
      >>=-eq-some (get_chain_info_from_chain_id e.dest_token.chain) _ h1 in
    let (full, at_full, made) =
      >>=-eq-some
        (expect (
          get_full_dest_multilocation x e.dest_multilocation_template
            (get_escrow_receive_xcm_address dest_info)))
        _ h2 in
    let to : s.common.dest_addr ≡ get_escrow_receive_xcm_address dest_info = cc made in
    let full_eq : s.full_dest_multilocation ≡ full = cc made in
    (
      cc,
      cc,
      cc,
      dest_info,
      at_dest,
      to,
      rw (to, full_eq)
          (expect_ok
            (get_full_dest_multilocation x e.dest_multilocation_template
              (get_escrow_receive_xcm_address dest_info))
            full at_full),
    )
