-- ===== src/Convert/Steps.antt =====
-- One step from one or more edges: helper_to_single_exec_step.rs, and the constants and the error type
-- of common.rs. An `expect` that fails and an explicit panic are `none`.
pub mod Swaps
pub mod Singles
pub mod Fresh
use privadex.Prelude.{
  ℕ, ◌==◌, Bool, true, false, not, List, [], ◌∷◌, map, any, Option, none, some, if◌then◌else◌,
}
use privadex.Prelude.Panics.{◌>>=◌}
use privadex.Prelude.Fallible.{Outcome, ok, err, panic}
use privadex.Metadata.Ids.{
  UniversalChainId, UniversalTokenId, UniversalAddress, chain_eq, ethereum, substrate,
}
use privadex.Metadata.Chains.{ChainInfo, AddressType, astar, get_chain_info_from_chain_id}
use privadex.Metadata.Dex.{Dex, dex_eq}
use privadex.Metadata.Templates.{
  Xcm, WalletMultiLocationTemplate, TemplateError, get_full_dest_multilocation,
}
use privadex.Plan.Types.{
  CommonExecutionMeta, EthStepStatus, CrossChainStepStatus, EthWrapStep, EthUnwrapStep,
  EthDexSwapStep, XcmTransferStep, DexRouterFunction,
}
use privadex.Routing.Edge.{WrapEdge, UnwrapEdge, ConstantProductAmmSwapEdge, XcmBridgeEdge}

abbrev pub escrow_eth_address : ℕ
escrow_eth_address = 0x05a81d8564a3eA298660e34e03E5Eff9a29d7a2A

abbrev pub escrow_astar_native_address : ℕ
escrow_astar_native_address = 0x5134c7f0e31c2a9e19dceddb7403b2836c69cce0b0719d2f58ec0d4da35129be

abbrev pub escrow_substrate_public_key : ℕ
escrow_substrate_public_key = 0x7011b670bb662eedbd60a1c4c11b7c197ec22e7cfe87df00013ca2c494f3b01a

pub data GraphToExecConversionError : Type 0 where
  graph_solution_paths_length_zero graph_path_length_zero no_chain_info started_wrap_ended_unwrap
        unexpected_still_processing_swap unexpected_swap_after_unwrap :
      GraphToExecConversionError

at_escrow : ChainInfo → ℕ → CommonExecutionMeta
at_escrow chain_info gas_fee_usd = record {
  src_addr = ethereum escrow_eth_address;
  dest_addr = ethereum escrow_eth_address;
  gas_fee_native = chain_info.avg_gas_fee_in_native_token;
  gas_fee_usd = gas_fee_usd;
}

unfoldable pub convert_wrap_to_exec_step : WrapEdge → ℕ → Option ℕ → Option EthWrapStep
unfolding at_escrow get_chain_info_from_chain_id
convert_wrap_to_exec_step edge uuid amount = do
  chain_info ← get_chain_info_from_chain_id edge.src_token.chain
  some (record {
    uuid = uuid;
    chain = edge.src_token.chain;
    amount = amount;
    common = at_escrow chain_info edge.estimated_gas_fee_usd;
    status = EthStepStatus.not_started;
  })

unfoldable pub convert_unwrap_to_exec_step : UnwrapEdge → ℕ → Option ℕ → Option EthUnwrapStep
unfolding at_escrow get_chain_info_from_chain_id
convert_unwrap_to_exec_step edge uuid amount = do
  chain_info ← get_chain_info_from_chain_id edge.src_token.chain
  some (record {
    uuid = uuid;
    chain = edge.src_token.chain;
    amount = amount;
    common = at_escrow chain_info edge.estimated_gas_fee_usd;
    status = EthStepStatus.not_started;
  })

unfoldable pub same_dex_step :
    ConstantProductAmmSwapEdge
    → List ConstantProductAmmSwapEdge
    → ℕ
    → Option ℕ
    → DexRouterFunction
    → ChainInfo
    → EthDexSwapStep
unfolding at_escrow
same_dex_step first rest uuid amount_in dex_router_func chain_info = record {
  uuid = uuid;
  dex_router_addr = first.dex.eth_dex_router;
  dex_router_func = dex_router_func;
  token_path = first.src_token ∷ map (λ edge. edge.dest_token) (first ∷ rest);
  amount_in = amount_in;
  common = at_escrow chain_info first.estimated_gas_fee_usd;
  status = EthStepStatus.not_started;
}

unfoldable pub convert_same_dex_swaps_to_exec_step :
    List ConstantProductAmmSwapEdge → ℕ → Option ℕ → DexRouterFunction → Option EthDexSwapStep
unfolding same_dex_step get_chain_info_from_chain_id
convert_same_dex_swaps_to_exec_step [] uuid amount_in dex_router_func = none
convert_same_dex_swaps_to_exec_step (first ∷ rest) uuid amount_in dex_router_func =
    if any (λ edge. not (edge.dex.id == first.dex.id)) (first ∷ rest)
    then none
    else get_chain_info_from_chain_id first.dex.chain_id >>= λ chain_info.
        some (same_dex_step first rest uuid amount_in dex_router_func chain_info)

unfoldable pub get_escrow_send_xcm_address : ChainInfo → UniversalAddress
get_escrow_send_xcm_address chain_info =
    if chain_info.chain_id == astar
    then ethereum escrow_eth_address
    else elim chain_info.xcm_address_type [
      | AddressType.ethereum ↦ ethereum escrow_eth_address
      | AddressType.ss58 ↦ substrate escrow_substrate_public_key
    ]

unfoldable pub get_escrow_receive_xcm_address : ChainInfo → UniversalAddress
get_escrow_receive_xcm_address chain_info =
    if chain_info.chain_id == astar
    then substrate escrow_astar_native_address
    else elim chain_info.xcm_address_type [
      | AddressType.ethereum ↦ ethereum escrow_eth_address
      | AddressType.ss58 ↦ substrate escrow_substrate_public_key
    ]

abbrev pub expect {ℓ} : {A : Type ℓ} → Outcome TemplateError A → Option A
expect (ok a) = some a
expect (err e) = none
expect panic = none

module _ (x : Xcm) where
  unfoldable pub convert_xcm_bridge_to_exec_step :
      XcmBridgeEdge x.MultiLocation (WalletMultiLocationTemplate x)
      → ℕ
      → Option ℕ
      → Option (XcmTransferStep x.MultiLocation)
  unfolding get_escrow_send_xcm_address get_escrow_receive_xcm_address get_full_dest_multilocation
      get_chain_info_from_chain_id
  convert_xcm_bridge_to_exec_step edge uuid amount_in = do
    src_chain_info ← get_chain_info_from_chain_id edge.src_token.chain
    dest_chain_info ← get_chain_info_from_chain_id edge.dest_token.chain
    let dest_addr = get_escrow_receive_xcm_address dest_chain_info
    full_dest_multilocation ←
        expect (get_full_dest_multilocation x edge.dest_multilocation_template dest_addr)
    some (record {
      uuid = uuid;
      src_token = edge.src_token;
      dest_token = edge.dest_token;
      token_asset_multilocation = edge.token_asset_multilocation;
      full_dest_multilocation = full_dest_multilocation;
      amount_in = amount_in;
      bridge_fee_native = dest_chain_info.avg_bridge_fee_in_native_token;
      bridge_fee_usd = edge.estimated_bridge_fee_usd;
      common = record {
        src_addr = get_escrow_send_xcm_address src_chain_info;
        dest_addr = dest_addr;
        gas_fee_native = src_chain_info.avg_gas_fee_in_native_token;
        gas_fee_usd = edge.estimated_gas_fee_usd;
      };
      status = CrossChainStepStatus.not_started;
    })
