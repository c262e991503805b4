-- ===== src/Routing/Edge/Bridges.antt =====
-- The fees of a bridge edge: `XCMBridgeEdge::from_bridge_and_derived_quantities` of
-- dex_aggregator/routing/src/graph/edge.rs, from the bridge (dex_aggregator/chain_metadata/src/bridge.rs)
-- and the prices of its tokens in the native tokens of their chains and in dollars.
use privadex.Prelude.{ℕ, Option, some}
use privadex.Prelude.Int.{pos}
use privadex.Prelude.Panics.{◌>>=◌}
use privadex.Common.FixedPoint.{DecimalFixedPoint, add_exp, mul_u128, u128_div, u128_mul_div}
use privadex.Metadata.Ids.{UniversalTokenId}
use privadex.Metadata.Chains.{get_chain_info_from_chain_id}
use privadex.Routing.Edge.{XcmBridgeEdge}

module _ (L T : Type 0) where
  pub record XcmBridge : Type 0 where
    pub src_token : UniversalTokenId
    pub dest_token : UniversalTokenId
    pub token_asset_multilocation : L
    pub dest_multilocation_template : T
    pub estimated_bridge_fee_in_dest_chain_native_token : ℕ

  -- The dollar price with USD_AMOUNT_EXPONENT decimals.
  abbrev usd_scaled : DecimalFixedPoint → DecimalFixedPoint
  usd_scaled token_derived_usd = add_exp token_derived_usd (pos 18)

  unfoldable pub from_bridge_and_derived_quantities :
      XcmBridge
      → DecimalFixedPoint
      → DecimalFixedPoint
      → DecimalFixedPoint
      → Option (XcmBridgeEdge L T)
  unfolding add_exp mul_u128 u128_div u128_mul_div get_chain_info_from_chain_id
  from_bridge_and_derived_quantities b src_token_derived_eth dest_token_derived_eth
        token_derived_usd =
      do
        src_info ← get_chain_info_from_chain_id b.src_token.chain
        gas_fee_in_src_token ← u128_div src_info.avg_gas_fee_in_native_token src_token_derived_eth
        gas_fee_usd ← mul_u128 (usd_scaled token_derived_usd) gas_fee_in_src_token
        bridge_fee_in_dest_token ←
            u128_div b.estimated_bridge_fee_in_dest_chain_native_token dest_token_derived_eth
        bridge_fee_usd ← mul_u128 (usd_scaled token_derived_usd) bridge_fee_in_dest_token
        dest_info ← get_chain_info_from_chain_id b.dest_token.chain
        dest_gas_fee_usd ←
            u128_mul_div dest_info.avg_gas_fee_in_native_token (usd_scaled token_derived_usd)
              dest_token_derived_eth
        some (record {
          src_token = b.src_token;
          dest_token = b.dest_token;
          estimated_gas_fee_in_src_token = gas_fee_in_src_token;
          estimated_gas_fee_usd = gas_fee_usd;
          estimated_bridge_fee_in_dest_token = bridge_fee_in_dest_token;
          estimated_bridge_fee_usd = bridge_fee_usd;
          estimated_dest_chain_gas_fee_usd = dest_gas_fee_usd;
          token_asset_multilocation = b.token_asset_multilocation;
          dest_multilocation_template = b.dest_multilocation_template;
        })
