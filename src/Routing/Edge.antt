-- ===== src/Routing/Edge.antt =====
-- Edges of the graph of tokens and their quotes: dex_aggregator/routing/src/graph/edge.rs and
-- traits.rs. `L` stands for MultiLocation and `T` for WalletMultiLocationTemplate. A panic is `none`.
pub mod Reserves
pub mod Bridges
use privadex.Prelude.{
  ℕ, ◌-◌, ◌%◌, ◌==◌, Bool, true, false, ◌&&◌, Option, none, some, if◌then◌else◌, ltb,
}
use privadex.Prelude.Panics.{◌>>=◌}
use privadex.Common.Ratio.{mul_ratio_u128, add_u128, sub_u16}
use privadex.Metadata.Ids.{UniversalChainId, UniversalTokenId, ChainTokenId, token_eq}
use privadex.Metadata.Dex.{Dex}

-- The trait of edges.
pub record QuoteGetter (A : Type 0) : Type 0 where
  pub get_src_dest_token : A → UniversalTokenId × UniversalTokenId
  pub get_quote : A → ℕ → Option ℕ
  pub get_quote_with_estimated_txn_fees : A → ℕ → Option ℕ
  pub get_estimated_txn_fees_in_dest_token : A → ℕ
  pub get_estimated_txn_fees_usd : A → ℕ
  pub get_dest_chain_estimated_gas_fee_usd : A → ℕ

-- The method that the trait provides.
unfoldable pub quote_less_fees : Option ℕ → ℕ → Option ℕ
quote_less_fees quote fee = do q ← quote; some (if ltb fee q then q - fee else 0)

pub record ConstantProductAmmSwapEdge : Type 0 where
  pub src_token : UniversalTokenId
  pub dest_token : UniversalTokenId
  pub token0 : ChainTokenId
  pub token1 : ChainTokenId
  pub reserve0 : ℕ
  pub reserve1 : ℕ
  pub estimated_gas_fee_in_dest_token : ℕ
  pub estimated_gas_fee_usd : ℕ
  pub dex : Dex
  pub pair_address : ℕ

-- The reserve of the token that comes out, and of the one that goes in.
unfoldable pub num_denom_reserve : ConstantProductAmmSwapEdge → Option (ℕ × ℕ)
num_denom_reserve e =
    if e.src_token.id == e.token0 && e.dest_token.id == e.token1
    then some (e.reserve1, e.reserve0)
    else if e.src_token.id == e.token1 && e.dest_token.id == e.token0
    then some (e.reserve0, e.reserve1)
    else none

unfoldable pub cpmm_quote : ℕ → ℕ → ℕ → ℕ → Option ℕ
cpmm_quote num_reserve denom_reserve fee_bps amount_in = do
  let after_fee_bps = sub_u16 10_000 fee_bps
  after_fee ← mul_ratio_u128 amount_in after_fee_bps 10_000
  let denominator = add_u128 denom_reserve after_fee
  part_numerator ← mul_ratio_u128 num_reserve after_fee_bps 10_000
  mul_ratio_u128 amount_in part_numerator denominator

unfoldable pub cpmm_get_quote : ConstantProductAmmSwapEdge → ℕ → Option ℕ
unfolding num_denom_reserve cpmm_quote
cpmm_get_quote e amount_in = do r ← num_denom_reserve e; cpmm_quote r.0 r.1 e.dex.fee_bps amount_in

unfoldable pub cpmm_quotes : QuoteGetter ConstantProductAmmSwapEdge
unfolding cpmm_get_quote quote_less_fees
cpmm_quotes = record {
  get_src_dest_token = λ e. (e.src_token, e.dest_token);
  get_quote = cpmm_get_quote;
  get_quote_with_estimated_txn_fees =
      λ e amount_in. quote_less_fees (cpmm_get_quote e amount_in) e.estimated_gas_fee_in_dest_token;
  get_estimated_txn_fees_in_dest_token = λ e. e.estimated_gas_fee_in_dest_token;
  get_estimated_txn_fees_usd = λ e. e.estimated_gas_fee_usd;
  get_dest_chain_estimated_gas_fee_usd = λ e. e.estimated_gas_fee_usd;
}

pub record WrapEdge : Type 0 where
  pub src_token : UniversalTokenId
  pub dest_token : UniversalTokenId
  pub estimated_gas_fee_in_dest_token : ℕ
  pub estimated_gas_fee_usd : ℕ

unfoldable pub wrap_quotes : QuoteGetter WrapEdge
unfolding quote_less_fees
wrap_quotes = record {
  get_src_dest_token = λ e. (e.src_token, e.dest_token);
  get_quote = λ e amount_in. some amount_in;
  get_quote_with_estimated_txn_fees =
      λ e amount_in. quote_less_fees (some amount_in) e.estimated_gas_fee_in_dest_token;
  get_estimated_txn_fees_in_dest_token = λ e. e.estimated_gas_fee_in_dest_token;
  get_estimated_txn_fees_usd = λ e. e.estimated_gas_fee_usd;
  get_dest_chain_estimated_gas_fee_usd = λ e. e.estimated_gas_fee_usd;
}

pub record UnwrapEdge : Type 0 where
  pub src_token : UniversalTokenId
  pub dest_token : UniversalTokenId
  pub estimated_gas_fee_in_dest_token : ℕ
  pub estimated_gas_fee_usd : ℕ

unfoldable pub unwrap_quotes : QuoteGetter UnwrapEdge
unfolding quote_less_fees
unwrap_quotes = record {
  get_src_dest_token = λ e. (e.src_token, e.dest_token);
  get_quote = λ e amount_in. some amount_in;
  get_quote_with_estimated_txn_fees =
      λ e amount_in. quote_less_fees (some amount_in) e.estimated_gas_fee_in_dest_token;
  get_estimated_txn_fees_in_dest_token = λ e. e.estimated_gas_fee_in_dest_token;
  get_estimated_txn_fees_usd = λ e. e.estimated_gas_fee_usd;
  get_dest_chain_estimated_gas_fee_usd = λ e. e.estimated_gas_fee_usd;
}

pub data SwapEdge : Type 0 where
  cpmm : ConstantProductAmmSwapEdge → SwapEdge
  wrap : WrapEdge → SwapEdge
  unwrap : UnwrapEdge → SwapEdge

unfoldable pub get_chain_id : SwapEdge → UniversalChainId
get_chain_id (cpmm edge) = edge.src_token.chain
get_chain_id (wrap edge) = edge.src_token.chain
get_chain_id (unwrap edge) = edge.src_token.chain

-- A match whose every arm calls the same method of the edge inside.
abbrev on_swap : {B : Type 0} → ((A : Type 0) → QuoteGetter A → A → B) → SwapEdge → B
on_swap method (cpmm edge) = method ConstantProductAmmSwapEdge cpmm_quotes edge
on_swap method (wrap edge) = method WrapEdge wrap_quotes edge
on_swap method (unwrap edge) = method UnwrapEdge unwrap_quotes edge

unfoldable pub swap_quotes : QuoteGetter SwapEdge
unfolding cpmm_quotes wrap_quotes unwrap_quotes
swap_quotes = record {
  get_src_dest_token = on_swap (λ A q. q.get_src_dest_token);
  get_quote = on_swap (λ A q. q.get_quote);
  get_quote_with_estimated_txn_fees = on_swap (λ A q. q.get_quote_with_estimated_txn_fees);
  get_estimated_txn_fees_in_dest_token = on_swap (λ A q. q.get_estimated_txn_fees_in_dest_token);
  get_estimated_txn_fees_usd = on_swap (λ A q. q.get_estimated_txn_fees_usd);
  get_dest_chain_estimated_gas_fee_usd = on_swap (λ A q. q.get_dest_chain_estimated_gas_fee_usd);
}

module _ (L T : Type 0) where
  pub record XcmBridgeEdge : Type 0 where
    pub src_token : UniversalTokenId
    pub dest_token : UniversalTokenId
    pub estimated_gas_fee_in_src_token : ℕ
    pub estimated_gas_fee_usd : ℕ
    pub estimated_bridge_fee_in_dest_token : ℕ
    pub estimated_bridge_fee_usd : ℕ
    pub estimated_dest_chain_gas_fee_usd : ℕ
    pub token_asset_multilocation : L
    pub dest_multilocation_template : T

  unfoldable pub xcm_quotes : QuoteGetter XcmBridgeEdge
  unfolding quote_less_fees
  xcm_quotes = record {
    get_src_dest_token = λ e. (e.src_token, e.dest_token);
    get_quote = λ e amount_in. some amount_in;
    get_quote_with_estimated_txn_fees = λ e amount_in.
        quote_less_fees (some amount_in)
          (add_u128 e.estimated_gas_fee_in_src_token e.estimated_bridge_fee_in_dest_token);
    get_estimated_txn_fees_in_dest_token =
        λ e. add_u128 e.estimated_gas_fee_in_src_token e.estimated_bridge_fee_in_dest_token;
    get_estimated_txn_fees_usd = λ e. add_u128 e.estimated_gas_fee_usd e.estimated_bridge_fee_usd;
    get_dest_chain_estimated_gas_fee_usd = λ e. e.estimated_dest_chain_gas_fee_usd;
  }

  pub data BridgeEdge : Type 0 where
    xcm : XcmBridgeEdge → BridgeEdge

  abbrev on_bridge : {B : Type 0} → (QuoteGetter XcmBridgeEdge → XcmBridgeEdge → B) → BridgeEdge → B
  on_bridge method (xcm edge) = method xcm_quotes edge

  unfoldable pub bridge_quotes : QuoteGetter BridgeEdge
  unfolding xcm_quotes
  bridge_quotes = record {
    get_src_dest_token = on_bridge (λ q. q.get_src_dest_token);
    get_quote = on_bridge (λ q. q.get_quote);
    get_quote_with_estimated_txn_fees = on_bridge (λ q. q.get_quote_with_estimated_txn_fees);
    get_estimated_txn_fees_in_dest_token = on_bridge (λ q. q.get_estimated_txn_fees_in_dest_token);
    get_estimated_txn_fees_usd = on_bridge (λ q. q.get_estimated_txn_fees_usd);
    get_dest_chain_estimated_gas_fee_usd = on_bridge (λ q. q.get_dest_chain_estimated_gas_fee_usd);
  }

  pub data Edge : Type 0 where
    swap : SwapEdge → Edge
    bridge : BridgeEdge → Edge

  abbrev on_edge : {B : Type 0} → ((A : Type 0) → QuoteGetter A → A → B) → Edge → B
  on_edge method (swap edge) = method SwapEdge swap_quotes edge
  on_edge method (bridge edge) = method BridgeEdge bridge_quotes edge

  unfoldable pub edge_quotes : QuoteGetter Edge
  unfolding swap_quotes bridge_quotes
  edge_quotes = record {
    get_src_dest_token = on_edge (λ A q. q.get_src_dest_token);
    get_quote = on_edge (λ A q. q.get_quote);
    get_quote_with_estimated_txn_fees = on_edge (λ A q. q.get_quote_with_estimated_txn_fees);
    get_estimated_txn_fees_in_dest_token = on_edge (λ A q. q.get_estimated_txn_fees_in_dest_token);
    get_estimated_txn_fees_usd = on_edge (λ A q. q.get_estimated_txn_fees_usd);
    get_dest_chain_estimated_gas_fee_usd = on_edge (λ A q. q.get_dest_chain_estimated_gas_fee_usd);
  }

module _ {L T : Type 0} where
  unfoldable pub is_swap : Edge L T → Bool
  is_swap (Edge.swap x) = true
  is_swap _ = false

  unfoldable pub is_bridge : Edge L T → Bool
  is_bridge (Edge.bridge x) = true
  is_bridge _ = false
