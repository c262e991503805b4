-- ===== src/Routing/Solution.antt =====
-- `SplitGraphPath` and `GraphSolution` of dex_aggregator/routing/src/graph/graph.rs, and the quotes of
-- a solution. A panic is `none`. Sums are u128.
use privadex.Prelude.{ℕ, List, [], ◌∷◌, Option, some, foldl}
use privadex.Prelude.Panics.{◌>>=◌}
use privadex.Common.Ratio.{add_u128}
use privadex.Metadata.Ids.{UniversalTokenId}
use privadex.Routing.Edge.{Edge}
use privadex.Routing.GraphPath
use privadex.Routing.GraphPath.{first}

module _ (L T : Type 0) where
  pub record SplitGraphPath : Type 0 where
    pub path : List (Edge L T)
    pub fraction_amount_in : ℕ
    pub fraction_bps : ℕ

  pub record GraphSolution : Type 0 where
    pub paths : List SplitGraphPath
    pub amount_in : ℕ
    pub src_addr : ℕ
    pub dest_addr : ℕ

-- `fold(0, |sum, x| sum + f(x))` where `f` may panic.
abbrev pub sum_or_panic {ℓ} : {A : Type ℓ} → (A → Option ℕ) → List A → ℕ → Option ℕ
sum_or_panic f [] sum = some sum
sum_or_panic f (x ∷ xs) sum = do y ← f x; sum_or_panic f xs (add_u128 sum y)

-- `impl GraphSolution`
module _ {L T : Type 0} where
  unfoldable pub get_src_dest_token :
      GraphSolution L T → Option (UniversalTokenId × UniversalTokenId)
  unfolding GraphPath.get_src_dest_token
  get_src_dest_token s = first s.paths >>= λ p. GraphPath.get_src_dest_token p.path

  unfoldable pub get_quote : GraphSolution L T → Option ℕ
  unfolding GraphPath.get_quote
  get_quote s = sum_or_panic (λ p. GraphPath.get_quote p.path p.fraction_amount_in) s.paths 0

  unfoldable pub get_quote_with_estimated_txn_fees : GraphSolution L T → Option ℕ
  unfolding GraphPath.get_quote_with_estimated_txn_fees
  get_quote_with_estimated_txn_fees s =
      sum_or_panic (λ p. GraphPath.get_quote_with_estimated_txn_fees p.path p.fraction_amount_in)
        s.paths 0

  unfoldable pub get_estimated_txn_fees_in_dest_token : GraphSolution L T → Option ℕ
  unfolding GraphPath.get_estimated_txn_fees_in_dest_token
  get_estimated_txn_fees_in_dest_token s =
      sum_or_panic (λ p. GraphPath.get_estimated_txn_fees_in_dest_token p.path) s.paths 0

  unfoldable pub get_estimated_txn_fees_usd : GraphSolution L T → ℕ
  unfolding GraphPath.get_estimated_txn_fees_usd
  get_estimated_txn_fees_usd s =
      foldl (λ fees p. add_u128 fees (GraphPath.get_estimated_txn_fees_usd p.path)) 0 s.paths

  unfoldable pub get_dest_chain_estimated_gas_fee_usd : GraphSolution L T → ℕ
  unfolding GraphPath.get_dest_chain_estimated_gas_fee_usd
  get_dest_chain_estimated_gas_fee_usd s =
      foldl (λ fees p. add_u128 fees (GraphPath.get_dest_chain_estimated_gas_fee_usd p.path)) 0
        s.paths
