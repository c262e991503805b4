-- ===== src/Routing/GraphPath.antt =====
-- `impl QuoteGetter for GraphPath` of dex_aggregator/routing/src/graph/graph.rs: the quotes of a path,
-- which is its list of edges. A panic is `none`. Sums are u128.
use privadex.Prelude.{ℕ, List, [], ◌∷◌, Option, none, some, foldl}
use privadex.Prelude.Panics.{◌>>=◌}
use privadex.Common.Ratio.{add_u128}
use privadex.Metadata.Ids.{UniversalTokenId}
use privadex.Routing.Edge.{Edge, edge_quotes}

abbrev pub first {ℓ} : {A : Type ℓ} → List A → Option A
first [] = none
first (x ∷ xs) = some x

abbrev pub last {ℓ} : {A : Type ℓ} → List A → Option A
last [] = none
last (x ∷ []) = some x
last (x ∷ y ∷ ys) = last (y ∷ ys)

module _ {L T : Type 0} where
  unfoldable pub get_src_dest_token : List (Edge L T) → Option (UniversalTokenId × UniversalTokenId)
  unfolding edge_quotes
  get_src_dest_token path = do
    start ← first path
    end ← last path
    some (
      ((edge_quotes L T).get_src_dest_token start).0,
      ((edge_quotes L T).get_src_dest_token end).1,
    )

  unfoldable pub get_quote : List (Edge L T) → ℕ → Option ℕ
  unfolding edge_quotes
  get_quote [] amount_out = some amount_out
  get_quote (edge ∷ path) amount_out =
      (edge_quotes L T).get_quote edge amount_out >>= get_quote path

  unfoldable pub get_quote_with_estimated_txn_fees : List (Edge L T) → ℕ → Option ℕ
  unfolding edge_quotes
  get_quote_with_estimated_txn_fees [] amount_out = some amount_out
  get_quote_with_estimated_txn_fees (edge ∷ path) amount_out =
      (edge_quotes L T).get_quote_with_estimated_txn_fees edge amount_out
      >>= get_quote_with_estimated_txn_fees path

  fees_from : List (Edge L T) → ℕ → Option ℕ
  unfolding edge_quotes
  fees_from [] fee = some fee
  fees_from (edge ∷ path) fee = do
    let additional_fee = (edge_quotes L T).get_estimated_txn_fees_in_dest_token edge
    quote ← (edge_quotes L T).get_quote edge fee
    fees_from path (add_u128 quote additional_fee)

  unfoldable pub get_estimated_txn_fees_in_dest_token : List (Edge L T) → Option ℕ
  unfolding fees_from
  get_estimated_txn_fees_in_dest_token path = fees_from path 0

  unfoldable pub get_estimated_txn_fees_usd : List (Edge L T) → ℕ
  unfolding edge_quotes
  get_estimated_txn_fees_usd =
      foldl (λ fees_usd edge. add_u128 fees_usd ((edge_quotes L T).get_estimated_txn_fees_usd edge))
        0

  unfoldable pub get_dest_chain_estimated_gas_fee_usd : List (Edge L T) → ℕ
  unfolding edge_quotes
  get_dest_chain_estimated_gas_fee_usd =
      foldl
        (λ fees_usd edge.
          add_u128 fees_usd ((edge_quotes L T).get_dest_chain_estimated_gas_fee_usd edge))
        0
