-- ===== src/Routing/Sor.antt =====
-- The choice of one path: dex_aggregator/routing/src/smart_order_router/single_path_sor.rs.
pub mod Optimal
use privadex.Prelude.{ℕ, Bool, ◌==◌, List, [], ◌∷◌, Option, none, some, ltb, if◌then◌else◌}
use privadex.Prelude.Panics.{◌>>=◌}
use privadex.Prelude.Fallible.{Outcome, ok, err, panic}
use privadex.Metadata.Ids.{UniversalTokenId, token_id_eq}
use privadex.Routing.Edge.{Edge}
use privadex.Routing.Graph.{
  SimpleGraphs, Graph, get_vertex, PublicError, no_path_found, src_token_dest_token_are_same,
  vertex_not_in_graph,
}
use privadex.Routing.Paths.{
  AllPathsFinderConfig, Answer, found, panicked, out_of_fuel, find_all_paths,
}
use privadex.Routing.GraphPath
use privadex.Routing.Solution.{SplitGraphPath, GraphSolution}

pub record SinglePathSor (sg : SimpleGraphs) (L T : Type 0) : Type 0 where
  pub graph : Graph sg L T
  pub src_addr : ℕ
  pub dest_addr : ℕ
  pub src_token : UniversalTokenId
  pub dest_token : UniversalTokenId
  pub all_paths_finder_config : AllPathsFinderConfig

-- Of two maximal elements, `max_by_key` keeps the later.
abbrev pub keep_better {ℓ} : {A : Type ℓ} → Option (A × ℕ) → A → ℕ → Option (A × ℕ)
keep_better none x key = some (x, key)
keep_better (some (y, best)) x key = if ltb key best then some (y, best) else some (x, key)

-- `max_by_key` with a key that may panic.
unfoldable pub max_by_key {ℓ} :
    {A : Type ℓ} → (A → Option ℕ) → List A → Option (A × ℕ) → Option (Option (A × ℕ))
max_by_key key [] best = some best
max_by_key key (x ∷ xs) best = key x >>= λ k. max_by_key key xs (keep_better best x k)

module _ {L T : Type 0} where
  -- `.ok_or(PublicError::NoPathFound)?`
  optimal : Option (Option (List (Edge L T) × ℕ)) → Outcome PublicError (List (Edge L T))
  optimal none = panic
  optimal (some none) = err no_path_found
  optimal (some (some (path, key))) = ok path

  -- The search that ran out of fuel has no answer.
  best_found : ℕ → Answer L T → Option (Outcome PublicError (List (Edge L T)))
  unfolding optimal max_by_key GraphPath.get_quote_with_estimated_txn_fees
  best_found amount_in (found paths) = some (
      optimal (
        max_by_key (λ path. GraphPath.get_quote_with_estimated_txn_fees path amount_in) paths none))
  best_found amount_in panicked = some panic
  best_found amount_in out_of_fuel = none

module _ {sg : SimpleGraphs} {L T : Type 0} where
  find_between :
      SinglePathSor sg L T
      → ℕ
      → ℕ
      → Option sg.VertexId
      → Option sg.VertexId
      → Option (Outcome PublicError (List (Edge L T)))
  unfolding best_found find_all_paths
  find_between sor amount_in fuel none dest = some (err (vertex_not_in_graph sor.src_token))
  find_between sor amount_in fuel (some src) none = some (err (vertex_not_in_graph sor.dest_token))
  find_between sor amount_in fuel (some src) (some dest) =
      best_found amount_in (find_all_paths sg sor.graph sor.all_paths_finder_config src dest fuel)

  unfoldable pub find_optimal_path :
      SinglePathSor sg L T → ℕ → ℕ → Option (Outcome PublicError (List (Edge L T)))
  unfolding find_between get_vertex
  find_optimal_path sor amount_in fuel =
      if sor.src_token == sor.dest_token
      then some (err src_token_dest_token_are_same)
      else find_between sor amount_in fuel (get_vertex sg sor.src_token sor.graph)
          (get_vertex sg sor.dest_token sor.graph)

  abbrev pub solution : SinglePathSor sg L T → ℕ → List (Edge L T) → GraphSolution L T
  solution sor amount_in path = record {
    paths = record { path = path; fraction_amount_in = amount_in; fraction_bps = 10_000 } ∷ [];
    amount_in = amount_in;
    src_addr = sor.src_addr;
    dest_addr = sor.dest_addr;
  }

  as_solution :
      SinglePathSor sg L T
      → ℕ
      → Outcome PublicError (List (Edge L T))
      → Outcome PublicError (GraphSolution L T)
  as_solution sor amount_in (ok path) = ok (solution sor amount_in path)
  as_solution sor amount_in (err e) = err e
  as_solution sor amount_in panic = panic

  unfoldable pub compute_graph_solution :
      SinglePathSor sg L T → ℕ → ℕ → Option (Outcome PublicError (GraphSolution L T))
  unfolding find_optimal_path as_solution
  compute_graph_solution sor amount_in fuel =
      find_optimal_path sor amount_in fuel >>= λ outcome. some (as_solution sor amount_in outcome)
