-- ===== src/Tests/Routes.antt =====
-- The graph of two edges: its paths, its best solution, and a quote.
use privadex.Prelude.{
  ℕ, ◌≡◌, ◌≤◌, ◌<◌, ◌/◌, ◌+◌, ◌*◌, ◌↔◌, refl, List, [], ◌∷◌, Option, none, some, arith, Bool,
}
use privadex.Prelude.Fallible.{Outcome, ok}
use mathlib.Core.List.{Memᴰ}
use privadex.Prelude.{true, false, ◌-◌}
use privadex.Routing.Edge.{XcmBridgeEdge, xcm_quotes}
use privadex.Routing.Edge.{Edge, cpmm_quote, cpmm, wrap}
use privadex.Routing.Edge.Reserves.{less_fee, cpmm_quote-lt-reserve}
use privadex.Routing.Graph.{PublicError, Graph, add_edge, get_vertex}
use privadex.Routing.Graph.Complete.{IsComplete, add_edge-IsComplete}
use privadex.Routing.Paths.{found, find_all_paths, default_config}
use privadex.Routing.Paths.Walks.{IsRoute}
use privadex.Routing.Paths.Complete.{find_all_paths_iff}
use privadex.Routing.Sor.{SinglePathSor}
use privadex.Tests.Graphs.{
  GraphOf, lists, glmr, usdc, wrapping, swapping, vertices_only, vertices_only-IsComplete,
}

cpmm_quote-lt-reserve_example :
    (q : ℕ) × (cpmm_quote 3000 1000 30 100 ≡ some q)
    × (q ≡ 100 * less_fee 3000 30 / (1000 + less_fee 100 30))
    × (q < 3000)
cpmm_quote-lt-reserve_example =
    cpmm_quote-lt-reserve 3000 1000 30 100 (omega arith) (omega arith) (omega arith) (omega arith)
      (omega arith)

abbrev graph_or : GraphOf → Outcome PublicError GraphOf → GraphOf
graph_or d (ok g) = g
graph_or d _ = d

abbrev EdgeHere : Type 0
EdgeHere = Edge Bool Bool

abbrev with_wrap : GraphOf
with_wrap = graph_or vertices_only (add_edge lists (Edge.swap (wrap wrapping)) vertices_only)

adds_wrap : add_edge lists (Edge.swap (wrap wrapping)) vertices_only ≡ ok with_wrap
unfolding add_edge privadex.Routing.Graph.get_vertex privadex.Routing.Graph.get_edges
    privadex.Routing.Edge.edge_quotes privadex.Routing.Edge.swap_quotes
    privadex.Routing.Edge.cpmm_quotes privadex.Routing.Edge.wrap_quotes privadex.Prelude.Maps.get
    privadex.Prelude.Maps.insert privadex.Routing.Graph.new privadex.Routing.Graph.add_vertex
adds_wrap = refl

with_wrap-IsComplete : IsComplete lists with_wrap
with_wrap-IsComplete =
    add_edge-IsComplete lists (Edge.swap (wrap wrapping)) vertices_only with_wrap
      vertices_only-IsComplete adds_wrap

add_edge-IsComplete_example : IsComplete lists with_wrap
add_edge-IsComplete_example =
    add_edge-IsComplete lists (Edge.swap (wrap wrapping)) vertices_only with_wrap
      vertices_only-IsComplete adds_wrap

abbrev both_edges : GraphOf
both_edges = graph_or vertices_only (add_edge lists (Edge.swap (cpmm swapping)) with_wrap)

adds_swap : add_edge lists (Edge.swap (cpmm swapping)) with_wrap ≡ ok both_edges
unfolding add_edge privadex.Routing.Graph.get_vertex privadex.Routing.Graph.get_edges
    privadex.Routing.Edge.edge_quotes privadex.Routing.Edge.swap_quotes
    privadex.Routing.Edge.cpmm_quotes privadex.Routing.Edge.wrap_quotes privadex.Prelude.Maps.get
    privadex.Prelude.Maps.insert privadex.Routing.Graph.new privadex.Routing.Graph.add_vertex
adds_swap = refl

both_edges-IsComplete : IsComplete lists both_edges
both_edges-IsComplete =
    add_edge-IsComplete lists (Edge.swap (cpmm swapping)) with_wrap both_edges with_wrap-IsComplete
      adds_swap

-- With the default limits, from GLMR to USDC there is one path, and the search finds it.
finds_path :
    find_all_paths lists both_edges default_config 0 2 3
    ≡ found ((Edge.swap (wrap wrapping) ∷ Edge.swap (cpmm swapping) ∷ []) ∷ [])
unfolding add_edge privadex.Routing.Graph.get_vertex privadex.Routing.Graph.get_edges
    privadex.Routing.Edge.edge_quotes privadex.Routing.Edge.swap_quotes
    privadex.Routing.Edge.cpmm_quotes privadex.Routing.Edge.wrap_quotes privadex.Prelude.Maps.get
    privadex.Prelude.Maps.insert privadex.Routing.Graph.new privadex.Routing.Graph.add_vertex
    find_all_paths privadex.Routing.Paths.loop privadex.Routing.Paths.round
    privadex.Routing.Paths.visit privadex.Routing.Paths.push_path
    privadex.Routing.Paths.push_neighbors privadex.Routing.Paths.push_neighbor
    privadex.Routing.Paths.push_edges privadex.Routing.Paths.trim_to privadex.Routing.Paths.trim
    privadex.Routing.Paths.should_consider_path privadex.Routing.Paths.get_num_bridges
    privadex.Routing.Paths.get_num_latest_consecutive_swaps
    privadex.Routing.Paths.consecutive_swap_prev_index privadex.Routing.Edge.is_swap
    privadex.Routing.Edge.is_bridge privadex.Prelude.Maps.contains privadex.Prelude.Maps.add
    privadex.Prelude.Maps.remove
finds_path = refl

find_all_paths_iff_example :
    (n : ℕ) × (all : List (List EdgeHere)) × ((fuel : ℕ)
      → n ≤ fuel
      → find_all_paths lists both_edges default_config 0 2 fuel ≡ found all)
    × ((x : List EdgeHere) → Memᴰ x all ↔ IsRoute lists both_edges default_config 0 2 x)
find_all_paths_iff_example =
    find_all_paths_iff lists both_edges default_config 0 2 both_edges-IsComplete (omega arith)

abbrev sor : SinglePathSor lists Bool Bool
sor = record {
  graph = both_edges;
  src_addr = 1;
  dest_addr = 2;
  src_token = glmr;
  dest_token = usdc;
  all_paths_finder_config = default_config;
}
