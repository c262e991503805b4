-- ===== src/Routing/Paths.antt =====
-- dex_aggregator/routing/src/smart_order_router/helper_graph_algos/find_all_paths.rs: the search for
-- all paths between two tokens, depth first, with an explicit stack. A Vec that is used as a stack has
-- its last element at the head of the list.
pub mod Counts
pub mod Walks
pub mod Pushes
pub mod Rounds
pub mod Complete
pub mod Limits
use privadex.Prelude.{
  ℕ, zero, suc, ◌+◌, ◌-◌, ◌%◌, Bool, not, ◌&&◌, ◌||◌, List, [], ◌∷◌, ◌++◌, map, Option, none, some,
  ltb, leb, ◌==◌, if◌then◌else◌, length,
}
use privadex.Prelude.Panics.{◌>>=◌}
use privadex.Prelude.Maps.{contains, add, remove}
use mathlib.Core.List.{reverse}
use privadex.Routing.Edge.{Edge, is_swap, is_bridge}
use privadex.Routing.Graph.{SimpleGraphs, Graph, get_edges, vertex_instance}

pub record AllPathsFinderConfig : Type 0 where
  pub max_path_len : ℕ
  pub max_num_bridges : ℕ
  pub max_consecutive_swaps : ℕ

-- `Default::default`
abbrev pub default_config : AllPathsFinderConfig
default_config = record { max_path_len = 8; max_num_bridges = 2; max_consecutive_swaps = 4 }

pub record StackEntry (V L T : Type 0) : Type 0 where
  pub vertex : V
  pub edge : Option (Edge L T)
  pub path_len : ℕ

pub record PathEntry (V L T : Type 0) : Type 0 where
  pub dest : V
  pub edge : Edge L T

module _ {V L T : Type 0} where
  unfoldable pub get_num_bridges : List (PathEntry V L T) → ℕ
  get_num_bridges [] = 0
  get_num_bridges (p ∷ path) =
      if is_bridge p.edge then suc (get_num_bridges path) else get_num_bridges path

  -- `.enumerate().rev().filter(not a swap).next()`: the index of the last edge that is no swap.
  unfoldable pub consecutive_swap_prev_index : List (PathEntry V L T) → Option ℕ
  consecutive_swap_prev_index [] = none
  consecutive_swap_prev_index (p ∷ path) =
      if not (is_swap p.edge) then some (length path) else consecutive_swap_prev_index path

  unfoldable pub get_num_latest_consecutive_swaps : List (PathEntry V L T) → ℕ
  unfolding consecutive_swap_prev_index
  get_num_latest_consecutive_swaps path = elim (consecutive_swap_prev_index path) [
    | some prev_index ↦ length path - (prev_index + 1)
    | none ↦ length path
  ]

  unfoldable pub should_consider_path :
      AllPathsFinderConfig → List (PathEntry V L T) → Edge L T → Bool
  unfolding get_num_bridges get_num_latest_consecutive_swaps
  should_consider_path config path edge =
      ltb (length path) config.max_path_len
      && (not (is_bridge edge) || ltb (get_num_bridges path) config.max_num_bridges)
      && (not (is_swap edge)
          || ltb (get_num_latest_consecutive_swaps path) config.max_consecutive_swaps)

-- The local variables of the loop.
pub record Search (V L T : Type 0) : Type 0 where
  pub visited : List V
  pub path : List (PathEntry V L T)
  pub stack : List (StackEntry V L T)
  pub all_paths : List (List (Edge L T))

pub data Answer (L T : Type 0) : Type 0 where
  found : List (List (Edge L T)) → Answer L T
  panicked out_of_fuel : Answer L T

module _ (sg : SimpleGraphs) {L T : Type 0} (g : Graph sg L T) (config : AllPathsFinderConfig) where
  -- The loop that trims the path: `n` pops.
  unfoldable pub trim :
      ℕ
      → List (PathEntry sg.VertexId L T)
      → List sg.VertexId
      → Option (List (PathEntry sg.VertexId L T) × List sg.VertexId)
  trim zero path visited = some (path, visited)
  trim (suc n) [] visited = none
  trim (suc n) (p ∷ path) visited = trim n path (remove ⦃e = vertex_instance sg⦄ p.dest visited)

  -- `for _ in 0..(path.len() - path_len)`. A difference below 0 would wrap to a count that is
  -- larger than the path, so the pops would reach the empty path: a panic.
  unfoldable pub trim_to :
      ℕ
      → List (PathEntry sg.VertexId L T)
      → List sg.VertexId
      → Option (List (PathEntry sg.VertexId L T) × List sg.VertexId)
  unfolding trim
  trim_to path_len path visited =
      if leb path_len (length path) then trim (length path - path_len) path visited else none

  -- The body of `for edge in edges`.
  unfoldable pub push_edges :
      List (PathEntry sg.VertexId L T)
      → sg.VertexId
      → List (Edge L T)
      → List (StackEntry sg.VertexId L T)
      → List (StackEntry sg.VertexId L T)
  unfolding should_consider_path
  push_edges path i [] stack = stack
  push_edges path i (e ∷ es) stack = push_edges path i es (
      if should_consider_path config path e
      then record { vertex = i; edge = some e; path_len = length path % 256 } ∷ stack
      else stack)

  -- The body of `for i in out_neighbors(&u)`.
  unfoldable pub push_neighbor :
      List (PathEntry sg.VertexId L T)
      → List sg.VertexId
      → sg.VertexId
      → sg.VertexId
      → List (StackEntry sg.VertexId L T)
      → Option (List (StackEntry sg.VertexId L T))
  unfolding push_edges
  push_neighbor path visited u i stack =
      if contains ⦃e = vertex_instance sg⦄ i visited
      then some stack
      else get_edges sg u i g >>= λ edges. some (push_edges path i edges stack)

  unfoldable pub push_neighbors :
      List (PathEntry sg.VertexId L T)
      → List sg.VertexId
      → sg.VertexId
      → List sg.VertexId
      → List (StackEntry sg.VertexId L T)
      → Option (List (StackEntry sg.VertexId L T))
  unfolding push_neighbor
  push_neighbors path visited u [] stack = some stack
  push_neighbors path visited u (i ∷ is) stack =
      push_neighbor path visited u i stack >>= push_neighbors path visited u is

  -- `if let Some(e) = edge { path.push(..) }`
  unfoldable pub push_path :
      StackEntry sg.VertexId L T
      → List (PathEntry sg.VertexId L T)
      → List (PathEntry sg.VertexId L T)
  push_path entry path = elim entry.edge [
    | none ↦ path
    | some e ↦ record { dest = entry.vertex; edge = e } ∷ path
  ]

  -- The rest of the body of `while`, after the path is trimmed.
  unfoldable pub visit :
      sg.VertexId
      → sg.VertexId
      → List (StackEntry sg.VertexId L T)
      → List (List (Edge L T))
      → List (PathEntry sg.VertexId L T)
      → List sg.VertexId
      → Option (Search sg.VertexId L T)
  unfolding push_neighbors
  visit dest u stack all_paths path visited =
      if (vertex_instance sg).eq u dest
      then some (record {
        visited = visited;
        path = path;
        stack = stack;
        all_paths = all_paths ++ map (λ p. p.edge) (reverse path) ∷ [];
      })
      else push_neighbors path visited u (sg.out_neighbors u g.simple_graph) stack >>= λ pushed.
          some (record { visited = visited; path = path; stack = pushed; all_paths = all_paths })

  -- The body of `while`, after `entry` is popped from the stack.
  unfoldable pub round :
      sg.VertexId
      → Search sg.VertexId L T
      → StackEntry sg.VertexId L T
      → List (StackEntry sg.VertexId L T)
      → Option (Search sg.VertexId L T)
  unfolding trim_to push_path visit
  round dest s entry stack = trim_to entry.path_len s.path s.visited >>= λ trimmed.
      visit dest entry.vertex stack s.all_paths (push_path entry trimmed.0)
        (add ⦃e = vertex_instance sg⦄ entry.vertex trimmed.1)

  -- `while !stack.is_empty()`
  unfoldable pub loop : sg.VertexId → ℕ → Search sg.VertexId L T → Answer L T
  unfolding round
  loop dest zero s = elim s.stack [ [] ↦ found s.all_paths | _ ∷ _ ↦ out_of_fuel ]
  loop dest (suc fuel) s = elim s.stack [
    | [] ↦ found s.all_paths
    | entry ∷ stack ↦ elim (round dest s entry stack) [
      | none ↦ panicked
      | some t ↦ loop dest fuel t
    ]
  ]

  unfoldable pub find_all_paths : sg.VertexId → sg.VertexId → ℕ → Answer L T
  unfolding loop
  find_all_paths src dest fuel = loop dest fuel (record {
    visited = [];
    path = [];
    stack = record { vertex = src; edge = none; path_len = 0 } ∷ [];
    all_paths = [];
  })
