-- ===== src/Routing/Paths/Counts.antt =====
-- The limits of find_all_paths.rs on one more edge of a path, counted on the path itself.
use privadex.Prelude.{
  ℕ, suc, ◌≡◌, refl, ap, ◌↔◌, ◌<◌, inl, inr, true, List, [], ◌∷◌, some, Option-cases, length, arith,
}
use privadex.Routing.Edge.{Edge, is_swap, is_bridge}
use privadex.Routing.Paths.{
  AllPathsFinderConfig, PathEntry, get_num_bridges, get_num_latest_consecutive_swaps,
  consecutive_swap_prev_index, should_consider_path,
}

module _ {L T : Type 0} where
  abbrev pub swap_after : Edge L T → ℕ → ℕ
  swap_after (Edge.swap s) run = suc run
  swap_after (Edge.bridge b) run = 0

  abbrev pub bridge_after : Edge L T → ℕ → ℕ
  bridge_after (Edge.swap s) bridges = bridges
  bridge_after (Edge.bridge b) bridges = suc bridges

module _ {V L T : Type 0} where
  -- The swaps at the end of a path, up to the last bridge.
  unfoldable pub swap_run : List (PathEntry V L T) → ℕ
  swap_run [] = 0
  swap_run (p ∷ path) = swap_after p.edge (swap_run path)

  unfoldable pub bridge_count : List (PathEntry V L T) → ℕ
  bridge_count [] = 0
  bridge_count (p ∷ path) = bridge_after p.edge (bridge_count path)

  -- A path may grow by a bridge, or by a swap.
  abbrev pub WithinLimits : AllPathsFinderConfig → List (PathEntry V L T) → Edge L T → Type 0
  WithinLimits config path (Edge.bridge b) =
      (length path < config.max_path_len) × (bridge_count path < config.max_num_bridges)
  WithinLimits config path (Edge.swap s) =
      (length path < config.max_path_len) × (swap_run path < config.max_consecutive_swaps)

  prev_index-lt :
      (path : List (PathEntry V L T)) (i : ℕ)
      → consecutive_swap_prev_index path ≡ some i
      → i < length path
  unfolding consecutive_swap_prev_index
  prev_index-lt [] i h = cc
  prev_index-lt (p ∷ path) i h = ground (arith, prev_index-lt path i)

  swap_after_lem :
      (p : PathEntry V L T) (path : List (PathEntry V L T))
      → get_num_latest_consecutive_swaps path ≡ swap_run path
      → get_num_latest_consecutive_swaps (p ∷ path) ≡ swap_run (p ∷ path)
  unfolding get_num_latest_consecutive_swaps consecutive_swap_prev_index swap_run is_swap
  swap_after_lem p path ih = by_edge p.edge
    where
      by_edge :
          (e : Edge L T)
          → get_num_latest_consecutive_swaps (record p { edge = e } ∷ path)
            ≡ swap_run (record p { edge = e } ∷ path)
      by_edge (Edge.swap s) = elim (Option-cases (consecutive_swap_prev_index path)) [
        | inl n ↦ ground (arith, ih)
        | inr (i, s) ↦ ground (arith, ih, prev_index-lt path i s)
      ]
      by_edge (Edge.bridge b) = omega arith

  -- The index arithmetic of the code counts this run.
  pub latest_swaps_lem :
      (path : List (PathEntry V L T)) → get_num_latest_consecutive_swaps path ≡ swap_run path
  unfolding get_num_latest_consecutive_swaps consecutive_swap_prev_index swap_run
  latest_swaps_lem [] = refl
  latest_swaps_lem (p ∷ path) = swap_after_lem p path (latest_swaps_lem path)

  pub num_bridges_lem : (path : List (PathEntry V L T)) → get_num_bridges path ≡ bridge_count path
  unfolding get_num_bridges bridge_count is_bridge
  num_bridges_lem [] = refl
  num_bridges_lem (p ∷ path) = by_edge (num_bridges_lem path) p.edge
    where
      by_edge :
          get_num_bridges path ≡ bridge_count path
          → (e : Edge L T)
          → get_num_bridges (record p { edge = e } ∷ path)
            ≡ bridge_count (record p { edge = e } ∷ path)
      by_edge ih (Edge.swap s) = ih
      by_edge ih (Edge.bridge b) = ap suc ih

  pub should_consider_path_iff :
      (config : AllPathsFinderConfig) (path : List (PathEntry V L T)) (e : Edge L T)
      → (should_consider_path config path e ≡ true) ↔ WithinLimits config path e
  unfolding should_consider_path is_swap is_bridge
  should_consider_path_iff config path (Edge.swap s) = ground (arith, latest_swaps_lem path)
  should_consider_path_iff config path (Edge.bridge b) = ground (arith, num_bridges_lem path)
