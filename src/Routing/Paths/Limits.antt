-- ===== src/Routing/Paths/Limits.antt =====
-- The limits that a found path keeps to, counted on the path itself.
use privadex.Prelude.{◌≡◌, ◌≤◌, List, [], ◌∷◌, length}
use mathlib.Core.List.{Memᴰ}
use privadex.Routing.Edge.{Edge}
use privadex.Routing.Graph.{SimpleGraphs, Graph}
use privadex.Routing.Paths.{AllPathsFinderConfig, PathEntry, get_num_bridges}
use privadex.Routing.Paths.Counts.{swap_run}
use privadex.Routing.Paths.Walks.{vertices}

module _ (sg : SimpleGraphs) {L T : Type 0} (g : Graph sg L T) (config : AllPathsFinderConfig)
    (src dest : sg.VertexId) where
  -- No vertex is met twice, and every beginning of the path keeps to the three limits.
  abbrev pub IsLegal : List (PathEntry sg.VertexId L T) → Type 0
  IsLegal [] = Unit
  IsLegal (c ∷ path) =
      (Memᴰ c.dest (vertices sg g config src dest path) → ⊥)
      × (length (c ∷ path) ≤ config.max_path_len)
      × (get_num_bridges (c ∷ path) ≤ config.max_num_bridges)
      × (swap_run (c ∷ path) ≤ config.max_consecutive_swaps)
      × IsLegal path

  abbrev pub EndsAt : List (PathEntry sg.VertexId L T) → sg.VertexId → Type 0
  EndsAt [] u = src ≡ u
  EndsAt (c ∷ path) u = c.dest ≡ u
