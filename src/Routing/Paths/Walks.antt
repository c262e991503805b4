-- ===== src/Routing/Paths/Walks.antt =====
-- What a path of a search is, with no search: a walk along the graph that meets no vertex twice, stops
-- at its destination, and keeps to the limits.
use privadex.Prelude.{◌≡◌, ◌≢◌, List, [], ◌∷◌, map, some}
use mathlib.Core.List.{Memᴰ, reverse}
use privadex.Routing.Edge.{Edge}
use privadex.Routing.Graph.{SimpleGraphs, Graph, get_edges}
use privadex.Routing.Paths.{AllPathsFinderConfig, PathEntry}
use privadex.Routing.Paths.Counts.{WithinLimits}

module _ (sg : SimpleGraphs) {L T : Type 0} (g : Graph sg L T) (config : AllPathsFinderConfig)
    (src dest : sg.VertexId) where
  -- The vertices of a path, its last first.
  abbrev pub vertices : List (PathEntry sg.VertexId L T) → List sg.VertexId
  vertices [] = src ∷ []
  vertices (p ∷ path) = p.dest ∷ vertices path

  -- `c` may follow on the path that has come to `u`.
  pub record CanTake (path : List (PathEntry sg.VertexId L T)) (u : sg.VertexId)
      (c : PathEntry sg.VertexId L T) : Type 0 where
    pub neighbor : Memᴰ c.dest (sg.out_neighbors u g.simple_graph)
    pub fresh : Memᴰ c.dest (vertices path) → ⊥
    pub edges : List (Edge L T)
    pub known : get_edges sg u c.dest g ≡ some edges
    pub one_of_them : Memᴰ c.edge edges
    pub allowed : WithinLimits config path c.edge

  -- From the path to `u`, the path `whole` comes to the destination.
  pub data Walk
      : List (PathEntry sg.VertexId L T)
        → sg.VertexId
        → List (PathEntry sg.VertexId L T)
        → Type 0 where
    arrive :
        {path : List (PathEntry sg.VertexId L T)} {u : sg.VertexId} → u ≡ dest → Walk path u path
    onward :
        {path : List (PathEntry sg.VertexId L T)} {u : sg.VertexId}
        {whole : List (PathEntry sg.VertexId L T)} (c : PathEntry sg.VertexId L T)
        → u ≢ dest
        → CanTake path u c
        → Walk (c ∷ path) c.dest whole
        → Walk path u whole

  abbrev pub edges_of : List (PathEntry sg.VertexId L T) → List (Edge L T)
  edges_of path = map (λ p. p.edge) (reverse path)

  -- The paths that continue the path to `u`.
  abbrev pub Continues : List (PathEntry sg.VertexId L T) → sg.VertexId → List (Edge L T) → Type 0
  Continues path u edges =
      (whole : List (PathEntry sg.VertexId L T)) × Walk path u whole × (edges ≡ edges_of whole)

  -- The paths from the source to the destination.
  abbrev pub IsRoute : List (Edge L T) → Type 0
  IsRoute = Continues [] src
