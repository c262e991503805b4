-- ===== src/Routing/Graph.antt =====
-- dex_aggregator/routing/src/graph/graph.rs: the graph of tokens, over the crate graphlib. The list of
-- edges of a pair of vertices is kept beside the graph of the crate, which has one edge for each pair.
pub mod Complete
use privadex.Prelude.{
  ℕ, ◌+◌, ◌≡◌, refl, ◌↔◌, ◌⊎◌, Bool, true, ◌&&◌, ◌==◌, PartialEq, Option, none, some, List, [], ◌∷◌,
  ◌++◌, length, foldl, arith,
}
use privadex.Prelude.Fallible.{Outcome, ok, err, ok_or, ◌>>=◌}
use privadex.Prelude.Maps.{get, insert}
use privadex.Metadata.Ids.{UniversalTokenId, token_id_eq}
use mathlib.Core.List.{Memᴰ}
use privadex.Common.FixedPoint.{DecimalFixedPoint}
use privadex.Routing.Edge.{Edge, edge_quotes}

pub data PublicError : Type 0 where
  add_edge_failed create_graph_failed invalid_body no_path_found request_failed
        src_token_dest_token_are_same unregistered_chain_id :
      PublicError
  bridge_missing_src_token bridge_missing_dest_token vertex_not_in_graph :
      UniversalTokenId → PublicError

pub record Token : Type 0 where
  pub id : UniversalTokenId
  pub derived_eth : DecimalFixedPoint
  pub derived_usd : DecimalFixedPoint

-- What the code uses of graphlib, and what the crate documents of it: a new graph has no edges, a
-- new vertex has none, and an edge that is added joins its two ends and no others.
pub record SimpleGraphs : Type 1 where
  pub VertexId : Type 0
  pub vertex_eq : PartialEq VertexId
  pub SimpleGraph : Type 0
  pub new : SimpleGraph
  pub add_vertex : Token → SimpleGraph → VertexId × SimpleGraph
  pub fetch : VertexId → SimpleGraph → Option Token
  pub add_edge : VertexId → VertexId → SimpleGraph → Option SimpleGraph
  pub out_neighbors : VertexId → SimpleGraph → List VertexId
  pub out_neighbors-new : (u : VertexId) → out_neighbors u new ≡ []
  pub out_neighbors-add_vertex :
      (t : Token) (u : VertexId) (g : SimpleGraph)
      → out_neighbors u (add_vertex t g).1 ≡ out_neighbors u g
  pub out_neighbors-add_edge :
      (a b u v : VertexId) (g h : SimpleGraph)
      → add_edge a b g ≡ some h
      → Memᴰ v (out_neighbors u h)
      → Memᴰ v (out_neighbors u g) ⊎ ((a ≡ u) × (b ≡ v))

pub record VertexPair (V : Type 0) : Type 0 where
  pub src : V
  pub dest : V

abbrev pair_beq : {V : Type 0} → PartialEq V → VertexPair V → VertexPair V → Bool
pair_beq e a b = e.eq a.src b.src && e.eq a.dest b.dest

pub pair_beq_iff :
    {V : Type 0} (e : PartialEq V) (a b : VertexPair V) → (pair_beq e a b ≡ true) ↔ (a ≡ b)
pair_beq_iff e a b = ground (arith, e.eq_iff a.src b.src, e.eq_iff a.dest b.dest)

module _ (sg : SimpleGraphs) where
  instance abbrev pub vertex_instance : PartialEq sg.VertexId
  vertex_instance = sg.vertex_eq

  instance abbrev pub pair_eq : PartialEq (VertexPair sg.VertexId)
  pair_eq = record { eq = pair_beq sg.vertex_eq; eq_iff = pair_beq_iff sg.vertex_eq }

module _ (sg : SimpleGraphs) (L T : Type 0) where
  pub record Graph : Type 0 where
    pub simple_graph : sg.SimpleGraph
    pub vertices : List (UniversalTokenId × sg.VertexId)
    pub edges : List (VertexPair sg.VertexId × List (Edge L T))

  -- `Graph::new`
  unfoldable pub new : Graph
  new = record { simple_graph = sg.new; vertices = []; edges = [] }

module _ (sg : SimpleGraphs) {L T : Type 0} where
  unfoldable pub add_vertex : Token → Graph sg L T → sg.VertexId × Graph sg L T
  add_vertex token g =
      let (vertex_id, simple_graph) = sg.add_vertex token g.simple_graph in
      (
        vertex_id,
        record g { simple_graph = simple_graph; vertices = insert token.id vertex_id g.vertices },
      )

  unfoldable pub get_vertex : UniversalTokenId → Graph sg L T → Option sg.VertexId
  get_vertex token_id g = get token_id g.vertices

  unfoldable pub get_token : UniversalTokenId → Graph sg L T → Option Token
  unfolding get_vertex
  get_token token_id g = elim (get_vertex token_id g) [
    | none ↦ none
    | some vertex_id ↦ sg.fetch vertex_id g.simple_graph
  ]

  unfoldable pub get_edges : sg.VertexId → sg.VertexId → Graph sg L T → Option (List (Edge L T))
  get_edges src_vertex_id dest_vertex_id g =
      get ⦃e = pair_eq sg⦄ (record { src = src_vertex_id; dest = dest_vertex_id }) g.edges

  -- `if let Some(edges) = self.edges.get_mut(..)`
  push_edge :
      sg.VertexId
      → sg.VertexId
      → Edge L T
      → Option (List (Edge L T))
      → Graph sg L T
      → Outcome PublicError (Graph sg L T)
  push_edge src dest edge (some edges) g = ok (record g {
    edges =
        insert ⦃e = pair_eq sg⦄ (record { src = src; dest = dest }) (edges ++ edge ∷ []) g.edges;
  })
  push_edge src dest edge none g = do
    simple_graph ← ok_or (sg.add_edge src dest g.simple_graph) add_edge_failed
    ok (record g {
      simple_graph = simple_graph;
      edges = insert ⦃e = pair_eq sg⦄ (record { src = src; dest = dest }) (edge ∷ []) g.edges;
    })

  unfoldable pub add_edge : Edge L T → Graph sg L T → Outcome PublicError (Graph sg L T)
  unfolding get_vertex get_edges push_edge edge_quotes
  add_edge edge g = do
    let ends = (edge_quotes L T).get_src_dest_token edge
    src ← ok_or (get_vertex ends.0 g) (vertex_not_in_graph ends.0)
    dest ← ok_or (get_vertex ends.1 g) (vertex_not_in_graph ends.1)
    push_edge src dest edge (get_edges src dest g) g
