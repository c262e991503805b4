-- ===== src/Routing/Graph/Complete.antt =====
-- Every edge of the graph of the crate has its list of edges, so a walk along the graph finds them.
use privadex.Prelude.{
  ◌≡◌, ◌∙◌, ◌⊎◌, inl, inr, subst, List, [], ◌∷◌, ◌++◌, Option, none, some, Bool-cases,
}
use privadex.Prelude.Fallible.{ok, ok_or, >>=-eq-ok}
use privadex.Prelude.Maps.{insert, get-insert}
use mathlib.Core.List.{Memᴰ}
use mathlib.Core.List.Memᴰ
use privadex.Routing.Edge.{Edge, edge_quotes}
use privadex.Routing.Graph.{
  SimpleGraphs, Token, Graph, pair_eq, pair_beq, new, add_vertex, add_edge, get_edges, get_vertex,
  push_edge, vertex_not_in_graph, add_edge_failed,
}

ok_or-some {ℓ} : {A : Type ℓ} {a : A} (o : Option A) → ok_or o add_edge_failed ≡ ok a → o ≡ some a
ok_or-some none h = cc
ok_or-some (some b) h = cc

module _ (sg : SimpleGraphs) {L T : Type 0} where
  abbrev pub IsComplete : Graph sg L T → Type 0
  IsComplete g =
      (u v : sg.VertexId)
      → Memᴰ v (sg.out_neighbors u g.simple_graph)
      → (es : List (Edge L T)) × (get_edges sg u v g ≡ some es)

  -- Storing a list for one pair keeps the lists of the others.
  get_edges-insert :
      (a b u v : sg.VertexId) (new_edges : List (Edge L T)) (g h : Graph sg L T)
      → h.edges ≡ insert ⦃e = pair_eq sg⦄ (record { src = a; dest = b }) new_edges g.edges
      → ((es : List (Edge L T)) × (get_edges sg u v g ≡ some es)) ⊎ ((a ≡ u) × (b ≡ v))
      → (es : List (Edge L T)) × (get_edges sg u v h ≡ some es)
  unfolding get_edges
  get_edges-insert a b u v new_edges g h same known =
      let at =
        get-insert ⦃e = pair_eq sg⦄ (record { src = a; dest = b }) (record { src = u; dest = v })
          new_edges g.edges in
      elim (Bool-cases
        (pair_beq sg.vertex_eq (record { src = a; dest = b }) (record { src = u; dest = v }))) [
          | inl here ↦ (new_edges, rw same (at ∙ rw here))
          | inr there ↦ elim known [
            | inl (es, e) ↦ (es, rw same (at ∙ rw there e))
            | inr (p, q) ↦
                let test =
                  ((pair_eq sg).eq_iff (record { src = a; dest = b })
                      (record { src = u; dest = v })).1
                    (rw (p, q)) in
                absurd (cc (test, there))
          ]
        ]

  pub new-IsComplete : IsComplete (new sg L T)
  unfolding new
  new-IsComplete u v m = absurd (Memᴰ.not-nil (subst (Memᴰ v) (sg.out_neighbors-new u) m))

  pub add_vertex-IsComplete :
      (t : Token) (g : Graph sg L T) → IsComplete g → IsComplete (add_vertex sg t g).1
  unfolding add_vertex get_edges
  add_vertex-IsComplete t g c u v m =
      c u v (subst (Memᴰ v) (sg.out_neighbors-add_vertex t u g.simple_graph) m)

  push_edge-IsComplete :
      (a b : sg.VertexId) (edge : Edge L T) (found : Option (List (Edge L T))) (g h : Graph sg L T)
      → IsComplete g
      → push_edge sg a b edge found g ≡ ok h
      → IsComplete h
  unfolding push_edge
  push_edge-IsComplete a b edge (some es) g h c done u v m =
      let edges_h : h.edges
          ≡ insert ⦃e = pair_eq sg⦄ (record { src = a; dest = b }) (es ++ edge ∷ []) g.edges =
        cc in
      let graph_h : h.simple_graph ≡ g.simple_graph = cc in
      get_edges-insert a b u v (es ++ edge ∷ []) g h edges_h (inl (c u v (rw graph_h at m)))
  push_edge-IsComplete a b edge none g h c done u v m =
      let (s, added, rest) =
        >>=-eq-ok (ok_or (sg.add_edge a b g.simple_graph) add_edge_failed) _ done in
      let edges_h : h.edges
          ≡ insert ⦃e = pair_eq sg⦄ (record { src = a; dest = b }) (edge ∷ []) g.edges =
        cc in
      let graph_h : h.simple_graph ≡ s = cc in
      get_edges-insert a b u v (edge ∷ []) g h edges_h
        (elim (sg.out_neighbors-add_edge a b u v g.simple_graph s
          (ok_or-some (sg.add_edge a b g.simple_graph) added) (rw graph_h at m)) [
            | inl old ↦ inl (c u v old)
            | inr new_one ↦ inr new_one
          ])

  -- `expect("Edge exists in graph")` holds of every graph that the operations build: adding an edge
  -- keeps a list of edges for each edge of the graph of the crate.
  pub add_edge-IsComplete :
      (edge : Edge L T) (g h : Graph sg L T)
      → IsComplete g
      → add_edge sg edge g ≡ ok h
      → IsComplete h
  unfolding add_edge
  add_edge-IsComplete edge g h c done =
      let ends = (edge_quotes L T).get_src_dest_token edge in
      let (a, _, more) =
        >>=-eq-ok (ok_or (get_vertex sg ends.0 g) (vertex_not_in_graph ends.0)) _ done in
      let (b, _, last) =
        >>=-eq-ok (ok_or (get_vertex sg ends.1 g) (vertex_not_in_graph ends.1)) _ more in
      push_edge-IsComplete a b edge (get_edges sg a b g) g h c last
