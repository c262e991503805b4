-- ===== src/Routing/Paths/Rounds.antt =====
-- One round of the search, on a path that still has the rest of an earlier branch at its end.
use privadex.Prelude.{
  ℕ, suc, ◌+◌, ◌-◌, ◌%◌, ◌≡◌, refl, ◌∙◌, ap, ◌<◌, List, [], ◌∷◌, ◌++◌, some, length, le→leb,
  length-append, arith,
}
use privadex.Prelude.Maps.{contains-false, add_new, remove-cons}
use privadex.Routing.Edge.{Edge}
use privadex.Routing.Graph.{SimpleGraphs, Graph, vertex_instance}
use privadex.Routing.Paths.{
  AllPathsFinderConfig, StackEntry, PathEntry, Search, trim, trim_to, push_path, visit, round, loop,
}
use privadex.Routing.Paths.Counts.{WithinLimits}
use privadex.Routing.Paths.Walks.{vertices, CanTake}
use privadex.Routing.Paths.Pushes.{to_entry}

module _ (sg : SimpleGraphs) {L T : Type 0} (g : Graph sg L T) (config : AllPathsFinderConfig)
    (src dest : sg.VertexId) where
  -- The state of the search on a path, whose vertices are the visited ones.
  abbrev pub at :
      List (PathEntry sg.VertexId L T)
      → List (StackEntry sg.VertexId L T)
      → List (List (Edge L T))
      → Search sg.VertexId L T
  at path stack out = record {
    visited = vertices sg g config src dest path;
    path = path;
    stack = stack;
    all_paths = out;
  }

  -- The search comes from `s` to `t`, whatever fuel it has left there.
  abbrev pub Reaches : Search sg.VertexId L T → Search sg.VertexId L T → Type 0
  Reaches s t =
      (n : ℕ) × ((fuel : ℕ) → loop sg g config dest (n + fuel) s ≡ loop sg g config dest fuel t)

  pub Reaches-refl : (s : Search sg.VertexId L T) → Reaches s s
  Reaches-refl s = (0, λ fuel. ap (λ f. loop sg g config dest f s) (omega arith))

  pub Reaches-trans : (s t u : Search sg.VertexId L T) → Reaches s t → Reaches t u → Reaches s u
  Reaches-trans s t u (n, p) (m, q) =
      (n + m, λ fuel. ap (λ f. loop sg g config dest f s) (omega arith) ∙ p (m + fuel) ∙ q fuel)

  pub Reaches-round :
      (s t : Search sg.VertexId L T) (entry : StackEntry sg.VertexId L T)
      (stack : List (StackEntry sg.VertexId L T))
      → s.stack ≡ entry ∷ stack
      → round sg g config dest s entry stack ≡ some t
      → Reaches s t
  unfolding loop
  Reaches-round s t entry stack h r =
      (1, λ fuel. ap (λ f. loop sg g config dest f s) {y = suc fuel} (omega arith) ∙ one fuel)
    where
      one : (fuel : ℕ) → loop sg g config dest (suc fuel) s ≡ loop sg g config dest fuel t
      one fuel = rw (h, loop) (rw (r))

  -- Popping what an earlier branch left restores the path and its vertices.
  trim_lem :
      (left path : List (PathEntry sg.VertexId L T))
      → trim sg g config (length left) (left ++ path) (vertices sg g config src dest (left ++ path))
        ≡ some (path, vertices sg g config src dest path)
  unfolding trim
  trim_lem [] path = refl
  trim_lem (p ∷ left) path =
      rw
        (remove-cons ⦃e = vertex_instance sg⦄ p.dest (vertices sg g config src dest (left ++ path)))
        (trim_lem left path)

  pub trim_to_lem :
      (left path : List (PathEntry sg.VertexId L T))
      → trim_to sg g config
          (length path)
          (left ++ path)
          (vertices sg g config src dest (left ++ path))
        ≡ some (path, vertices sg g config src dest path)
  unfolding trim_to
  trim_to_lem left path =
      let n = length-append left path in
      let enough = le→leb (length path) (length (left ++ path)) (omega (arith, n)) in
      let count : length (left ++ path) - length path ≡ length left = omega (arith, n) in
      rw (enough, count) (trim_lem left path)

  pub allowed-lt :
      (path : List (PathEntry sg.VertexId L T)) (e : Edge L T)
      → WithinLimits config path e
      → length path < config.max_path_len
  allowed-lt path (Edge.swap s) h = h.0
  allowed-lt path (Edge.bridge b) h = h.0

  -- A round on an entry that may follow on `path` trims the path to `path` and visits the entry.
  pub round_lem :
      (left path : List (PathEntry sg.VertexId L T)) (u : sg.VertexId)
      (c : PathEntry sg.VertexId L T) (stack : List (StackEntry sg.VertexId L T))
      (out : List (List (Edge L T)))
      → config.max_path_len < 256
      → CanTake sg g config src dest path u c
      → round sg g config dest
          (at (left ++ path) (to_entry sg g config src dest path c ∷ stack) out)
          (to_entry sg g config src dest path c)
          stack
        ≡ visit sg g config dest c.dest stack out
            (c ∷ path)
            (vertices sg g config src dest (c ∷ path))
  unfolding round push_path
  round_lem left path u c stack out small take =
      let short : length path % 256 ≡ length path =
        omega (arith, allowed-lt path c.edge take.allowed) in
      let new_one = add_new ⦃e = vertex_instance sg⦄ c.dest (vertices sg g config src dest path) (
        contains-false ⦃e = vertex_instance sg⦄ c.dest (vertices sg g config src dest path)
          take.fresh) in
      rw (short, trim_to_lem left path, new_one)
