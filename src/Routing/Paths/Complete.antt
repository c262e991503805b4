-- ===== src/Routing/Paths/Complete.antt =====
-- The search finds every path once it has fuel enough, and nothing else.
use privadex.Prelude.{
  ℕ, zero, suc, ◌+◌, ◌-◌, ◌≡◌, refl, sym, ◌∙◌, ap, subst, ◌<◌, ◌≤◌, ◌↔◌, inl, inr, false, List, [],
  ◌∷◌, ◌++◌, map, Option, some, none, Bool-cases, length, arith,
}
use privadex.Prelude.Maps.{add_new, contains-false}
use mathlib.Core.List.{Memᴰ, append_assoc, append-nil}
use mathlib.Core.List.Memᴰ
use privadex.Routing.Edge.{Edge}
use privadex.Routing.Graph.{SimpleGraphs, Graph, vertex_instance}
use privadex.Routing.Graph.Complete.{IsComplete}
use privadex.Routing.Paths.{
  AllPathsFinderConfig, StackEntry, PathEntry, Search, visit, round, loop, found, find_all_paths,
}
use privadex.Routing.Paths.Walks.{
  CanTake, Walk, arrive, onward, vertices, edges_of, Continues, IsRoute,
}
use privadex.Routing.Paths.Pushes.{to_entry, children_lem}
use privadex.Routing.Paths.Rounds.{
  at, Reaches, Reaches-refl, Reaches-trans, Reaches-round, round_lem, allowed-lt,
}

module _ (sg : SimpleGraphs) {L T : Type 0} (g : Graph sg L T) (config : AllPathsFinderConfig)
    (src dest : sg.VertexId) where
  Walk-at_dest :
      {path whole : List (PathEntry sg.VertexId L T)} {u : sg.VertexId}
      → u ≡ dest
      → Walk sg g config src dest path u whole
      → whole ≡ path
  Walk-at_dest h (arrive e) = refl
  Walk-at_dest h (onward c ne take w) = absurd (ne h)

  -- From `s`, the search comes to where `rest` is left on the stack, having found exactly the paths
  -- that satisfy `P`; it leaves `path` and perhaps the end of a branch.
  abbrev Explored :
      Search sg.VertexId L T
      → List (PathEntry sg.VertexId L T)
      → (List (Edge L T) → Type 0)
      → List (StackEntry sg.VertexId L T)
      → List (List (Edge L T))
      → Type 0
  Explored s path P rest out =
      (left : List (PathEntry sg.VertexId L T)) × (new : List (List (Edge L T))) × Reaches sg g
        config src dest s (at sg g config src dest (left ++ path) rest (out ++ new))
      × ((x : List (Edge L T)) → Memᴰ x new → P x)
      × ((x : List (Edge L T)) → P x → Memᴰ x new)

  abbrev ByChild :
      List (PathEntry sg.VertexId L T) → List (PathEntry sg.VertexId L T) → List (Edge L T) → Type 0
  ByChild path cs x =
      (c : PathEntry sg.VertexId L T) × Memᴰ c cs
      × Continues sg g config src dest (c ∷ path) c.dest x

  abbrev Explores : List (PathEntry sg.VertexId L T) → sg.VertexId → Type 0
  Explores path u =
      (c : PathEntry sg.VertexId L T) (left : List (PathEntry sg.VertexId L T))
      (rest : List (StackEntry sg.VertexId L T)) (out : List (List (Edge L T)))
      → CanTake sg g config src dest path u c
      → Explored
          (at sg g config src dest (left ++ path) (to_entry sg g config src dest path c ∷ rest) out)
          path (Continues sg g config src dest (c ∷ path) c.dest) rest out

  explore_children :
      (path : List (PathEntry sg.VertexId L T)) (u : sg.VertexId)
      → Explores path u
      → (cs left : List (PathEntry sg.VertexId L T)) (rest : List (StackEntry sg.VertexId L T))
        (out : List (List (Edge L T)))
      → ((c : PathEntry sg.VertexId L T) → Memᴰ c cs → CanTake sg g config src dest path u c)
      → Explored
          (at sg g config src dest
            (left ++ path)
            (map (to_entry sg g config src dest path) cs ++ rest)
            out)
          path
          (ByChild path cs)
          rest
          out
  explore_children path u each [] left rest out take = (
    left,
    [],
    subst
        (λ o.
          Reaches sg g config src dest (at sg g config src dest (left ++ path) rest out)
            (at sg g config src dest (left ++ path) rest o))
        (sym (append-nil out)) (Reaches-refl sg g config src dest _),
    λ x m. absurd (Memᴰ.not-nil m),
    λ x (c, m, k). absurd (Memᴰ.not-nil m),
  )
  explore_children path u each (c ∷ cs) left rest out take =
      let (l1, n1, r1, s1, a1) =
        each c left (map (to_entry sg g config src dest path) cs ++ rest) out
          (take c (Memᴰ.head refl)) in
      let (l2, n2, r2, s2, a2) =
        explore_children path u each cs l1 rest (out ++ n1) (λ d m. take d (Memᴰ.tail m)) in
      (
        l2,
        n1 ++ n2,
        Reaches-trans sg g config src dest _ _ _ r1 (
            subst
              (λ o.
                Reaches sg g config src dest
                  (at sg g config src dest (l1 ++ path)
                    (map (to_entry sg g config src dest path) cs ++ rest) (out ++ n1))
                  (at sg g config src dest (l2 ++ path) rest o))
              (append_assoc out n1 n2) r2),
        λ x m. elim (Memᴰ.append_cases n1 m) [
          | inl a ↦ (c, Memᴰ.head refl, s1 x a)
          | inr b ↦ let (d, k, w) = s2 x b in (d, Memᴰ.tail k, w)
        ],
        λ x (d, k, w). elim (Memᴰ.cases_cons k) [
          | inl same ↦
              Memᴰ.append_left n2
                (a1 x (subst (λ e. Continues sg g config src dest (e ∷ path) e.dest x) same w))
          | inr more ↦ Memᴰ.append_right n1 (a2 x (d, more, w))
        ],
      )

  visit_dest :
      (u : sg.VertexId) (stack : List (StackEntry sg.VertexId L T)) (out : List (List (Edge L T)))
      (path : List (PathEntry sg.VertexId L T))
      → u ≡ dest
      → visit sg g config dest u stack out path (vertices sg g config src dest path)
        ≡ some (at sg g config src dest path stack (out ++ edges_of sg g config src dest path ∷ []))
  unfolding visit
  visit_dest u stack out path h = rw ((sg.vertex_eq.eq_iff u dest).1 h)

  -- What is explored from a vertex on the path: the paths that continue it.
  abbrev Visits : List (PathEntry sg.VertexId L T) → sg.VertexId → Type 0
  Visits path u =
      (rest : List (StackEntry sg.VertexId L T)) (out : List (List (Edge L T)))
      → (t : Search sg.VertexId L T) × (visit sg g config dest u rest out path
            (vertices sg g config src dest path)
          ≡ some t)
        × Explored t path (Continues sg g config src dest path u) rest out

  visit_arrived :
      (path : List (PathEntry sg.VertexId L T)) (u : sg.VertexId) → u ≡ dest → Visits path u
  visit_arrived path u h rest out = (
    at sg g config src dest path rest (out ++ edges_of sg g config src dest path ∷ []),
    visit_dest u rest out path h,
    (
      [],
      edges_of sg g config src dest path ∷ [],
      Reaches-refl sg g config src dest _,
      λ x m. (path, arrive h, Memᴰ.eq_of_singleton m),
      λ x (whole, w, e). Memᴰ.head (e ∙ ap (edges_of sg g config src dest) (Walk-at_dest h w)),
    ),
  )

  visit_onward :
      IsComplete sg g
      → (path : List (PathEntry sg.VertexId L T)) (u : sg.VertexId) → Explores path u
      → sg.vertex_eq.eq u dest ≡ false
      → Visits path u
  unfolding visit
  visit_onward complete path u each h rest out =
      let (after, pushed, (cs, same, sound, all)) =
        children_lem sg g config src dest complete path u rest in
      let (left, new, reaches, s, a) = explore_children path u each cs [] rest out sound in
      (
        at sg g config src dest path after out,
        rw (h, pushed),
        (
          left,
          new,
          subst
              (λ k.
                Reaches sg g config src dest (at sg g config src dest path k out)
                  (at sg g config src dest (left ++ path) rest (out ++ new)))
              (sym same) reaches,
          λ x m.
              let (c, k, (whole, w, e)) = s x m in
              (whole, onward c (λ d. cc ((sg.vertex_eq.eq_iff u dest).1 d, h)) (sound c k) w, e),
          λ x (whole, w, e). a x (first_step x whole w e all),
        ),
      )
    where
      first_step :
          {cs : List (PathEntry sg.VertexId L T)} (x : List (Edge L T))
          (whole : List (PathEntry sg.VertexId L T))
          → Walk sg g config src dest path u whole
          → x ≡ edges_of sg g config src dest whole
          → ((c : PathEntry sg.VertexId L T) → CanTake sg g config src dest path u c → Memᴰ c cs)
          → ByChild path cs x
      first_step x whole (arrive d) e all = absurd (cc ((sg.vertex_eq.eq_iff u dest).1 d, h))
      first_step x whole (onward c ne take w) e all = (c, all c take, (whole, w, e))

  visit_lem :
      IsComplete sg g
      → (path : List (PathEntry sg.VertexId L T)) (u : sg.VertexId) → Explores path u
      → Visits path u
  visit_lem complete path u each = elim (Bool-cases (sg.vertex_eq.eq u dest)) [
    | inl here ↦ visit_arrived path u ((sg.vertex_eq.eq_iff u dest).0 here)
    | inr away ↦ visit_onward complete path u each away
  ]

  explore :
      IsComplete sg g
      → config.max_path_len < 256
      → (d : ℕ) (path : List (PathEntry sg.VertexId L T)) (u : sg.VertexId)
      → config.max_path_len ≤ length path + d
      → Explores path u
  explore complete small zero path u deep c left rest out take =
      absurd (omega (arith, allowed-lt sg g config src dest path c.edge take.allowed))
  explore complete small (suc d) path u deep c left rest out take =
      let each = explore complete small d (c ∷ path) c.dest (omega arith) in
      let (t, visited, (more, new, reaches, s, a)) =
        visit_lem complete (c ∷ path) c.dest each rest out in
      let step =
        Reaches-round sg g config src dest
          (at sg g config src dest (left ++ path) (to_entry sg g config src dest path c ∷ rest) out)
          t (to_entry sg g config src dest path c) rest refl
          (round_lem sg g config src dest left path u c rest out small take ∙ visited) in
      (
        more ++ c ∷ [],
        new,
        Reaches-trans sg g config src dest _ _ _ step (
            subst
              (λ p. Reaches sg g config src dest t (at sg g config src dest p rest (out ++ new)))
              (sym (append_assoc more (c ∷ []) path)) reaches),
        s,
        a,
      )

  abbrev initial : Search sg.VertexId L T
  initial = record {
    visited = [];
    path = [];
    stack = record { vertex = src; edge = none; path_len = 0 } ∷ [];
    all_paths = [];
  }

  loop_done :
      (fuel : ℕ) (path : List (PathEntry sg.VertexId L T)) (out : List (List (Edge L T)))
      → loop sg g config dest fuel (at sg g config src dest path [] out) ≡ found out
  unfolding loop
  loop_done zero path out = refl
  loop_done (suc fuel) path out = refl

  -- With `max_path_len` a u8 and a list of edges for each edge of the graph, the search ends with
  -- every fuel from some number on, does not panic, and has found exactly the walks from the source to
  -- the destination that meet no vertex twice and keep to the limits: on the edges, on the bridges, and on
  -- the swaps since the last bridge, counted on the walk itself.
  pub find_all_paths_iff :
      IsComplete sg g
      → config.max_path_len < 256
      → (n : ℕ) × (all : List (List (Edge L T))) × ((fuel : ℕ)
          → n ≤ fuel
          → find_all_paths sg g config src dest fuel ≡ found all)
        × ((x : List (Edge L T)) → Memᴰ x all ↔ IsRoute sg g config src dest x)
  unfolding find_all_paths
  find_all_paths_iff complete small =
      let each = explore complete small config.max_path_len [] src (omega arith) in
      let (t, visited, (left, all, reaches, sound, complete_)) =
        visit_lem complete [] src each [] [] in
      let (n, runs) =
        Reaches-trans sg g config src dest _ _ _
          (Reaches-round sg g config src dest initial t
            (record { vertex = src; edge = none; path_len = 0 }) [] refl (first_round visited))
          reaches in
      (
        n,
        all,
        λ fuel enough.
            ap (λ f. loop sg g config dest f initial) {y = n + (fuel - n)} (omega arith)
            ∙ runs (fuel - n)
            ∙ loop_done (fuel - n) (left ++ []) all,
        λ x. (sound x, complete_ x),
      )
    where
      first_round :
          {o : Option (Search sg.VertexId L T)}
          → visit sg g config dest src [] [] [] (src ∷ []) ≡ o
          → round sg g config dest initial (record { vertex = src; edge = none; path_len = 0 }) []
            ≡ o
      first_round h =
          rw
            (add_new ⦃e = vertex_instance sg⦄ src []
              (contains-false ⦃e = vertex_instance sg⦄ src [] Memᴰ.not-nil))
            h
