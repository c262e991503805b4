-- ===== src/Routing/Paths/Pushes.antt =====
-- What the search pushes: exactly the entries that may follow on the path.
use privadex.Prelude.{
  ◌%◌, ◌≡◌, refl, sym, ◌∙◌, ap, subst, inl, inr, ◌⊎◌, Bool, true, false, List, [], ◌∷◌, ◌++◌, map,
  some, if◌then◌else◌, Bool-cases, length,
}
use privadex.Prelude.Maps.{contains, contains_iff}
use mathlib.Core.List.{Memᴰ}
use mathlib.Core.List.Memᴰ
use privadex.Routing.Edge.{Edge}
use privadex.Routing.Graph.{SimpleGraphs, Graph, get_edges, vertex_instance}
use privadex.Routing.Graph.Complete.{IsComplete}
use privadex.Routing.Paths.{
  AllPathsFinderConfig, StackEntry, PathEntry, should_consider_path, push_edges, push_neighbor,
  push_neighbors,
}
use privadex.Routing.Paths.Counts.{should_consider_path_iff}
use privadex.Routing.Paths.Walks.{vertices, CanTake}

module _ (sg : SimpleGraphs) {L T : Type 0} (g : Graph sg L T) (config : AllPathsFinderConfig)
    (src dest : sg.VertexId) where
  abbrev pub to_entry :
      List (PathEntry sg.VertexId L T) → PathEntry sg.VertexId L T → StackEntry sg.VertexId L T
  to_entry path c = record { vertex = c.dest; edge = some c.edge; path_len = length path % 256 }

  -- The stack after a push: the entries of `new` over the old stack, where `new` has exactly the
  -- members that satisfy `P`.
  abbrev pub Pushed :
      List (PathEntry sg.VertexId L T)
      → (PathEntry sg.VertexId L T → Type 0)
      → List (StackEntry sg.VertexId L T)
      → List (StackEntry sg.VertexId L T)
      → Type 0
  Pushed path P before after =
      (new : List (PathEntry sg.VertexId L T)) × (after ≡ map (to_entry path) new ++ before)
      × ((c : PathEntry sg.VertexId L T) → Memᴰ c new → P c)
      × ((c : PathEntry sg.VertexId L T) → P c → Memᴰ c new)

  map-append_entries :
      (path new more : List (PathEntry sg.VertexId L T)) (stack : List (StackEntry sg.VertexId L T))
      → map (to_entry path) new ++ (map (to_entry path) more ++ stack)
        ≡ map (to_entry path) (new ++ more) ++ stack
  map-append_entries path [] more stack = refl
  map-append_entries path (c ∷ new) more stack =
      ap (λ s. to_entry path c ∷ s) (map-append_entries path new more stack)

  -- Two pushes in a row.
  push_both :
      (path : List (PathEntry sg.VertexId L T)) (P Q R : PathEntry sg.VertexId L T → Type 0)
      (before mid after : List (StackEntry sg.VertexId L T))
      → ((c : PathEntry sg.VertexId L T) → (P c ⊎ Q c) → R c)
      → ((c : PathEntry sg.VertexId L T) → R c → P c ⊎ Q c)
      → Pushed path P before mid
      → Pushed path Q mid after
      → Pushed path R before after
  push_both path P Q R before mid after join split (p, p_eq, p_sound, p_all)
        (q, q_eq, q_sound, q_all) =
      (
        q ++ p,
        q_eq ∙ ap (λ s. map (to_entry path) q ++ s) p_eq ∙ map-append_entries path q p before,
        λ c m. elim (Memᴰ.append_cases q m) [
          | inl a ↦ join c (inr (q_sound c a))
          | inr b ↦ join c (inl (p_sound c b))
        ],
        λ c r. elim (split c r) [
          | inl a ↦ Memᴰ.append_right q (p_all c a)
          | inr b ↦ Memᴰ.append_left p (q_all c b)
        ],
      )

  push_nothing :
      (path : List (PathEntry sg.VertexId L T)) (P : PathEntry sg.VertexId L T → Type 0)
      (stack : List (StackEntry sg.VertexId L T))
      → ((c : PathEntry sg.VertexId L T) → P c → ⊥)
      → Pushed path P stack stack
  push_nothing path P stack never =
      ([], refl, λ c m. absurd (Memᴰ.not-nil m), λ c p. absurd (never c p))

  abbrev ByEdge :
      List (PathEntry sg.VertexId L T)
      → sg.VertexId
      → List (Edge L T)
      → PathEntry sg.VertexId L T
      → Type 0
  ByEdge path i es c =
      (c.dest ≡ i) × Memᴰ c.edge es × (should_consider_path config path c.edge ≡ true)

  abbrev IsFirst :
      List (PathEntry sg.VertexId L T) → sg.VertexId → Edge L T → PathEntry sg.VertexId L T → Type 0
  IsFirst path i e c =
      (c.dest ≡ i) × (c.edge ≡ e) × (should_consider_path config path c.edge ≡ true)

  push_edges-Pushed :
      (path : List (PathEntry sg.VertexId L T)) (i : sg.VertexId) (es : List (Edge L T))
      (stack : List (StackEntry sg.VertexId L T))
      → Pushed path (ByEdge path i es) stack (push_edges sg g config path i es stack)
  unfolding push_edges
  push_edges-Pushed path i [] stack =
      push_nothing path (ByEdge path i []) stack (λ c p. Memᴰ.not-nil p.1)
  push_edges-Pushed path i (e ∷ es) stack =
      push_both path (IsFirst path i e) (ByEdge path i es) (ByEdge path i (e ∷ es)) stack _ _
        (λ c r. elim r [ inl a ↦ (a.0, Memᴰ.head a.1, a.2) | inr b ↦ (b.0, Memᴰ.tail b.1, b.2) ])
        (λ c r. elim (Memᴰ.cases_cons r.1) [
          | inl a ↦ inl (r.0, a, r.2)
          | inr b ↦ inr (r.0, b, r.2)
        ])
        (first (should_consider_path config path e) refl) (push_edges-Pushed path i es _)
    where
      first :
          (b : Bool)
          → should_consider_path config path e ≡ b
          → Pushed path (IsFirst path i e) stack (
              if b
              then record { vertex = i; edge = some e; path_len = length path % 256 } ∷ stack
              else stack)
      first true h = (
        record { dest = i; edge = e } ∷ [],
        refl,
        λ c m.
            let same = Memᴰ.eq_of_singleton m in
            (ap (λ x. x.dest) same, ap (λ x. x.edge) same, rw same h),
        λ c p. Memᴰ.head (λ k. record { dest = p.0 k; edge = p.1 k }),
      )
      first false h = push_nothing path (IsFirst path i e) stack (λ c p. cc (p.1, p.2, h))

  -- The candidates at the neighbours `is` of `u`.
  abbrev pub Among :
      List (PathEntry sg.VertexId L T)
      → sg.VertexId
      → List sg.VertexId
      → PathEntry sg.VertexId L T
      → Type 0
  Among path u is c = Memᴰ c.dest is × CanTake sg g config src dest path u c

  abbrev At :
      List (PathEntry sg.VertexId L T)
      → sg.VertexId
      → sg.VertexId
      → PathEntry sg.VertexId L T
      → Type 0
  At path u i c = (c.dest ≡ i) × CanTake sg g config src dest path u c

  push_neighbor-Pushed :
      IsComplete sg g
      → (path : List (PathEntry sg.VertexId L T)) (u i : sg.VertexId)
        (stack : List (StackEntry sg.VertexId L T))
      → Memᴰ i (sg.out_neighbors u g.simple_graph)
      → (after : List (StackEntry sg.VertexId L T)) × (push_neighbor sg g config path
            (vertices sg g config src dest path)
            u
            i
            stack
          ≡ some after)
        × Pushed path (At path u i) stack after
  unfolding push_neighbor
  push_neighbor-Pushed complete path u i stack m =
      let seen = vertices sg g config src dest path in
      let is_member = contains_iff ⦃e = vertex_instance sg⦄ i seen in
      elim (Bool-cases (contains ⦃e = vertex_instance sg⦄ i seen)) [
        | inl old ↦ (
          stack,
          rw old,
          push_nothing path (At path u i) stack
              (λ c p. p.1.fresh (Memᴰ.cast p.0 (is_member.0 old))),
        )
        | inr new_one ↦
            let (es, known) = complete u i m in
            let (new, e, sound, all) = push_edges-Pushed path i es stack in
            (
              push_edges sg g config path i es stack,
              rw (new_one, known),
              (
                new,
                e,
                λ c k.
                    let by = sound c k in
                    (
                      by.0,
                      can_take c es known by
                          (λ n. cc ((is_member.1 (Memᴰ.cast (sym by.0) n)), new_one)),
                    ),
                λ c p. all c (
                  p.0,
                  subst (λ (x : List (Edge L T)). Memᴰ c.edge x) (cc (p.0, known, p.1.known))
                      p.1.one_of_them,
                  (should_consider_path_iff config path c.edge).1 p.1.allowed,
                ),
              ),
            )
      ]
    where
      can_take :
          (c : PathEntry sg.VertexId L T) (es : List (Edge L T))
          → get_edges sg u i g ≡ some es
          → ByEdge path i es c
          → (Memᴰ c.dest (vertices sg g config src dest path) → ⊥)
          → CanTake sg g config src dest path u c
      can_take c es known by fresh = record {
        neighbor = Memᴰ.cast by.0 m;
        fresh = fresh;
        edges = es;
        known = rw by.0 known;
        one_of_them = by.1;
        allowed = (should_consider_path_iff config path c.edge).0 by.2;
      }

  pub push_neighbors-Pushed :
      IsComplete sg g
      → (path : List (PathEntry sg.VertexId L T)) (u : sg.VertexId) (is : List sg.VertexId)
        (stack : List (StackEntry sg.VertexId L T))
      → ((i : sg.VertexId) → Memᴰ i is → Memᴰ i (sg.out_neighbors u g.simple_graph))
      → (after : List (StackEntry sg.VertexId L T)) × (push_neighbors sg g config path
            (vertices sg g config src dest path)
            u
            is
            stack
          ≡ some after)
        × Pushed path (Among path u is) stack after
  unfolding push_neighbors
  push_neighbors-Pushed complete path u [] stack m =
      (stack, refl, push_nothing path (Among path u []) stack (λ c p. Memᴰ.not-nil p.0))
  push_neighbors-Pushed complete path u (i ∷ is) stack m =
      let (mid, mid_eq, first) =
        push_neighbor-Pushed complete path u i stack (m i (Memᴰ.head refl)) in
      let (after, after_eq, rest) =
        push_neighbors-Pushed complete path u is mid (λ j k. m j (Memᴰ.tail k)) in
      (
        after,
        rw mid_eq after_eq,
        push_both path (At path u i) (Among path u is) (Among path u (i ∷ is)) stack mid after
            (λ c r. elim r [ inl a ↦ (Memᴰ.head a.0, a.1) | inr b ↦ (Memᴰ.tail b.0, b.1) ])
            (λ c r. elim (Memᴰ.cases_cons r.0) [ inl a ↦ inl (a, r.1) | inr b ↦ inr (b, r.1) ])
            first rest,
      )

  -- At a vertex, the search pushes exactly the entries that may follow on the path.
  pub children_lem :
      IsComplete sg g
      → (path : List (PathEntry sg.VertexId L T)) (u : sg.VertexId)
        (stack : List (StackEntry sg.VertexId L T))
      → (after : List (StackEntry sg.VertexId L T)) × (push_neighbors sg g config path
            (vertices sg g config src dest path)
            u
            (sg.out_neighbors u g.simple_graph)
            stack
          ≡ some after)
        × Pushed path (CanTake sg g config src dest path u) stack after
  children_lem complete path u stack =
      let (after, e, (new, same, sound, all)) =
        push_neighbors-Pushed complete path u (sg.out_neighbors u g.simple_graph) stack
          (λ i m. m) in
      (after, e, (new, same, λ c m. (sound c m).1, λ c p. all c (p.neighbor, p)))
