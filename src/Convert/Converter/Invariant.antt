-- ===== src/Convert/Converter/Invariant.antt =====
-- The loop over the edges of a path: what is covered, and what is remembered for the next step.
use privadex.Prelude.{
  ℕ, suc, ◌+◌, ◌≡◌, ◌≢◌, refl, sym, ◌∙◌, ap, subst, Bool, true, false, List, [], ◌∷◌, ◌++◌, map,
  Option, none, some, length, length-append, arith,
}
use mathlib.Core.List.{append_assoc, append-nil}
use privadex.Metadata.Dex.{dex_eq}
use privadex.Metadata.Templates.{Xcm}
use privadex.Routing.Edge.{Edge, WrapEdge, ConstantProductAmmSwapEdge, wrap}
use privadex.Convert.Edges.{EdgeOf, ParseSwapState, ProcessHelperResult, new_exec_step}
use privadex.Convert.Converter.{Conversion, apply_result}
use privadex.Convert.Converter.Covers.{
  as_edge, StepOf, Covers, CoversAll, one_more, BelongTogether, Splits,
}
use privadex.Routing.GraphPath.{first, last}

module _ (x : Xcm) where
  -- The edges that a remembered swap has taken in: a wrap may stand before the constant-product edges.
  abbrev pub PendingSwap : Bool → ℕ → List (EdgeOf x) → List (EdgeOf x) → Type 0
  PendingSwap true start covered pending =
      (e : WrapEdge) × (cs : List ConstantProductAmmSwapEdge) × (pending
        ≡ Edge.swap (wrap e) ∷ map as_edge cs)
      × (start ≡ length covered + 1)
  PendingSwap false start covered pending =
      (cs : List ConstantProductAmmSwapEdge) × (pending ≡ map as_edge cs) × (start ≡ length covered)

  abbrev pub Pending :
      Option ParseSwapState → List (EdgeOf x) → List (EdgeOf x) → List (EdgeOf x) → Type 0
  Pending none covered pending rest = pending ≡ []
  Pending (some s) covered pending rest =
      PendingSwap s.started_with_wrap s.start_idx covered pending × (rest ≢ [])

  -- Before the edges `rest`: the steps cover the edges so far but for the pending ones.
  pub record Inv (graph_path : List (EdgeOf x)) (i : ℕ) (rest : List (EdgeOf x)) (c : Conversion x)
      : Type 0 where
    pub covered : List (EdgeOf x)
    pub pending : List (EdgeOf x)
    pub split : graph_path ≡ (covered ++ pending) ++ rest
    pub index : i ≡ length (covered ++ pending)
    pub border : Splits x covered (pending ++ rest)
    pub covers : CoversAll x covered c.exec_steps
    pub remembered : Pending c.parse_swap_state covered pending rest

  pub move_edge :
      (covered pending rest : List (EdgeOf x)) (e : EdgeOf x)
      → (covered ++ pending) ++ e ∷ rest ≡ (covered ++ (pending ++ e ∷ [])) ++ rest
  move_edge covered pending rest e = simp (append_assoc)

  pub move_length :
      (covered pending : List (EdgeOf x)) (e : EdgeOf x)
      → suc (length (covered ++ pending)) ≡ length (covered ++ (pending ++ e ∷ []))
  move_length covered pending e = omega (
    arith,
    length-append {0} covered pending,
    length-append {0} covered (pending ++ e ∷ []),
    length-append {0} pending (e ∷ []),
  )

  -- What comes after the edge does not belong with it.
  abbrev pub Ends : EdgeOf x → List (EdgeOf x) → Type 0
  Ends e rest = (b : EdgeOf x) → first rest ≡ some b → BelongTogether x e b → ⊥

  last_snoc : (es : List (EdgeOf x)) (e : EdgeOf x) → last (es ++ e ∷ []) ≡ some e
  last_snoc [] e = refl
  last_snoc (d ∷ []) e = refl
  last_snoc (d ∷ c ∷ es) e = last_snoc (c ∷ es) e

  first_of :
      (pending rest : List (EdgeOf x)) (e : EdgeOf x)
      → first (pending ++ e ∷ []) ≡ first (pending ++ e ∷ rest)
  first_of [] rest e = refl
  first_of (p ∷ ps) rest e = refl

  Ends-Splits :
      (covered pending rest : List (EdgeOf x)) (e : EdgeOf x)
      → Ends e rest
      → Splits x (covered ++ (pending ++ e ∷ [])) rest
  Ends-Splits covered pending rest e ends a b at_last at_first together =
      let shift : covered ++ (pending ++ e ∷ []) ≡ (covered ++ pending) ++ e ∷ [] =
        sym (append_assoc covered pending (e ∷ [])) in
      let same : e ≡ a = cc (last_snoc (covered ++ pending) e, shift, at_last) in
      ends b at_first (subst (λ q. BelongTogether x q b) (sym same) together)

  -- The edge ends a part: a new step covers the pending edges and this one.
  pub close_part :
      (graph_path : List (EdgeOf x)) (i : ℕ) (e : EdgeOf x) (rest : List (EdgeOf x))
      (c : Conversion x) (v : Inv graph_path i (e ∷ rest) c)
      (r : ProcessHelperResult x.MultiLocation × ℕ) (step : StepOf x)
      → r.0 ≡ new_exec_step step
      → Covers x (v.pending ++ e ∷ []) step
      → Ends e rest
      → Inv graph_path (suc i) rest (apply_result x c r.0 r.1)
  unfolding apply_result
  close_part graph_path i e rest c v (_, seed) step made cover ends = rw made (record {
    covered = v.covered ++ (v.pending ++ e ∷ []);
    pending = [];
    split =
        v.split
        ∙ move_edge v.covered v.pending rest e
        ∙ ap (λ l. l ++ rest) (sym (append-nil (v.covered ++ (v.pending ++ e ∷ []))));
    index =
        ap suc v.index
        ∙ move_length v.covered v.pending e
        ∙ ap length (sym (append-nil (v.covered ++ (v.pending ++ e ∷ []))));
    border = Ends-Splits v.covered v.pending rest e ends;
    covers =
        one_more (v.pending ++ e ∷ []) step v.covers
          (λ a b at_last at_first.
            v.border a b at_last (sym (first_of v.pending rest e) ∙ at_first))
          cover;
    remembered = refl;
  })

  -- The edge stays pending.
  pub keep_pending :
      (graph_path : List (EdgeOf x)) (i : ℕ) (e : EdgeOf x) (rest : List (EdgeOf x))
      (c d : Conversion x) (v : Inv graph_path i (e ∷ rest) c)
      → d.exec_steps ≡ c.exec_steps
      → Pending d.parse_swap_state v.covered (v.pending ++ e ∷ []) rest
      → Inv graph_path (suc i) rest d
  keep_pending graph_path i e rest c d v same more = record {
    covered = v.covered;
    pending = v.pending ++ e ∷ [];
    split = v.split ∙ move_edge v.covered v.pending rest e;
    index = ap suc v.index ∙ move_length v.covered v.pending e;
    border = λ a b at_last at_first.
        v.border a b at_last
          (ap (λ l. first l) (sym (append_assoc v.pending (e ∷ []) rest)) ∙ at_first);
    covers = subst (CoversAll x v.covered) (sym same) v.covers;
    remembered = more;
  }
