-- ===== src/Convert/Converter/Amounts.antt =====
-- What the steps of a converted path are to spend: the first the amount of the path, while the others
-- have no amount yet.
use privadex.Prelude.{
  ℕ, suc, ◌≡◌, refl, ◌∙◌, subst, Bool-cases, inl, inr, List, [], ◌∷◌, ◌++◌, Option, none, some, All,
}
use privadex.Prelude.Fallible.{ok, >>=-eq-ok}
use privadex.Metadata.Templates.{Xcm, WalletMultiLocationTemplate}
use privadex.Plan.Types.{ExecutionStep, ExecutionPath}
use privadex.Plan.Steps.{get_amount_in}
use privadex.Routing.Solution.{SplitGraphPath}
use privadex.Convert.Edges.{
  EdgeOf, ProcessHelperResult, new_exec_step, no_change, update_parse_swap_state,
}
use privadex.Convert.Edges.Fresh.{AddsNew}
use privadex.Convert.Converter.{
  Conversion, process_edge, apply_result, process_edges, start_conversion, is_empty,
  split_graph_path_to_exec_path,
}
use privadex.Convert.Converter.Fresh.{edge-AddsNew}

module _ (x : Xcm) where
  -- The first step spends `amount`, the others have no amount yet.
  abbrev pub SpendsFirst : ℕ → List (ExecutionStep x.MultiLocation) → Type 0
  SpendsFirst amount [] = Unit
  SpendsFirst amount (s ∷ ss) =
      (get_amount_in s ≡ some amount) × All (λ t. get_amount_in t ≡ none) ss

  -- `next` is for the step that comes after `steps`.
  abbrev Funded : ℕ → List (ExecutionStep x.MultiLocation) → Option ℕ → Type 0
  Funded amount [] next = next ≡ some amount
  Funded amount (s ∷ ss) next = SpendsFirst amount (s ∷ ss) × (next ≡ none)

  All-snoc :
      (ss : List (ExecutionStep x.MultiLocation)) (s : ExecutionStep x.MultiLocation)
      → All (λ t. get_amount_in t ≡ none) ss
      → get_amount_in s ≡ none
      → All (λ t. get_amount_in t ≡ none) (ss ++ s ∷ [])
  All-snoc [] s a q = (q, tt)
  All-snoc (t ∷ ss) s (p, a) q = (p, All-snoc ss s a q)

  Funded-snoc :
      (amount : ℕ) (ss : List (ExecutionStep x.MultiLocation)) (next : Option ℕ)
      (s : ExecutionStep x.MultiLocation)
      → Funded amount ss next
      → get_amount_in s ≡ next
      → Funded amount (ss ++ s ∷ []) none
  Funded-snoc amount [] next s f q = ((q ∙ f, tt), refl)
  Funded-snoc amount (t ∷ ss) next s ((p, a), n) q = ((p, All-snoc ss s a (q ∙ n)), refl)

  Funded-SpendsFirst :
      (amount : ℕ) (ss : List (ExecutionStep x.MultiLocation)) (next : Option ℕ)
      → Funded amount ss next
      → SpendsFirst amount ss
  Funded-SpendsFirst amount [] next f = tt
  Funded-SpendsFirst amount (s ∷ ss) next f = f.0

  apply-Funded :
      (amount : ℕ) (c : Conversion x) (r : ProcessHelperResult x.MultiLocation) (seed : ℕ)
      → AddsNew x c.amount_in (r, seed)
      → Funded amount c.exec_steps c.amount_in
      → Funded amount (apply_result x c r seed).exec_steps (apply_result x c r seed).amount_in
  unfolding apply_result
  apply-Funded amount c no_change seed new f = f
  apply-Funded amount c (new_exec_step s) seed new f =
      Funded-snoc amount c.exec_steps c.amount_in s f (new s refl).1
  apply-Funded amount c (update_parse_swap_state st) seed new f = f

  edges-Funded :
      (amount : ℕ) (path : List (EdgeOf x)) (i : ℕ) (rest : List (EdgeOf x)) (c d : Conversion x)
      → Funded amount c.exec_steps c.amount_in
      → process_edges x path i rest c ≡ ok d
      → Funded amount d.exec_steps d.amount_in
  unfolding process_edges
  edges-Funded amount path i [] c d f h =
      subst (λ (q : Conversion x). Funded amount q.exec_steps q.amount_in) {x = c} {y = d} (cc h) f
  edges-Funded amount path i (e ∷ rest) c d f h =
      let (r, one, more) = >>=-eq-ok (process_edge x path i e rest c) _ h in
      edges-Funded amount path (suc i) rest (apply_result x c r.0 r.1) d
        (apply-Funded amount c r.0 r.1 (edge-AddsNew x path i e rest c r one) f) more

  pub path-SpendsFirst :
      (seed : ℕ) (p : SplitGraphPath x.MultiLocation (WalletMultiLocationTemplate x))
      (r : ExecutionPath x.MultiLocation × ℕ)
      → split_graph_path_to_exec_path x seed p ≡ ok r
      → SpendsFirst p.fraction_amount_in r.0.steps
  unfolding split_graph_path_to_exec_path
  path-SpendsFirst seed p r h = elim (Bool-cases (is_empty x p.path)) [
    | inl nothing ↦ absurd (cc (rw (nothing, split_graph_path_to_exec_path) at h))
    | inr something ↦
        let (c, ran, done) =
          >>=-eq-ok (process_edges x p.path 0 p.path (start_conversion x seed p.fraction_amount_in))
            _ (rw (something, split_graph_path_to_exec_path) at h) in
        subst (SpendsFirst p.fraction_amount_in) {x = c.exec_steps} (cc done) (
          Funded-SpendsFirst p.fraction_amount_in c.exec_steps c.amount_in (
            edges-Funded p.fraction_amount_in p.path 0 p.path
              (start_conversion x seed p.fraction_amount_in) c refl ran))
  ]
