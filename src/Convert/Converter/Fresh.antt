-- ===== src/Convert/Converter/Fresh.antt =====
-- A converted plan has not started: its steps are all new.
use privadex.Prelude.{
  ℕ, suc, ◌≡◌, refl, subst, List, [], ◌∷◌, ◌++◌, Option, none, Bool-cases, inl, inr, ◌==◌,
}
use privadex.Prelude.Fallible.{Outcome, ok, ok_or, >>=-eq-ok}
use privadex.Metadata.Ids.{UniversalTokenId, native, token_eq}
use privadex.Metadata.Chains.{get_chain_info_from_chain_id}
use privadex.Metadata.Dex.{dex_eq}
use privadex.Metadata.Templates.{Xcm, WalletMultiLocationTemplate}
use privadex.Plan.Types.{CommonExecutionMeta, ExecutionStep, ExecutionPath, ExecutionPlan}
use privadex.Exec.Status.{not_started}
use privadex.Exec.Step
use privadex.Exec.Path.Order.{Fresh}
use privadex.Exec.Plan.Order.{PathsFresh, IsFreshPlan}
use privadex.Routing.Edge.{Edge, edge_quotes, wrap, unwrap, xcm, cpmm}
use privadex.Routing.GraphPath.{last}
use privadex.Routing.Solution.{SplitGraphPath, GraphSolution}
use privadex.Convert.Steps.{GraphToExecConversionError, graph_path_length_zero, no_chain_info}
use privadex.Convert.Edges.{
  EdgeOf, ProcessHelperResult, new_exec_step, no_change, update_parse_swap_state,
}
use privadex.Convert.Converter.{
  Conversion, process_edge, apply_result, process_edges, start_conversion, is_empty,
  split_graph_path_to_exec_path, convert_paths, transfer_step, postend_step, prestart_step,
  convert_from, try_from,
}
use privadex.Convert.Edges.Fresh.{
  AddsNew, bridge-AddsNew, wrap-AddsNew, unwrap-AddsNew, cpmm-AddsNew,
}

module _ (x : Xcm) where
  pub edge-AddsNew :
      (path : List (EdgeOf x)) (i : ℕ) (e : EdgeOf x) (rest : List (EdgeOf x)) (c : Conversion x)
      (r : ProcessHelperResult x.MultiLocation × ℕ)
      → process_edge x path i e rest c ≡ ok r
      → AddsNew x c.amount_in r
  unfolding process_edge
  edge-AddsNew path i (Edge.bridge (xcm e)) rest c r h =
      bridge-AddsNew x c.uuid_seed e c.amount_in c.parse_swap_state r h
  edge-AddsNew path i (Edge.swap (wrap e)) rest c r h =
      wrap-AddsNew x c.uuid_seed e c.amount_in c.parse_swap_state _ _ r h
  edge-AddsNew path i (Edge.swap (unwrap e)) rest c r h =
      unwrap-AddsNew x c.uuid_seed e c.amount_in c.parse_swap_state path i _ r h
  edge-AddsNew path i (Edge.swap (cpmm e)) rest c r h =
      cpmm-AddsNew x c.uuid_seed e c.amount_in c.parse_swap_state path i _ _ r h

  Fresh-snoc :
      (ss : List (ExecutionStep x.MultiLocation)) (s : ExecutionStep x.MultiLocation)
      → Fresh ss
      → Step.get_status s ≡ not_started
      → Fresh (ss ++ s ∷ [])
  Fresh-snoc [] s f new = (new, tt)
  Fresh-snoc (t ∷ ss) s (q, f) new = (q, Fresh-snoc ss s f new)

  apply-Fresh :
      (c : Conversion x) (r : ProcessHelperResult x.MultiLocation) (seed : ℕ)
      → AddsNew x c.amount_in (r, seed)
      → Fresh c.exec_steps
      → Fresh (apply_result x c r seed).exec_steps
  unfolding apply_result
  apply-Fresh c no_change seed new f = f
  apply-Fresh c (new_exec_step s) seed new f = Fresh-snoc c.exec_steps s f (new s refl).0
  apply-Fresh c (update_parse_swap_state st) seed new f = f

  edges-Fresh :
      (path : List (EdgeOf x)) (i : ℕ) (rest : List (EdgeOf x)) (c d : Conversion x)
      → Fresh c.exec_steps
      → process_edges x path i rest c ≡ ok d
      → Fresh d.exec_steps
  unfolding process_edges
  edges-Fresh path i [] c d f h =
      subst (λ (q : Conversion x). Fresh q.exec_steps) {x = c} {y = d} (cc h) f
  edges-Fresh path i (e ∷ rest) c d f h =
      let (r, one, more) = >>=-eq-ok (process_edge x path i e rest c) _ h in
      edges-Fresh path (suc i) rest (apply_result x c r.0 r.1) d
        (apply-Fresh c r.0 r.1 (edge-AddsNew path i e rest c r one) f) more

  path-Fresh :
      (seed : ℕ) (p : SplitGraphPath x.MultiLocation (WalletMultiLocationTemplate x))
      (r : ExecutionPath x.MultiLocation × ℕ)
      → split_graph_path_to_exec_path x seed p ≡ ok r
      → Fresh r.0.steps
  unfolding split_graph_path_to_exec_path
  path-Fresh seed p r h = elim (Bool-cases (is_empty x p.path)) [
    | inl nothing ↦ absurd (cc (rw (nothing, split_graph_path_to_exec_path) at h))
    | inr something ↦
        let (c, ran, done) =
          >>=-eq-ok (process_edges x p.path 0 p.path (start_conversion x seed p.fraction_amount_in))
            _ (rw (something, split_graph_path_to_exec_path) at h) in
        subst Fresh {x = c.exec_steps} (cc done)
          (edges-Fresh p.path 0 p.path (start_conversion x seed p.fraction_amount_in) c tt ran)
  ]

  paths-Fresh :
      (seed : ℕ) (ps : List (SplitGraphPath x.MultiLocation (WalletMultiLocationTemplate x)))
      (r : List (ExecutionPath x.MultiLocation))
      → convert_paths x seed ps ≡ ok r
      → PathsFresh r
  unfolding convert_paths
  paths-Fresh seed [] r h = subst PathsFresh {x = []} (cc h) tt
  paths-Fresh seed (p ∷ ps) r h =
      let (q, one, h1) = >>=-eq-ok (split_graph_path_to_exec_path x seed p) _ h in
      let (rest, others, h2) = >>=-eq-ok (convert_paths x q.1 ps) _ h1 in
      subst PathsFresh {x = q.0 ∷ rest} (cc h2)
        (path-Fresh seed p q one, paths-Fresh q.1 ps rest others)

  transfer-IsNew :
      (token : UniversalTokenId) (uuid : ℕ) (amount : Option ℕ) (common : CommonExecutionMeta)
      → Step.get_status (transfer_step x token uuid amount common) ≡ not_started
  unfolding transfer_step Step.get_status
  transfer-IsNew token uuid amount common = elim (Bool-cases (token.id == native)) [
    | inl coin ↦ rw coin
    | inr other ↦ rw other
  ]

  same_step :
      {s step : ExecutionStep x.MultiLocation}
      → ◌≡◌ {A = Outcome GraphToExecConversionError (ExecutionStep x.MultiLocation)}
          (ok s)
          (ok step)
      → Step.get_status s ≡ not_started
      → Step.get_status step ≡ not_started
  same_step h new = subst (λ t. Step.get_status t ≡ not_started) (cc h) new

  postend-IsNew :
      (solution : GraphSolution x.MultiLocation (WalletMultiLocationTemplate x))
      (path : List (EdgeOf x)) (uuid : ℕ) (step : ExecutionStep x.MultiLocation)
      → postend_step x solution path uuid ≡ ok step
      → Step.get_status step ≡ not_started
  unfolding postend_step
  postend-IsNew solution path uuid step h =
      let (edge, _, h1) = >>=-eq-ok (ok_or (last path) graph_path_length_zero) _ h in
      let token =
        ((edge_quotes x.MultiLocation (WalletMultiLocationTemplate x)).get_src_dest_token edge).1 in
      let (info, _, made) =
        >>=-eq-ok (ok_or (get_chain_info_from_chain_id token.chain) no_chain_info) _ h1 in
      same_step made (transfer-IsNew token uuid none _)

  convert_from-IsFreshPlan :
      (seed : ℕ) (solution : GraphSolution x.MultiLocation (WalletMultiLocationTemplate x))
      (path : List (EdgeOf x)) (plan : ExecutionPlan x.MultiLocation)
      → convert_from x seed solution path ≡ ok plan
      → IsFreshPlan plan
  unfolding convert_from
  convert_from-IsFreshPlan seed solution path plan h =
      let (prestart, _, h1) = >>=-eq-ok (prestart_step x solution path _) _ h in
      let (postend, posted, h2) = >>=-eq-ok (postend_step x solution path _) _ h1 in
      let (paths, converted, h3) = >>=-eq-ok (convert_paths x _ solution.paths) _ h2 in
      record {
        fresh_paths =
            subst PathsFresh {x = paths} (cc h3) (paths-Fresh _ solution.paths paths converted);
        unpaid =
            subst (λ t. Step.get_status t ≡ not_started) {x = postend} (cc h3)
              (postend-IsNew solution path _ postend posted);
      }

  -- The plan that a solution is converted into has not started: no step of a path has, and the payout
  -- has not.
  pub try_from-IsFreshPlan :
      (seed : ℕ) (solution : GraphSolution x.MultiLocation (WalletMultiLocationTemplate x))
      (plan : ExecutionPlan x.MultiLocation)
      → try_from x seed solution ≡ ok plan
      → IsFreshPlan plan
  unfolding try_from
  try_from-IsFreshPlan seed solution plan h = by_paths solution.paths refl
    where
      by_paths :
          (ps : List (SplitGraphPath x.MultiLocation (WalletMultiLocationTemplate x)))
          → solution.paths ≡ ps
          → IsFreshPlan plan
      by_paths [] e = absurd (cc (rw (e, try_from) at h))
      by_paths (p ∷ ps) e =
          convert_from-IsFreshPlan seed solution p.path plan (rw (e, try_from) at h)
