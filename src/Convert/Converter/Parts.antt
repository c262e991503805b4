-- ===== src/Convert/Converter/Parts.antt =====
-- A new step covers the pending edges and the one that ends them.
use privadex.Prelude.{
  ℕ, suc, ◌+◌, ◌≡◌, refl, sym, ◌∙◌, ap, subst, Bool, true, false, List, [], ◌∷◌, ◌++◌, map, Option,
  none, some, length, length-append, arith,
}
use privadex.Prelude.Fallible.{ok}
use mathlib.Core.List.{append_assoc, map-append}
use privadex.Metadata.Templates.{Xcm, WalletMultiLocationTemplate}
use privadex.Plan.Types.{
  EthDexSwapStep, DexRouterFunction, eth_wrap, eth_unwrap, eth_dex_swap, xcm_transfer,
  swap_exact_eth_for_tokens, swap_exact_tokens_for_tokens, swap_exact_tokens_for_eth,
}
use privadex.Routing.Edge.{
  Edge, WrapEdge, UnwrapEdge, ConstantProductAmmSwapEdge, wrap, unwrap, xcm,
}
use privadex.Convert.Steps.{
  convert_wrap_to_exec_step, convert_unwrap_to_exec_step, convert_xcm_bridge_to_exec_step,
  convert_same_dex_swaps_to_exec_step,
}
use privadex.Convert.Steps.Singles.{wrap_step_ok, unwrap_step_ok, bridge_step_ok}
use privadex.Convert.Steps.Swaps.{IsSwapOf, swap_step-IsSwapOf}
use privadex.Convert.Edges.{
  EdgeOf, BridgeOf, ParseSwapState, ProcessHelperResult, new_exec_step, process_xcm_bridge_edge,
  process_wrap_edge, process_unwrap_edge, finish_swap, swap_of_slice, get_uuid_and_increment_seed,
}
use privadex.Convert.Converter.Covers.{
  as_edge, StepOf, Covers, crosses, wraps, unwraps, swaps, wrap_swaps, swaps_unwrap, step_with_ok,
  swap_of_slice_ok,
}
use privadex.Convert.Converter.Invariant.{Pending, PendingSwap}

module _ (x : Xcm) where
  abbrev Result : Type 0
  Result = ProcessHelperResult x.MultiLocation × ℕ

  -- The result is a new step over the pending edges and `e`.
  abbrev pub Closes : Result → List (EdgeOf x) → EdgeOf x → Type 0
  Closes r pending e =
      (step : StepOf x) × (r.0 ≡ new_exec_step step) × Covers x (pending ++ e ∷ []) step

  after_none :
      (pending : List (EdgeOf x)) (e : EdgeOf x) (step : StepOf x)
      → pending ≡ []
      → Covers x (e ∷ []) step
      → Covers x (pending ++ e ∷ []) step
  after_none pending e step h c = subst (λ p. Covers x (p ++ e ∷ []) step) (sym h) c

  pub bridge_part :
      (seed : ℕ) (e : BridgeOf x) (amount : Option ℕ) (st : Option ParseSwapState) (r : Result)
      (covered pending rest : List (EdgeOf x))
      → Pending x st covered pending rest
      → process_xcm_bridge_edge x seed e amount st ≡ ok r
      → Closes r pending (Edge.bridge (xcm e))
  unfolding process_xcm_bridge_edge get_uuid_and_increment_seed
  bridge_part seed e amount none r covered pending rest p h =
      let (s, made, is_new) =
        step_with_ok x (convert_xcm_bridge_to_exec_step x e seed amount) xcm_transfer _ r h in
      let (src, dest, asset, info, at_dest, to, full) = bridge_step_ok x e seed amount s made in
      (
        record { inner = xcm_transfer s },
        is_new,
        after_none pending _ _ p (crosses e s refl refl src dest asset (info, at_dest, to, full)),
      )
  bridge_part seed e amount (some st) r covered pending rest p h = cc

  pub wrap_part :
      (seed : ℕ) (e : WrapEdge) (amount : Option ℕ) (start : ℕ) (r : Result)
      (covered pending rest : List (EdgeOf x))
      → Pending x none covered pending rest
      → process_wrap_edge x seed e amount none start none ≡ ok r
      → Closes r pending (Edge.swap (wrap e))
  unfolding process_wrap_edge get_uuid_and_increment_seed
  wrap_part seed e amount start r covered pending rest p h =
      let (s, made, is_new) =
        step_with_ok x (convert_wrap_to_exec_step e seed amount) eth_wrap _ r h in
      (
        record { inner = eth_wrap s },
        is_new,
        after_none pending _ _ p (wraps e s refl refl (wrap_step_ok e seed amount s made)),
      )

  pub unwrap_part :
      (seed : ℕ) (e : UnwrapEdge) (amount : Option ℕ) (st : Option ParseSwapState)
      (graph_path : List (EdgeOf x)) (i : ℕ) (is_next_swap : Bool) (r : Result)
      (covered pending rest : List (EdgeOf x))
      → graph_path ≡ (covered ++ pending) ++ rest
      → i ≡ length (covered ++ pending)
      → Pending x st covered pending rest
      → process_unwrap_edge x seed e amount st graph_path i is_next_swap ≡ ok r
      → Closes r pending (Edge.swap (unwrap e))
  unfolding process_unwrap_edge get_uuid_and_increment_seed
  unwrap_part seed e amount none graph_path i false r covered pending rest split index p h =
      let (s, made, is_new) =
        step_with_ok x (convert_unwrap_to_exec_step e seed amount) eth_unwrap _ r h in
      (
        record { inner = eth_unwrap s },
        is_new,
        after_none pending _ _ p (unwraps e s refl refl (unwrap_step_ok e seed amount s made)),
      )
  unwrap_part seed e amount (some st) graph_path i false r covered pending rest split index p h =
      by_start st.started_with_wrap st.start_idx refl refl p.0
    where
      by_start :
          (b : Bool) (start : ℕ)
          → st.started_with_wrap ≡ b
          → st.start_idx ≡ start
          → PendingSwap x b start covered pending
          → Closes r pending (Edge.swap (unwrap e))
      by_start true start eb es q = absurd (cc (rw (eb, process_unwrap_edge) at h))
      by_start false start eb es (cs, all, at_start) =
          let (s, c, more, cs_eq, swap, is_new) =
            swap_of_slice_ok x covered rest cs start i seed amount graph_path
              swap_exact_tokens_for_eth r
              (subst (λ q. graph_path ≡ (covered ++ q) ++ rest) all split) at_start
              (subst (λ q. i ≡ length (covered ++ q)) all index)
              (rw (eb, es, process_unwrap_edge) at h) in
          (
            record { inner = eth_dex_swap s },
            is_new,
            swaps_unwrap c more e s
                (ap (λ q. q ++ Edge.swap (unwrap e) ∷ []) (all ∙ ap (map as_edge) cs_eq)) refl swap,
          )
  unwrap_part seed e amount none graph_path i true r covered pending rest split index p h = cc
  unwrap_part seed e amount (some st) graph_path i true r covered pending rest split index p h = cc

  -- The pending constant-product edges with `e`.
  with_last :
      (cs : List ConstantProductAmmSwapEdge) (e : ConstantProductAmmSwapEdge)
      → map (as_edge {L = x.MultiLocation} {T = WalletMultiLocationTemplate x}) cs ++ as_edge e ∷ []
        ≡ map as_edge (cs ++ e ∷ [])
  with_last cs e = sym (map-append as_edge cs (e ∷ []))

  -- The swap of a slice that begins after `pre`.
  slice_part :
      (pre rest : List (EdgeOf x)) (cs : List ConstantProductAmmSwapEdge)
      (e : ConstantProductAmmSwapEdge) (start i seed : ℕ) (amount : Option ℕ)
      (graph_path : List (EdgeOf x)) (f : DexRouterFunction) (r : Result)
      → graph_path ≡ (pre ++ map as_edge (cs ++ e ∷ [])) ++ rest
      → start ≡ length pre
      → suc i ≡ length (pre ++ map as_edge (cs ++ e ∷ []))
      → swap_of_slice x seed graph_path start (i + 1) amount f ≡ ok r
      → (s : EthDexSwapStep) × (c : ConstantProductAmmSwapEdge) × (more : List
          ConstantProductAmmSwapEdge)
        × (cs ++ e ∷ [] ≡ c ∷ more)
        × IsSwapOf f c more s
        × (r.0 ≡ new_exec_step (record { inner = eth_dex_swap s }))
  slice_part pre rest cs e start i seed amount graph_path f r split at_start at_end h =
      swap_of_slice_ok x pre rest (cs ++ e ∷ []) start (i + 1) seed amount graph_path f r split
        at_start (omega (arith, at_end)) h

  pub finish_part :
      (seed : ℕ) (e : ConstantProductAmmSwapEdge) (amount : Option ℕ) (st : Option ParseSwapState)
      (graph_path : List (EdgeOf x)) (i : ℕ) (r : Result) (covered pending rest : List (EdgeOf x))
      → graph_path ≡ (covered ++ (pending ++ as_edge e ∷ [])) ++ rest
      → suc i ≡ length (covered ++ (pending ++ as_edge e ∷ []))
      → Pending x st covered pending (as_edge e ∷ rest)
      → finish_swap x seed e amount st graph_path i ≡ ok r
      → Closes r pending (as_edge e)
  unfolding finish_swap get_uuid_and_increment_seed
  finish_part seed e amount none graph_path i r covered pending rest split index p h =
      let (s, made, is_new) =
        step_with_ok x
          (convert_same_dex_swaps_to_exec_step (e ∷ []) seed amount swap_exact_tokens_for_tokens)
          eth_dex_swap _ r h in
      let (c, more, cs_eq, swap) =
        swap_step-IsSwapOf (e ∷ []) seed amount swap_exact_tokens_for_tokens s made in
      (
        record { inner = eth_dex_swap s },
        is_new,
        after_none pending _ _ p (swaps c more s (ap (map as_edge) cs_eq) refl swap),
      )
  finish_part seed e amount (some st) graph_path i r covered pending rest split index p h =
      by_start st.started_with_wrap st.start_idx refl refl p.0
    where
      by_start :
          (b : Bool) (start : ℕ)
          → st.started_with_wrap ≡ b
          → st.start_idx ≡ start
          → PendingSwap x b start covered pending
          → Closes r pending (as_edge e)
      by_start false start eb es (cs, all, at_start) =
          let whole : pending ++ as_edge e ∷ [] ≡ map as_edge (cs ++ e ∷ []) =
            ap (λ q. q ++ as_edge e ∷ []) all ∙ with_last cs e in
          let (s, c, more, cs_eq, swap, is_new) =
            slice_part covered rest cs e start i seed amount graph_path swap_exact_tokens_for_tokens
              r (subst (λ q. graph_path ≡ (covered ++ q) ++ rest) whole split) at_start
              (subst (λ q. suc i ≡ length (covered ++ q)) whole index)
              (rw (eb, es, finish_swap) at h) in
          (
            record { inner = eth_dex_swap s },
            is_new,
            swaps c more s (whole ∙ ap (map as_edge) cs_eq) refl swap,
          )
      by_start true start eb es (w, cs, all, at_start) =
          let first_edge : EdgeOf x = Edge.swap (wrap w) in
          let whole : pending ++ as_edge e ∷ [] ≡ first_edge ∷ map as_edge (cs ++ e ∷ []) =
            ap (λ q. q ++ as_edge e ∷ []) all ∙ ap (λ q. first_edge ∷ q) (with_last cs e) in
          let shifted : covered ++ (pending ++ as_edge e ∷ [])
              ≡ (covered ++ first_edge ∷ []) ++ map as_edge (cs ++ e ∷ []) =
            ap (λ q. covered ++ q) whole
            ∙ sym (append_assoc covered (first_edge ∷ []) (map as_edge (cs ++ e ∷ []))) in
          let (s, c, more, cs_eq, swap, is_new) =
            slice_part (covered ++ first_edge ∷ []) rest cs e start i seed amount graph_path
              swap_exact_eth_for_tokens r (subst (λ q. graph_path ≡ q ++ rest) shifted split)
              (omega (arith, at_start, length-append {0} covered (first_edge ∷ [])))
              (subst (λ q. suc i ≡ length q) shifted index) (rw (eb, es, finish_swap) at h) in
          (
            record { inner = eth_dex_swap s },
            is_new,
            wrap_swaps w c more s (whole ∙ ap (λ q. first_edge ∷ map as_edge q) cs_eq) refl swap,
          )
