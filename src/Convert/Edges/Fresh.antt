-- ===== src/Convert/Edges/Fresh.antt =====
-- A step that the handling of an edge adds has not started.
use privadex.Prelude.{
  ℕ, ◌≡◌, subst, Bool, true, false, List, [], ◌∷◌, Option, none, some, Bool-cases, inl, inr,
}
use privadex.Prelude.Fallible.{ok, or_panic, >>=-eq-ok}
use privadex.Metadata.Ids.{token_eq}
use privadex.Metadata.Dex.{DexId, dex_eq}
use privadex.Metadata.Templates.{Xcm}
use privadex.Plan.Types.{
  EthDexSwapStep, ExecutionStep, ExecutionStepEnum, DexRouterFunction, eth_wrap, eth_unwrap,
  eth_dex_swap, xcm_transfer,
}
use privadex.Exec.Status.{not_started}
use privadex.Exec.Step
use privadex.Plan.Steps.{get_amount_in}
use privadex.Routing.Edge.{WrapEdge, UnwrapEdge, ConstantProductAmmSwapEdge}
use privadex.Convert.Steps.{
  convert_wrap_to_exec_step, convert_unwrap_to_exec_step, convert_xcm_bridge_to_exec_step,
  convert_same_dex_swaps_to_exec_step,
}
use privadex.Convert.Edges.{
  EdgeOf, BridgeOf, ParseSwapState, ProcessHelperResult, new_exec_step, process_xcm_bridge_edge,
  process_wrap_edge, process_unwrap_edge, process_cpmm_edge, finish_swap, continue_swap,
  is_last_consecutive_swap, swap_of_slice, cpmm_edges, slice, step_with,
  get_uuid_and_increment_seed,
}
use privadex.Convert.Converter.Covers.{step_with_ok}
use privadex.Convert.Steps.Fresh.{wrap_status, unwrap_status, swap_status, bridge_status}

module _ (x : Xcm) where
  -- A step that has not started and is to spend `amount`.
  abbrev pub IsNew : Option ℕ → ExecutionStep x.MultiLocation → Type 0
  IsNew amount s = (Step.get_status s ≡ not_started) × (get_amount_in s ≡ amount)

  -- A step that the result adds is new.
  abbrev pub AddsNew : Option ℕ → ProcessHelperResult x.MultiLocation × ℕ → Type 0
  AddsNew amount r = (s : ExecutionStep x.MultiLocation) → r.0 ≡ new_exec_step s → IsNew amount s

  step_with-AddsNew :
      {S : Type 0} {amount : Option ℕ} (made : Option S)
      (kind : S → ExecutionStepEnum x.MultiLocation) (seed : ℕ)
      (r : ProcessHelperResult x.MultiLocation × ℕ)
      → ((s : S) → made ≡ some s → IsNew amount (record { inner = kind s }))
      → step_with x made kind seed ≡ ok r
      → AddsNew amount r
  step_with-AddsNew {amount = amount} made kind seed r fresh h s added =
      let (t, by, is_new) = step_with_ok x made kind seed r h in
      subst (IsNew amount) {x = record { inner = kind t }} (cc (is_new, added)) (fresh t by)

  swap_step-IsNew :
      (cs : List ConstantProductAmmSwapEdge) (uuid : ℕ) (amount : Option ℕ) (f : DexRouterFunction)
      (s : EthDexSwapStep)
      → convert_same_dex_swaps_to_exec_step cs uuid amount f ≡ some s
      → IsNew amount (record { inner = eth_dex_swap s })
  unfolding Step.get_status get_amount_in
  swap_step-IsNew cs uuid amount f s h =
      let (fresh, spends) = swap_status cs uuid amount f s h in (rw fresh, spends)

  slice-AddsNew :
      (seed : ℕ) (path : List (EdgeOf x)) (start end : ℕ) (amount : Option ℕ)
      (f : DexRouterFunction) (r : ProcessHelperResult x.MultiLocation × ℕ)
      → swap_of_slice x seed path start end amount f ≡ ok r
      → AddsNew amount r
  unfolding swap_of_slice
  slice-AddsNew seed path start end amount f r h =
      let (part, _, h1) = >>=-eq-ok (or_panic (slice start end path)) _ h in
      let (taken, _, h2) = >>=-eq-ok (or_panic (cpmm_edges part)) _ h1 in
      step_with-AddsNew
        (convert_same_dex_swaps_to_exec_step taken (get_uuid_and_increment_seed seed).0 amount f)
        eth_dex_swap (get_uuid_and_increment_seed seed).1 r
        (λ s. swap_step-IsNew taken (get_uuid_and_increment_seed seed).0 amount f s) h2

  pub bridge-AddsNew :
      (seed : ℕ) (e : BridgeOf x) (amount : Option ℕ) (st : Option ParseSwapState)
      (r : ProcessHelperResult x.MultiLocation × ℕ)
      → process_xcm_bridge_edge x seed e amount st ≡ ok r
      → AddsNew amount r
  unfolding process_xcm_bridge_edge Step.get_status get_amount_in
  bridge-AddsNew seed e amount none r h =
      step_with-AddsNew
        (convert_xcm_bridge_to_exec_step x e (get_uuid_and_increment_seed seed).0 amount)
        xcm_transfer (get_uuid_and_increment_seed seed).1 r
        (λ s made.
          let (fresh, spends) =
            bridge_status x e (get_uuid_and_increment_seed seed).0 amount s made in
          (rw fresh, spends))
        h
  bridge-AddsNew seed e amount (some st) r h = cc h

  pub wrap-AddsNew :
      (seed : ℕ) (e : WrapEdge) (amount : Option ℕ) (st : Option ParseSwapState) (i : ℕ)
      (next : Option DexId) (r : ProcessHelperResult x.MultiLocation × ℕ)
      → process_wrap_edge x seed e amount st i next ≡ ok r
      → AddsNew amount r
  unfolding process_wrap_edge Step.get_status get_amount_in
  wrap-AddsNew seed e amount none i none r h =
      step_with-AddsNew (convert_wrap_to_exec_step e (get_uuid_and_increment_seed seed).0 amount)
        eth_wrap (get_uuid_and_increment_seed seed).1 r
        (λ s made.
          let (fresh, spends) = wrap_status e (get_uuid_and_increment_seed seed).0 amount s made in
          (rw fresh, spends))
        h
  wrap-AddsNew seed e amount none i (some d) r h = λ s added. absurd (cc (h, added))
  wrap-AddsNew seed e amount (some st) i none r h = cc h
  wrap-AddsNew seed e amount (some st) i (some d) r h = cc h

  pub unwrap-AddsNew :
      (seed : ℕ) (e : UnwrapEdge) (amount : Option ℕ) (st : Option ParseSwapState)
      (path : List (EdgeOf x)) (i : ℕ) (swap_follows : Bool)
      (r : ProcessHelperResult x.MultiLocation × ℕ)
      → process_unwrap_edge x seed e amount st path i swap_follows ≡ ok r
      → AddsNew amount r
  unfolding process_unwrap_edge Step.get_status get_amount_in
  unwrap-AddsNew seed e amount none path i false r h =
      step_with-AddsNew (convert_unwrap_to_exec_step e (get_uuid_and_increment_seed seed).0 amount)
        eth_unwrap (get_uuid_and_increment_seed seed).1 r
        (λ s made.
          let (fresh, spends) =
            unwrap_status e (get_uuid_and_increment_seed seed).0 amount s made in
          (rw fresh, spends))
        h
  unwrap-AddsNew seed e amount (some st) path i false r h = elim (Bool-cases st.started_with_wrap) [
    | inl wrapped ↦ absurd (cc (rw (wrapped, process_unwrap_edge) at h))
    | inr plain ↦
        slice-AddsNew seed path st.start_idx i amount _ r (rw (plain, process_unwrap_edge) at h)
  ]
  unwrap-AddsNew seed e amount none path i true r h = cc h
  unwrap-AddsNew seed e amount (some st) path i true r h = cc h

  finish-AddsNew :
      (seed : ℕ) (e : ConstantProductAmmSwapEdge) (amount : Option ℕ) (st : Option ParseSwapState)
      (path : List (EdgeOf x)) (i : ℕ) (r : ProcessHelperResult x.MultiLocation × ℕ)
      → finish_swap x seed e amount st path i ≡ ok r
      → AddsNew amount r
  unfolding finish_swap
  finish-AddsNew seed e amount none path i r h =
      step_with-AddsNew
        (convert_same_dex_swaps_to_exec_step (e ∷ []) (get_uuid_and_increment_seed seed).0 amount _)
        eth_dex_swap (get_uuid_and_increment_seed seed).1 r
        (λ s. swap_step-IsNew (e ∷ []) (get_uuid_and_increment_seed seed).0 amount _ s) h
  finish-AddsNew seed e amount (some st) path i r h =
      slice-AddsNew seed path st.start_idx _ amount _ r h

  continue-AddsNew :
      (amount : Option ℕ) (st : Option ParseSwapState) (i seed : ℕ)
      (r : ProcessHelperResult x.MultiLocation × ℕ)
      → continue_swap x st i seed ≡ ok r
      → AddsNew amount r
  unfolding continue_swap
  continue-AddsNew amount none i seed r h = λ s added. absurd (cc (h, added))
  continue-AddsNew amount (some st) i seed r h = λ s added. absurd (cc (h, added))

  pub cpmm-AddsNew :
      (seed : ℕ) (e : ConstantProductAmmSwapEdge) (amount : Option ℕ) (st : Option ParseSwapState)
      (path : List (EdgeOf x)) (i : ℕ) (next : Option DexId) (unwrap_follows : Bool)
      (r : ProcessHelperResult x.MultiLocation × ℕ)
      → process_cpmm_edge x seed e amount st path i next unwrap_follows ≡ ok r
      → AddsNew amount r
  unfolding process_cpmm_edge
  cpmm-AddsNew seed e amount st path i next unwrap_follows r h =
      elim (Bool-cases (is_last_consecutive_swap x e next unwrap_follows)) [
        | inl ends ↦ finish-AddsNew seed e amount st path i r (rw (ends, process_cpmm_edge) at h)
        | inr goes_on ↦ continue-AddsNew amount st i seed r (rw (goes_on, process_cpmm_edge) at h)
      ]
