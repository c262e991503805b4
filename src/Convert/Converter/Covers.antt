-- ===== src/Convert/Converter/Covers.antt =====
-- The steps of a converted path cover its edges, in order and without a gap.
use privadex.Prelude.{
  ℕ, ◌-◌, ◌≡◌, refl, sym, ◌∙◌, List, [], ◌∷◌, ◌++◌, map, Option, none, some, length, length-append,
  take-append, drop-append, le→leb, arith,
}
use privadex.Prelude.Fallible.{ok, or_panic, >>=-eq-ok}
use mathlib.Core.List.{append_assoc}
use privadex.Metadata.Ids.{chain_eq}
use privadex.Metadata.Dex.{dex_eq}
use privadex.Metadata.Templates.{Xcm, WalletMultiLocationTemplate}
use privadex.Plan.Types.{
  ExecutionStep, ExecutionStepEnum, EthWrapStep, EthUnwrapStep, EthDexSwapStep, XcmTransferStep,
  DexRouterFunction, eth_wrap, eth_unwrap, eth_dex_swap, xcm_transfer, swap_exact_eth_for_tokens,
  swap_exact_tokens_for_tokens, swap_exact_tokens_for_eth,
}
use privadex.Routing.Edge.{
  Edge, WrapEdge, UnwrapEdge, ConstantProductAmmSwapEdge, cpmm, wrap, unwrap, xcm,
}
use privadex.Convert.Steps.{convert_same_dex_swaps_to_exec_step, GraphToExecConversionError}
use privadex.Convert.Steps.Swaps.{IsSwapOf, swap_step-IsSwapOf}
use privadex.Metadata.Chains.{ChainInfo, get_chain_info_from_chain_id}
use privadex.Metadata.Templates.{get_full_dest_multilocation}
use privadex.Routing.GraphPath.{first, last}
use privadex.Convert.Steps.{get_escrow_receive_xcm_address}
use privadex.Convert.Edges.{
  get_uuid_and_increment_seed, EdgeOf, BridgeOf, slice, cpmm_edges, swap_of_slice, step_with,
  new_exec_step, ProcessHelperResult,
}

abbrev pub as_edge : {L T : Type 0} → ConstantProductAmmSwapEdge → Edge L T
as_edge e = Edge.swap (cpmm e)

pub slice_mid {ℓ} :
    {A : Type ℓ} (pre mid post : List A)
    → slice (length pre) (length (pre ++ mid)) ((pre ++ mid) ++ post) ≡ some mid
slice_mid pre mid post =
    let n = length-append {ℓ} pre mid in
    let m = length-append {ℓ} (pre ++ mid) post in
    let low = le→leb (length pre) (length (pre ++ mid)) (omega (arith, n)) in
    let high = le→leb (length (pre ++ mid)) (length ((pre ++ mid) ++ post)) (omega (arith, m)) in
    let count : length (pre ++ mid) - length pre ≡ length mid = omega (arith, n) in
    rw (
      low,
      high,
      count,
      append_assoc pre mid post,
      drop-append pre (mid ++ post),
      take-append mid post,
    )

pub cpmm_edges-map :
    (L T : Type 0) (cs : List ConstantProductAmmSwapEdge)
    → cpmm_edges {L = L} {T = T} (map as_edge cs) ≡ some cs
unfolding cpmm_edges
cpmm_edges-map L T [] = refl
cpmm_edges-map L T (c ∷ cs) = rw (cpmm_edges-map L T cs)

module _ (x : Xcm) where
  abbrev pub StepOf : Type 0
  StepOf = ExecutionStep x.MultiLocation

  -- The step ends at the escrow's address on the destination chain, both in the clear and in the
  -- location that is sent.
  abbrev pub ArrivesAtEscrow : BridgeOf x → XcmTransferStep x.MultiLocation → Type 0
  ArrivesAtEscrow e s =
      (info : ChainInfo) × (get_chain_info_from_chain_id e.dest_token.chain ≡ some info)
      × (s.common.dest_addr ≡ get_escrow_receive_xcm_address info)
      × (get_full_dest_multilocation x e.dest_multilocation_template s.common.dest_addr
          ≡ ok s.full_dest_multilocation)

  -- Two neighbouring edges that belong to one step.
  abbrev pub BelongTogether : EdgeOf x → EdgeOf x → Type 0
  BelongTogether (Edge.swap (cpmm a)) (Edge.swap (cpmm b)) = a.dex.id ≡ b.dex.id
  BelongTogether (Edge.swap (wrap a)) (Edge.swap (cpmm b)) = Unit
  BelongTogether (Edge.swap (cpmm a)) (Edge.swap (unwrap b)) = Unit
  BelongTogether _ _ = ⊥

  -- No step goes on over the border between the two.
  abbrev pub Splits : List (EdgeOf x) → List (EdgeOf x) → Type 0
  Splits before after =
      (a b : EdgeOf x) → last before ≡ some a → first after ≡ some b → BelongTogether a b → ⊥

  -- The edges that one step carries out.
  pub data Covers (part : List (EdgeOf x)) (step : StepOf) : Type 0 where
    crosses :
        (e : BridgeOf x) (s : XcmTransferStep x.MultiLocation)
        → part ≡ Edge.bridge (xcm e) ∷ []
        → step.inner ≡ xcm_transfer s
        → s.src_token ≡ e.src_token
        → s.dest_token ≡ e.dest_token
        → s.token_asset_multilocation ≡ e.token_asset_multilocation
        → ArrivesAtEscrow e s
        → Covers part step
    wraps :
        (e : WrapEdge) (s : EthWrapStep)
        → part ≡ Edge.swap (wrap e) ∷ []
        → step.inner ≡ eth_wrap s
        → s.chain ≡ e.src_token.chain
        → Covers part step
    unwraps :
        (e : UnwrapEdge) (s : EthUnwrapStep)
        → part ≡ Edge.swap (unwrap e) ∷ []
        → step.inner ≡ eth_unwrap s
        → s.chain ≡ e.src_token.chain
        → Covers part step
    swaps :
        (c : ConstantProductAmmSwapEdge) (cs : List ConstantProductAmmSwapEdge) (s : EthDexSwapStep)
        → part ≡ map as_edge (c ∷ cs)
        → step.inner ≡ eth_dex_swap s
        → IsSwapOf swap_exact_tokens_for_tokens c cs s
        → Covers part step
    wrap_swaps :
        (e : WrapEdge) (c : ConstantProductAmmSwapEdge) (cs : List ConstantProductAmmSwapEdge)
        (s : EthDexSwapStep)
        → part ≡ Edge.swap (wrap e) ∷ map as_edge (c ∷ cs)
        → step.inner ≡ eth_dex_swap s
        → IsSwapOf swap_exact_eth_for_tokens c cs s
        → Covers part step
    swaps_unwrap :
        (c : ConstantProductAmmSwapEdge) (cs : List ConstantProductAmmSwapEdge) (e : UnwrapEdge)
        (s : EthDexSwapStep)
        → part ≡ map as_edge (c ∷ cs) ++ Edge.swap (unwrap e) ∷ []
        → step.inner ≡ eth_dex_swap s
        → IsSwapOf swap_exact_tokens_for_eth c cs s
        → Covers part step

  -- The edges fall into parts, in order, each step covers its part, and no part ends between two edges
  -- that belong together.
  pub data CoversAll : List (EdgeOf x) → List StepOf → Type 0 where
    done : CoversAll [] []
    one_more :
        {edges : List (EdgeOf x)} {steps : List StepOf} (part : List (EdgeOf x)) (step : StepOf)
        → CoversAll edges steps
        → Splits edges part
        → Covers part step
        → CoversAll (edges ++ part) (steps ++ step ∷ [])

  pub step_with_ok :
      {S : Type 0} (made : Option S) (kind : S → ExecutionStepEnum x.MultiLocation) (seed : ℕ)
      (r : ProcessHelperResult x.MultiLocation × ℕ)
      → step_with x made kind seed ≡ ok r
      → (s : S) × (made ≡ some s) × (r.0 ≡ new_exec_step (record { inner = kind s }))
  step_with_ok none kind seed r h = cc
  step_with_ok (some s) kind seed r h = (s, refl, cc)

  -- A slice of constant-product edges becomes one swap step over them all.
  pub swap_of_slice_ok :
      (pre post : List (EdgeOf x)) (cs : List ConstantProductAmmSwapEdge) (start end seed : ℕ)
      (amount : Option ℕ) (graph_path : List (EdgeOf x)) (f : DexRouterFunction)
      (r : ProcessHelperResult x.MultiLocation × ℕ)
      → graph_path ≡ (pre ++ map as_edge cs) ++ post
      → start ≡ length pre
      → end ≡ length (pre ++ map as_edge cs)
      → swap_of_slice x seed graph_path start end amount f ≡ ok r
      → (s : EthDexSwapStep) × (c : ConstantProductAmmSwapEdge) × (rest : List
          ConstantProductAmmSwapEdge)
        × (cs ≡ c ∷ rest)
        × IsSwapOf f c rest s
        × (r.0 ≡ new_exec_step (record { inner = eth_dex_swap s }))
  unfolding swap_of_slice get_uuid_and_increment_seed
  swap_of_slice_ok pre post cs start end seed amount graph_path f r g a b h =
      let at_slice : slice start end graph_path ≡ some (map as_edge cs) =
        rw (g, a, b) (slice_mid pre (map as_edge cs) post) in
      let (part, part_eq, h1) = >>=-eq-ok (or_panic (slice start end graph_path)) _ h in
      let (taken, taken_eq, h2) = >>=-eq-ok (or_panic (cpmm_edges part)) _ h1 in
      let same_part =
        or_panic_inj part (map as_edge cs) (slice start end graph_path) part_eq at_slice in
      let same_swaps : taken ≡ cs =
        or_panic_inj taken cs (cpmm_edges part) taken_eq
          (rw same_part (cpmm_edges-map x.MultiLocation (WalletMultiLocationTemplate x) cs)) in
      let (s, made, is_new) =
        step_with_ok (convert_same_dex_swaps_to_exec_step taken seed amount f) eth_dex_swap _ r
          h2 in
      let (c, rest, split, swap) = swap_step-IsSwapOf taken seed amount f s made in
      (s, c, rest, sym same_swaps ∙ split, swap, is_new)
    where
      or_panic_inj :
          {A : Type 0} (p q : A) (o : Option A)
          → or_panic {E = GraphToExecConversionError} o ≡ ok p
          → o ≡ some q
          → p ≡ q
      or_panic_inj p q none h k = cc
      or_panic_inj p q (some a) h k = cc
