-- ===== src/Convert/Edges.antt =====
-- One edge at a time: helper_process_graph_edge.rs. A swap that several edges form is remembered by
-- the index of its first constant-product edge.
pub mod Fresh
use privadex.Prelude.{
  ℕ, ◌+◌, ◌-◌, ◌==◌, Bool, true, false, not, ◌&&◌, List, [], ◌∷◌, Option, none, some, if◌then◌else◌,
  leb, length, take, drop,
}
use privadex.Prelude.Fallible.{Outcome, ok, err, or_panic, ◌>>=◌}
use privadex.Common.Ratio.{add_u128}
use privadex.Metadata.Dex.{DexId, dex_eq}
use privadex.Metadata.Templates.{Xcm, WalletMultiLocationTemplate}
use privadex.Plan.Types.{
  ExecutionStep, ExecutionStepEnum, DexRouterFunction, eth_wrap, eth_unwrap, eth_dex_swap,
  xcm_transfer, swap_exact_eth_for_tokens, swap_exact_tokens_for_tokens, swap_exact_tokens_for_eth,
}
use privadex.Routing.Edge.{
  Edge, WrapEdge, UnwrapEdge, ConstantProductAmmSwapEdge, XcmBridgeEdge, cpmm,
}
use privadex.Convert.Steps.{
  GraphToExecConversionError, unexpected_still_processing_swap, started_wrap_ended_unwrap,
  unexpected_swap_after_unwrap, convert_xcm_bridge_to_exec_step, convert_wrap_to_exec_step,
  convert_unwrap_to_exec_step, convert_same_dex_swaps_to_exec_step,
}

pub record ParseSwapState : Type 0 where
  pub start_idx : ℕ
  pub started_with_wrap : Bool

pub data ProcessHelperResult (L : Type 0) : Type 0 where
  no_change : ProcessHelperResult L
  update_parse_swap_state : ParseSwapState → ProcessHelperResult L
  new_exec_step : ExecutionStep L → ProcessHelperResult L

-- `&v[start..end]`
abbrev pub slice {ℓ} : {A : Type ℓ} → ℕ → ℕ → List A → Option (List A)
slice start end xs =
    if leb start end && leb end (length xs) then some (take (end - start) (drop start xs)) else none

-- `get_uuid_and_increment_seed`: the UUID is the bytes of the seed, big end first.
unfoldable pub get_uuid_and_increment_seed : ℕ → ℕ × ℕ
get_uuid_and_increment_seed uuid_seed = (uuid_seed, add_u128 uuid_seed 1)

module _ {L T : Type 0} where
  -- `.map(|edge| if let Edge::Swap(SwapEdge::CPMM(x)) = edge { x } else { panic!() }).collect()`
  unfoldable pub cpmm_edges : List (Edge L T) → Option (List ConstantProductAmmSwapEdge)
  cpmm_edges [] = some []
  cpmm_edges (Edge.swap (cpmm x) ∷ es) = elim (cpmm_edges es) [
    | none ↦ none
    | some xs ↦ some (x ∷ xs)
  ]
  cpmm_edges (_ ∷ es) = none

module _ (x : Xcm) where
  abbrev pub Processed : Type 0
  Processed = Outcome GraphToExecConversionError (ProcessHelperResult x.MultiLocation × ℕ)

  abbrev pub BridgeOf : Type 0
  BridgeOf = XcmBridgeEdge x.MultiLocation (WalletMultiLocationTemplate x)

  abbrev pub EdgeOf : Type 0
  EdgeOf = Edge x.MultiLocation (WalletMultiLocationTemplate x)

  abbrev pub step_with :
      {S : Type 0} → Option S → (S → ExecutionStepEnum x.MultiLocation) → ℕ → Processed
  step_with step kind uuid_seed = do
    s ← or_panic step
    ok (new_exec_step (record { inner = kind s }), uuid_seed)

  unfoldable pub process_xcm_bridge_edge :
      ℕ → BridgeOf → Option ℕ → Option ParseSwapState → Processed
  unfolding get_uuid_and_increment_seed convert_xcm_bridge_to_exec_step
  process_xcm_bridge_edge uuid_seed edge amount_in none =
      let (uuid, seed) = get_uuid_and_increment_seed uuid_seed in
      step_with (convert_xcm_bridge_to_exec_step x edge uuid amount_in) xcm_transfer seed
  process_xcm_bridge_edge uuid_seed edge amount_in (some _) = err unexpected_still_processing_swap

  unfoldable pub process_wrap_edge :
      ℕ → WrapEdge → Option ℕ → Option ParseSwapState → ℕ → Option DexId → Processed
  unfolding get_uuid_and_increment_seed convert_wrap_to_exec_step
  process_wrap_edge uuid_seed edge amount_in none start_idx none =
      let (uuid, seed) = get_uuid_and_increment_seed uuid_seed in
      step_with (convert_wrap_to_exec_step edge uuid amount_in) eth_wrap seed
  process_wrap_edge uuid_seed edge amount_in none start_idx (some _) = ok (
    update_parse_swap_state (record { start_idx = start_idx; started_with_wrap = true }),
    uuid_seed,
  )
  process_wrap_edge uuid_seed edge amount_in (some _) start_idx _ =
      err unexpected_still_processing_swap

  -- The edges `graph_path[start..end]` as one swap.
  unfoldable pub swap_of_slice : ℕ → List EdgeOf → ℕ → ℕ → Option ℕ → DexRouterFunction → Processed
  unfolding get_uuid_and_increment_seed convert_same_dex_swaps_to_exec_step cpmm_edges
  swap_of_slice uuid_seed graph_path start end amount_in dex_router_func = do
    part ← or_panic (slice start end graph_path)
    swaps ← or_panic (cpmm_edges part)
    let (uuid, seed) = get_uuid_and_increment_seed uuid_seed
    step_with (convert_same_dex_swaps_to_exec_step swaps uuid amount_in dex_router_func)
        eth_dex_swap seed

  unfoldable pub process_unwrap_edge :
      ℕ → UnwrapEdge → Option ℕ → Option ParseSwapState → List EdgeOf → ℕ → Bool → Processed
  unfolding get_uuid_and_increment_seed convert_unwrap_to_exec_step swap_of_slice
  process_unwrap_edge uuid_seed edge amount_in none graph_path end_idx false =
      let (uuid, seed) = get_uuid_and_increment_seed uuid_seed in
      step_with (convert_unwrap_to_exec_step edge uuid amount_in) eth_unwrap seed
  process_unwrap_edge uuid_seed edge amount_in (some s) graph_path end_idx false =
      if s.started_with_wrap
      then err started_wrap_ended_unwrap
      else swap_of_slice uuid_seed graph_path s.start_idx end_idx amount_in
          swap_exact_tokens_for_eth
  process_unwrap_edge uuid_seed edge amount_in _ graph_path end_idx true =
      err unexpected_swap_after_unwrap

  -- `!is_next_step_unwrap && (Some(*id) != next_dex_id)`
  unfoldable pub is_last_consecutive_swap : ConstantProductAmmSwapEdge → Option DexId → Bool → Bool
  is_last_consecutive_swap edge next_dex_id is_next_step_unwrap =
      not is_next_step_unwrap
      && elim next_dex_id [ none ↦ true | some id ↦ not (edge.dex.id == id) ]

  unfoldable pub finish_swap :
      ℕ
      → ConstantProductAmmSwapEdge
      → Option ℕ
      → Option ParseSwapState
      → List EdgeOf
      → ℕ
      → Processed
  unfolding get_uuid_and_increment_seed convert_same_dex_swaps_to_exec_step swap_of_slice
  finish_swap uuid_seed edge amount_in none graph_path cur_idx =
      let (uuid, seed) = get_uuid_and_increment_seed uuid_seed in
      step_with
        (convert_same_dex_swaps_to_exec_step (edge ∷ []) uuid amount_in
          swap_exact_tokens_for_tokens)
        eth_dex_swap seed
  finish_swap uuid_seed edge amount_in (some s) graph_path cur_idx =
      swap_of_slice uuid_seed graph_path s.start_idx (cur_idx + 1) amount_in
        (if s.started_with_wrap then swap_exact_eth_for_tokens else swap_exact_tokens_for_tokens)

  unfoldable pub continue_swap : Option ParseSwapState → ℕ → ℕ → Processed
  continue_swap (some _) cur_idx uuid_seed = ok (no_change, uuid_seed)
  continue_swap none cur_idx uuid_seed = ok (
    update_parse_swap_state (record { start_idx = cur_idx; started_with_wrap = false }),
    uuid_seed,
  )

  unfoldable pub process_cpmm_edge :
      ℕ
      → ConstantProductAmmSwapEdge
      → Option ℕ
      → Option ParseSwapState
      → List EdgeOf
      → ℕ
      → Option DexId
      → Bool
      → Processed
  unfolding is_last_consecutive_swap finish_swap continue_swap
  process_cpmm_edge uuid_seed edge amount_in parse_swap_state graph_path cur_idx next_dex_id
        is_next_step_unwrap =
      if is_last_consecutive_swap edge next_dex_id is_next_step_unwrap
      then finish_swap uuid_seed edge amount_in parse_swap_state graph_path cur_idx
      else continue_swap parse_swap_state cur_idx uuid_seed
