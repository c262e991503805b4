-- ===== src/Tests/Conversions.antt =====
-- A path that wraps GLMR and swaps it on StellaSwap becomes one step.
use privadex.Prelude.{ℕ, ◌≡◌, refl, List, [], ◌∷◌, none}
use privadex.Prelude.Fallible.{Outcome, ok}
use privadex.Metadata.Templates.{Xcm, JunctionView, WalletMultiLocationTemplate}
use privadex.Plan.Types.{ExecutionPath, ExecutionPlan, ExecutionStep, EthStepStatus, eth_send}
use privadex.Exec.Plan.Order.{IsFreshPlan}
use privadex.Convert.Converter.Fresh.{try_from-IsFreshPlan}
use privadex.Routing.Edge.{Edge, cpmm, wrap}
use privadex.Routing.Solution.{SplitGraphPath, GraphSolution}
use privadex.Convert.Steps.{GraphToExecConversionError}
use privadex.Convert.Converter.{try_from, split_graph_path_to_exec_path}
use privadex.Tests.Graphs.{wrapping, swapping}
use privadex.Tests.Mock.{send_with}

-- Locations that are lists of accounts.
abbrev accounts : Xcm
accounts = record {
  MultiLocation = List ℕ;
  Junction = ℕ;
  interior = λ m. m;
  set_junction = λ i j m. j ∷ [];
  view = λ j. JunctionView.account_key20;
  replace_account = λ j a. a;
}

abbrev LocatedPath : Type 0
LocatedPath = SplitGraphPath (List ℕ) (WalletMultiLocationTemplate accounts)

abbrev wrap_then_swap : LocatedPath
wrap_then_swap = record {
  path = Edge.swap (wrap wrapping) ∷ Edge.swap (cpmm swapping) ∷ [];
  fraction_amount_in = 500;
  fraction_bps = 10_000;
}

abbrev or_empty :
    Outcome GraphToExecConversionError (ExecutionPath (List ℕ) × ℕ) → ExecutionPath (List ℕ) × ℕ
or_empty (ok r) = r
or_empty _ = (record { steps = []; amount_out = none }, 0)

abbrev converted : ExecutionPath (List ℕ) × ℕ
converted = or_empty (split_graph_path_to_exec_path accounts 9 wrap_then_swap)

abbrev solved : GraphSolution (List ℕ) (WalletMultiLocationTemplate accounts)
solved = record { paths = wrap_then_swap ∷ []; amount_in = 500; src_addr = 1; dest_addr = 3 }

abbrev plan_or :
    ExecutionPlan (List ℕ)
    → Outcome GraphToExecConversionError (ExecutionPlan (List ℕ))
    → ExecutionPlan (List ℕ)
plan_or d (ok plan) = plan
plan_or d _ = d

abbrev no_transfer : ExecutionStep (List ℕ)
no_transfer = record { inner = eth_send (send_with EthStepStatus.not_started) }

abbrev no_plan : ExecutionPlan (List ℕ)
no_plan = record {
  uuid = 0;
  paths = [];
  prestart_user_to_escrow_transfer = no_transfer;
  postend_escrow_to_user_transfer = no_transfer;
}

abbrev planned : ExecutionPlan (List ℕ)
planned = plan_or no_plan (try_from accounts 9 solved)

plans : try_from accounts 9 solved ≡ ok planned
unfolding try_from privadex.Convert.Converter.convert_from privadex.Convert.Converter.prestart_step
    privadex.Convert.Converter.postend_step privadex.Convert.Converter.transfer_step
    privadex.Convert.Converter.convert_paths split_graph_path_to_exec_path
    privadex.Routing.Edge.edge_quotes privadex.Routing.Edge.swap_quotes
    privadex.Routing.Edge.cpmm_quotes privadex.Routing.Edge.wrap_quotes
    privadex.Convert.Converter.process_edges privadex.Convert.Converter.process_edge
    privadex.Convert.Converter.apply_result privadex.Convert.Converter.next_edge
    privadex.Convert.Edges.process_wrap_edge privadex.Convert.Edges.process_cpmm_edge
    privadex.Convert.Edges.is_last_consecutive_swap privadex.Convert.Edges.finish_swap
    privadex.Convert.Edges.swap_of_slice privadex.Convert.Edges.cpmm_edges
    privadex.Convert.Edges.get_uuid_and_increment_seed
    privadex.Convert.Steps.convert_same_dex_swaps_to_exec_step
    privadex.Metadata.Chains.get_chain_info_from_chain_id
plans = refl

try_from-IsFreshPlan_example : IsFreshPlan planned
try_from-IsFreshPlan_example = try_from-IsFreshPlan accounts 9 solved planned plans
