-- ===== src/Convert/Converter.antt =====
-- A whole solution: converter.rs. `seed_of` stands for the hash of the encoded solution (blake2_128 of
-- sp_core_hashing), from which the UUIDs are counted up.
pub mod Covers
pub mod Invariant
pub mod Parts
pub mod Kept
pub mod Fresh
pub mod Amounts
use privadex.Prelude.{
  ℕ, suc, ◌+◌, ◌==◌, Bool, true, false, List, [], ◌∷◌, ◌++◌, Option, none, some, is_some,
  if◌then◌else◌,
}
use privadex.Prelude.Fallible.{Outcome, ok, err, panic, ok_or, ◌>>=◌}
use privadex.Metadata.Ids.{UniversalTokenId, ChainTokenId, native, token_eq, ethereum}
use privadex.Metadata.Chains.{get_chain_info_from_chain_id}
use privadex.Metadata.Dex.{DexId}
use privadex.Metadata.Templates.{Xcm, WalletMultiLocationTemplate}
use privadex.Plan.Types.{
  CommonExecutionMeta, EthStepStatus, ExecutionStep, ExecutionPath, ExecutionPlan, eth_send,
  erc20_transfer,
}
use privadex.Routing.Edge.{Edge, cpmm, wrap, unwrap, xcm, edge_quotes}
use privadex.Routing.GraphPath.{first, last}
use privadex.Routing.Solution.{SplitGraphPath, GraphSolution}
use privadex.Convert.Steps.{
  GraphToExecConversionError, graph_solution_paths_length_zero, graph_path_length_zero,
  no_chain_info, escrow_eth_address,
}
use privadex.Convert.Edges.{
  ParseSwapState, ProcessHelperResult, no_change, update_parse_swap_state, new_exec_step, Processed,
  EdgeOf, get_uuid_and_increment_seed, process_xcm_bridge_edge, process_wrap_edge,
  process_unwrap_edge, process_cpmm_edge,
}

module _ (x : Xcm) where
  abbrev pub Converted : Type 0 → Type 0
  Converted A = Outcome GraphToExecConversionError A

  -- `(next_dex_id, is_next_step_unwrap)`
  unfoldable pub next_edge : List (EdgeOf x) → Option DexId × Bool
  next_edge (Edge.swap (cpmm e) ∷ _) = (some e.dex.id, false)
  next_edge (Edge.swap (unwrap _) ∷ _) = (none, true)
  next_edge _ = (none, false)

  -- The local variables of the loop.
  pub record Conversion : Type 0 where
    pub uuid_seed : ℕ
    pub amount_in : Option ℕ
    pub parse_swap_state : Option ParseSwapState
    pub exec_steps : List (ExecutionStep x.MultiLocation)

  unfoldable pub process_edge :
      List (EdgeOf x) → ℕ → EdgeOf x → List (EdgeOf x) → Conversion → Processed x
  process_edge graph_path i (Edge.bridge (xcm e)) rest c =
      process_xcm_bridge_edge x c.uuid_seed e c.amount_in c.parse_swap_state
  process_edge graph_path i (Edge.swap (wrap e)) rest c =
      process_wrap_edge x c.uuid_seed e c.amount_in c.parse_swap_state (i + 1) (next_edge rest).0
  process_edge graph_path i (Edge.swap (unwrap e)) rest c =
      process_unwrap_edge x c.uuid_seed e c.amount_in c.parse_swap_state graph_path i
        (is_some (next_edge rest).0)
  process_edge graph_path i (Edge.swap (cpmm e)) rest c =
      process_cpmm_edge x c.uuid_seed e c.amount_in c.parse_swap_state graph_path i
        (next_edge rest).0 (next_edge rest).1

  -- `match process_helper_result`
  unfoldable pub apply_result : Conversion → ProcessHelperResult x.MultiLocation → ℕ → Conversion
  apply_result c no_change uuid_seed = record c { uuid_seed = uuid_seed }
  apply_result c (new_exec_step step) uuid_seed = record {
    uuid_seed = uuid_seed;
    amount_in = none;
    parse_swap_state = none;
    exec_steps = c.exec_steps ++ step ∷ [];
  }
  apply_result c (update_parse_swap_state s) uuid_seed = record c {
    uuid_seed = uuid_seed;
    parse_swap_state = some s;
  }

  -- `for (i, step) in graph_path.iter().enumerate()`
  unfoldable pub process_edges :
      List (EdgeOf x) → ℕ → List (EdgeOf x) → Conversion → Converted Conversion
  unfolding process_edge apply_result
  process_edges graph_path i [] c = ok c
  process_edges graph_path i (e ∷ rest) c = process_edge graph_path i e rest c >>= λ r.
      process_edges graph_path (suc i) rest (apply_result c r.0 r.1)

  abbrev start_conversion : ℕ → ℕ → Conversion
  start_conversion uuid_seed amount_in = record {
    uuid_seed = uuid_seed;
    amount_in = some amount_in;
    parse_swap_state = none;
    exec_steps = [];
  }

  abbrev is_empty : List (EdgeOf x) → Bool
  is_empty [] = true
  is_empty (e ∷ es) = false

  abbrev as_path : Conversion → ExecutionPath x.MultiLocation × ℕ
  as_path c = (record { steps = c.exec_steps; amount_out = none }, c.uuid_seed)

  unfoldable pub split_graph_path_to_exec_path :
      ℕ
      → SplitGraphPath x.MultiLocation (WalletMultiLocationTemplate x)
      → Converted (ExecutionPath x.MultiLocation × ℕ)
  unfolding process_edges
  split_graph_path_to_exec_path uuid_seed split_graph_path =
      if is_empty split_graph_path.path
      then err graph_path_length_zero
      else process_edges split_graph_path.path 0 split_graph_path.path
          (start_conversion uuid_seed split_graph_path.fraction_amount_in)
        >>= λ c. ok (as_path c)

  -- The paths are converted in order, each from the seed that the one before has left.
  unfoldable pub convert_paths :
      ℕ
      → List (SplitGraphPath x.MultiLocation (WalletMultiLocationTemplate x))
      → Converted (List (ExecutionPath x.MultiLocation))
  unfolding split_graph_path_to_exec_path
  convert_paths uuid_seed [] = ok []
  convert_paths uuid_seed (p ∷ ps) = do
    r ← split_graph_path_to_exec_path uuid_seed p
    rest ← convert_paths r.1 ps
    ok (r.0 ∷ rest)

  -- `EthSend` for the native token of a chain, and `ERC20Transfer` for any other.
  unfoldable pub transfer_step :
      UniversalTokenId → ℕ → Option ℕ → CommonExecutionMeta → ExecutionStep x.MultiLocation
  transfer_step token uuid amount common =
      if token.id == native
      then record {
        inner = eth_send (record {
          uuid = uuid;
          chain = token.chain;
          amount = amount;
          common = common;
          status = EthStepStatus.not_started;
        });
      }
      else record {
        inner = erc20_transfer (record {
          uuid = uuid;
          token = token;
          amount = amount;
          common = common;
          status = EthStepStatus.not_started;
        });
      }

  -- `prestart_user_to_escrow_transfer`
  unfoldable pub prestart_step :
      GraphSolution x.MultiLocation (WalletMultiLocationTemplate x)
      → List (EdgeOf x)
      → ℕ
      → Converted (ExecutionStep x.MultiLocation)
  unfolding transfer_step edge_quotes get_chain_info_from_chain_id
  prestart_step solution path uuid = do
    start_edge ← ok_or (first path) graph_path_length_zero
    let quotes = edge_quotes x.MultiLocation (WalletMultiLocationTemplate x)
    let token = (quotes.get_src_dest_token start_edge).0
    chain_info ← ok_or (get_chain_info_from_chain_id token.chain) no_chain_info
    ok (
        transfer_step token uuid (some solution.amount_in) (record {
          src_addr = ethereum solution.src_addr;
          dest_addr = ethereum escrow_eth_address;
          gas_fee_native = chain_info.avg_gas_fee_in_native_token;
          gas_fee_usd = quotes.get_dest_chain_estimated_gas_fee_usd start_edge;
        }))

  -- `postend_escrow_to_user_transfer`
  unfoldable pub postend_step :
      GraphSolution x.MultiLocation (WalletMultiLocationTemplate x)
      → List (EdgeOf x)
      → ℕ
      → Converted (ExecutionStep x.MultiLocation)
  unfolding transfer_step edge_quotes get_chain_info_from_chain_id
  postend_step solution path uuid = do
    last_edge ← ok_or (last path) graph_path_length_zero
    let quotes = edge_quotes x.MultiLocation (WalletMultiLocationTemplate x)
    let token = (quotes.get_src_dest_token last_edge).1
    chain_info ← ok_or (get_chain_info_from_chain_id token.chain) no_chain_info
    ok (
        transfer_step token uuid none (record {
          src_addr = ethereum escrow_eth_address;
          dest_addr = ethereum solution.dest_addr;
          gas_fee_native = chain_info.avg_gas_fee_in_native_token;
          gas_fee_usd = quotes.get_dest_chain_estimated_gas_fee_usd last_edge;
        }))

  -- With the edges of the first path, which the ends of the plan are read from.
  unfoldable pub convert_from :
      ℕ
      → GraphSolution x.MultiLocation (WalletMultiLocationTemplate x)
      → List (EdgeOf x)
      → Converted (ExecutionPlan x.MultiLocation)
  unfolding get_uuid_and_increment_seed prestart_step postend_step convert_paths
  convert_from seed0 solution path = do
    let (plan_uuid, seed1) = get_uuid_and_increment_seed seed0
    let (prestart_uuid, seed2) = get_uuid_and_increment_seed seed1
    let (postend_uuid, seed3) = get_uuid_and_increment_seed seed2
    prestart ← prestart_step solution path prestart_uuid
    postend ← postend_step solution path postend_uuid
    paths ← convert_paths seed3 solution.paths
    ok (record {
      uuid = plan_uuid;
      paths = paths;
      prestart_user_to_escrow_transfer = prestart;
      postend_escrow_to_user_transfer = postend;
    })

  -- `ExecutionPlan::try_from`
  unfoldable pub try_from :
      ℕ
      → GraphSolution x.MultiLocation (WalletMultiLocationTemplate x)
      → Converted (ExecutionPlan x.MultiLocation)
  unfolding convert_from
  try_from seed solution = elim solution.paths [
    | [] ↦ err graph_solution_paths_length_zero
    | p ∷ ps ↦ convert_from seed solution p.path
  ]
