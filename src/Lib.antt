-- ===== src/Lib.antt =====
-- PrivaDEX, a cross-chain DEX aggregator: a model of the routing of a swap, of the
-- conversion of a route into an execution plan, and of the executor of these plans.
--
-- Tokens are the vertices of a graph whose edges are the pairs of each DEX, the wrapping of native
-- tokens, and the bridges between chains. The router searches all paths within its limits and takes the
-- one with the best quote less fees; the conversion merges its edges into steps, and start_swap stores
-- the plan that they make if the user's transaction has not been used before.
--
-- An execution plan moves a user's funds along several paths of steps: the user pays an escrow (the
-- prestart step), each path swaps, wraps, or carries funds to another chain, one step after the other,
-- and the escrow pays the user what the paths brought in (the postend step). A worker loads a plan,
-- calls `execute_step_forward` on it once, and stores what came out (the contract's message
-- execution_plan_step_forward, which first claims the plan); each call may send transactions
-- and look up earlier ones.
--
-- Files and the code that they model, by paths from the root of the repository:
--   Common.Ratio      dex_aggregator/common/src/utils/general_utils.rs (mul_ratio_u128), wrapped sums
--   Common.FixedPoint dex_aggregator/common/src/fixed_point.rs
--   Metadata          dex_aggregator/chain_metadata/src: identifiers, chain constants and their lookup,
--                     the DEXes (registry/dex.rs), wallet templates (Templates: bridge.rs)
--   Routing           dex_aggregator/routing/src: edges and quotes (Edge: graph/edge.rs and traits.rs),
--                     the fees of a bridge (Edge.Bridges), the graph (Graph, GraphPath and Solution:
--                     graph/graph.rs), the search (Paths: find_all_paths.rs), the choice of a path
--                     (Sor: single_path_sor.rs)
--   Convert           dex_aggregator/execution_plan/src/graph_solution_to_execution_plan: one step
--                     (Steps), one edge at a time (Edges), a whole solution (Converter)
--   Plan.Types, Steps dex_aggregator/execution_plan/src/execution_plan.rs
--   Plan.Validator    dex_aggregator/execution_plan/src/validator.rs
--   Exec.Status       dex_aggregator/executor/src/executable/traits.rs
--   Exec.Services     the calls that the executor makes outside itself, and key_container.rs
--   Exec.Eth          .../executable_step_helpers/executable_eth_steps.rs: the status machine that
--                     the kinds of step share (Eth), the kinds (Eth.Kinds), the receipts
--                     (Eth.Completion)
--   Exec.Xcm          .../executable_step_helpers/executable_xcm_transfer.rs
--   Exec.Step, Path, Plan   executable_step.rs, executable_path.rs and executable_plan.rs
--   Exec.Meta         execute_step_meta.rs: `StepMeta` on the nonce managers of the chains
--   Coordinator       dex_aggregator/executor/src/concurrency_coordinator: the row of nonces of a chain
--                     and the requests on it (Table: dynamodb_request_factory.rs), the manager
--                     (Nonces: nonce_manager.rs); the rows of plans (Plans: execution_plan_assigner.rs)
--                     and of prestart transactions (Prestart: prestart_step_uniqueness_enforcer.rs)
--   Contract          dex_aggregator/executor/src/lib.rs: execution_plan_step_forward and start_swap
-- Each theorem file below these says in its first line what it is about; Tests holds concrete runs.
--
-- How the code is read: a method on `&mut self` takes the state and returns it with its answer, also
-- when the answer is an error or a panic (`Outcome`: ok, err, panic), since the code keeps what it has
-- changed by then. Everything outside (nodes, contracts, indexers, and the record of nonces) is a
-- section parameter: `Services`, whose calls take a world to a world and may answer nothing, and
-- `StepMeta`, which `Exec.Meta.live` implements on the record of nonces; no property assumes
-- anything of these two. The row of nonces in DynamoDB is the record `NonceTable`: a conditional update
-- is atomic and meets the row as other workers have left it (`IsServed`, `Meanwhile`; a drop of theirs
-- gives back the nonce that its step holds), and a read is
-- eventually consistent: it finds the row of that moment or an earlier one (`Readable`). Numbers are the
-- native ℕ. Sums of u128 and u32 values wrap, as in a build without overflow checks; the setting in
-- Cargo.toml covers one package only, so that a contract build with checks panics where a sum here
-- wraps. A division by zero or an index out of range is a panic.
-- The crates graphlib and xcm, the bucket of plans in S3 and a row of DynamoDB are records of operations
-- (SimpleGraphs, Xcm, PlanStore, RowTable), with their documented behaviour as laws.
-- Loops over lists are structural recursion. The search for paths works on an explicit stack and runs on
-- fuel, an argument of it and of the router that calls it, with an answer of its own when the fuel runs
-- out. Each round takes one entry off the stack and pushes only entries for longer paths, of which there
-- are finitely many, so one unit of fuel for each of these is enough.
--
-- Not modelled: the bodies of the RPC, contract and indexer clients (input and output through other
-- crates), the feature `mock-txn-send`, Display and the serialisation of plans and requests, the
-- parsing of text (numbers, addresses, UUIDs); the building of the graph from the answers of the
-- indexers; the hash that UUIDs are counted from, which is an argument; the keys of the contract and its
-- getters.
pub mod Prelude
pub mod Common
pub mod Metadata
pub mod Plan
pub mod Exec
pub mod Coordinator
pub mod Routing
pub mod Convert
pub mod Contract
pub mod Tests
