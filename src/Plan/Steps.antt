-- ===== src/Plan/Steps.antt =====
-- The methods of `ExecutionStep` in dex_aggregator/execution_plan/src/execution_plan.rs. A method on
-- `&mut self` returns the new step. `none` of `get_src_chain` is the panic on an empty token path.
use privadex.Prelude.{ℕ, List, [], ◌∷◌, Option, none, some}
use privadex.Metadata.Ids.{UniversalChainId, UniversalTokenId}
use privadex.Plan.Types.{
  EthStepStatus, CrossChainStepStatus, ExecutionStepEnum, ExecutionStep, eth_send, erc20_transfer,
  eth_wrap, eth_unwrap, eth_dex_swap, xcm_transfer,
}

abbrev pub first_chain : List UniversalTokenId → Option UniversalChainId
first_chain [] = none
first_chain (t ∷ ts) = some t.chain

module _ {L : Type 0} where
  abbrev inner_amount_in : ExecutionStepEnum L → Option ℕ
  inner_amount_in (eth_send step) = step.amount
  inner_amount_in (erc20_transfer step) = step.amount
  inner_amount_in (eth_wrap step) = step.amount
  inner_amount_in (eth_unwrap step) = step.amount
  inner_amount_in (eth_dex_swap step) = step.amount_in
  inner_amount_in (xcm_transfer step) = step.amount_in

  unfoldable pub get_amount_in : ExecutionStep L → Option ℕ
  get_amount_in s = inner_amount_in s.inner

  abbrev inner_set_amount_in : ExecutionStepEnum L → ℕ → ExecutionStepEnum L
  inner_set_amount_in (eth_send step) a = eth_send (record step { amount = some a })
  inner_set_amount_in (erc20_transfer step) a = erc20_transfer (record step { amount = some a })
  inner_set_amount_in (eth_wrap step) a = eth_wrap (record step { amount = some a })
  inner_set_amount_in (eth_unwrap step) a = eth_unwrap (record step { amount = some a })
  inner_set_amount_in (eth_dex_swap step) a = eth_dex_swap (record step { amount_in = some a })
  inner_set_amount_in (xcm_transfer step) a = xcm_transfer (record step { amount_in = some a })

  unfoldable pub set_amount_in : ExecutionStep L → ℕ → ExecutionStep L
  set_amount_in s a = record { inner = inner_set_amount_in s.inner a }

  abbrev inner_drop : ExecutionStepEnum L → ExecutionStepEnum L
  inner_drop (eth_send step) = eth_send (record step { status = EthStepStatus.dropped })
  inner_drop (erc20_transfer step) = erc20_transfer (record step { status = EthStepStatus.dropped })
  inner_drop (eth_wrap step) = eth_wrap (record step { status = EthStepStatus.dropped })
  inner_drop (eth_unwrap step) = eth_unwrap (record step { status = EthStepStatus.dropped })
  inner_drop (eth_dex_swap step) = eth_dex_swap (record step { status = EthStepStatus.dropped })
  inner_drop (xcm_transfer step) =
      xcm_transfer (record step { status = CrossChainStepStatus.dropped })

  unfoldable pub drop : ExecutionStep L → ExecutionStep L
  drop s = record { inner = inner_drop s.inner }

  abbrev inner_src_chain : ExecutionStepEnum L → Option UniversalChainId
  inner_src_chain (eth_send step) = some step.chain
  inner_src_chain (erc20_transfer step) = some step.token.chain
  inner_src_chain (eth_wrap step) = some step.chain
  inner_src_chain (eth_unwrap step) = some step.chain
  inner_src_chain (eth_dex_swap step) = first_chain step.token_path
  inner_src_chain (xcm_transfer step) = some step.src_token.chain

  unfoldable pub get_src_chain : ExecutionStep L → Option UniversalChainId
  get_src_chain s = inner_src_chain s.inner

  abbrev inner_uuid : ExecutionStepEnum L → ℕ
  inner_uuid (eth_send step) = step.uuid
  inner_uuid (erc20_transfer step) = step.uuid
  inner_uuid (eth_wrap step) = step.uuid
  inner_uuid (eth_unwrap step) = step.uuid
  inner_uuid (eth_dex_swap step) = step.uuid
  inner_uuid (xcm_transfer step) = step.uuid

  unfoldable pub get_uuid : ExecutionStep L → ℕ
  get_uuid s = inner_uuid s.inner
