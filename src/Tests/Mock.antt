-- ===== src/Tests/Mock.antt =====
-- Services that answer every call, a plan of one wrap, and the step data that the tests share.
use privadex.Prelude.{◌≡◌, ℕ, suc, Bool, true, false, [], ◌∷◌, Option, none, some}
use privadex.Prelude.Fallible.{ok}
use privadex.Metadata.Ids.{UniversalAddress, ethereum, native, erc20}
use privadex.Metadata.Chains.{moonbeam, astar}
use privadex.Plan.Types.{
  CommonExecutionMeta, EthSendStep, EthWrapStep, XcmTransferStep, EthStepStatus,
  CrossChainStepStatus, ExecutionStep, ExecutionPath, ExecutionPlan, eth_send, eth_wrap,
  xcm_transfer,
}
use privadex.Exec.Services.{Services, StepMeta, KeyContainer}

abbrev answer {ℓ} : {A : Type ℓ} → A → ℕ → Option A × ℕ
answer a w = (some a, suc w)

-- The world counts the calls that have reached it.
abbrev pub mock : Services
mock = record {
  World = ℕ;
  MultiLocation = Bool;
  SignedTransaction = ℕ;
  RuntimeVersion = Bool;
  block_number = λ url. answer 1000;
  eth_next_system_nonce = λ url a. answer 4;
  send_raw_transaction = λ url t. answer 77;
  create_send_eth_raw_txn = λ url to amount key chain nonce. answer 5;
  erc20_contract_loads = λ url a. true;
  erc20_transfer = λ url token to amount key nonce. answer 5;
  weth_contract_loads = λ url a. true;
  weth_deposit = λ url weth amount key nonce. answer 5;
  weth_withdraw = λ url weth amount key nonce. answer 5;
  dex_router_contract_loads = λ url a. true;
  dex_router_swap = λ f url router amount least path to deadline key nonce. answer 5;
  parse_transfer_from_eth_send_txn = λ url h.
      answer
        (record { is_txn_success = true; from = 1; to = 2; amount = 500; gas_fee_native = 21 });
  parse_transfer_from_erc20_txn = λ url h. answer (record {
    is_txn_success = true;
    token = 9;
    from = 1;
    to = 2;
    amount = 500;
    gas_fee_native = 21;
  });
  parse_transfer_from_dex_swap_txn = λ url h. answer (record {
    is_txn_success = true;
    token = 9;
    from = 1;
    to = 2;
    amount = 450;
    gas_fee_native = 21;
  });
  get_txn_summary = λ url h. answer (record { is_txn_success = true; gas_fee_native = 21 });
  astar_xcm_contract_loads = λ url. true;
  assets_xcm_transfer = λ url token amount chain to key nonce. answer 5;
  moonbeam_xtokens_transfer_multiasset = λ asset amount dest. some (1 ∷ []);
  polkadot_xcm_limited_reserve_transfer_assets = λ asset amount dest. some (2 ∷ []);
  moonbase_alpha_xtokens_transfer_multiasset = λ asset amount dest. some (3 ∷ []);
  substrate_next_system_nonce = λ url prefix key. answer 4;
  get_finalized_block_number = λ url. answer 1000;
  get_runtime_version = λ url. answer true;
  get_genesis_hash = λ url. answer 6;
  create_extrinsic = λ from key call nonce version hash. call;
  send_extrinsic = λ url tx. answer 88;
  lookup_extrinsic_by_hash = λ url from to h.
      answer (record { is_extrinsic_success = true; block_num = 1001; extrinsic_index = 2 });
  lookup_xcm_event_transfer = λ url from to src dest amount addr.
      answer (record { block_num = 2002; event_index = 3; amount_out = 480 });
}

abbrev pub mock_meta : StepMeta ℕ
mock_meta = record {
  cur_timestamp = 1_000_000;
  get_nonce = λ id chain block nonce w. (ok nonce, suc w);
  finalize_execstep = λ id chain w. (ok tt, suc w);
  drop_execstep = λ id chain w. (ok tt, suc w);
}

abbrev pub escrow : UniversalAddress
escrow = ethereum 2

abbrev pub mock_keys : KeyContainer
mock_keys = record { address = escrow; key = 11 } ∷ []

abbrev pub mock_common : CommonExecutionMeta
mock_common = record { src_addr = escrow; dest_addr = escrow; gas_fee_native = 7; gas_fee_usd = 14 }

abbrev pub send_with : EthStepStatus → EthSendStep
send_with st = record {
  uuid = 1;
  chain = moonbeam;
  amount = some 500;
  common = mock_common;
  status = st;
}

abbrev pub wrap_with : EthStepStatus → EthWrapStep
wrap_with st = record {
  uuid = 2;
  chain = moonbeam;
  amount = some 500;
  common = mock_common;
  status = st;
}

abbrev pub crossing_with : CrossChainStepStatus → XcmTransferStep Bool
crossing_with st = record {
  uuid = 3;
  src_token = record { chain = astar; id = native };
  dest_token = record { chain = moonbeam; id = erc20 9 };
  token_asset_multilocation = true;
  full_dest_multilocation = false;
  amount_in = none;
  bridge_fee_native = 3;
  bridge_fee_usd = 6;
  common = mock_common;
  status = st;
}

abbrev pub send_step : EthStepStatus → ExecutionStep Bool
send_step st = record { inner = eth_send (send_with st) }

abbrev pub wrap_step : EthStepStatus → ExecutionStep Bool
wrap_step st = record { inner = eth_wrap (wrap_with st) }

abbrev pub crossing_step : CrossChainStepStatus → ExecutionStep Bool
crossing_step st = record { inner = xcm_transfer (crossing_with st) }

abbrev pub path_with : EthStepStatus → ExecutionPath Bool
path_with st = record { steps = wrap_step st ∷ []; amount_out = none }

abbrev pub plan_with : EthStepStatus → EthStepStatus → ExecutionPlan Bool
plan_with start wrap = record {
  uuid = 4;
  paths = path_with wrap ∷ [];
  prestart_user_to_escrow_transfer = send_step start;
  postend_escrow_to_user_transfer = send_step EthStepStatus.not_started;
}

-- An outcome with a known answer, as a triple.
pub paired {ℓ κ μ} :
    {A : Type ℓ} {S : Type κ} {W : Type μ} {x : A × S × W} {a : A} → x.0 ≡ a → x ≡ (a, x.1, x.2)
paired {x = x} h i = (h i, x.1, x.2)

pub paired_two {ℓ κ} : {A : Type ℓ} {W : Type κ} {x : A × W} {a : A} → x.0 ≡ a → x ≡ (a, x.1)
paired_two {x = x} h i = (h i, x.1)
