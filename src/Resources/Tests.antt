-- ===== src/Resources/Tests.antt =====
-- Runs of app/payout_resources.py and app/usdt_resource_provisioning.py, and their theorems at a
-- concrete wallet. The outside world is the energy that the wallet has.
use tron_shkeeper.Base.{ℕ, ◌+◌, ◌≤◌, String, ◌≡◌, refl, true, false, Option, none, some, [], ◌∷◌}
use tron_shkeeper.Payout.Types.{Exc, Result, ok, err}
use tron_shkeeper.Payout.Fields.{is_retryable_pre_broadcast_error}
use tron_shkeeper.Resources.Types.{
  AccountResource, Quote, Config, Answer, acquired, refused, raised, energy, Tools, World,
  resource_error, get_available_energy, get_available_bandwidth,
}
use tron_shkeeper.Resources.Estimate.{energy_provider_chain, quote_with}
use tron_shkeeper.Resources.Payout.{
  ensure_fee_deposit_resources_for_usdt_payout, estimate_fee_deposit_resources_for_usdt_payout,
}
use tron_shkeeper.Resources.Preflight.{
  Preflight, IsCleared, run_tron_usdt_preflight_checks, run_tron_usdt_preflight_checks-IsCleared,
}
use tron_shkeeper.Resources.Ensured.{NoOrder, has_energy_order}
use tron_shkeeper.Resources.Orders.{ensured_resources, retry_after_no_order}

abbrev config : Config
config = record {
  energy_provider = "profeex";
  bandwidth_provider = "disabled";
  fallback_provider = "disabled";
  bandwidth_per_trc20_transfer_call = 345;
  recheck_attempts = 2;
  auto_activate_destination = false;
}

abbrev account : ℕ → AccountResource
account energy_limit = record {
  energy_limit = energy_limit;
  energy_used = 0;
  net_limit = 0;
  net_used = 0;
  free_net_limit = 600;
  free_net_used = 0;
}

-- A provider that answers so, and delivers what is asked of it if it acquires it.
abbrev tools : Answer → Tools ℕ
tools answer = record {
  config = config;
  get_account_resource = λ a w. (ok (account w), w);
  get_account = λ a w. (some true, w);
  acquire_energy = λ name a deficit r required w.
      (answer, elim answer [ acquired ↦ w + deficit | refused f ↦ w | raised e ↦ w ]);
  acquire_bandwidth = λ name a required w. (acquired, w);
  estimate_usdt_transfer_fee = λ name a w. (
    (some (record { energy_required = 65_000; is_new_address = false; trx_burned = none }), none),
    w,
  );
  sleep = λ w. w;
  show_amount = λ n. "5";
}

abbrev start : World ℕ
start = record { outside = 1_000; attempts = [] }

abbrev finish : Answer → ℕ → World ℕ
finish answer outside = record {
  outside = outside;
  attempts = record { resource = energy; provider = "profeex"; answer = answer } ∷ [];
}

abbrev activate : String → Option String → ℕ → Result (Unit {0}) × ℕ
activate destination provider w = (ok tt, w)

abbrev ensured : Quote
ensured = record {
  source_address = "TFee";
  destination = "TDest";
  amount = 5_000_000;
  estimate_provider = some "profeex";
  activation_required = false;
  estimated_trx_burned = none;
  energy = record { provider = none; required = 65_000; available = 65_000; deficit = 0 };
  bandwidth = record { provider = none; required = 345; available = 600; deficit = 0 };
  submit_ready = true;
  blocking_code = none;
  blocking_reason = none;
}

abbrev exhausted_error : Exc
exhausted_error =
    resource_error "Energy provider failed to prepare resources" (some "PROVIDER_FAILED") true false

ensure-acquired :
    ensure_fee_deposit_resources_for_usdt_payout
      (tools acquired)
      "TFee"
      (λ a. true)
      activate
      false
      "TDest"
      5_000_000
      start
    ≡ (ok ensured, finish acquired 65_000)
unfolding ensure_fee_deposit_resources_for_usdt_payout get_available_energy energy_provider_chain
    get_available_bandwidth quote_with
ensure-acquired = refl

ensure-refused :
    ensure_fee_deposit_resources_for_usdt_payout
      (tools (refused none))
      "TFee"
      (λ a. true)
      activate
      false
      "TDest"
      5_000_000
      start
    ≡ (err exhausted_error, finish (refused none) 1_000)
unfolding ensure_fee_deposit_resources_for_usdt_payout get_available_energy energy_provider_chain
    get_available_bandwidth quote_with
ensure-refused = refl

start-NoOrder : NoOrder []
unfolding has_energy_order
start-NoOrder = refl

ensured_resources_example : (true ≡ true) × ((false ≡ false) × ((65_000 ≤ 65_000) × (345 ≤ 600)))
ensured_resources_example =
    ensured_resources (tools acquired) "TFee" (λ a. true) activate false "TDest" 5_000_000 start
      (finish acquired 65_000) ensured start-NoOrder ensure-acquired

retryable_error : is_retryable_pre_broadcast_error exhausted_error ≡ true
unfolding is_retryable_pre_broadcast_error
retryable_error = refl

retry_after_no_order_example : NoOrder (finish (refused none) 1_000).attempts
retry_after_no_order_example =
    retry_after_no_order (tools (refused none)) "TFee" (λ a. true) activate false "TDest" 5_000_000
      start (finish (refused none) 1_000) exhausted_error start-NoOrder ensure-refused
      retryable_error

abbrev cleared : Preflight
cleared = record {
  resource_quote = record ensured {
    energy = record {
      provider = some "profeex";
      required = 65_000;
      available = 1_000;
      deficit = 64_000;
    };
  };
  destination_activation_submit_eligible = false;
}

preflight-cleared :
    run_tron_usdt_preflight_checks
      (tools acquired)
      "TFee"
      (λ a. true)
      activate
      true
      (ok 9_000_000)
      false
      "TDest"
      5_000_000
      start
    ≡ (ok cleared, start)
unfolding run_tron_usdt_preflight_checks get_available_energy energy_provider_chain
    get_available_bandwidth quote_with estimate_fee_deposit_resources_for_usdt_payout
preflight-cleared = refl

run_tron_usdt_preflight_checks-IsCleared_example :
    IsCleared
      (tools acquired)
      "TFee"
      (λ a. true)
      activate
      true
      (ok 9_000_000)
      false
      5_000_000
      cleared
run_tron_usdt_preflight_checks-IsCleared_example =
    run_tron_usdt_preflight_checks-IsCleared (tools acquired) "TFee" (λ a. true) activate true
      (ok 9_000_000) false "TDest" 5_000_000 start start cleared preflight-cleared
