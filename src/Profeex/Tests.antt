-- ===== src/Profeex/Tests.antt =====
-- A ProfeeX whose orders are active after two polls, and the theorems at it
-- (app/resource_providers/profeex.py).
use tron_shkeeper.Base.{
  ℕ, ◌+◌, ◌≡◌, refl, String, true, false, none, some, [], leb, arith, if◌then◌else◌,
}
use tron_shkeeper.Payout.Types.{ok}
use tron_shkeeper.Effect.Contracts.{After}
use tron_shkeeper.Resources.Types.{AccountResource}
use tron_shkeeper.Profeex.Failures.{missing, text, Body, Reply, response}
use tron_shkeeper.Profeex.Client.{Settings, activation, Outside, Provider}
use tron_shkeeper.Profeex.Orders.{order_statuses, unhashable_status, wait_for_status}
use tron_shkeeper.Profeex.Acquire.{acquire_energy, acquire_bandwidth}
use tron_shkeeper.Profeex.Waits.{IsClocked, IsEnd, wait_for_status-ends}
use tron_shkeeper.Profeex.Honest.{IsHonest}
use tron_shkeeper.Profeex.Readings.{HasBandwidth}
use tron_shkeeper.Profeex.Answers.{
  IsRaised, HasOrderedEnergy, acquire_energy-IsHonest, acquire_bandwidth-IsHonest,
}
use tron_shkeeper.Profeex.Activate.{Activation, activate_address, IsTold, activate_address-IsTold}

abbrev settings : Settings
settings = record {
  fixed_energy_order_amount = 65_000;
  fixed_bandwidth_order_amount = 400;
  energy_duration_label = "1h";
  bandwidth_duration_label = "1h";
  currency = "TRX";
  timeout = 10;
  poll_interval = 1;
}

abbrev order : String → Body
order status = record {
  task_id = text "task";
  status = text status;
  error_code = missing;
  detail_error_code = missing;
}

abbrev reply : ℕ → String → Reply
reply status_code status =
    response (record { status_code = status_code; body = some (order status) })

-- The energy that comes once the order is active.
abbrev account : ℕ → AccountResource
account w = record {
  energy_limit = if leb 3 w then 70_000 else 100;
  energy_used = 0;
  net_limit = if leb 3 w then 400 else 0;
  net_used = 0;
  free_net_limit = 0;
  free_net_used = 0;
}

-- The state of the outside is the clock.
abbrev outside_with : String → Outside ℕ
outside_with last_status = record {
  settings = some settings;
  recheck_attempts = 3;
  recheck_sleep = 1;
  request_timeout = 10;
  tron_client = ok tt;
  now = λ w. w;
  sleep = λ ticks w. w + ticks;
  buy = λ request w. (reply 202 "QUEUED", w + 1);
  poll = λ task_id timeout w. (reply 200 (if leb 2 w then last_status else "PENDING"), w + 1);
  get_account_resource = λ receiver w. (ok (account w), w);
}

abbrev provider : Provider ℕ
provider = record { last_failure = none; outside = 0; purchases = [] }

clocked : (last_status : String) → IsClocked (outside_with last_status)
clocked last_status = record {
  poll_takes_time = λ task_id timeout w. omega arith;
  sleep_forward = λ ticks w. omega arith;
}

acquire-active : (acquire_energy (outside_with "ACTIVE") "TFee" 65_000 none provider).0 ≡ ok true
unfolding acquire_energy
acquire-active = refl

acquire-failed : (acquire_energy (outside_with "FAILED") "TFee" 65_000 none provider).0 ≡ ok false
unfolding acquire_energy
acquire-failed = refl

acquire_energy-IsHonest_example :
    After
      (IsHonest
        (outside_with "FAILED")
        (HasOrderedEnergy (outside_with "FAILED") "TFee" (some 60_000) (some settings)))
      (IsRaised (outside_with "FAILED") "TFee")
      (acquire_energy (outside_with "FAILED") "TFee" 65_000 (some 60_000) provider).0
      (acquire_energy (outside_with "FAILED") "TFee" 65_000 (some 60_000) provider).1
acquire_energy-IsHonest_example =
    acquire_energy-IsHonest (outside_with "FAILED") "TFee" (clocked "FAILED") 65_000 (some 60_000)
      provider refl

acquire_bandwidth-IsHonest_example :
    After
      (IsHonest (outside_with "ACTIVE") (HasBandwidth (outside_with "ACTIVE") "TFee" 345))
      (IsRaised (outside_with "ACTIVE") "TFee")
      (acquire_bandwidth (outside_with "ACTIVE") "TFee" 345 provider).0
      (acquire_bandwidth (outside_with "ACTIVE") "TFee" 345 provider).1
acquire_bandwidth-IsHonest_example =
    acquire_bandwidth-IsHonest (outside_with "ACTIVE") "TFee" (clocked "ACTIVE") 345 provider refl

wait_for_status-ends_example :
    After
      (λ w _. IsEnd order_statuses w)
      (λ e _. e ≡ unhashable_status)
      (wait_for_status
        (outside_with "PENDING")
        settings
        order_statuses
        "task"
        (order "QUEUED")
        provider).0
      (wait_for_status
        (outside_with "PENDING")
        settings
        order_statuses
        "task"
        (order "QUEUED")
        provider).1
wait_for_status-ends_example =
    wait_for_status-ends (outside_with "PENDING") (clocked "PENDING") settings order_statuses "task"
      (order "QUEUED") provider

activate_address-IsTold_example :
    (a : Activation) × (((activate_address (outside_with "ACTIVE") "TDest" provider).0 ≡ ok a)
      × IsTold ((outside_with "ACTIVE").buy (activation "TDest" "TRX") 0).0 a)
activate_address-IsTold_example =
    activate_address-IsTold (outside_with "ACTIVE") "TDest" settings provider refl
