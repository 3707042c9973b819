-- ===== src/Profeex/Acquire.antt =====
-- `acquire_energy` and `acquire_bandwidth` of ProfeeX (app/resource_providers/profeex.py): whether the
-- resource is there, the order for it, and the checks of the node after it.
use tron_shkeeper.Base.{
  ℕ, zero, suc, ◌-◌, max, String, Bool, true, false, Option, none, some, ◌==◌, leb, ltb,
  if◌then◌else◌,
}
use tron_shkeeper.Payout.Types.{Result, ok, err, plain_error}
use tron_shkeeper.Effect.{pure, raise, ◌>>=◌, ◌>>◌, modify, gets, of_result}
use tron_shkeeper.Resources.Types.{AccountResource, get_available_energy}
use tron_shkeeper.Profeex.Failures.{Body}
use tron_shkeeper.Profeex.Client.{
  Settings, Outside, P, set_last_failure, set_failure, failure_code_is, consult, rest,
  has_free_bandwidth,
}
use tron_shkeeper.Profeex.Orders.{
  order_statuses, Waited, settled, broken, out_of_fuel, create_order, extract_task_id, with_status,
  wait_for_status,
}

-- `FIXED_ENERGY_ORDER_TOLERANCE`
abbrev pub fixed_energy_order_tolerance : ℕ
fixed_energy_order_tolerance = 500

-- What energy there must be; the minimum is none where it is not strict.
unfoldable pub energy_threshold : Settings → Option ℕ → ℕ
energy_threshold settings none = settings.fixed_energy_order_amount - fixed_energy_order_tolerance
energy_threshold settings (some minimum) =
    max (settings.fixed_energy_order_amount - fixed_energy_order_tolerance) minimum

module _ {W : Type 0} (o : Outside W) (receiver : String) where
  -- What a read of the account gives, by a function of it; an exception is noted.
  unfoldable pub note_read :
      {A : Type 0} → (AccountResource → A) → Result AccountResource → P W (Option A)
  unfolding pure modify ◌>>◌
  note_read f (ok r) = pure (some (f r))
  note_read f (err e) = set_failure "RESOURCE_READ_FAILED" none false >> pure none

  -- `_get_available_energy`
  unfoldable pub read_energy : P W (Option ℕ)
  unfolding ◌>>=◌ consult note_read get_available_energy
  read_energy = consult (o.get_account_resource receiver) >>= note_read get_available_energy

  -- The same for `has_free_bw` in `_wait_for_bandwidth_available`
  unfoldable pub read_bandwidth : ℕ → P W (Option Bool)
  unfolding ◌>>=◌ consult note_read
  read_bandwidth required =
      consult (o.get_account_resource receiver) >>= note_read (has_free_bandwidth required)

  -- `_sleep_before_next_resource_check`, with the attempts that are left
  unfoldable pub rest_before_next : ℕ → P W (Unit {0})
  unfolding pure modify
  rest_before_next left = if left == 0 then pure tt else rest o o.recheck_sleep

  abbrev pub reaches : ℕ → Option ℕ → Bool
  reaches threshold none = false
  reaches threshold (some available) = leb threshold available

  abbrev pub is_free : Option Bool → Bool
  is_free none = false
  is_free (some b) = b

  -- `_wait_for_energy_available`, by the attempts that are left
  unfoldable pub wait_for_energy : ℕ → ℕ → P W Bool
  unfolding pure ◌>>=◌ read_energy rest_before_next
  wait_for_energy threshold zero = pure false
  wait_for_energy threshold (suc left) = read_energy >>= λ available.
      if reaches threshold available
      then pure true
      else (rest_before_next left >>= λ _. wait_for_energy threshold left)

  -- `_wait_for_bandwidth_available`
  unfoldable pub wait_for_bandwidth : ℕ → ℕ → P W Bool
  unfolding pure ◌>>=◌ read_bandwidth rest_before_next
  wait_for_bandwidth required zero = pure false
  wait_for_bandwidth required (suc left) = read_bandwidth required >>= λ available.
      if is_free available
      then pure true
      else (rest_before_next left >>= λ _. wait_for_bandwidth required left)

  -- `_post_active_recheck_attempts`
  abbrev pub attempts : ℕ
  attempts = max o.recheck_attempts 1

  -- Whether the resource came after an order was active; what failed is set then.
  unfoldable pub after_recheck : String → Bool → P W Bool
  unfolding pure modify gets ◌>>=◌ ◌>>◌
  after_recheck task_id true = set_last_failure none >> pure true
  after_recheck task_id false =
      gets (λ p. failure_code_is "RESOURCE_READ_FAILED" p.last_failure) >>= λ unread.
      (if unread
        then set_failure "RESOURCE_READ_FAILED" (some task_id) true
        else set_failure "RESOURCE_RECHECK_FAILED" (some task_id) true)
      >> pure false

  -- `_wait_until_active`; a wait without fuel is an exception that the program does not have.
  unfoldable pub judge_wait : P W Bool → Waited → P W Bool
  unfolding pure raise modify ◌>>◌
  judge_wait m (settled order) = m
  judge_wait m (broken failure) = set_last_failure (some failure) >> pure false
  judge_wait m out_of_fuel = raise (plain_error "out of fuel")

  unfoldable pub follow_order : Settings → P W Bool → Body → Option String → P W Bool
  unfolding pure ◌>>=◌ wait_for_status judge_wait after_recheck
  follow_order settings recheck order none = pure false
  follow_order settings recheck order (some task_id) =
      wait_for_status o settings order_statuses task_id (with_status order)
      >>= judge_wait (recheck >>= after_recheck task_id)

  -- From the order on: whether the resource was bought, and is there.
  unfoldable pub buy_resource : Settings → ℕ → String → String → P W Bool → P W Bool
  unfolding pure ◌>>=◌ create_order extract_task_id follow_order
  buy_resource settings amount path duration_label recheck =
      create_order o settings receiver amount path duration_label >>= λ created. elim created [
        | none ↦ pure false
        | some order ↦ extract_task_id order >>= follow_order settings recheck order
      ]

  -- `acquire_energy`, where the client is there
  unfoldable pub acquire_energy_with : Settings → ℕ → ℕ → P W Bool
  unfolding pure ◌>>=◌ read_energy wait_for_energy buy_resource
  acquire_energy_with settings energy_to_provision threshold = read_energy >>= λ available.
      elim available [
        | none ↦ pure false
        | some energy ↦
            if leb threshold energy
            then pure true
            else buy_resource settings (max settings.fixed_energy_order_amount energy_to_provision)
                "/delegation/buyenergy" settings.energy_duration_label
                (wait_for_energy threshold attempts)
      ]

  abbrev no_settings : P W Bool
  no_settings = set_failure "CONFIGURATION_ERROR" none false >> pure false

  -- `acquire_energy`; the minimum is some where it is strict.
  unfoldable pub acquire_energy : ℕ → Option ℕ → P W Bool
  unfolding pure modify ◌>>=◌ ◌>>◌ energy_threshold acquire_energy_with
  acquire_energy energy_to_provision minimum = set_last_failure none >>= λ _. elim (o.settings) [
    | none ↦ no_settings
    | some settings ↦ of_result o.tron_client >>= λ _.
        acquire_energy_with settings energy_to_provision (energy_threshold settings minimum)
  ]

  -- `acquire_bandwidth`, where the account's resources were read
  unfoldable pub acquire_bandwidth_with : Settings → ℕ → AccountResource → P W Bool
  unfolding pure modify ◌>>◌ wait_for_bandwidth buy_resource
  acquire_bandwidth_with settings required account =
      if has_free_bandwidth required account
      then pure true
      else if ltb settings.fixed_bandwidth_order_amount required
      then (set_failure "FIXED_BANDWIDTH_BELOW_REQUIRED" none false >> pure false)
      else buy_resource settings settings.fixed_bandwidth_order_amount "/delegation/buybandwidth"
          settings.bandwidth_duration_label (wait_for_bandwidth required attempts)

  -- `acquire_bandwidth`
  unfoldable pub acquire_bandwidth : ℕ → P W Bool
  unfolding pure modify ◌>>=◌ ◌>>◌ consult acquire_bandwidth_with
  acquire_bandwidth required = set_last_failure none >>= λ _. elim (o.settings) [
    | none ↦ no_settings
    | some settings ↦ of_result o.tron_client >>= λ _.
        consult (o.get_account_resource receiver) >>= λ account.
        of_result account >>= acquire_bandwidth_with settings required
  ]
