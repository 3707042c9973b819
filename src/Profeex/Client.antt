-- ===== src/Profeex/Client.antt =====
-- The state of a `ProfeeXProvider` (app/resource_providers/profeex.py) and its surroundings: the
-- HTTP API, the node and the clock, which are parameters with a state of their own.
use tron_shkeeper.Base.{
  ℕ, ◌+◌, ◌-◌, String, Bool, false, Option, none, some, List, ◌∷◌, leb, ◌=s◌, ◌||◌,
}
use tron_shkeeper.Payout.Types.{Result, ok}
use tron_shkeeper.Effect.{Effect, modify}
use tron_shkeeper.Resources.Types.{AccountResource}
use tron_shkeeper.Profeex.Failures.{ProviderFailure, classify_profeex_failure, Reply}

-- `config.PROFEEX`, as far as it is read here; times are ticks of the clock.
pub record Settings : Type 0 where
  pub fixed_energy_order_amount : ℕ
  pub fixed_bandwidth_order_amount : ℕ
  pub energy_duration_label : String
  pub bandwidth_duration_label : String
  pub currency : String
  pub timeout : ℕ
  pub poll_interval : ℕ

-- A request that buys something.
pub data Purchase : Type 0 where
  delegation : (path target : String) (volume : ℕ) (days currency : String) → Purchase
  activation : (address currency : String) → Purchase

-- The outside, as functions of its own state.
pub record Outside (W : Type 0) : Type 0 where
  pub settings : Option Settings
  -- PAYOUT_RESOURCE_POST_ACTIVE_RECHECK_ATTEMPTS and …_SLEEP_SEC
  pub recheck_attempts : ℕ
  pub recheck_sleep : ℕ
  -- REQUEST_TIMEOUT_SEC
  pub request_timeout : ℕ
  -- `self.tron_client or ConnectionManager.client()`
  pub tron_client : Result (Unit {0})
  -- `time.monotonic()` and `time.sleep`
  pub now : W → ℕ
  pub sleep : ℕ → W → W
  pub buy : Purchase → W → Reply × W
  -- `/delegation/status/{task_id}`, with the time that it may take
  pub poll : String → ℕ → W → Reply × W
  pub get_account_resource : String → W → Result AccountResource × W

-- The attribute `last_failure`, the outside, and the purchases that were requested with their
-- replies, the latest first.
pub record Provider (W : Type 0) : Type 0 where
  pub last_failure : Option ProviderFailure
  pub outside : W
  pub purchases : List (Purchase × Reply)

abbrev pub P : Type 0 → Type 0 → Type 0
P W A = Effect (Provider W) A

abbrev pub failure_code_is : String → Option ProviderFailure → Bool
failure_code_is code none = false
failure_code_is code (some f) = f.code =s code

module _ {W : Type 0} where
  abbrev pub set_last_failure : Option ProviderFailure → P W (Unit {0})
  set_last_failure f = modify (λ p. record p { last_failure = f })

  -- `_set_failure`
  abbrev pub set_failure : String → Option String → Bool → P W (Unit {0})
  set_failure code task_id order_accepted =
      set_last_failure (some (classify_profeex_failure code task_id order_accepted))

  -- A function of the outside.
  unfoldable pub consult : {A : Type 0} → (W → A × W) → P W A
  consult f p = (ok (f p.outside).0, record p { outside = (f p.outside).1 })

  -- `requests.post`, which is noted.
  unfoldable pub purchase : Outside W → Purchase → P W Reply
  purchase o request p =
      let reply = (o.buy request p.outside).0 in
      (
        ok reply,
        record p {
          outside = (o.buy request p.outside).1;
          purchases = (request, reply) ∷ p.purchases;
        },
      )

  -- The time that is left until a deadline.
  unfoldable pub time_left : Outside W → ℕ → P W ℕ
  time_left o deadline p = (ok (deadline - o.now p.outside), p)

  abbrev pub rest : Outside W → ℕ → P W (Unit {0})
  rest o ticks = modify (λ p. record p { outside = o.sleep ticks p.outside })

-- `has_free_bw` of app/utils.py, with use_only_staked false
abbrev pub has_free_bandwidth : ℕ → AccountResource → Bool
has_free_bandwidth required r =
    leb (required + r.net_used) r.net_limit || leb (required + r.free_net_used) r.free_net_limit
