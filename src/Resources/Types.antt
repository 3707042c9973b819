-- ===== src/Resources/Types.antt =====
-- The data of app/usdt_resource_provisioning.py, the outside world that it works in, and the effect
-- of its functions: they read and change that world and may raise.
use tron_shkeeper.Base.{ℕ, ◌-◌, max, String, ◌∷◌, Bool, false, Option, some, List}
use tron_shkeeper.Effect.{Effect}
unfoldable pub use tron_shkeeper.Effect.{pure, raise, continue, ◌>>=◌, ◌>>◌, of_result}
use tron_shkeeper.Payout.Types.{ErrorClass, Exc, Result, ok}

-- The answer of `get_account_resource`; an entry that is missing is 0.
pub record AccountResource : Type 0 where
  pub energy_limit : ℕ
  pub energy_used : ℕ
  pub net_limit : ℕ
  pub net_used : ℕ
  pub free_net_limit : ℕ
  pub free_net_used : ℕ

-- `UsdtResourceReadiness`, and `ResourceReadiness` of app/payout_resources.py
pub record Readiness : Type 0 where
  pub provider : Option String
  pub required : ℕ
  pub available : ℕ
  pub deficit : ℕ

-- `UsdtResourceQuote`, and `PayoutResourceQuote` of app/payout_resources.py; amounts are micro-USDT.
pub record Quote : Type 0 where
  pub source_address : String
  pub destination : String
  pub amount : ℕ
  pub estimate_provider : Option String
  pub activation_required : Bool
  pub estimated_trx_burned : Option String
  pub energy : Readiness
  pub bandwidth : Readiness
  pub submit_ready : Bool
  pub blocking_code : Option String
  pub blocking_reason : Option String

-- `last_failure` of a provider: the attributes that are read.
pub record Failure : Type 0 where
  pub code : String
  pub temporary : Bool
  pub fallback_eligible : Bool
  pub order_accepted : Bool

-- The dictionary that an estimate gives.
pub record FeeEstimate : Type 0 where
  pub energy_required : ℕ
  pub is_new_address : Bool
  pub trx_burned : Option String

pub data Resource : Type 0 where
  energy bandwidth : Resource

-- One call of `acquire_energy` or `acquire_bandwidth`: it said that the resources are there, or not
-- and `last_failure` is what it is then, or it raised.
pub data Answer : Type 0 where
  acquired : Answer
  refused : Option Failure → Answer
  raised : Exc → Answer

pub record Attempt : Type 0 where
  pub resource : Resource
  pub provider : String
  pub answer : Answer

-- The entries of app/config.py that are read here.
pub record Config : Type 0 where
  pub energy_provider : String
  pub bandwidth_provider : String
  pub fallback_provider : String
  pub bandwidth_per_trc20_transfer_call : ℕ
  pub recheck_attempts : ℕ
  pub auto_activate_destination : Bool

-- The chain and the providers, as functions of their own state `W`; an estimate of a provider that
-- fails is none.
pub record Tools (W : Type 0) : Type 0 where
  pub config : Config
  pub get_account_resource : String → W → Result AccountResource × W
  pub get_account : String → W → Option Bool × W
  pub acquire_energy : String → String → ℕ → AccountResource → ℕ → W → Answer × W
  pub acquire_bandwidth : String → String → ℕ → W → Answer × W
  -- a provider, the address that it is asked about
  pub estimate_usdt_transfer_fee : String → String → W → (Option FeeEstimate × Option Failure) × W
  pub sleep : W → W
  pub show_amount : ℕ → String

-- The world, and the calls of the providers, the latest first.
pub record World (W : Type 0) : Type 0 where
  pub outside : W
  pub attempts : List Attempt

abbrev pub M : Type 0 → Type 0 → Type 0
M W A = Effect (World W) A

-- `UsdtResourceError(message, code=…, temporary=…, provider_order_accepted=…)`, and the same of
-- `PayoutResourceError`, which no handler of these files tells apart from it
abbrev pub resource_error : String → Option String → Bool → Bool → Exc
resource_error message code temporary accepted = record {
  is_payout = false;
  message = message;
  code = code;
  status_code = 500;
  temporary = some temporary;
  provider_order_accepted = accepted;
  error_class = ErrorClass.usdt_resource;
}

-- A function of the outside world.
unfoldable pub ask : {W : Type 0} {A : Type 0} → (W → A × W) → M W A
ask f w = (ok (f w.outside).0, record w { outside = (f w.outside).1 })

-- A call of a provider, which is noted.
unfoldable pub call_provider : {W : Type 0} → Resource → String → (W → Answer × W) → M W Answer
call_provider resource provider f w =
    let answer = (f w.outside).0 in
    (
      ok answer,
      record {
        outside = (f w.outside).1;
        attempts =
            record { resource = resource; provider = provider; answer = answer } ∷ w.attempts;
      },
    )

-- `get_available_energy` of app/utils.py
unfoldable pub get_available_energy : AccountResource → ℕ
get_available_energy r = r.energy_limit - r.energy_used

-- `get_available_bandwidth`
unfoldable pub get_available_bandwidth : AccountResource → ℕ
get_available_bandwidth r = max (r.net_limit - r.net_used) (r.free_net_limit - r.free_net_used)
