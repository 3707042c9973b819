-- ===== src/Resources/Provision.antt =====
-- Providing the resources of a USDT transfer: `ensure_usdt_transfer_resources`, `_provision_bandwidth`
-- and `_provision_energy` (app/usdt_resource_provisioning.py).
use Prim.Native.String.{◌++◌ as ◌<>◌}
use tron_shkeeper.Base.{
  ℕ, zero, suc, ◌-◌, String, Bool, true, false, Option, none, some, List, [], ◌∷◌, ◌&&◌, ◌==◌, leb,
  ◌=s◌, ◌||◌, if◌then◌else◌,
}
use tron_shkeeper.Payout.Types.{ErrorClass, Exc, Result, ok, err}
use tron_shkeeper.Resources.Types.{
  AccountResource, Quote, Failure, energy, bandwidth, acquired, refused, raised, Tools, M,
  resource_error, pure, raise, ◌>>=◌, ◌>>◌, of_result, call_provider, get_available_energy,
  get_available_bandwidth,
}
use tron_shkeeper.Resources.Estimate.{
  energy_provider_chain, bandwidth_provider_chain, is_fallback_eligible, get_account_resources,
  has_deficit, estimate_usdt_transfer_resources,
}

-- `TEMPORARY_RESOURCE_BLOCKING_CODES`
unfoldable pub is_temporary_blocking_code : Option String → Bool
is_temporary_blocking_code none = false
is_temporary_blocking_code (some code) =
    code =s "RESOURCE_ESTIMATE_UNAVAILABLE"
    || code =s "RESOURCE_READ_FAILED"
    || code =s "RESOURCE_RECHECK_FAILED"
    || code =s "PROVIDER_FAILED"

-- What `_raise_provider_failure` raises.
unfoldable pub provider_failure : String → Option Failure → Exc
provider_failure resource_name none =
    resource_error (resource_name <> " provider failed to prepare resources")
      (some "PROVIDER_FAILED") true false
provider_failure resource_name (some f) =
    resource_error (resource_name <> " provider failed to prepare resources: " <> f.code)
      (some f.code) f.temporary f.order_accepted

-- The error after the last provider of a chain.
abbrev pub exhausted : String → Exc
exhausted resource_name =
    resource_error (resource_name <> " provider failed to prepare resources")
      (some "PROVIDER_FAILED") true false

abbrev pub no_provider : String → Exc
no_provider message = resource_error message (some "PROVIDER_UNAVAILABLE") false false

abbrev pub or_default : String → Option String → String
or_default default none = default
or_default default (some s) = elim (s =s "") [ true ↦ default | false ↦ s ]

-- `_error_from_quote`
unfoldable pub error_from_quote : Quote → Exc
unfolding is_temporary_blocking_code
error_from_quote quote =
    resource_error (or_default "TRON USDT transfer resources are not ready" quote.blocking_reason)
      quote.blocking_code (is_temporary_blocking_code quote.blocking_code) false

-- The error after the last estimate that follows the provisioning.
unfoldable pub recheck_error : Quote → Exc
unfolding is_temporary_blocking_code
recheck_error refreshed =
    let code = or_default "RESOURCE_RECHECK_FAILED" refreshed.blocking_code in
    resource_error
      (or_default "TRON USDT transfer resources are still insufficient after provider provisioning"
        refreshed.blocking_reason)
      (some code) (is_temporary_blocking_code (some code)) true

-- `refreshed.submit_ready and refreshed.energy.deficit == 0 and refreshed.bandwidth.deficit == 0`
abbrev pub is_provisioned : Quote → Bool
is_provisioned q = q.submit_ready && q.energy.deficit == 0 && q.bandwidth.deficit == 0

abbrev pub accepted : Exc → Exc
accepted e = record e { provider_order_accepted = true }

abbrev pub if_deficit : {W : Type 0} → ℕ → M W (Unit {0}) → M W (Unit {0})
if_deficit deficit provision = elim (has_deficit deficit) [ true ↦ provision | false ↦ pure tt ]

-- `except UsdtResourceError`
abbrev pub is_usdt_resource : ErrorClass → Bool
is_usdt_resource ErrorClass.usdt_resource = true
is_usdt_resource _ = false

-- What becomes of an exception of a recheck; one of another class passes.
unfoldable pub accept_error : Exc → Exc
accept_error e = if is_usdt_resource e.error_class then accepted e else e

unfoldable pub accept_errors : {A : Type 0} → Result A → Result A
unfolding accept_error
accept_errors (ok a) = ok a
accept_errors (err e) = err (accept_error e)

module _ {W : Type 0} (tools : Tools W) where
  -- The loop of `_provision_bandwidth` over the providers.
  unfoldable pub try_bandwidth : Quote → List String → M W (Unit {0})
  unfolding pure raise ◌>>=◌ call_provider get_account_resources
  try_bandwidth quote [] = raise (exhausted "Bandwidth")
  try_bandwidth quote (name ∷ names) =
      call_provider bandwidth name
        (tools.acquire_bandwidth name quote.source_address quote.bandwidth.required)
      >>= λ answer. elim answer [
        | acquired ↦ pure tt
        | raised e ↦ raise e
        | refused failure ↦ elim (is_fallback_eligible failure) [
          | false ↦ raise (provider_failure "Bandwidth" failure)
          | true ↦ get_account_resources tools quote.source_address >>= λ account.
              elim (leb quote.bandwidth.required (get_available_bandwidth account)) [
                | true ↦ pure tt
                | false ↦ try_bandwidth quote names
              ]
        ]
      ]

  -- `_provision_bandwidth`
  unfoldable pub provision_bandwidth : Quote → M W (Unit {0})
  unfolding try_bandwidth ◌>>=◌
  provision_bandwidth quote = of_result (bandwidth_provider_chain tools.config) >>= λ names.
      elim names [
        | [] ↦ raise (no_provider "No bandwidth provider is configured")
        | n ∷ ns ↦ try_bandwidth quote (n ∷ ns)
      ]

  -- The loop of `_provision_energy`; the account's resources are those read last.
  unfoldable pub try_energy : Quote → List String → AccountResource → M W (Unit {0})
  unfolding pure raise ◌>>=◌ call_provider get_account_resources
  try_energy quote [] account = raise (exhausted "Energy")
  try_energy quote (name ∷ names) account =
      let deficit = quote.energy.required - get_available_energy account in
      elim (deficit == 0) [
        | true ↦ pure tt
        | false ↦
            call_provider energy name
              (tools.acquire_energy name quote.source_address deficit account quote.energy.required)
            >>= λ answer. elim answer [
              | acquired ↦ pure tt
              | raised e ↦ raise e
              | refused failure ↦ elim (is_fallback_eligible failure) [
                | false ↦ raise (provider_failure "Energy" failure)
                | true ↦ get_account_resources tools quote.source_address >>= λ again.
                    elim (leb quote.energy.required (get_available_energy again)) [
                      | true ↦ pure tt
                      | false ↦ try_energy quote names again
                    ]
              ]
            ]
      ]

  -- `_provision_energy`
  unfoldable pub provision_energy : Quote → M W (Unit {0})
  unfolding try_energy ◌>>=◌ get_account_resources
  provision_energy quote = of_result (energy_provider_chain tools.config) >>= λ names. elim names [
    | [] ↦ raise (no_provider "No energy provider is configured")
    | n ∷ ns ↦ get_account_resources tools quote.source_address >>= λ account.
        try_energy quote (n ∷ ns) account
  ]

  -- An estimate; a `UsdtResourceError` says then that an order was accepted.
  unfoldable pub recheck : String → String → ℕ → M W Quote
  unfolding estimate_usdt_transfer_resources accept_errors
  recheck source_address destination amount w =
      let answer = estimate_usdt_transfer_resources tools source_address destination amount w in
      (accept_errors answer.0, answer.1)

  -- `if attempt + 1 < …: time.sleep(…)`, with the number of attempts that are left
  unfoldable pub pause : ℕ → M W (Unit {0})
  pause zero w = (ok tt, w)
  pause (suc n) w = (ok tt, record w { outside = tools.sleep w.outside })

  -- The loop of `ensure_usdt_transfer_resources`: the attempts that are left, the last quote.
  unfoldable pub recheck_until_ready : String → String → ℕ → ℕ → Quote → M W Quote
  unfolding pure raise ◌>>=◌ ◌>>◌ recheck pause
  recheck_until_ready source_address destination amount zero refreshed =
      raise (recheck_error refreshed)
  recheck_until_ready source_address destination amount (suc n) refreshed =
      recheck source_address destination amount >>= λ q. elim (is_provisioned q) [
        | true ↦ pure q
        | false ↦ pause n >> recheck_until_ready source_address destination amount n q
      ]

  -- What follows a quote that is ready.
  unfoldable pub provision : String → String → ℕ → Quote → M W Quote
  unfolding pure ◌>>◌ ◌>>=◌ provision_bandwidth provision_energy recheck_until_ready
  provision source_address destination amount quote =
      if_deficit quote.bandwidth.deficit (provision_bandwidth quote)
      >> (if_deficit quote.energy.deficit (provision_energy quote)
          >> elim (has_deficit quote.bandwidth.deficit || has_deficit quote.energy.deficit) [
            | false ↦ pure quote
            | true ↦
                recheck_until_ready source_address destination amount tools.config.recheck_attempts
                  quote
          ])

  -- `ensure_usdt_transfer_resources`
  unfoldable pub ensure_usdt_transfer_resources : String → String → ℕ → M W Quote
  unfolding raise ◌>>=◌ provision estimate_usdt_transfer_resources
  ensure_usdt_transfer_resources source_address destination amount =
      estimate_usdt_transfer_resources tools source_address destination amount >>= λ quote.
      elim quote.submit_ready [
        | false ↦ raise (error_from_quote quote)
        | true ↦ provision source_address destination amount quote
      ]
