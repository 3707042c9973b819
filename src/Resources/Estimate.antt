-- ===== src/Resources/Estimate.antt =====
-- The quote of the resources of a USDT transfer (app/usdt_resource_provisioning.py, from the provider
-- chains to `_quote_from_resources`).
use Prim.Native.String.{◌++◌ as ◌<>◌}
use tron_shkeeper.Base.{
  ℕ, ◌-◌, String, Bool, true, false, Option, none, some, List, [], ◌∷◌, ◌++◌, ◌&&◌, ◌||◌, not, ◌==◌,
  ◌=s◌, if◌then◌else◌,
}
use tron_shkeeper.Payout.Types.{Exc, Result, ok, err, plain_error}
use tron_shkeeper.Resources.Types.{
  AccountResource, Quote, Failure, FeeEstimate, Config, Tools, M, resource_error, pure, raise,
  ◌>>=◌, ask, of_result, get_available_energy, get_available_bandwidth,
}

abbrev pub is_known_provider : String → Bool
is_known_provider name = name =s "refee" || name =s "profeex"

-- The fallback, for a primary provider, and its test.
unfoldable pub with_fallback :
    String → String → (String → Bool) → List String → Result (List String)
with_fallback fallback primary is_known providers =
    if fallback =s "disabled" || fallback =s primary
    then ok providers
    else if is_known fallback
    then ok (providers ++ fallback ∷ [])
    else err (plain_error "Unknown provider")

-- `_energy_provider_chain`, the names of the providers
unfoldable pub energy_provider_chain : Config → Result (List String)
unfolding with_fallback
energy_provider_chain config =
    with_fallback config.fallback_provider config.energy_provider
      (λ name. is_known_provider name || name =s "staking")
      (if config.energy_provider =s "staking" then [] else config.energy_provider ∷ [])

-- `_bandwidth_provider_chain`; a primary that the factory does not know raises
unfoldable pub bandwidth_provider_chain : Config → Result (List String)
unfolding with_fallback
bandwidth_provider_chain config =
    if config.bandwidth_provider =s "disabled"
    then with_fallback config.fallback_provider "disabled" is_known_provider []
    else if is_known_provider config.bandwidth_provider
    then with_fallback config.fallback_provider config.bandwidth_provider is_known_provider
        (config.bandwidth_provider ∷ [])
    else err (plain_error "Unknown BANDWIDTH_PROVIDER")

-- `_provider_fallback_eligible`
abbrev pub is_fallback_eligible : Option Failure → Bool
is_fallback_eligible none = true
is_fallback_eligible (some f) = f.fallback_eligible

-- What `estimate_usdt_transfer_fee_chain` returns.
pub record Estimate : Type 0 where
  pub provider : Option String
  pub estimate : Option FeeEstimate
  pub failure : Option Failure

abbrev pub no_estimate : Option Failure → Estimate
no_estimate failure = record { provider = none; estimate = none; failure = failure }

-- Why the estimate blocks a transfer, if it does: code and reason.
unfoldable pub estimate_block : Estimate → Option (String × String)
estimate_block e = elim (e.estimate) [
  | none ↦ elim (e.failure) [
    | none ↦ some ("RESOURCE_ESTIMATE_UNAVAILABLE", "Unable to estimate TRON USDT transfer energy")
    | some f ↦ some (f.code, "Unable to estimate TRON USDT transfer energy: " <> f.code)
  ]
  | some fee ↦ elim (fee.is_new_address) [
    | true ↦ some ("DESTINATION_NOT_ACTIVATED", "TRON USDT destination is not activated")
    | false ↦ none
  ]
]

abbrev pub energy_required : Estimate → ℕ
energy_required e = elim (e.estimate) [ none ↦ 0 | some fee ↦ fee.energy_required ]

abbrev pub has_deficit : ℕ → Bool
has_deficit deficit = not (deficit == 0)

abbrev pub is_empty : List String → Bool
is_empty [] = true
is_empty (x ∷ xs) = false

abbrev pub first_of : List String → Option String
first_of [] = none
first_of (x ∷ xs) = some x

-- The block of the estimate, or that of a deficit for which there is no provider.
unfoldable pub block_of :
    Option (String × String) → ℕ → ℕ → List String → List String → Option (String × String)
block_of (some block) energy_deficit bandwidth_deficit energy_providers bandwidth_providers =
    some block
block_of none energy_deficit bandwidth_deficit energy_providers bandwidth_providers =
    if has_deficit energy_deficit && is_empty energy_providers
    then some ("PROVIDER_UNAVAILABLE", "No energy provider is configured for TRON USDT resources")
    else if has_deficit bandwidth_deficit && is_empty bandwidth_providers
    then some
        ("PROVIDER_UNAVAILABLE", "No bandwidth provider is configured for TRON USDT resources")
    else none

-- What the Refee provider's answer gives.
abbrev pub refee_estimate : Option FeeEstimate → Estimate
refee_estimate none = no_estimate none
refee_estimate (some e) = record { provider = some "refee"; estimate = some e; failure = none }

abbrev pub read_failed : Exc
read_failed =
    resource_error "Unable to read TRON USDT source account resources" (some "RESOURCE_READ_FAILED")
      true false

-- `… if deficit else []`
abbrev pub chain_if : ℕ → Result (List String) → Result (List String)
chain_if deficit chain = if has_deficit deficit then chain else ok []

abbrev pub energy_chain_if : Config → AccountResource → Estimate → Result (List String)
energy_chain_if config account e =
    chain_if (energy_required e - get_available_energy account) (energy_provider_chain config)

abbrev pub bandwidth_chain_if : Config → AccountResource → Result (List String)
bandwidth_chain_if config account =
    chain_if (config.bandwidth_per_trc20_transfer_call - get_available_bandwidth account)
      (bandwidth_provider_chain config)

module _ {W : Type 0} (tools : Tools W) where
  -- `_get_account_resources`
  unfoldable pub get_account_resources : String → M W AccountResource
  unfolding pure raise ask ◌>>=◌
  get_account_resources source_address =
      ask (tools.get_account_resource source_address) >>= λ answer. elim answer [
        | ok resource ↦ pure resource
        | err e ↦ raise read_failed
      ]

  -- The estimate of one provider, and none if it has none.
  unfoldable pub estimate_via_refee : String → M W Estimate
  unfolding pure ask ◌>>=◌
  estimate_via_refee source_address =
      ask (tools.estimate_usdt_transfer_fee "refee" source_address) >>= λ answer.
      pure (refee_estimate answer.0)

  unfoldable pub estimate_after_profeex :
      String → Option FeeEstimate → Option Failure → M W Estimate
  unfolding pure estimate_via_refee
  estimate_after_profeex source_address (some e) failure =
      pure (record { provider = some "profeex"; estimate = some e; failure = none })
  estimate_after_profeex source_address none failure =
      if not (is_fallback_eligible failure)
      then pure (no_estimate failure)
      else if tools.config.fallback_provider =s "refee"
      then estimate_via_refee source_address
      else pure (no_estimate none)

  -- `estimate_usdt_transfer_fee_chain`
  unfoldable pub estimate_usdt_transfer_fee_chain : String → String → M W Estimate
  unfolding estimate_after_profeex ask ◌>>=◌
  estimate_usdt_transfer_fee_chain source_address destination =
      if tools.config.energy_provider =s "refee"
      then estimate_via_refee source_address
      else (ask (tools.estimate_usdt_transfer_fee "profeex" destination) >>= λ answer.
          estimate_after_profeex source_address (answer.0) (answer.1))

  unfoldable pub quote_with :
      String → String → ℕ → AccountResource → Estimate → List String → List String → Quote
  unfolding block_of estimate_block
  quote_with source_address destination amount account e energy_providers bandwidth_providers =
      let required = energy_required e in
      let energy_deficit = required - get_available_energy account in
      let bandwidth_required = tools.config.bandwidth_per_trc20_transfer_call in
      let bandwidth_deficit = bandwidth_required - get_available_bandwidth account in
      let block =
        block_of (estimate_block e) energy_deficit bandwidth_deficit energy_providers
          bandwidth_providers in
      record {
        source_address = source_address;
        destination = destination;
        amount = amount;
        estimate_provider = e.provider;
        activation_required = elim (e.estimate) [ none ↦ false | some fee ↦ fee.is_new_address ];
        estimated_trx_burned = elim (e.estimate) [ none ↦ none | some fee ↦ fee.trx_burned ];
        energy = record {
          provider = first_of energy_providers;
          required = required;
          available = get_available_energy account;
          deficit = energy_deficit;
        };
        bandwidth = record {
          provider = first_of bandwidth_providers;
          required = bandwidth_required;
          available = get_available_bandwidth account;
          deficit = bandwidth_deficit;
        };
        submit_ready = elim block [ none ↦ true | some b ↦ false ];
        blocking_code = elim block [ none ↦ none | some b ↦ some b.0 ];
        blocking_reason = elim block [ none ↦ none | some b ↦ some b.1 ];
      }

  -- `_quote_from_resources`
  unfoldable pub quote_from_resources : String → String → ℕ → AccountResource → Estimate → M W Quote
  unfolding pure ◌>>=◌
  quote_from_resources source_address destination amount account e =
      of_result (energy_chain_if tools.config account e) >>= λ energy_providers.
      of_result (bandwidth_chain_if tools.config account) >>= λ bandwidth_providers.
      pure (
        quote_with source_address destination amount account e energy_providers bandwidth_providers)

  -- `estimate_usdt_transfer_resources`
  unfoldable pub estimate_usdt_transfer_resources : String → String → ℕ → M W Quote
  unfolding get_account_resources estimate_usdt_transfer_fee_chain quote_from_resources ◌>>=◌
  estimate_usdt_transfer_resources source_address destination amount =
      get_account_resources source_address >>= λ account.
      estimate_usdt_transfer_fee_chain source_address destination >>= λ e.
      quote_from_resources source_address destination amount account e
