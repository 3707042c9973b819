-- ===== src/Resources/Quotes.antt =====
-- Proofs about the quotes of app/usdt_resource_provisioning.py.
use tron_shkeeper.Base.{
  ℕ, ◌-◌, String, ◌≡◌, refl, ◌≢◌, true, false, Option, none, some, List, [], ◌∷◌, not, arith, ◌=s◌,
  ◌||◌, Bool, if◌then◌else◌,
}
use tron_shkeeper.Payout.Types.{Exc, Result, ok, err, plain_error}
use tron_shkeeper.Payout.Fields.{is_retryable_pre_broadcast_error}
use tron_shkeeper.Resources.Provision.{accept_error}
use tron_shkeeper.Resources.Types.{
  AccountResource, Readiness, Quote, Config, pure, raise, of_result, Failure, FeeEstimate, Attempt,
  Tools, World, ask, get_available_energy, get_available_bandwidth,
}
use tron_shkeeper.Resources.Estimate.{
  Estimate, get_account_resources, estimate_via_refee, estimate_after_profeex, is_fallback_eligible,
  estimate_usdt_transfer_fee_chain, quote_from_resources, quote_with, block_of, estimate_block,
  estimate_usdt_transfer_resources, energy_chain_if, bandwidth_chain_if, refee_estimate,
  read_failed, energy_required, first_of, with_fallback, energy_provider_chain,
  bandwidth_provider_chain, has_deficit, is_known_provider,
}
use tron_shkeeper.Resources.Contracts.{
  Contract, Contract-pure, Contract-raise, Contract-bind, Contract-ask, Contract-if,
  Contract-result,
}

-- A deficit is what is missing, and a ready quote has a provider for it.
pub record IsCovered (q : Quote) (r : Readiness) : Type 0 where
  pub missing : r.deficit ≡ r.required - r.available
  pub provided : q.submit_ready ≡ true → r.deficit ≢ 0 → r.provider ≢ none

pub record IsCoherent (q : Quote) : Type 0 where
  pub energy_covered : IsCovered q q.energy
  pub bandwidth_covered : IsCovered q q.bandwidth
  pub active : q.submit_ready ≡ true → q.activation_required ≡ false

ready-none :
    (block : Option (String × String))
    → (elim block [ none ↦ true | some b ↦ false ]) ≡ true
    → block ≡ none
ready-none none ready = refl
ready-none (some b) ready = ground arith

estimate_block-active :
    (e : Estimate)
    → estimate_block e ≡ none
    → (elim (e.estimate) [ none ↦ false | some fee ↦ fee.is_new_address ]) ≡ false
unfolding estimate_block
estimate_block-active e clear = ground arith

block_of-none :
    (block : Option (String × String)) (energy_deficit bandwidth_deficit : ℕ)
    (energy_providers bandwidth_providers : List String)
    → block_of block energy_deficit bandwidth_deficit energy_providers bandwidth_providers ≡ none
    → (block ≡ none)
      × ((energy_deficit ≢ 0 → first_of energy_providers ≢ none)
          × (bandwidth_deficit ≢ 0 → first_of bandwidth_providers ≢ none))
unfolding block_of
block_of-none block ed bd eps bps clear = ground arith

-- An exception after which the payout is not retried, once a recheck has passed it on.
unfoldable pub IsSettled : Exc → Type 0
IsSettled e = is_retryable_pre_broadcast_error (accept_error e) ≡ false

-- The exception of a result, if it is one, is settled.
unfoldable AllSettled : {A : Type 0} → Result A → Type 0
AllSettled (ok a) = Unit
AllSettled (err e) = IsSettled e

read_failed-IsSettled : IsSettled read_failed
unfolding IsSettled is_retryable_pre_broadcast_error accept_error
read_failed-IsSettled = refl

plain_error-IsSettled : (message : String) → IsSettled (plain_error message)
unfolding IsSettled is_retryable_pre_broadcast_error accept_error
plain_error-IsSettled message = refl

if-AllSettled :
    {A : Type 0} (b : Bool) (x y : Result A)
    → AllSettled x
    → AllSettled y
    → AllSettled (if b then x else y)
if-AllSettled true x y hx hy = hx
if-AllSettled false x y hx hy = hy

with_fallback-AllSettled :
    (fallback primary : String) (is_known : String → Bool) (providers : List String)
    → AllSettled (with_fallback fallback primary is_known providers)
unfolding with_fallback AllSettled
with_fallback-AllSettled fallback primary is_known providers =
    if-AllSettled (fallback =s "disabled" || fallback =s primary) _ _ tt
      (if-AllSettled (is_known fallback) _ _ tt (plain_error-IsSettled _))

energy_chain_if-AllSettled :
    (config : Config) (account : AccountResource) (e : Estimate)
    → AllSettled (energy_chain_if config account e)
unfolding energy_provider_chain AllSettled
energy_chain_if-AllSettled config account e =
    if-AllSettled (has_deficit (energy_required e - get_available_energy account)) _ _
      (with_fallback-AllSettled config.fallback_provider config.energy_provider
        (λ name. is_known_provider name || name =s "staking")
        (if config.energy_provider =s "staking" then [] else config.energy_provider ∷ []))
      tt

bandwidth_chain_if-AllSettled :
    (config : Config) (account : AccountResource) → AllSettled (bandwidth_chain_if config account)
unfolding bandwidth_provider_chain AllSettled
bandwidth_chain_if-AllSettled config account =
    if-AllSettled
      (has_deficit (config.bandwidth_per_trc20_transfer_call - get_available_bandwidth account)) _ _
      (if-AllSettled (config.bandwidth_provider =s "disabled") _ _
        (with_fallback-AllSettled config.fallback_provider "disabled" is_known_provider [])
        (if-AllSettled (is_known_provider config.bandwidth_provider) _ _
          (with_fallback-AllSettled config.fallback_provider config.bandwidth_provider
            is_known_provider (config.bandwidth_provider ∷ []))
          (plain_error-IsSettled _)))
      tt

module _ {W : Type 0} (tools : Tools W) (K : List Attempt → Type 0) where
  abbrev pub Kept : World W → Type 0
  Kept w = K w.attempts

  -- An exception that is settled, where K is kept.
  abbrev pub IsKeptError : Exc → World W → Type 0
  IsKeptError e w = IsSettled e × Kept w

  settled-Contract :
      {A : Type 0} (r : Result A)
      → AllSettled r
      → Contract Kept (of_result r) (λ _. Kept) IsKeptError
  unfolding AllSettled pure raise
  settled-Contract (ok a) settled = Contract-pure a (λ w k. k)
  settled-Contract (err e) settled = Contract-raise e (λ w k. (settled, k))

  pub get_account_resources-Contract :
      (source : String) → Contract Kept (get_account_resources tools source) (λ _. Kept) IsKeptError
  unfolding get_account_resources
  get_account_resources-Contract source =
      Contract-bind {A = Result AccountResource} (ask (tools.get_account_resource source)) _
        (Contract-ask K (tools.get_account_resource source))
        (λ answer.
          Contract-result answer _ _ (λ r. Contract-pure r (λ w k. k))
            (λ e. Contract-raise read_failed (λ w k. (read_failed-IsSettled, k))))

  estimate_via_refee-Contract :
      (source : String) → Contract Kept (estimate_via_refee tools source) (λ _. Kept) IsKeptError
  unfolding estimate_via_refee
  estimate_via_refee-Contract source =
      Contract-bind {A = Option FeeEstimate × Option Failure}
        (ask (tools.estimate_usdt_transfer_fee "refee" source)) _
        (Contract-ask K (tools.estimate_usdt_transfer_fee "refee" source))
        (λ answer. Contract-pure (refee_estimate answer.0) (λ w k. k))

  estimate_after_profeex-Contract :
      (source : String) (o : Option FeeEstimate) (f : Option Failure)
      → Contract Kept (estimate_after_profeex tools source o f) (λ _. Kept) IsKeptError
  unfolding estimate_after_profeex
  estimate_after_profeex-Contract source (some e) f = Contract-pure _ (λ w k. k)
  estimate_after_profeex-Contract source none f =
      Contract-if (not (is_fallback_eligible f)) _ _ (λ _. Contract-pure _ (λ w k. k))
        (λ _.
          Contract-if (tools.config.fallback_provider =s "refee") _ _
            (λ _. estimate_via_refee-Contract source) (λ _. Contract-pure _ (λ w k. k)))

  estimate_usdt_transfer_fee_chain-Contract :
      (source destination : String)
      → Contract Kept
          (estimate_usdt_transfer_fee_chain tools source destination)
          (λ _. Kept)
          IsKeptError
  unfolding estimate_usdt_transfer_fee_chain
  estimate_usdt_transfer_fee_chain-Contract source destination =
      Contract-if (tools.config.energy_provider =s "refee") _ _
        (λ _. estimate_via_refee-Contract source)
        (λ _.
          Contract-bind {A = Option FeeEstimate × Option Failure}
            (ask (tools.estimate_usdt_transfer_fee "profeex" destination)) _
            (Contract-ask K (tools.estimate_usdt_transfer_fee "profeex" destination))
            (λ answer. estimate_after_profeex-Contract source answer.0 answer.1))

  -- A quote is coherent, whatever the chain and the providers answer.
  quote_with-IsCoherent :
      (source destination : String) (amount : ℕ) (account : AccountResource) (e : Estimate)
      (energy_providers bandwidth_providers : List String)
      → IsCoherent (
          quote_with tools source destination amount account e energy_providers bandwidth_providers)
  unfolding quote_with
  quote_with-IsCoherent source destination amount account e energy_providers bandwidth_providers =
      record {
        energy_covered = record { missing = refl; provided = λ ready. (no_block ready).1.0 };
        bandwidth_covered = record { missing = refl; provided = λ ready. (no_block ready).1.1 };
        active = λ ready. estimate_block-active e (no_block ready).0;
      }
    where
      no_block :
          (elim (block_of
              (estimate_block e)
              (energy_required e - get_available_energy account)
              (tools.config.bandwidth_per_trc20_transfer_call - get_available_bandwidth account)
              energy_providers
              bandwidth_providers) [ none ↦ true | some b ↦ false ])
            ≡ true
          → (estimate_block e ≡ none)
            × ((energy_required e - get_available_energy account ≢ 0
                  → first_of energy_providers ≢ none)
                × (tools.config.bandwidth_per_trc20_transfer_call - get_available_bandwidth account
                      ≢ 0
                    → first_of bandwidth_providers ≢ none))
      no_block = λ ready.
          block_of-none (estimate_block e) _ _ energy_providers bandwidth_providers
            (ready-none _ ready)

  quote_from_resources-Contract :
      (source destination : String) (amount : ℕ) (account : AccountResource) (e : Estimate)
      → Contract Kept
          (quote_from_resources tools source destination amount account e)
          (λ q w. IsCoherent q × Kept w)
          IsKeptError
  unfolding quote_from_resources
  quote_from_resources-Contract source destination amount account e =
      Contract-bind _ _
        (settled-Contract (energy_chain_if tools.config account e)
          (energy_chain_if-AllSettled tools.config account e))
        (λ energy_providers.
          Contract-bind _ _
            (settled-Contract (bandwidth_chain_if tools.config account)
              (bandwidth_chain_if-AllSettled tools.config account))
            (λ bandwidth_providers. Contract-pure _ (λ w k. (
              quote_with-IsCoherent source destination amount account e energy_providers
                  bandwidth_providers,
              k,
            ))))

  -- An estimate orders nothing, and the quote that it gives is coherent.
  pub estimate_usdt_transfer_resources-Contract :
      (source destination : String) (amount : ℕ)
      → Contract Kept
          (estimate_usdt_transfer_resources tools source destination amount)
          (λ q w. IsCoherent q × Kept w)
          IsKeptError
  unfolding estimate_usdt_transfer_resources
  estimate_usdt_transfer_resources-Contract source destination amount =
      Contract-bind _ _ (get_account_resources-Contract source) (λ account.
        Contract-bind _ _ (estimate_usdt_transfer_fee_chain-Contract source destination)
          (λ e. quote_from_resources-Contract source destination amount account e))
