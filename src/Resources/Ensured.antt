-- ===== src/Resources/Ensured.antt =====
-- Proofs about `ensure_usdt_transfer_resources` (app/usdt_resource_provisioning.py).
use tron_shkeeper.Base.{
  ℕ, zero, suc, ◌-◌, String, ◌≡◌, refl, ◌⊎◌, inl, inr, Bool, true, false, List, [], ◌∷◌, ◌&&◌, ◌||◌,
  ◌==◌, leb, arith,
}
use tron_shkeeper.Payout.Types.{Exc, Result, ok, err}
use tron_shkeeper.Payout.Fields.{is_retryable_pre_broadcast_error}
use tron_shkeeper.Resources.Types.{
  AccountResource, Quote, Resource, energy, bandwidth, Answer, acquired, refused, raised, Attempt,
  Tools, World, M, call_provider, get_available_energy, get_available_bandwidth,
}
use tron_shkeeper.Resources.Estimate.{
  energy_provider_chain, bandwidth_provider_chain, is_fallback_eligible, get_account_resources,
  has_deficit, estimate_usdt_transfer_resources,
}
use tron_shkeeper.Resources.Provision.{
  provider_failure, exhausted, no_provider, error_from_quote, recheck_error, is_provisioned,
  accept_errors, try_bandwidth, provision_bandwidth, try_energy, provision_energy, recheck,
  recheck_until_ready, pause, if_deficit, provision, ensure_usdt_transfer_resources,
}
use tron_shkeeper.Resources.Contracts.{
  After, Contract, Contract-pure, Contract-raise, Contract-elim, Contract-answer, Contract-list,
  Contract-bind, Contract-then, Contract-weaken, Contract-of_result,
}
use tron_shkeeper.Resources.Quotes.{
  IsCoherent, IsSettled, get_account_resources-Contract, estimate_usdt_transfer_resources-Contract,
}

abbrev pub is_energy : Resource → Bool
is_energy energy = true
is_energy bandwidth = false

abbrev pub is_acquired : Answer → Bool
is_acquired acquired = true
is_acquired (refused f) = false
is_acquired (raised e) = false

-- Whether energy was acquired by one of the calls.
unfoldable pub has_energy_order : List Attempt → Bool
has_energy_order [] = false
has_energy_order (a ∷ as') = is_energy a.resource && is_acquired a.answer || has_energy_order as'

abbrev pub NoOrder : List Attempt → Type 0
NoOrder attempts = has_energy_order attempts ≡ false

module _ {W : Type 0} where
  abbrev pub Unordered : World W → Type 0
  Unordered w = NoOrder w.attempts

  abbrev pub Any : World W → Type 0
  Any w = Unit {0}

  -- The payout is not retried after the exception, or no call said that it acquired energy.
  abbrev pub Honest : Exc → World W → Type 0
  Honest e w = (is_retryable_pre_broadcast_error e ≡ false) ⊎ Unordered w

  -- What is said of the quote in the end.
  abbrev pub IsEnsured : Quote → World W → Type 0
  IsEnsured q w = (is_provisioned q ≡ true) × IsCoherent q

  bandwidth_call-Contract :
      (name : String) (f : W → Answer × W)
      → Contract Unordered (call_provider bandwidth name f) (λ _. Unordered) Honest
  unfolding call_provider has_energy_order After
  bandwidth_call-Contract name f = record { at = λ w p. p }

  Refused : Answer → World W → Type 0
  Refused acquired w = Unit {0}
  Refused (refused f) w = Unordered w
  Refused (raised e) w = Unordered w

  energy_call-Contract :
      (name : String) (f : W → Answer × W)
      → Contract Unordered (call_provider energy name f) Refused Honest
  unfolding call_provider has_energy_order After Refused
  energy_call-Contract name f = record {
    at = λ w p.
        elim (f w.outside).0
          as (λ a. Refused a record {
            outside = (f w.outside).1;
            attempts = record { resource = energy; provider = name; answer = a } ∷ w.attempts;
          }) [ acquired ↦ tt | refused r ↦ p | raised e ↦ p ];
  }

  module _ (tools : Tools W) where
    account_Honest :
        (source : String)
        → Contract Unordered (get_account_resources tools source) (λ _. Unordered) Honest
    account_Honest source =
        Contract-weaken _ (get_account_resources-Contract tools NoOrder source) (λ w p. p)
          (λ a w p. p) (λ e w p. inr p.1)

    try_bandwidth-Contract :
        (quote : Quote) (names : List String)
        → Contract Unordered (try_bandwidth tools quote names) (λ _. Unordered) Honest
    unfolding try_bandwidth
    try_bandwidth-Contract quote [] = Contract-raise (exhausted "Bandwidth") (λ w p. inr p)
    try_bandwidth-Contract quote (name ∷ names) =
        Contract-bind _ _
          (bandwidth_call-Contract name
            (tools.acquire_bandwidth name quote.source_address quote.bandwidth.required))
          (λ answer.
            Contract-answer (λ _. Unordered) answer _ _ (λ e w p. inr p)
              (Contract-pure tt (λ w p. p))
              (λ failure.
                Contract-elim (is_fallback_eligible failure) _ _
                  (λ _. Contract-bind _ _ (account_Honest quote.source_address) (λ account.
                    Contract-elim (leb quote.bandwidth.required (get_available_bandwidth account)) _
                      _ (λ _. Contract-pure tt (λ w p. p))
                      (λ _. try_bandwidth-Contract quote names)))
                  (λ _. Contract-raise (provider_failure "Bandwidth" failure) (λ w p. inr p))))

    provision_bandwidth-Contract :
        (quote : Quote)
        → Contract Unordered (provision_bandwidth tools quote) (λ _. Unordered) Honest
    unfolding provision_bandwidth
    provision_bandwidth-Contract quote =
        Contract-bind _ _
          (Contract-of_result (bandwidth_provider_chain tools.config) (λ e w p. inr p))
          (λ names.
            Contract-list names _ _
              (Contract-raise (no_provider "No bandwidth provider is configured") (λ w p. inr p))
              (λ n ns. try_bandwidth-Contract quote (n ∷ ns)))

    try_energy-Contract :
        (quote : Quote) (names : List String) (account : AccountResource)
        → Contract Unordered (try_energy tools quote names account) (λ _. Any) Honest
    unfolding try_energy Refused
    try_energy-Contract quote [] account = Contract-raise (exhausted "Energy") (λ w p. inr p)
    try_energy-Contract quote (name ∷ names) account =
        let deficit = quote.energy.required - get_available_energy account in
        Contract-elim (deficit == 0) _ _ (λ _. Contract-pure tt (λ w p. tt))
          (λ _.
            Contract-bind _ _
              (energy_call-Contract name (
                tools.acquire_energy name quote.source_address deficit account
                  quote.energy.required))
              (λ answer.
                Contract-answer Refused answer _ _ (λ e w p. inr p) (Contract-pure tt (λ w p. tt))
                  (λ failure.
                    Contract-elim (is_fallback_eligible failure) _ _
                      (λ _. Contract-bind _ _ (account_Honest quote.source_address) (λ again.
                        Contract-elim (leb quote.energy.required (get_available_energy again)) _ _
                          (λ _. Contract-pure tt (λ w p. tt))
                          (λ _. try_energy-Contract quote names again)))
                      (λ _. Contract-raise (provider_failure "Energy" failure) (λ w p. inr p)))))

    provision_energy-Contract :
        (quote : Quote) → Contract Unordered (provision_energy tools quote) (λ _. Any) Honest
    unfolding provision_energy
    provision_energy-Contract quote =
        Contract-bind _ _ (Contract-of_result (energy_provider_chain tools.config) (λ e w p. inr p))
          (λ names.
            Contract-list names _ _
              (Contract-raise (no_provider "No energy provider is configured") (λ w p. inr p))
              (λ n ns.
                Contract-bind _ _ (account_Honest quote.source_address)
                  (λ account. try_energy-Contract quote (n ∷ ns) account)))

    recheck-Contract :
        (source destination : String) (amount : ℕ)
        → Contract Any (recheck tools source destination amount) (λ q w. IsCoherent q) Honest
    unfolding recheck After accept_errors IsSettled
    recheck-Contract source destination amount = record {
      at = λ w p. step (estimate_usdt_transfer_resources tools source destination amount w).0 _ (
          (estimate_usdt_transfer_resources-Contract tools (λ _. Unit {0}) source destination
              amount).at
            w tt);
    }
      where
        step :
            (r : Result Quote) (w : World W)
            → After (λ q w. IsCoherent q × Unit {0}) (λ e w. IsSettled e × Unit {0}) r w
            → After (λ q w. IsCoherent q) Honest (accept_errors r) w
        step (ok q) w (coherent, _) = coherent
        step (err e) w (settled, _) = inl settled

    pause-Contract : {P : World W → Type 0} (n : ℕ) → Contract P (pause tools n) (λ _. Any) Honest
    unfolding pause After
    pause-Contract zero = record { at = λ w p. tt }
    pause-Contract (suc n) = record { at = λ w p. tt }

    recheck_until_ready-Contract :
        (source destination : String) (amount n : ℕ) (quote : Quote)
        → Contract Any
            (recheck_until_ready tools source destination amount n quote)
            IsEnsured
            Honest
    unfolding recheck_until_ready recheck_error is_retryable_pre_broadcast_error
    recheck_until_ready-Contract source destination amount zero quote =
        Contract-raise (recheck_error quote) (λ w p. inl refl)
    recheck_until_ready-Contract source destination amount (suc n) quote =
        Contract-bind _ _ (recheck-Contract source destination amount) (λ q.
          Contract-elim (is_provisioned q) _ _ (λ ready. Contract-pure q (λ w p. (ready, p)))
            (λ _.
              Contract-then (pause tools n) _ (pause-Contract n)
                (recheck_until_ready-Contract source destination amount n q)))

    if_deficit-Contract :
        {P Q : World W → Type 0} (deficit : ℕ) (m : M W (Unit {0}))
        → Contract P m (λ _. Q) Honest
        → ((w : World W) → P w → Q w)
        → Contract P (if_deficit deficit m) (λ _. Q) Honest
    if_deficit-Contract deficit m h keep =
        Contract-elim (has_deficit deficit) _ _ (λ _. h) (λ _. Contract-pure tt keep)

    provision-Contract :
        (source destination : String) (amount : ℕ) (quote : Quote)
        → IsCoherent quote
        → quote.submit_ready ≡ true
        → Contract Unordered (provision tools source destination amount quote) IsEnsured Honest
    unfolding provision
    provision-Contract source destination amount quote coherent ready =
        Contract-then _ _
          (if_deficit-Contract quote.bandwidth.deficit (provision_bandwidth tools quote)
            (provision_bandwidth-Contract quote) (λ w p. p))
          (Contract-then _ _
            (if_deficit-Contract quote.energy.deficit (provision_energy tools quote)
              (provision_energy-Contract quote) (λ w p. tt))
            (Contract-elim (has_deficit quote.bandwidth.deficit || has_deficit quote.energy.deficit)
              _ _ (λ _. recheck_until_ready-Contract source destination amount _ quote)
              (λ enough. Contract-pure quote (λ w p. (ground (arith, enough, ready), coherent)))))

    -- Called before any energy was acquired, `ensure_usdt_transfer_resources` either returns a
    -- coherent quote that is ready and lacks neither energy nor bandwidth, or raises an exception
    -- after which the payout is not retried, or raises one and no call of a provider has said that it
    -- acquired energy.
    pub ensure_usdt_transfer_resources-Contract :
        (source destination : String) (amount : ℕ)
        → Contract Unordered
            (ensure_usdt_transfer_resources tools source destination amount)
            IsEnsured
            Honest
    unfolding ensure_usdt_transfer_resources
    ensure_usdt_transfer_resources-Contract source destination amount =
        Contract-bind _ _
          (Contract-weaken _
            (estimate_usdt_transfer_resources-Contract tools NoOrder source destination amount)
            (λ w p. p) (λ q w p. p) (λ e w p. inr p.1))
          (λ quote.
            Contract-elim quote.submit_ready _ _
              (λ ready. record {
                at = λ w (coherent, p).
                    (provision-Contract source destination amount quote coherent ready).at w p;
              })
              (λ _. Contract-raise (error_from_quote quote) (λ w (_, p). inr p)))
