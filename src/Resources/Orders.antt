-- ===== src/Resources/Orders.antt =====
-- Proofs about `ensure_fee_deposit_resources_for_usdt_payout` (app/payout_resources.py).
use tron_shkeeper.Base.{
  ℕ, ◌≤◌, String, ◌≡◌, subst, inl, inr, Bool, true, false, Option, none, not, ◌||◌, arith,
}
use tron_shkeeper.Payout.Types.{Exc, Result, ok, err}
use tron_shkeeper.Payout.Fields.{is_retryable_pre_broadcast_error}
use tron_shkeeper.Resources.Types.{Quote, Readiness, Tools, World, resource_error, ask}
use tron_shkeeper.Resources.Provision.{is_provisioned}
use tron_shkeeper.Resources.Payout.{
  is_some_text, with_activation, payout_quote_error, quote_with_refee_activation_check,
  estimate_fee_deposit_resources_for_usdt_payout, may_activate, activate_destination, prepare,
  ensure_fee_deposit_resources_for_usdt_payout,
}
use tron_shkeeper.Resources.Contracts.{
  After, Contract, Contract-pure, Contract-raise, Contract-elim, Contract-result, Contract-bind,
  Contract-then, Contract-weaken, Contract-ask,
}
use tron_shkeeper.Resources.Quotes.{IsCovered, estimate_usdt_transfer_resources-Contract}
use tron_shkeeper.Resources.Ensured.{
  NoOrder, Unordered, Honest, IsEnsured, ensure_usdt_transfer_resources-Contract,
}

Honest-retry :
    {W : Type 0} (e : Exc) (w : World W)
    → Honest e w
    → is_retryable_pre_broadcast_error e ≡ true
    → Unordered w
Honest-retry e w (inl settled) retryable = absurd (ground (arith, settled, retryable))
Honest-retry e w (inr unordered) retryable = unordered

IsCovered-enough :
    (q : Quote) (r : Readiness) → IsCovered q r → r.deficit ≡ 0 → r.required ≤ r.available
IsCovered-enough q r covered enough = let missing = covered.missing in omega arith

is_provisioned-parts :
    (q : Quote)
    → is_provisioned q ≡ true
    → (q.submit_ready ≡ true) × ((q.energy.deficit ≡ 0) × (q.bandwidth.deficit ≡ 0))
is_provisioned-parts q provisioned = ground arith

module _ {W : Type 0} (tools : Tools W) (fee_deposit_address : String) (is_address : String → Bool)
    (activate : String → Option String → W → Result (Unit {0}) × W) where
  check-Contract :
      (quote : Quote)
      → Contract Unordered
          (quote_with_refee_activation_check tools fee_deposit_address is_address activate quote)
          (λ _. Unordered)
          Honest
  unfolding quote_with_refee_activation_check
  check-Contract quote =
      Contract-elim
        (not (is_some_text quote.estimate_provider "refee") || quote.activation_required) _ _
        (λ _. Contract-pure quote (λ w p. p))
        (λ _.
          Contract-bind (ask (tools.get_account quote.destination)) _
            (Contract-ask NoOrder (tools.get_account quote.destination))
            (λ active. Contract-pure (with_activation quote active) (λ w p. p)))

  estimate-Contract :
      (destination : String) (amount : ℕ)
      → Contract Unordered
          (estimate_fee_deposit_resources_for_usdt_payout tools fee_deposit_address is_address
            activate destination amount)
          (λ _. Unordered)
          Honest
  unfolding estimate_fee_deposit_resources_for_usdt_payout
  estimate-Contract destination amount =
      Contract-elim (is_address destination) _ _
        (λ _.
          Contract-bind _ _
            (Contract-weaken _
              (estimate_usdt_transfer_resources-Contract tools NoOrder fee_deposit_address
                destination amount)
              (λ w p. p) (λ q w (_, p). p) (λ e w p. inr p.1))
            (λ quote. check-Contract quote))
        (λ _. Contract-raise (resource_error "bad address" none false false) (λ w p. inr p))

  prepare-Contract :
      (allow : Bool) (destination : String) (quote : Quote)
      → Contract Unordered
          (prepare tools fee_deposit_address is_address activate allow destination quote)
          (λ _. Unordered)
          Honest
  unfolding prepare activate_destination
  prepare-Contract allow destination quote =
      Contract-elim (may_activate tools fee_deposit_address is_address activate allow quote) _ _
        (λ _.
          Contract-bind (ask (activate destination quote.estimate_provider)) _
            (Contract-ask NoOrder (activate destination quote.estimate_provider))
            (λ answer.
              Contract-result answer _ _ (λ _. Contract-pure tt (λ w p. p))
                (λ e. Contract-raise e (λ w p. inr p))))
        (λ _.
          Contract-elim quote.submit_ready _ _ (λ _. Contract-pure tt (λ w p. p))
            (λ _. Contract-raise (payout_quote_error quote) (λ w p. inr p)))

  ensure_fee_deposit-Contract :
      (allow : Bool) (destination : String) (amount : ℕ)
      → Contract Unordered
          (ensure_fee_deposit_resources_for_usdt_payout tools fee_deposit_address is_address
            activate allow destination amount)
          IsEnsured
          Honest
  unfolding ensure_fee_deposit_resources_for_usdt_payout
  ensure_fee_deposit-Contract allow destination amount =
      Contract-bind _ _ (estimate-Contract destination amount) (λ quote.
        Contract-then _ _ (prepare-Contract allow destination quote)
          (ensure_usdt_transfer_resources-Contract tools quote.source_address destination amount))

  -- Where no energy was acquired before, the quote that is returned is ready, needs no activation,
  -- and needs neither more energy nor more bandwidth than there is.
  pub ensured_resources :
      (allow : Bool) (destination : String) (amount : ℕ) (w w' : World W) (q : Quote)
      → Unordered w
      → ensure_fee_deposit_resources_for_usdt_payout tools fee_deposit_address is_address activate
          allow destination amount w
        ≡ (ok q, w')
      → (q.submit_ready ≡ true)
        × ((q.activation_required ≡ false)
            × ((q.energy.required ≤ q.energy.available)
                × (q.bandwidth.required ≤ q.bandwidth.available)))
  unfolding After
  ensured_resources allow destination amount w w' q unordered run =
      let (provisioned, coherent) : IsEnsured q w' =
        subst (λ r. After IsEnsured Honest r.0 r.1) run
          ((ensure_fee_deposit-Contract allow destination amount).at w unordered) in
      let (ready, (no_energy, no_bandwidth)) = is_provisioned-parts q provisioned in
      (
        ready,
        (
          coherent.active ready,
          (
            IsCovered-enough q q.energy coherent.energy_covered no_energy,
            IsCovered-enough q q.bandwidth coherent.bandwidth_covered no_bandwidth,
          ),
        ),
      )

  -- Where no call of a provider has said before that it acquired energy, an exception after which
  -- the payout may be retried is raised where none has said so.
  pub retry_after_no_order :
      (allow : Bool) (destination : String) (amount : ℕ) (w w' : World W) (e : Exc)
      → Unordered w
      → ensure_fee_deposit_resources_for_usdt_payout tools fee_deposit_address is_address activate
          allow destination amount w
        ≡ (err e, w')
      → is_retryable_pre_broadcast_error e ≡ true
      → Unordered w'
  unfolding After
  retry_after_no_order allow destination amount w w' e unordered run retryable =
      let honest : Honest e w' =
        subst (λ r. After IsEnsured Honest r.0 r.1) run
          ((ensure_fee_deposit-Contract allow destination amount).at w unordered) in
      Honest-retry e w' honest retryable
