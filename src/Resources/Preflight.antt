-- ===== src/Resources/Preflight.antt =====
-- `run_tron_usdt_preflight_checks` (app/payout_status.py). Whether the worker is ready, and the
-- balance that reading the wallet gave, are arguments.
use Prim.Native.String.{◌++◌ as ◌<>◌}
use tron_shkeeper.Base.{
  ℕ, ◌≤◌, String, ◌≡◌, refl, subst, ◌⊎◌, inl, inr, Bool, true, false, Option, none, some, ap,
  eq_iff, ◌&&◌, ltb, arith,
}
use tron_shkeeper.Payout.Types.{Exc, Result, ok, err, payout_error}
use tron_shkeeper.Resources.Types.{Quote, Tools, World, M, pure, raise, ◌>>=◌}
use tron_shkeeper.Resources.Provision.{or_default}
use tron_shkeeper.Resources.Payout.{is_some_text, estimate_fee_deposit_resources_for_usdt_payout}
use tron_shkeeper.Resources.Contracts.{
  After, Contract, Contract-pure, Contract-raise, Contract-elim, Contract-bind,
}

-- `PayoutStatusError(message, code=…, status_code=…)`
abbrev status_error : String → String → ℕ → Exc
status_error message code status_code = record (payout_error message code status_code) {
  is_payout = false;
}

-- The dictionary that is returned.
pub record Preflight : Type 0 where
  pub resource_quote : Quote
  pub destination_activation_submit_eligible : Bool

-- An exception of the estimate, as it is raised again.
unfoldable pub unverified : {A : Type 0} → Result A → Result A
unverified (ok a) = ok a
unverified (err e) = err (
    status_error ("Unable to verify TRON USDT payout resources: " <> e.message)
      (or_default "PAYOUT_RESOURCE_UNAVAILABLE" e.code) 503)

module _ {W : Type 0} (tools : Tools W) (fee_deposit_address : String) (is_address : String → Bool)
    (activate : String → Option String → W → Result (Unit {0}) × W) where
  -- A quote that is not ready passes if the destination may be activated later.
  abbrev pub may_submit : Bool → Quote → Bool
  may_submit allow quote =
      allow
      && tools.config.auto_activate_destination
      && is_some_text quote.blocking_code "DESTINATION_NOT_ACTIVATED"

  unfoldable pub judge_quote : Bool → Quote → M W Preflight
  unfolding pure raise
  judge_quote allow quote = elim quote.submit_ready [
    | true ↦
        pure (record { resource_quote = quote; destination_activation_submit_eligible = false })
    | false ↦ elim (may_submit allow quote) [
      | true ↦
          pure (record { resource_quote = quote; destination_activation_submit_eligible = true })
      | false ↦ raise (
          status_error (or_default "TRON USDT payout resources are not ready" quote.blocking_reason)
            (or_default "PAYOUT_RESOURCE_UNAVAILABLE" quote.blocking_code) 503)
    ]
  ]

  unfoldable pub estimate_or_unverified : String → ℕ → M W Quote
  unfolding unverified
  estimate_or_unverified destination amount w =
      let answer =
        estimate_fee_deposit_resources_for_usdt_payout tools fee_deposit_address is_address activate
          destination amount w in
      (unverified answer.0, answer.1)

  -- `run_tron_usdt_preflight_checks`
  unfoldable pub run_tron_usdt_preflight_checks :
      Bool → Result ℕ → Bool → String → ℕ → M W Preflight
  unfolding pure raise ◌>>=◌ judge_quote estimate_or_unverified
  run_tron_usdt_preflight_checks worker_ready balance allow destination amount = elim worker_ready [
    | false ↦
        raise (status_error "TRON USDT payout worker is not ready" "PAYOUT_WORKER_UNAVAILABLE" 503)
    | true ↦ elim balance [
      | ok available ↦ elim (ltb available amount) [
        | true ↦ raise (
            status_error "Fee-deposit wallet does not have enough USDT for payout"
              "INSUFFICIENT_USDT" 409)
        | false ↦ estimate_or_unverified destination amount >>= λ quote. judge_quote allow quote
      ]
      | err e ↦ raise (
          status_error ("Unable to read fee-deposit USDT balance: " <> e.message)
            "PAYOUT_BALANCE_UNAVAILABLE" 503)
    ]
  ]

  -- The destination is not activated, and the payout may activate it.
  pub record IsActivatable (allow : Bool) (p : Preflight) : Type 0 where
    pub allowed : allow ≡ true
    pub configured : tools.config.auto_activate_destination ≡ true
    pub blocked : p.resource_quote.blocking_code ≡ some "DESTINATION_NOT_ACTIVATED"
    pub eligible : p.destination_activation_submit_eligible ≡ true

  is_some_text-same : (o : Option String) (s : String) → is_some_text o s ≡ true → o ≡ some s
  is_some_text-same none s same = absurd (ground (arith, same))
  is_some_text-same (some t) s same = ap some ((eq_iff t s).0 same)

  may_submit-IsActivatable :
      (allow : Bool) (quote : Quote)
      → may_submit allow quote ≡ true
      → IsActivatable allow
          (record { resource_quote = quote; destination_activation_submit_eligible = true })
  may_submit-IsActivatable allow quote may = record {
    allowed = ground (arith, may);
    configured = ground (arith, may);
    blocked = is_some_text-same quote.blocking_code _ (ground (arith, may));
    eligible = refl;
  }

  -- What a result of the checks says.
  pub record IsCleared (worker_ready : Bool) (balance : Result ℕ) (allow : Bool) (amount : ℕ)
      (p : Preflight) : Type 0 where
    pub ready : worker_ready ≡ true
    pub available : ℕ
    pub read : balance ≡ ok available
    pub enough : amount ≤ available
    pub quoted :
        ((p.resource_quote.submit_ready ≡ true)
          × (p.destination_activation_submit_eligible ≡ false))
        ⊎ IsActivatable allow p

  abbrev Nothing : World W → Type 0
  Nothing w = Unit {0}

  estimate-Contract :
      (destination : String) (amount : ℕ)
      → Contract Nothing (estimate_or_unverified destination amount) (λ _. Nothing) (λ _. Nothing)
  unfolding After
  estimate-Contract destination amount = record { at = λ w p. step _ _ }
    where
      step :
          (r : Result Quote) (w : World W)
          → After {S = World W} (λ (q : Quote). Nothing) (λ _. Nothing) r w
      step (ok q) w = tt
      step (err e) w = tt

  judge-Contract :
      (worker_ready : Bool) (available : ℕ) (allow : Bool) (amount : ℕ) (quote : Quote)
      → worker_ready ≡ true
      → amount ≤ available
      → Contract Nothing
          (judge_quote allow quote)
          (λ p w. IsCleared worker_ready (ok available) allow amount p)
          (λ _. Nothing)
  unfolding judge_quote
  judge-Contract worker_ready available allow amount quote ready enough =
      Contract-elim quote.submit_ready _ _
        (λ submit. Contract-pure _ (λ w p. record {
          ready = ready;
          available = available;
          read = refl;
          enough = enough;
          quoted = inl (submit, refl);
        }))
        (λ _.
          Contract-elim (may_submit allow quote) _ _
            (λ may. Contract-pure _ (λ w p. record {
              ready = ready;
              available = available;
              read = refl;
              enough = enough;
              quoted = inr (may_submit-IsActivatable allow quote may);
            }))
            (λ _. Contract-raise _ (λ w p. tt)))

  run-Contract :
      (worker_ready : Bool) (balance : Result ℕ) (allow : Bool) (destination : String) (amount : ℕ)
      → Contract Nothing
          (run_tron_usdt_preflight_checks worker_ready balance allow destination amount)
          (λ p w. IsCleared worker_ready balance allow amount p)
          (λ _. Nothing)
  unfolding run_tron_usdt_preflight_checks
  run-Contract false balance allow destination amount = Contract-raise _ (λ w p. tt)
  run-Contract true (err e) allow destination amount = Contract-raise _ (λ w p. tt)
  run-Contract true (ok available) allow destination amount =
      Contract-elim (ltb available amount) _ _ (λ _. Contract-raise _ (λ w p. tt))
        (λ enough.
          Contract-bind _ _ (estimate-Contract destination amount) (λ quote.
            judge-Contract true available allow amount quote refl (ground (arith, enough))))

  -- The checks before a payout is accepted give a result only if the worker is ready, the wallet's
  -- balance was read and is at least the amount, and either the quote is ready, or it is blocked since
  -- the destination is not activated, the caller allows an activation and the configuration makes it;
  -- the result says that the destination may be activated in the second case only.
  pub run_tron_usdt_preflight_checks-IsCleared :
      (worker_ready : Bool) (balance : Result ℕ) (allow : Bool) (destination : String) (amount : ℕ)
      (w w' : World W) (p : Preflight)
      → run_tron_usdt_preflight_checks worker_ready balance allow destination amount w ≡ (ok p, w')
      → IsCleared worker_ready balance allow amount p
  unfolding After
  run_tron_usdt_preflight_checks-IsCleared worker_ready balance allow destination amount w w' p
        run =
      subst
        (λ r.
          After {S = World W} (λ p w. IsCleared worker_ready balance allow amount p) (λ _. Nothing)
            r.0 r.1)
        run ((run-Contract worker_ready balance allow destination amount).at w tt)
