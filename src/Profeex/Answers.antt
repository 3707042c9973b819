-- ===== src/Profeex/Answers.antt =====
-- Proofs about `acquire_energy` and `acquire_bandwidth` of ProfeeX (app/resource_providers/profeex.py).
use tron_shkeeper.Base.{
  ℕ, ◌≡◌, refl, ◌≤◌, ◌+◌, ◌⊎◌, inl, inr, ◌∷◌, length, max, String, true, false, Option, none, some,
  [], leb, ltb, arith, if◌then◌else◌,
}
use tron_shkeeper.Payout.Types.{Exc, Result, ok, err}
use tron_shkeeper.Effect.{pure, continue, ◌>>=◌, ◌>>◌, of_result}
use tron_shkeeper.Effect.Contracts.{
  After, Contract, Contract-pure, Contract-if, Contract-option, Contract-bind, Contract-then,
  Contract-modify, Contract-weaken, Contract-of_result,
}
use tron_shkeeper.Resources.Types.{AccountResource, get_available_energy}
use tron_shkeeper.Profeex.Failures.{ProviderFailure, Reply}
use tron_shkeeper.Profeex.Orders.{unhashable_status}
use tron_shkeeper.Profeex.Client.{
  Settings, Purchase, Outside, Provider, set_last_failure, set_failure, has_free_bandwidth,
}
use tron_shkeeper.Profeex.Acquire.{
  energy_threshold, read_energy, wait_for_energy, attempts, buy_resource, acquire_energy_with,
  acquire_energy, acquire_bandwidth_with, acquire_bandwidth,
}
use tron_shkeeper.Profeex.Waits.{IsClocked, IsKept}
use tron_shkeeper.Profeex.Honest.{IsHonest, IsUnasked, unasked-IsHonest, buy_resource-IsHonest}
use tron_shkeeper.Profeex.Readings.{
  IsRead, HasShown, shown_energy, HasEnergy, HasBandwidth, has_free_bandwidth-enough, IsAnswer,
  consult-IsAnswer, lookup-IsRead, wait_for_energy-IsRecheck, wait_for_bandwidth-IsRecheck,
}

module _ {W : Type 0} (o : Outside W) (receiver : String) where
  -- An exception: nothing was ordered, or it is the TypeError of a status that is an array or an
  -- object, and at most one purchase was requested.
  abbrev pub IsRaised : Exc → Provider W → Type 0
  IsRaised e p = (p.purchases ≡ []) ⊎ ((e ≡ unhashable_status) × (length p.purchases ≤ 1))

  crash :
      (entry : Purchase × Reply) (p : Provider W)
      → IsKept o (entry ∷ []) p
      → IsRaised unhashable_status p
  crash entry p kept = inr (refl, rw (kept.same) (omega arith))

  -- The energy of an order of the settings, less the tolerance of 500, and the strict minimum.
  abbrev pub IsEnoughEnergy : Settings → Option ℕ → ℕ → Type 0
  IsEnoughEnergy settings none available = settings.fixed_energy_order_amount ≤ available + 500
  IsEnoughEnergy settings (some minimum) available =
      (settings.fixed_energy_order_amount ≤ available + 500) × (minimum ≤ available)

  energy_threshold-enough :
      (settings : Settings) (minimum : Option ℕ) (available : ℕ)
      → energy_threshold settings minimum ≤ available
      → IsEnoughEnergy settings minimum available
  unfolding energy_threshold
  energy_threshold-enough settings none available enough = omega (arith, enough)
  energy_threshold-enough settings (some minimum) available enough =
      (omega (arith, enough), omega (arith, enough))

  -- The last read of the node showed the energy that the settings and the minimum ask for.
  unfoldable pub HasOrderedEnergy : Option ℕ → Option Settings → W → Type 0
  HasOrderedEnergy minimum none w = ⊥
  HasOrderedEnergy minimum (some settings) w =
      HasShown o receiver (λ r. IsEnoughEnergy settings minimum (get_available_energy r)) w

  keep-IsUnasked :
      (f : Option ProviderFailure)
      → Contract (IsUnasked o) (set_last_failure f) (λ _. IsUnasked o) IsRaised
  keep-IsUnasked f = Contract-modify _ (λ p h. h)

  no-IsHonest :
      (There : W → Type 0) → Contract (IsUnasked o) (pure false) (IsHonest o There) IsRaised
  no-IsHonest There =
      Contract-pure false
        (λ p h. unasked-IsHonest o There false p h (λ same. absurd (ground (arith, same))))

  refuse-IsHonest :
      (There : W → Type 0) (code : String)
      → Contract
          (IsUnasked o)
          (set_failure code none false >> pure false)
          (IsHonest o There)
          IsRaised
  refuse-IsHonest There code = Contract-then _ _ (keep-IsUnasked _) (no-IsHonest There)

  module _ (clocked : IsClocked o) where
    acquire_energy_with-IsHonest :
        (settings : Settings) (energy_to_provision threshold : ℕ)
        → Contract
            (IsUnasked o)
            (acquire_energy_with o receiver settings energy_to_provision threshold)
            (IsHonest o (HasEnergy o receiver threshold))
            IsRaised
    unfolding acquire_energy_with read_energy
    acquire_energy_with-IsHonest settings energy_to_provision threshold =
        Contract-bind _ _
          (Contract-weaken _ (lookup-IsRead o receiver [] get_available_energy)
            (λ p h. record { same = h }) (λ a p h. h) (λ e p h. h))
          after_read
      where
        after_read :
            (available : Option ℕ)
            → Contract
                (λ p. IsKept o [] p × IsRead o receiver get_available_energy available p.outside)
                (elim available [
                  | none ↦ pure false
                  | some energy ↦
                      if leb threshold energy
                      then pure true
                      else buy_resource o receiver settings
                          (max settings.fixed_energy_order_amount energy_to_provision)
                          "/delegation/buyenergy"
                          settings.energy_duration_label
                          (wait_for_energy o receiver threshold (attempts o receiver))
                ])
                (IsHonest o (HasEnergy o receiver threshold))
                IsRaised
        after_read none =
            Contract-weaken _ (no-IsHonest _) (λ p h. h.0.same) (λ a p h. h) (λ e p h. h)
        after_read (some energy) =
            Contract-if (leb threshold energy) _ _
              (λ enough. Contract-pure true (λ p h.
                unasked-IsHonest o _ true p h.0.same
                  (λ _. shown_energy o receiver threshold (some energy) enough p.outside h.1)))
              (λ _.
                Contract-weaken _
                  (buy_resource-IsHonest o clocked receiver _ settings _
                    (λ purchases.
                      wait_for_energy-IsRecheck o receiver purchases threshold
                        (attempts o receiver))
                    crash _ _ _)
                  (λ p h. h.0.same) (λ a p h. h) (λ e p h. h))

    acquire_energy-contract :
        (energy_to_provision : ℕ) (minimum : Option ℕ)
        → Contract
            (IsUnasked o)
            (acquire_energy o receiver energy_to_provision minimum)
            (IsHonest o (HasOrderedEnergy minimum o.settings))
            IsRaised
    unfolding acquire_energy HasOrderedEnergy
    acquire_energy-contract energy_to_provision minimum =
        Contract-bind _ _ (keep-IsUnasked none) (λ _. by_settings o.settings)
      where
        by_settings :
            (s : Option Settings)
            → Contract
                (IsUnasked o)
                (elim s [
                  | none ↦ set_failure "CONFIGURATION_ERROR" none false >> pure false
                  | some settings ↦ of_result o.tron_client >>= λ _.
                      acquire_energy_with o receiver settings energy_to_provision
                        (energy_threshold settings minimum)
                ])
                (IsHonest o (HasOrderedEnergy minimum s))
                IsRaised
        by_settings none = refuse-IsHonest _ "CONFIGURATION_ERROR"
        by_settings (some settings) =
            Contract-bind _ _ (Contract-of_result o.tron_client (λ e p h. inl h)) (λ _.
              Contract-weaken _
                (acquire_energy_with-IsHonest settings energy_to_provision
                  (energy_threshold settings minimum))
                (λ p h. h)
                (λ b p h. record {
                  at_most_one = h.at_most_one;
                  there = λ yes.
                      let shown = h.there yes in
                      record {
                        before = shown.before;
                        account = shown.account;
                        read = shown.read;
                        good = energy_threshold-enough settings minimum _ shown.good;
                      };
                  final = h.final;
                })
                (λ e p h. h))

    -- From a state in which nothing was ordered, `acquire_energy` requests at most one purchase; it
    -- raises only where it requested none, or the TypeError of a status that is a JSON array or
    -- object; it answers yes only where its last read of the node showed the energy of an order of
    -- the settings, less 500, and the minimum where it is strict; and where an order was accepted and
    -- it answers no, `last_failure` says that an order was accepted and that no other provider may be
    -- asked. The clock goes on while a request is made.
    pub acquire_energy-IsHonest :
        (energy_to_provision : ℕ) (minimum : Option ℕ) (p : Provider W)
        → p.purchases ≡ []
        → After
            (IsHonest o (HasOrderedEnergy minimum o.settings))
            IsRaised
            (acquire_energy o receiver energy_to_provision minimum p).0
            (acquire_energy o receiver energy_to_provision minimum p).1
    acquire_energy-IsHonest energy_to_provision minimum p unasked =
        (acquire_energy-contract energy_to_provision minimum).at p unasked

    acquire_bandwidth_with-IsHonest :
        (settings : Settings) (required : ℕ) (account : AccountResource)
        → Contract
            (λ p. IsUnasked o p × IsAnswer o receiver (ok account) p.outside)
            (acquire_bandwidth_with o receiver settings required account)
            (IsHonest o (HasBandwidth o receiver required))
            IsRaised
    unfolding acquire_bandwidth_with
    acquire_bandwidth_with-IsHonest settings required account =
        Contract-if (has_free_bandwidth required account) _ _
          (λ free. Contract-pure true (λ p h. unasked-IsHonest o _ true p h.0 (λ _. record {
            before = h.1.before;
            account = account;
            read = h.1.read;
            good = has_free_bandwidth-enough o receiver required account free;
          })))
          (λ _.
            Contract-weaken _
              (Contract-if (ltb settings.fixed_bandwidth_order_amount required) _ _
                (λ _. refuse-IsHonest _ "FIXED_BANDWIDTH_BELOW_REQUIRED")
                (λ _.
                  buy_resource-IsHonest o clocked receiver _ settings _
                    (λ purchases.
                      wait_for_bandwidth-IsRecheck o receiver purchases required
                        (attempts o receiver))
                    crash _ _ _))
              (λ p h. h.0) (λ a p h. h) (λ e p h. h))

    after_account-IsHonest :
        (settings : Settings) (required : ℕ) (account : Result AccountResource)
        → Contract
            (λ p. IsKept o [] p × IsAnswer o receiver account p.outside)
            (of_result account >>= acquire_bandwidth_with o receiver settings required)
            (IsHonest o (HasBandwidth o receiver required))
            IsRaised
    unfolding ◌>>=◌ continue After
    after_account-IsHonest settings required (err e) = record { at = λ p h. inl h.0.same }
    after_account-IsHonest settings required (ok account) = record {
      at = λ p h. (acquire_bandwidth_with-IsHonest settings required account).at p (h.0.same, h.1);
    }

    acquire_bandwidth-contract :
        (required : ℕ)
        → Contract
            (IsUnasked o)
            (acquire_bandwidth o receiver required)
            (IsHonest o (HasBandwidth o receiver required))
            IsRaised
    unfolding acquire_bandwidth
    acquire_bandwidth-contract required = Contract-bind _ _ (keep-IsUnasked none) (λ _.
        Contract-option o.settings _ _ (refuse-IsHonest _ "CONFIGURATION_ERROR") (λ settings.
          Contract-bind _ _ (Contract-of_result o.tron_client (λ e p h. inl h)) (λ _.
            Contract-bind _ _
              (Contract-weaken _ (consult-IsAnswer o receiver []) (λ p h. record { same = h })
                (λ a p h. h) (λ e p h. h))
              (after_account-IsHonest settings required))))

    -- From a state in which nothing was ordered, `acquire_bandwidth` requests at most one purchase; it
    -- raises only where it requested none, or the TypeError of a status that is a JSON array or
    -- object; it answers yes only where its last read of the node showed the bandwidth, staked or
    -- free; and where an order was accepted and it answers no, `last_failure` says that an order was
    -- accepted and that no other provider may be asked. The clock goes on while a request is made.
    pub acquire_bandwidth-IsHonest :
        (required : ℕ) (p : Provider W)
        → p.purchases ≡ []
        → After
            (IsHonest o (HasBandwidth o receiver required))
            IsRaised
            (acquire_bandwidth o receiver required p).0
            (acquire_bandwidth o receiver required p).1
    acquire_bandwidth-IsHonest required p unasked =
        (acquire_bandwidth-contract required).at p unasked
