-- ===== src/Profeex/Readings.antt =====
-- Proofs about the reads of the node by `acquire_energy` and `acquire_bandwidth` of ProfeeX
-- (app/resource_providers/profeex.py).
use tron_shkeeper.Base.{
  ℕ, zero, suc, ◌+◌, ◌≤◌, ◌⊎◌, inl, inr, leb, Bool-cases, ◌≡◌, refl, ◌∙◌, String, Bool, true, false,
  Option, none, some, List, ◌==◌, arith,
}
use tron_shkeeper.Payout.Types.{Exc, Result, ok, err}
use tron_shkeeper.Effect.{◌>>=◌}
use tron_shkeeper.Effect.Contracts.{
  After, Contract, Contract-pure, Contract-if, Contract-bind, Contract-then, Contract-modify,
  Contract-weaken,
}
use tron_shkeeper.Resources.Types.{AccountResource, get_available_energy}
use tron_shkeeper.Profeex.Failures.{Reply}
use tron_shkeeper.Profeex.Client.{Purchase, Outside, Provider, consult, has_free_bandwidth}
use tron_shkeeper.Profeex.Acquire.{
  note_read, read_energy, read_bandwidth, rest_before_next, reaches, is_free, wait_for_energy,
  wait_for_bandwidth,
}
use tron_shkeeper.Profeex.Waits.{IsKept}

module _ {W : Type 0} (o : Outside W) (receiver : String) where
  -- The state of the outside is the one after a read of the receiver's account, which showed that.
  pub record HasShown (Good : AccountResource → Type 0) (after : W) : Type 0 where
    pub before : W
    pub account : AccountResource
    pub read : o.get_account_resource receiver before ≡ (ok account, after)
    pub good : Good account

  -- What was read, where it could be.
  unfoldable pub IsRead : {A : Type 0} → (AccountResource → A) → Option A → W → Type 0
  IsRead f none w = Unit
  IsRead f (some a) w = HasShown (λ r. f r ≡ a) w

  abbrev pub HasEnergy : ℕ → W → Type 0
  HasEnergy threshold = HasShown (λ r. threshold ≤ get_available_energy r)

  abbrev pub HasBandwidth : ℕ → W → Type 0
  HasBandwidth required =
      HasShown (λ r.
        (required + r.net_used ≤ r.net_limit) ⊎ (required + r.free_net_used ≤ r.free_net_limit))

  pub has_free_bandwidth-enough :
      (required : ℕ) (r : AccountResource)
      → has_free_bandwidth required r ≡ true
      → (required + r.net_used ≤ r.net_limit) ⊎ (required + r.free_net_used ≤ r.free_net_limit)
  has_free_bandwidth-enough required r free =
      elim (Bool-cases (leb (required + r.net_used) r.net_limit)) [
        | inl enough ↦ inl (ground (arith, enough))
        | inr short ↦ inr (ground (arith, short, free))
      ]

  pub shown_energy :
      (threshold : ℕ) (available : Option ℕ)
      → reaches o receiver threshold available ≡ true
      → (w : W) → IsRead get_available_energy available w
      → HasEnergy threshold w
  unfolding IsRead
  shown_energy threshold none enough w h = absurd (ground (arith, enough))
  shown_energy threshold (some a) enough w h =
      let good = h.good in
      record {
        before = h.before;
        account = h.account;
        read = h.read;
        good = ground (arith, enough, good);
      }

  shown_bandwidth :
      (required : ℕ) (available : Option Bool)
      → is_free o receiver available ≡ true
      → (w : W) → IsRead (has_free_bandwidth required) available w
      → HasBandwidth required w
  unfolding IsRead
  shown_bandwidth required none free w h = absurd (ground (arith, free))
  shown_bandwidth required (some b) free w h = record {
    before = h.before;
    account = h.account;
    read = h.read;
    good = has_free_bandwidth-enough required h.account (h.good ∙ free);
  }

  -- An answer of the node, in the state before it.
  pub record IsAnswer (result : Result AccountResource) (w : W) : Type 0 where
    pub before : W
    pub read : o.get_account_resource receiver before ≡ (result, w)

  module _ {E : Exc → Provider W → Type 0} (purchases : List (Purchase × Reply)) where
    note_read-IsRead :
        {A : Type 0} (f : AccountResource → A) (result : Result AccountResource)
        → Contract
            (λ p. IsKept o purchases p × IsAnswer result p.outside)
            (note_read o receiver f result)
            (λ v p. IsKept o purchases p × IsRead f v p.outside)
            E
    unfolding note_read IsRead
    note_read-IsRead f (ok r) =
        Contract-pure (some (f r))
          (λ p h. (h.0, record { before = h.1.before; account = r; read = h.1.read; good = refl }))
    note_read-IsRead f (err e) =
        Contract-then {Q = IsKept o purchases} _ _
          (Contract-modify _ (λ p h. record { same = h.0.same }))
          (Contract-pure none (λ p h. (h, tt)))

    pub consult-IsAnswer :
        Contract
          (IsKept o purchases)
          (consult (o.get_account_resource receiver))
          (λ result p. IsKept o purchases p × IsAnswer result p.outside)
          E
    unfolding consult After
    consult-IsAnswer = record {
      at = λ p kept. (record { same = kept.same }, record { before = p.outside; read = refl });
    }

    pub lookup-IsRead :
        {A : Type 0} (f : AccountResource → A)
        → Contract
            (IsKept o purchases)
            (consult (o.get_account_resource receiver) >>= note_read o receiver f)
            (λ v p. IsKept o purchases p × IsRead f v p.outside)
            E
    lookup-IsRead f = Contract-bind _ _ consult-IsAnswer (note_read-IsRead f)

    rest_before_next-IsKept :
        (left : ℕ)
        → Contract
            (IsKept o purchases)
            (rest_before_next o receiver left)
            (λ _. IsKept o purchases)
            E
    unfolding rest_before_next
    rest_before_next-IsKept left =
        Contract-if (left == 0) _ _ (λ _. Contract-pure tt (λ p h. h))
          (λ _. Contract-modify _ (λ p h. record { same = h.same }))

    pub wait_for_energy-IsRecheck :
        (threshold left : ℕ)
        → Contract
            (IsKept o purchases)
            (wait_for_energy o receiver threshold left)
            (λ b p. IsKept o purchases p × (b ≡ true → HasEnergy threshold p.outside))
            E
    unfolding wait_for_energy read_energy
    wait_for_energy-IsRecheck threshold zero =
        Contract-pure false (λ p h. (h, λ same. absurd (ground (arith, same))))
    wait_for_energy-IsRecheck threshold (suc left) =
        Contract-bind _ _ (lookup-IsRead get_available_energy) (λ available.
          Contract-if (reaches o receiver threshold available) _ _
            (λ enough.
              Contract-pure true
                (λ p h. (h.0, λ _. shown_energy threshold available enough p.outside h.1)))
            (λ _.
              Contract-bind {Q = λ _. IsKept o purchases} _ _
                (Contract-weaken _ (rest_before_next-IsKept left) (λ p h. h.0) (λ a p h. h)
                  (λ e p h. h))
                (λ _. wait_for_energy-IsRecheck threshold left)))

    pub wait_for_bandwidth-IsRecheck :
        (required left : ℕ)
        → Contract
            (IsKept o purchases)
            (wait_for_bandwidth o receiver required left)
            (λ b p. IsKept o purchases p × (b ≡ true → HasBandwidth required p.outside))
            E
    unfolding wait_for_bandwidth read_bandwidth
    wait_for_bandwidth-IsRecheck required zero =
        Contract-pure false (λ p h. (h, λ same. absurd (ground (arith, same))))
    wait_for_bandwidth-IsRecheck required (suc left) =
        Contract-bind _ _ (lookup-IsRead (has_free_bandwidth required)) (λ available.
          Contract-if (is_free o receiver available) _ _
            (λ free.
              Contract-pure true
                (λ p h. (h.0, λ _. shown_bandwidth required available free p.outside h.1)))
            (λ _.
              Contract-bind {Q = λ _. IsKept o purchases} _ _
                (Contract-weaken _ (rest_before_next-IsKept left) (λ p h. h.0) (λ a p h. h)
                  (λ e p h. h))
                (λ _. wait_for_bandwidth-IsRecheck required left)))
