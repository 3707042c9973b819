-- ===== src/Spend/Tests.antt =====
-- Guarded code with a lock that is free, and the theorems at it (app/fee_deposit_spend_guard.py).
use tron_shkeeper.Base.{
  ℕ, ◌+◌, ◌≡◌, refl, Bool, true, false, [], ◌∷◌, ◌==◌, inl, inr, Bool-cases, if◌then◌else◌, arith,
}
use tron_shkeeper.Payout.Types.{ok}
use tron_shkeeper.Effect.{Effect}
use tron_shkeeper.Spend.Guard.{
  acquired, timed_out, Env, Spend, is_fee_deposit_address, fee_deposit_spend_guard_for_address,
}
use tron_shkeeper.Spend.Balance.{
  KeepsLock, IsBalanced, IsHeld, fee_deposit_spend_guard_for_address-KeepsLock,
  fee_deposit_spend_guard_for_address-IsHeld,
}

-- The state of the lock is whether it is free.
abbrev env : Env Bool
env = record {
  provisioning_enabled = true;
  keys =
      record { key_type = "onetime"; public = "T1" }
      ∷ record { key_type = "fee_deposit"; public = "TF" }
      ∷ [];
  acquire = λ free. (if free then acquired else timed_out, false);
  release = λ free. true;
}

abbrev start : Spend Bool ℕ
start = record { depth = 0; taken = 0; released = 0; redis = true; world = 5 }

abbrev spend : Effect (Spend Bool ℕ) ℕ
spend s = (ok s.world, record s { world = s.world + 1 })

abbrev spend_if_held : Effect (Spend Bool ℕ) ℕ
spend_if_held s = (ok s.world, record s { world = if s.depth == 0 then 0 else s.world + 1 })

nested-once :
    (fee_deposit_spend_guard_for_address env "TF"
      (fee_deposit_spend_guard_for_address env "TF" spend)
      start).1
    ≡ record { depth = 0; taken = 1; released = 1; redis = true; world = 6 }
unfolding fee_deposit_spend_guard_for_address
nested-once = refl

spend-KeepsLock : KeepsLock spend
unfolding KeepsLock IsBalanced
spend-KeepsLock s balanced = (balanced, refl)

spend-held : (s : Spend Bool ℕ) → IsHeld s → spend s ≡ spend_if_held s
unfolding IsHeld
spend-held s held = elim (Bool-cases (s.depth == 0)) [
  | inl zero_depth ↦ absurd (ground (arith, zero_depth, held.0))
  | inr deeper ↦ rw deeper refl
]

start-IsBalanced : IsBalanced start
unfolding IsBalanced
start-IsBalanced = refl

fee_deposit_spend_guard_for_address-KeepsLock_example :
    let after =
      (fee_deposit_spend_guard_for_address env "TF"
        (fee_deposit_spend_guard_for_address env "TF" spend)
        start).1 in
    IsBalanced after × (after.depth ≡ 0)
unfolding KeepsLock
fee_deposit_spend_guard_for_address-KeepsLock_example =
    fee_deposit_spend_guard_for_address-KeepsLock env "TF"
      (fee_deposit_spend_guard_for_address env "TF" spend)
      (fee_deposit_spend_guard_for_address-KeepsLock env "TF" spend spend-KeepsLock) start
      start-IsBalanced

fee_deposit_spend_guard_for_address-IsHeld_example :
    fee_deposit_spend_guard_for_address env "TF" spend start
    ≡ fee_deposit_spend_guard_for_address env "TF" spend_if_held start
unfolding is_fee_deposit_address
fee_deposit_spend_guard_for_address-IsHeld_example =
    fee_deposit_spend_guard_for_address-IsHeld env "TF" spend spend_if_held refl refl spend-held
      start start-IsBalanced
