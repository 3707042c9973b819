-- ===== src/Spend/Balance.antt =====
-- Proofs about the depth, the acquisitions and the releases (app/fee_deposit_spend_guard.py).
use tron_shkeeper.Base.{
  ℕ, zero, suc, ◌+◌, ◌<◌, ◌≡◌, refl, ap, ◌∙◌, String, true, inl, inr, Bool-cases, arith,
}
use tron_shkeeper.Effect.{Effect}
use tron_shkeeper.Spend.Guard.{
  Acquired, acquired, timed_out, redis_error, Env, Spend, set_depth, release_lock, after_acquire,
  lock_at, fee_deposit_spend_guard_for_address, is_fee_deposit_address,
}

-- One acquisition is not released yet where the depth is above 0, and none is where it is 0.
unfoldable pub IsBalanced : {R : Type 0} {W : Type 0} → Spend R W → Type 0
IsBalanced s = s.taken ≡ s.released + (elim (s.depth) [ zero ↦ 0 | suc d ↦ 1 ])

-- The lock is held.
unfoldable pub IsHeld : {R : Type 0} {W : Type 0} → Spend R W → Type 0
IsHeld s = (0 < s.depth) × (s.taken ≡ s.released + 1)

-- Code that leaves the depth as it was, and the acquisitions balanced.
unfoldable pub KeepsLock : {R : Type 0} {W : Type 0} {A : Type 0} → Effect (Spend R W) A → Type 0
KeepsLock {R = R} {W = W} body =
    (s : Spend R W) → IsBalanced s → IsBalanced (body s).1 × ((body s).1.depth ≡ s.depth)

held_after :
    (d d' taken released : ℕ)
    → d ≡ suc d'
    → taken ≡ released + (elim d [ zero ↦ 0 | suc _ ↦ 1 ])
    → taken ≡ released + 1
held_after zero d' taken released same balanced = absurd (omega (arith, same))
held_after (suc d) d' taken released same balanced = balanced

module _ {R : Type 0} {W : Type 0} {A : Type 0} (env : Env R) where
  after_acquire-KeepsLock :
      (body : Effect (Spend R W) A)
      → KeepsLock body
      → (answer : Acquired) (s : Spend R W) → s.depth ≡ 1
      → s.taken ≡ s.released
      → IsBalanced (after_acquire env body answer s).1
        × ((after_acquire env body answer s).1.depth ≡ 0)
  unfolding KeepsLock IsBalanced
  after_acquire-KeepsLock body keeps timed_out s deeper balanced = (omega (arith, balanced), refl)
  after_acquire-KeepsLock body keeps redis_error s deeper balanced = (omega (arith, balanced), refl)
  after_acquire-KeepsLock body keeps acquired s deeper balanced =
      let now : Spend R W = record s { taken = s.taken + 1 } in
      let taken_one : IsBalanced now = rw deeper (omega (arith, balanced)) in
      let done = keeps now taken_one in
      let s' = (body now).1 in
      let held = held_after s'.depth 0 s'.taken s'.released (done.1 ∙ deeper) done.0 in
      (omega (arith, held), refl)

  lock_at-KeepsLock :
      (body : Effect (Spend R W) A)
      → KeepsLock body
      → (depth : ℕ) (s : Spend R W) → IsBalanced (set_depth depth s)
      → IsBalanced (lock_at env body depth (set_depth (suc depth) s)).1
        × ((lock_at env body depth (set_depth (suc depth) s)).1.depth ≡ depth)
  unfolding KeepsLock IsBalanced
  lock_at-KeepsLock body keeps zero s balanced =
      after_acquire-KeepsLock body keeps (env.acquire s.redis).0
        (record s { depth = 1; redis = (env.acquire s.redis).1 }) refl (omega (arith, balanced))
  lock_at-KeepsLock body keeps (suc depth) s balanced =
      let now : Spend R W = set_depth (suc (suc depth)) s in
      let done = keeps now balanced in
      let s' = (body now).1 in
      (held_after s'.depth (suc depth) s'.taken s'.released done.1 done.0, refl)

  -- Around code that leaves the depth as it was and the acquisitions balanced,
  -- fee_deposit_spend_guard_for_address does so too from a balanced state, whether it raises or not.
  pub fee_deposit_spend_guard_for_address-KeepsLock :
      (address : String) (body : Effect (Spend R W) A)
      → KeepsLock body
      → (s : Spend R W) → IsBalanced s
      → IsBalanced (fee_deposit_spend_guard_for_address env address body s).1
        × ((fee_deposit_spend_guard_for_address env address body s).1.depth ≡ s.depth)
  unfolding KeepsLock fee_deposit_spend_guard_for_address
  fee_deposit_spend_guard_for_address-KeepsLock address body keeps s balanced =
      elim (Bool-cases (is_fee_deposit_address env.keys address)) [
        | inr other ↦ rw other (keeps s balanced)
        | inl fee ↦ elim (Bool-cases env.provisioning_enabled) [
          | inr off ↦ rw fee (rw off (keeps s balanced))
          | inl on ↦ rw fee (rw on (lock_at-KeepsLock body keeps s.depth s balanced))
        ]
      ]

  lock_at-same :
      (b1 b2 : Effect (Spend R W) A)
      → ((s : Spend R W) → IsHeld s → b1 s ≡ b2 s)
      → (depth : ℕ) (s : Spend R W) → IsBalanced (set_depth depth s)
      → lock_at env b1 depth (set_depth (suc depth) s)
        ≡ lock_at env b2 depth (set_depth (suc depth) s)
  unfolding IsBalanced IsHeld
  lock_at-same b1 b2 same zero s balanced = by_answer (env.acquire s.redis).0
    where
      now : Spend R W
      now = record s { depth = 1; redis = (env.acquire s.redis).1 }

      by_answer :
          (answer : Acquired) → after_acquire env b1 answer now ≡ after_acquire env b2 answer now
      by_answer timed_out = refl
      by_answer redis_error = refl
      by_answer acquired =
          ap (λ r. (r.0, set_depth 0 (release_lock env r.1)))
            (same (record now { taken = s.taken + 1 }) (omega arith, omega (arith, balanced)))
  lock_at-same b1 b2 same (suc depth) s balanced =
      ap (λ r. (r.0, set_depth (suc depth) r.1))
        (same (set_depth (suc (suc depth)) s) (omega arith, balanced))

  -- Where provisioning is on and the address is that of the fee-deposit wallet, guarded code runs
  -- only while the lock is held: code that does the same while it is held is guarded to the same.
  pub fee_deposit_spend_guard_for_address-IsHeld :
      (address : String) (b1 b2 : Effect (Spend R W) A)
      → env.provisioning_enabled ≡ true
      → is_fee_deposit_address env.keys address ≡ true
      → ((s : Spend R W) → IsHeld s → b1 s ≡ b2 s)
      → (s : Spend R W) → IsBalanced s
      → fee_deposit_spend_guard_for_address env address b1 s
        ≡ fee_deposit_spend_guard_for_address env address b2 s
  unfolding fee_deposit_spend_guard_for_address
  fee_deposit_spend_guard_for_address-IsHeld address b1 b2 on fee same s balanced =
      rw fee (rw on (lock_at-same b1 b2 same s.depth s balanced))
