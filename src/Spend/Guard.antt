-- ===== src/Spend/Guard.antt =====
-- `fee_deposit_spend_guard_for_address` (app/fee_deposit_spend_guard.py). The lock in Redis is a
-- parameter, and so is the code in the `with` block, an effect that changes a world of its own.
use tron_shkeeper.Base.{
  ℕ, zero, suc, ◌+◌, String, Bool, false, Option, none, some, List, [], ◌∷◌, ◌&&◌, not, ◌=s◌,
  if◌then◌else◌,
}
use tron_shkeeper.Payout.Types.{err, payout_error}
use tron_shkeeper.Effect.{Effect}

-- A row of `keys`, as far as it is read here.
pub record KeyRow : Type 0 where
  pub key_type : String
  pub public : String

-- What `lock.acquire` does: it answers, or raises a RedisError.
pub data Acquired : Type 0 where
  acquired timed_out redis_error : Acquired

-- The configuration, the table of keys, and the lock in Redis, which answers by a state of its own.
-- Whether `lock.release` raises is only logged, so that its answer is the new state.
pub record Env (R : Type 0) : Type 0 where
  pub provisioning_enabled : Bool
  pub keys : List KeyRow
  pub acquire : R → Acquired × R
  pub release : R → R

-- `_fee_deposit_lock_depth` of a context, the lock and the rest of the world. The acquisitions that
-- succeeded and the releases are counted.
pub record Spend (R : Type 0) (W : Type 0) : Type 0 where
  pub depth : ℕ
  pub taken : ℕ
  pub released : ℕ
  pub redis : R
  pub world : W

-- `fee_deposit_address`
unfoldable pub fee_deposit_address : List KeyRow → Option String
fee_deposit_address [] = none
fee_deposit_address (row ∷ rows) =
    let later = fee_deposit_address rows in
    if row.key_type =s "fee_deposit" then some row.public else later

is_address : String → Option String → Bool
is_address address none = false
is_address address (some found) = address =s found

-- `is_fee_deposit_address`
unfoldable pub is_fee_deposit_address : List KeyRow → String → Bool
unfolding fee_deposit_address is_address
is_fee_deposit_address keys address =
    not (address =s "") && is_address address (fee_deposit_address keys)

-- `try: yield  finally: …`
abbrev pub finally : {S : Type 0} {A : Type 0} → Effect S A → (S → S) → Effect S A
finally body last s = ((body s).0, last (body s).1)

-- `_fee_deposit_lock_depth.set` and `reset`
abbrev pub set_depth : {R : Type 0} {W : Type 0} → ℕ → Spend R W → Spend R W
set_depth depth s = record s { depth = depth }

-- `lock.release()`
abbrev pub release_lock : {R : Type 0} {W : Type 0} → Env R → Spend R W → Spend R W
release_lock env s = record s { released = s.released + 1; redis = env.release s.redis }

-- What comes after `lock.acquire`, at the depth one.
abbrev pub after_acquire :
    {R : Type 0} {W : Type 0} {A : Type 0}
    → Env R
    → Effect (Spend R W) A
    → Acquired
    → Effect (Spend R W) A
after_acquire env body acquired s =
    finally body (λ s'. set_depth 0 (release_lock env s')) (record s { taken = s.taken + 1 })
after_acquire env body timed_out s = (
  err (
      payout_error "Timed out waiting for TRON fee-deposit spend lock"
        "PAYOUT_RESOURCE_LOCK_UNAVAILABLE" 503),
  set_depth 0 s,
)
after_acquire env body redis_error s = (
  err (
      payout_error "Unable to acquire TRON fee-deposit spend lock"
        "PAYOUT_RESOURCE_LOCK_UNAVAILABLE" 503),
  set_depth 0 s,
)

-- The lock at the depth that was there before, in a state with the depth that is set.
abbrev pub lock_at :
    {R : Type 0} {W : Type 0} {A : Type 0} → Env R → Effect (Spend R W) A → ℕ → Effect (Spend R W) A
lock_at env body zero s =
    after_acquire env body (env.acquire s.redis).0 (record s { redis = (env.acquire s.redis).1 })
lock_at env body (suc depth) s = finally body (set_depth (suc depth)) s

-- `fee_deposit_spend_lock`
unfoldable pub fee_deposit_spend_lock :
    {R : Type 0} {W : Type 0} {A : Type 0} → Env R → Effect (Spend R W) A → Effect (Spend R W) A
fee_deposit_spend_lock env body s =
    if env.provisioning_enabled
    then lock_at env body s.depth (set_depth (suc s.depth) s)
    else body s

-- `fee_deposit_spend_guard_for_address`
unfoldable pub fee_deposit_spend_guard_for_address :
    {R : Type 0} {W : Type 0} {A : Type 0}
    → Env R
    → String
    → Effect (Spend R W) A
    → Effect (Spend R W) A
unfolding fee_deposit_spend_lock is_fee_deposit_address
fee_deposit_spend_guard_for_address env address body s =
    if is_fee_deposit_address env.keys address then fee_deposit_spend_lock env body s else body s
