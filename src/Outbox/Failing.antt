-- ===== src/Outbox/Failing.antt =====
-- Proofs about dispatches whose POST fails again and again (app/payout_callback_outbox.py).
use tron_shkeeper.Base.{ℕ, zero, suc, ◌+◌, String, ◌≡◌, none, some, [], ◌∷◌, ◌==◌, if◌then◌else◌}
use tron_shkeeper.Outbox.Table.{
  pending, dispatching, failed, Callback, Config, Table, after_attempt,
}
use tron_shkeeper.Outbox.Dispatch.{status_after_failure, raised, Env, dispatch_payout_callback}

-- A worker alone at a time, with a shop that cannot be reached.
abbrev pub failing : Config → ℕ → String → String → Env
failing c time token error = record {
  config = c;
  now = λ n. time;
  others = λ n table. table;
  post = λ r. raised error;
  first_1000 = λ text. text;
  show = λ n. "";
  uuid = token;
}

-- Dispatches of a callback, each when it is due again.
unfoldable pub dispatch_again : Config → ℕ → ℕ → String → String → ℕ → Table → Table
unfolding dispatch_payout_callback
dispatch_again c zero time token error id table = table
dispatch_again c (suc n) time token error id table =
    dispatch_again c n (time + c.retry_delay_sec) token error id
      (dispatch_payout_callback (failing c time token error) id none table).1

-- The row with the claim.
abbrev claimed : ℕ → String → Callback → Callback
claimed time token r = record r {
  status = dispatching;
  claimed_at = some time;
  claim_token = some token;
  updated_at = time;
}

module _ (c : Config) (time : ℕ) (token error : String) (r : Callback) where
  -- The row after a dispatch that fails.
  abbrev failed_once : Callback
  failed_once =
      after_attempt c time (status_after_failure c r.attempts) none none (some error)
        (claimed time token r)

-- The table has one callback, with that many attempts: it has failed for good if these are all, and is
-- pending if they are not.
pub record HasFailed (c : Config) (attempts : ℕ) (table : Table) (id : ℕ) : Type 0 where
  r : Callback
  found : table ≡ r ∷ []
  named : r.id ≡ id
  counted : r.attempts ≡ attempts
  status : r.status ≡ (if attempts == c.max_attempts then failed else pending)
