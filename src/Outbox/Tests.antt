-- ===== src/Outbox/Tests.antt =====
-- Runs of the outbox (app/payout_callback_outbox.py), and its theorems at concrete rows.
use mathlib.Core.List.{Memᴰ}
use mathlib.Core.List.Memᴰ
use tron_shkeeper.Outbox.Batch.{HasKeys, IsClaimOf, claim_due_payout_callbacks-IsClaimOf}
use tron_shkeeper.Base.{ℕ, ◌+◌, ◌≡◌, refl, sym, ◌∙◌, Option, none, some, [], ◌∷◌, inl, arith}
use tron_shkeeper.Outbox.Table.{
  Status, pending, sent, failed, Callback, Config, get_payout_callback, claim_row,
  claim_payout_callback, update_after_attempt, claim_due_payout_callbacks,
}
use tron_shkeeper.Outbox.Dispatch.{
  answered, Env, Reply, row, status_after, dispatch_payout_callback,
}
use tron_shkeeper.Outbox.Claims.{
  claim_row-exclusive, final_stays, claim_step, record_step, run_steps, claimed_row_stays,
}

abbrev config : Config
config = record { max_attempts = 2; retry_delay_sec = 60; claim_ttl_sec = 300 }

abbrev fresh : Callback
fresh = record {
  id = 1;
  symbol = "USDT";
  payload_json = "{}";
  status = pending;
  attempts = 0;
  next_attempt_at = some 10;
  created_at = 10;
  claimed_at = none;
  claim_token = none;
  last_http_status = none;
  last_response_text = none;
  last_error = none;
  updated_at = 10;
  sent_at = none;
}

abbrev delivered : Callback
delivered = record fresh { status = sent; attempts = 1; next_attempt_at = none; sent_at = some 20 }

-- A shop that answers every POST with the status, nobody else at work.
abbrev shop : ℕ → Env
shop http_status = record {
  config = config;
  now = λ t. 20 + t;
  others = λ t table. table;
  post = λ r. answered http_status "";
  first_1000 = λ s. s;
  show = λ n. "500";
  uuid = "token";
}

abbrev status_of : Reply → Option Status
status_of (row r) = some r.status
status_of _ = none

dispatch-sent : status_of (dispatch_payout_callback (shop 200) 1 none (fresh ∷ [])).0 ≡ some sent
unfolding dispatch_payout_callback get_payout_callback claim_payout_callback update_after_attempt
    status_after
dispatch-sent = refl

dispatch-failing :
    status_of (dispatch_payout_callback (shop 500) 1 none (fresh ∷ [])).0 ≡ some pending
unfolding dispatch_payout_callback get_payout_callback claim_payout_callback update_after_attempt
    status_after
dispatch-failing = refl

claim_row-exclusive_example :
    claim_row config 100 "b" (claim_row config 20 "a" fresh) ≡ claim_row config 20 "a" fresh
unfolding claim_row
claim_row-exclusive_example = claim_row-exclusive config 20 100 "a" "b" fresh refl (omega arith)

final_stays_example :
    (get_payout_callback 1 (claim_payout_callback config 400 "a" 1 (delivered ∷ []))
      ≡ some delivered)
    × (get_payout_callback 1
          (update_after_attempt config 400 1 "a" failed none none none (delivered ∷ []))
        ≡ some delivered)
unfolding get_payout_callback
final_stays_example =
    final_stays config 400 1 1 "a" failed none none none (delivered ∷ []) refl (inl refl)

claimed_row_stays_example :
    get_payout_callback 1 (
      run_steps config
        (claim_step 100 "b" 1 ∷ record_step 110 1 "b" failed none none (some "late") ∷ [])
        (claim_row config 20 "a" fresh ∷ []))
    ≡ some (claim_row config 20 "a" fresh)
unfolding claim_row get_payout_callback
claimed_row_stays_example =
    claimed_row_stays config 1 20 "a"
      (claim_step 100 "b" 1 ∷ record_step 110 1 "b" failed none none (some "late") ∷ [])
      (claim_row config 20 "a" fresh ∷ []) refl (record { held = refl; holder = refl; time = refl })
      (omega arith, (refl, tt))

one_row-HasKeys : HasKeys (fresh ∷ [])
unfolding HasKeys
one_row-HasKeys q r mq mr same = Memᴰ.eq_of_singleton mq ∙ sym (Memᴰ.eq_of_singleton mr)

claimed-Memᴰ :
    Memᴰ (claim_row config 20 "a" fresh) (claim_due_payout_callbacks config 20 5 "a" (fresh ∷ []))
unfolding claim_due_payout_callbacks claim_row
claimed-Memᴰ = Memᴰ.head refl

claim_due_payout_callbacks-IsClaimOf_example :
    IsClaimOf config 20 "a" (fresh ∷ []) (claim_row config 20 "a" fresh)
claim_due_payout_callbacks-IsClaimOf_example =
    claim_due_payout_callbacks-IsClaimOf config 20 5 "a" (fresh ∷ [])
      (claim_row config 20 "a" fresh) one_row-HasKeys claimed-Memᴰ
