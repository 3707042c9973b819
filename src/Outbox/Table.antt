-- ===== src/Outbox/Table.antt =====
-- The table `payout_callback_outbox` and its statements (app/payout_callback_outbox.py). Times are
-- seconds. Each statement is one atomic step; its time and the token of a claim are arguments.
use tron_shkeeper.Base.{
  ℕ, zero, suc, ◌+◌, String, ◌&&◌, ◌||◌, Bool, true, false, Option, none, some, List, [], ◌∷◌, ◌++◌,
  ltb, leb, ◌==◌, ◌=s◌, if◌then◌else◌,
}

-- The constants STATUS_…
pub data Status : Type 0 where
  pending dispatching sent failed : Status

abbrev pub is_pending : Status → Bool
is_pending pending = true
is_pending _ = false

abbrev pub is_dispatching : Status → Bool
is_dispatching dispatching = true
is_dispatching _ = false

abbrev pub is_sent : Status → Bool
is_sent sent = true
is_sent _ = false

-- A row of `payout_callback_outbox` (app/schema.sql).
pub record Callback : Type 0 where
  pub id : ℕ
  pub symbol : String
  pub payload_json : String
  pub status : Status
  pub attempts : ℕ
  pub next_attempt_at : Option ℕ
  pub created_at : ℕ
  pub claimed_at : Option ℕ
  pub claim_token : Option String
  pub last_http_status : Option ℕ
  pub last_response_text : Option String
  pub last_error : Option String
  pub updated_at : ℕ
  pub sent_at : Option ℕ

-- The entries of app/config.py that the outbox reads.
pub record Config : Type 0 where
  pub max_attempts : ℕ
  pub retry_delay_sec : ℕ
  pub claim_ttl_sec : ℕ

abbrev pub Table : Type 0
Table = List Callback

-- `get_payout_callback`
unfoldable pub get_payout_callback : ℕ → Table → Option Callback
get_payout_callback id [] = none
get_payout_callback id (r ∷ rs) = if r.id == id then some r else get_payout_callback id rs

-- `UPDATE … WHERE id = ? AND …`: the row of the key is rewritten.
unfoldable pub update_callback : ℕ → (Callback → Callback) → Table → Table
update_callback id write [] = []
update_callback id write (r ∷ rs) =
    if r.id == id then write r ∷ rs else r ∷ update_callback id write rs

-- `create_payout_callback`; the key is the next one.
unfoldable pub create_payout_callback : ℕ → ℕ → String → String → Table → Table
create_payout_callback now id payload_json symbol table =
    table
    ++ record {
      id = id;
      symbol = symbol;
      payload_json = payload_json;
      status = pending;
      attempts = 0;
      next_attempt_at = some now;
      created_at = now;
      claimed_at = none;
      claim_token = none;
      last_http_status = none;
      last_response_text = none;
      last_error = none;
      updated_at = now;
      sent_at = none;
    }
      ∷ []

-- `next_attempt_at IS NULL OR next_attempt_at <= now`
abbrev pub is_due : ℕ → Option ℕ → Bool
is_due now none = true
is_due now (some t) = leb t now

-- `claimed_at <= now - ttl`, which is unknown, and so not true, for NULL
abbrev pub is_stale : ℕ → ℕ → Option ℕ → Bool
is_stale now ttl none = false
is_stale now ttl (some t) = leb (t + ttl) now

-- The condition under which a row may be claimed.
unfoldable pub is_claimable : Config → ℕ → Callback → Bool
is_claimable config now r =
    ltb r.attempts config.max_attempts
    && (is_pending r.status && is_due now r.next_attempt_at
        || is_dispatching r.status && is_stale now config.claim_ttl_sec r.claimed_at)

unfoldable pub claim_row : Config → ℕ → String → Callback → Callback
unfolding is_claimable
claim_row config now token r =
    if is_claimable config now r
    then record r {
      status = dispatching;
      claimed_at = some now;
      claim_token = some token;
      updated_at = now;
    }
    else r

-- The UPDATE of `claim_payout_callback`.
unfoldable pub claim_payout_callback : Config → ℕ → String → ℕ → Table → Table
unfolding claim_row update_callback
claim_payout_callback config now token id table =
    update_callback id (claim_row config now token) table

abbrev pub same_token : Option String → String → Bool
same_token none token = false
same_token (some t) token = t =s token

-- The SET of `_update_after_attempt`.
unfoldable pub after_attempt :
    Config → ℕ → Status → Option ℕ → Option String → Option String → Callback → Callback
after_attempt config now status http_status response_text error r = record r {
  status = status;
  attempts = r.attempts + 1;
  next_attempt_at = if is_pending status then some (now + config.retry_delay_sec) else none;
  claimed_at = none;
  claim_token = none;
  last_http_status = http_status;
  last_response_text = response_text;
  last_error = error;
  updated_at = now;
  sent_at = if is_sent status then some now else r.sent_at;
}

-- Only the holder of the claim writes.
unfoldable pub record_row :
    Config → ℕ → String → Status → Option ℕ → Option String → Option String → Callback → Callback
unfolding after_attempt
record_row config now token status http_status response_text error r =
    if is_dispatching r.status && same_token r.claim_token token
    then after_attempt config now status http_status response_text error r
    else r

-- The UPDATE of `_update_after_attempt`.
unfoldable pub update_after_attempt :
    Config → ℕ → ℕ → String → Status → Option ℕ → Option String → Option String → Table → Table
unfolding record_row update_callback
update_after_attempt config now id token status http_status response_text error table =
    update_callback id (record_row config now token status http_status response_text error) table

-- `COALESCE(next_attempt_at, created_at)`
abbrev pub due_time : Callback → ℕ
due_time r = elim r.next_attempt_at [ none ↦ r.created_at | some t ↦ t ]

-- `ORDER BY COALESCE(next_attempt_at, created_at), id`
abbrev pub is_before : Callback → Callback → Bool
is_before q r = ltb (due_time q) (due_time r) || due_time q == due_time r && leb q.id r.id

unfoldable pub insert_by_due : Callback → Table → Table
insert_by_due q [] = q ∷ []
insert_by_due q (r ∷ rs) = if is_before q r then q ∷ r ∷ rs else r ∷ insert_by_due q rs

unfoldable pub order_by_due : Table → Table
unfolding insert_by_due
order_by_due [] = []
order_by_due (r ∷ rs) = insert_by_due r (order_by_due rs)

unfoldable pub select_claimable : Config → ℕ → Table → Table
unfolding is_claimable
select_claimable config now [] = []
select_claimable config now (r ∷ rs) =
    let rest = select_claimable config now rs in
    if is_claimable config now r then r ∷ rest else rest

-- `LIMIT ?`
unfoldable pub limit_rows : ℕ → Table → Table
limit_rows zero rs = []
limit_rows (suc n) [] = []
limit_rows (suc n) (r ∷ rs) = r ∷ limit_rows n rs

-- The rows that the inner SELECT of `claim_due_payout_callbacks` finds.
unfoldable pub due_rows : Config → ℕ → ℕ → Table → Table
unfolding limit_rows order_by_due select_claimable
due_rows config now limit table =
    limit_rows limit (order_by_due (select_claimable config now table))

-- `WHERE id IN (…)`
unfoldable pub has_id : ℕ → Table → Bool
has_id id [] = false
has_id id (r ∷ rs) = r.id == id || has_id id rs

unfoldable pub take_claim : ℕ → String → Callback → Callback
take_claim now token r = record r {
  status = dispatching;
  claimed_at = some now;
  claim_token = some token;
  updated_at = now;
}

unfoldable pub claim_selected : ℕ → String → Table → Table → Table
unfolding has_id take_claim
claim_selected now token chosen [] = []
claim_selected now token chosen (r ∷ rs) =
    (if has_id r.id chosen then take_claim now token r else r) ∷ claim_selected now token chosen rs

-- The UPDATE of `claim_due_payout_callbacks`.
unfoldable pub claim_due_payout_callbacks : Config → ℕ → ℕ → String → Table → Table
unfolding claim_selected due_rows
claim_due_payout_callbacks config now limit token table =
    claim_selected now token (due_rows config now limit table) table

-- The SELECT with which `claim_due_payout_callbacks` ends; the rows are kept in the order of the key.
unfoldable pub claimed_rows : String → Table → Table
claimed_rows token [] = []
claimed_rows token (r ∷ rs) =
    let rest = claimed_rows token rs in
    if is_dispatching r.status && same_token r.claim_token token then r ∷ rest else rest
