-- ===== src/Outbox/Dispatch.antt =====
-- `dispatch_payout_callback` and what decides its outcome (app/payout_callback_outbox.py). The POST is
-- a parameter, and so is what other workers do to the table before each statement.
use Prim.Native.String.{◌++◌ as ◌<>◌}
use tron_shkeeper.Base.{
  ℕ, ◌+◌, String, ◌&&◌, not, Bool, true, false, Option, none, some, ltb, leb, ◌=s◌, if◌then◌else◌,
}
use tron_shkeeper.Outbox.Table.{
  Status, pending, dispatching, sent, failed, is_dispatching, is_pending, Callback, Config, Table,
  get_payout_callback, claim_payout_callback, same_token, update_after_attempt,
}

-- What `requests.post` does: it raises, or answers with a status and a text.
pub data Post : Type 0 where
  raised : String → Post
  answered : ℕ → String → Post

-- `200 <= http_status < 300`
abbrev pub is_success : ℕ → Bool
is_success http_status = leb 200 http_status && ltb http_status 300

-- The status after an attempt that did not succeed.
unfoldable pub status_after_failure : Config → ℕ → Status
status_after_failure config attempts =
    if leb config.max_attempts (attempts + 1) then failed else pending

unfoldable pub status_after : Config → ℕ → Post → Status
unfolding status_after_failure
status_after config attempts (raised error) = status_after_failure config attempts
status_after config attempts (answered http_status text) =
    if is_success http_status then sent else status_after_failure config attempts

-- The world of one dispatch: the configuration, a clock, the other workers and the shop, at each
-- statement; `first_1000` cuts a text, and `show` prints a status.
pub record Env : Type 0 where
  pub config : Config
  pub now : ℕ → ℕ
  pub others : ℕ → Table → Table
  pub post : Callback → Post
  pub first_1000 : String → String
  pub show : ℕ → String
  pub uuid : String

-- What `dispatch_payout_callback` returns: a row, or that there is none.
pub data Reply : Type 0 where
  not_found : Reply
  row : Callback → Reply

abbrev pub reply_of : Option Callback → Reply
reply_of none = not_found
reply_of (some r) = row r

abbrev pub text_or_none : Env → String → Option String
text_or_none env text = elim (text =s "") [ true ↦ none | false ↦ some (env.first_1000 text) ]

-- `_update_after_attempt` with what the POST gave, for the row that was read with the claim.
unfoldable pub record_attempt : Env → ℕ → ℕ → String → Callback → Post → Table → Table
record_attempt env now id token r (raised error) table =
    update_after_attempt env.config now id token (status_after env.config r.attempts (raised error))
      none none (some error) table
record_attempt env now id token r (answered http_status text) table =
    update_after_attempt env.config now id token
      (status_after env.config r.attempts (answered http_status text)) (some http_status)
      (text_or_none env text)
      (if is_success http_status then none else some ("HTTP " <> env.show http_status)) table

-- The POST and its record, for a row that is claimed with the token.
unfoldable pub post_and_record : Env → ℕ → String → Callback → Table → Reply × Table
unfolding record_attempt
post_and_record env id token r table =
    let written = record_attempt env (env.now 2) id token r (env.post r) (env.others 2 table) in
    let after = env.others 3 written in (reply_of (get_payout_callback id after), after)

-- `row["status"] != STATUS_DISPATCHING or row["claim_token"] != claim_token`
abbrev pub holds_claim : String → Callback → Bool
holds_claim token r = is_dispatching r.status && same_token r.claim_token token

unfoldable pub dispatch_claimed : Env → ℕ → String → Option Callback → Table → Reply × Table
unfolding post_and_record
dispatch_claimed env id token none table = (not_found, table)
dispatch_claimed env id token (some r) table =
    if holds_claim token r then post_and_record env id token r table else (row r, table)

abbrev pub or_uuid : Env → Option String → String
or_uuid env none = env.uuid
or_uuid env (some t) = elim (t =s "") [ true ↦ env.uuid | false ↦ t ]

-- A pending row is claimed, and posted if the claim was won.
unfoldable pub dispatch_pending : Env → ℕ → String → Table → Reply × Table
unfolding dispatch_claimed
dispatch_pending env id mine table =
    let claimed = env.others 1 (claim_payout_callback env.config (env.now 1) mine id table) in
    dispatch_claimed env id mine (get_payout_callback id claimed) claimed

-- A row that is claimed is posted by the holder of the claim alone.
unfoldable pub dispatch_held : Env → ℕ → Option String → Callback → Table → Reply × Table
unfolding post_and_record
dispatch_held env id none r table = (row r, table)
dispatch_held env id (some t) r table =
    if not (t =s "") && same_token r.claim_token t
    then post_and_record env id t r table
    else (row r, table)

-- The status that was read first decides how the dispatch goes on.
unfoldable pub dispatch_by_status :
    Env → ℕ → Option String → Status → Callback → Table → Reply × Table
unfolding dispatch_pending dispatch_held
dispatch_by_status env id token sent r table = (row r, table)
dispatch_by_status env id token failed r table = (row r, table)
dispatch_by_status env id token dispatching r table = dispatch_held env id token r table
dispatch_by_status env id token pending r table = dispatch_pending env id (or_uuid env token) table

unfoldable pub dispatch_found : Env → ℕ → Option String → Option Callback → Table → Reply × Table
unfolding dispatch_by_status
dispatch_found env id token none table = (not_found, table)
dispatch_found env id token (some r) table = dispatch_by_status env id token r.status r table

-- `dispatch_payout_callback`
unfoldable pub dispatch_payout_callback : Env → ℕ → Option String → Table → Reply × Table
unfolding dispatch_found get_payout_callback
dispatch_payout_callback env id token table =
    let before = env.others 0 table in
    dispatch_found env id token (get_payout_callback id before) before

-- `should_retry`
unfoldable pub should_retry : Config → Option Callback → Bool
should_retry config none = false
should_retry config (some r) = is_pending r.status && ltb r.attempts config.max_attempts
