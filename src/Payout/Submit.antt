-- ===== src/Payout/Submit.antt =====
-- `PayoutExecutionStore.submit` (app/payout_execution.py), from the payload that was validated: the row of
-- an execution is made once, and handed to the task queue.
use tron_shkeeper.Base.{
  ℕ, String, Bool, true, false, Option, none, some, List, [], ◌∷◌, ◌++◌, ◌&&◌, ◌||◌, not, ◌=s◌,
  or_else, if◌then◌else◌,
}
use tron_shkeeper.Payout.Types.{
  ok, State, is_received, is_validated, in_unsafe_recovery_states, Canonical, Row, Exc,
  payout_error,
}
use tron_shkeeper.Payout.Fields.{is_cas_conflict}
use tron_shkeeper.Payout.Status.{Status, row_to_status}
use tron_shkeeper.Payout.World.{
  Env, M, pure, raise, raise_if, subscript, catch, ◌>>=◌, utcnow, uuid4, get_row, before_statement,
  set_rows, find_row, enqueue_execution,
}
use tron_shkeeper.Payout.Transitions.{lease_expired, recover_stale_execution}

-- What `validate_payload` lets pass: the canonical payload, and the other entries.
pub record Submission : Type 0 where
  pub canonical : Canonical
  pub request_hash : String
  pub sidecar_payload_hash : String
  pub source_wallet_ref : Option String
  pub payout_queue : Option String

-- Whether the row is of the same request.
abbrev pub is_same_request : Submission → Row → Bool
is_same_request p row =
    row.request_hash =s p.request_hash && row.sidecar_payload_hash =s p.sidecar_payload_hash

-- `SELECT * FROM payout_executions WHERE consumer = ? AND external_id = ?`
unfoldable pub find_external : String → String → List Row → Option Row
find_external consumer external_id [] = none
find_external consumer external_id (r ∷ rs) =
    if r.consumer =s consumer && r.external_id =s external_id
    then some r
    else find_external consumer external_id rs

-- `WHERE execution_id = ? OR (consumer = ? AND external_id = ?)`
unfoldable pub find_either : Canonical → List Row → Option Row
find_either c [] = none
find_either c (r ∷ rs) =
    if r.execution_id =s c.execution_id
      || (r.consumer =s c.consumer && r.external_id =s c.external_id)
    then some r
    else find_either c rs

-- The row that is inserted, in the order of app/schema.sql; the columns that are not named are NULL.
unfoldable pub new_row : Env → Submission → String → ℕ → Row
new_row env p transition_id now = record {
  execution_id = p.canonical.execution_id;
  consumer = p.canonical.consumer;
  external_id = p.canonical.external_id;
  request_hash = p.request_hash;
  sidecar_payload_hash = p.sidecar_payload_hash;
  state = State.received;
  state_version = 1;
  state_transition_id = transition_id;
  state_updated_at = now;
  lease_owner = none;
  lease_expires_at = none;
  attempt_id = none;
  source_wallet = or_else p.source_wallet_ref "fee_deposit";
  token_contract = env.config.usdt_contract;
  resource_reservation_id = none;
  reference_block = none;
  chain_id_or_network_id = env.config.network;
  expiration_at = none;
  canonical_payload = p.canonical;
  signed_raw_tx_ref = none;
  signed_raw_tx_hash = none;
  signed_raw_tx_stored_at = none;
  txid = none;
  broadcast_provider = none;
  broadcast_attempted_at = none;
  chain_check_metadata = none;
  payout_queue = or_else p.payout_queue env.config.usdt_payout_queue;
  failure_class = none;
  error_code = none;
  error_message = none;
  is_reconciliation_required = false;
  txids = [];
  message_hashes = [];
}

abbrev pub conflict : String → Exc
conflict message = payout_error message "PAYOUT_EXECUTION_CONFLICT" 409

abbrev pub another_payload : String
another_payload = "Payout execution already exists with different payload"

module _ (env : Env) where
  -- A read by another condition.
  unfoldable pub select_row : (List Row → Option Row) → M (Option Row)
  unfolding before_statement
  select_row find w = let w' = before_statement env w in (ok (find w'.shared.rows), w')

  -- The INSERT and its commit; `false` is an IntegrityError, where a row has the execution's key or
  -- the consumer's external id.
  unfoldable pub insert_row : Row → M Bool
  unfolding before_statement find_row find_external
  insert_row row w =
      let w' = before_statement env w in
      elim (find_row row.execution_id w'.shared.rows) [
        | some _ ↦ (ok false, w')
        | none ↦ elim (find_external row.consumer row.external_id w'.shared.rows) [
          | some _ ↦ (ok false, w')
          | none ↦ (ok true, set_rows w' (w'.shared.rows ++ row ∷ []))
        ]
      ]

  -- `_ensure_auto_enqueue_enabled`
  abbrev pub ensure_auto_enqueue_enabled : M (Unit {0})
  ensure_auto_enqueue_enabled = raise_if (not env.config.auto_enqueue_enabled) (
      payout_error "Payout execution auto-enqueue is disabled"
        "PAYOUT_EXECUTION_AUTO_ENQUEUE_DISABLED" 503)

  -- The recovery of a row, where a conflict is passed over, and the row after it.
  unfoldable pub recover_and_reread : Row → M (Option Row)
  unfolding catch ◌>>=◌ recover_stale_execution
  recover_and_reread row =
      catch (recover_stale_execution env row.execution_id >>= λ _. pure tt)
        (λ exc. raise_if (not (is_cas_conflict exc)) exc)
      >>= λ _. get_row env row.execution_id

  -- `_safe_recover_for_enqueue`
  unfoldable pub safe_recover_for_enqueue : Row → M (Option Row)
  unfolding ◌>>=◌ recover_and_reread lease_expired
  safe_recover_for_enqueue row = utcnow env >>= λ now.
      if in_unsafe_recovery_states row.state && lease_expired row now
      then recover_and_reread row
      else pure (some row)

  abbrev enqueue_ready : Row → M (Unit {0})
  enqueue_ready row =
      if is_received row.state || is_validated row.state
      then enqueue_execution row.execution_id row.payout_queue
      else pure tt

  -- `_enqueue_if_enabled`
  unfoldable pub enqueue_if_enabled : Row → M Row
  unfolding ◌>>=◌ safe_recover_for_enqueue enqueue_execution
  enqueue_if_enabled row = ensure_auto_enqueue_enabled >>= λ _.
      safe_recover_for_enqueue row >>= λ found.
      subscript found >>= λ current. enqueue_ready current >>= λ _. pure current

  abbrev pub accepted : Row → M Status
  accepted row = pure (row_to_status "ACCEPTED" row)

  -- A row that is there already, with the message of a conflict.
  unfoldable pub accept_existing : Submission → String → Row → M Status
  unfolding ◌>>=◌ enqueue_if_enabled row_to_status
  accept_existing p message row = raise_if (not (is_same_request p row)) (conflict message) >>= λ _.
      enqueue_if_enabled row >>= accepted

  -- `_existing_or_conflict_after_integrity_error`
  unfoldable pub existing_or_conflict_after_integrity_error : Submission → M Status
  unfolding ◌>>=◌ select_row find_either row_to_status
  existing_or_conflict_after_integrity_error p =
      select_row (find_either p.canonical) >>= λ existing. elim existing [
        | none ↦ raise (conflict another_payload)
        | some row ↦
            raise_if (not (is_same_request p row)) (conflict another_payload) >>= λ _. accepted row
      ]

  -- What follows the INSERT.
  unfoldable pub after_insert : Submission → Bool → M Status
  unfolding ◌>>=◌ enqueue_if_enabled existing_or_conflict_after_integrity_error
  after_insert p false = existing_or_conflict_after_integrity_error p
  after_insert p true = get_row env p.canonical.execution_id >>= λ found.
      subscript found >>= λ row. enqueue_if_enabled row >>= accepted

  -- The execution is new.
  unfoldable pub insert_submission : Submission → M Status
  unfolding ◌>>=◌ new_row insert_row after_insert
  insert_submission p = ensure_auto_enqueue_enabled >>= λ _. uuid4 env >>= λ transition_id.
      utcnow env >>= λ now. insert_row (new_row env p transition_id now) >>= after_insert p

  -- The consumer's external id is looked for.
  unfoldable pub submit_unknown : Submission → Option Row → M Status
  unfolding accept_existing insert_submission
  submit_unknown p (some row) =
      accept_existing p "Payout external_id already exists with different payload" row
  submit_unknown p none = insert_submission p

  unfoldable pub submit_found : Submission → Option Row → M Status
  unfolding ◌>>=◌ select_row find_external accept_existing submit_unknown
  submit_found p (some row) = accept_existing p another_payload row
  submit_found p none =
      select_row (find_external p.canonical.consumer p.canonical.external_id) >>= submit_unknown p

  -- `submit`
  unfoldable pub submit : Submission → M Status
  unfolding ◌>>=◌ submit_found
  submit p = get_row env p.canonical.execution_id >>= submit_found p
