-- ===== src/Payout/Transitions.antt =====
-- `_transition` and the operations that are built on it: the marks, the recovery of a stale
-- execution, and what becomes of a failure (app/payout_execution.py).
use tron_shkeeper.Base.{
  ℕ, String, ◌&&◌, ◌||◌, not, Bool, true, false, Option, none, some, List, [], ◌∷◌, ◌++◌, leb,
  contains, or_else, strip, lower, if◌then◌else◌, ◌=s◌,
}
use Prim.Native.String.{◌++◌ as ◌<>◌}
use tron_shkeeper.Payout.Types.{
  State, in_unsafe_recovery_states, in_no_downgrade_states, is_signing, Metadata, Row, Exc,
  payout_error, Evidence, BroadcastResult, not_dict, dict,
}
use tron_shkeeper.Payout.Fields.{
  Field, write_row, not_created, cas_conflict, is_cas_conflict, has_unsafe_side_effect,
  is_retryable_pre_broadcast_error,
}
use tron_shkeeper.Payout.Status.{Status, row_to_status, state_name}
use tron_shkeeper.Payout.World.{
  Env, M, pure, raise, raise_if, subscript, ◌>>=◌, ◌>>◌, utcnow, uuid4, get_row, compare_and_set,
}

-- `_lease_expired` at a time
unfoldable pub lease_expired : Row → ℕ → Bool
lease_expired row now = elim (row.lease_expires_at) [ none ↦ true | some t ↦ leb t now ]

-- `_normalize_txid`
unfoldable pub normalize_txid : Option String → Option String
normalize_txid none = none
normalize_txid (some v) = let text = strip v in if text =s "" then none else some (lower text)

-- One round of the loop of `_broadcast_result_txids`.
unfoldable pub add_candidate : List String → Option String → List String
add_candidate seen none = seen
add_candidate seen (some t) = if contains t seen then seen else seen ++ t ∷ []

-- `_broadcast_result_txids`
unfoldable pub broadcast_result_txids : BroadcastResult → List String
unfolding add_candidate normalize_txid
broadcast_result_txids not_dict = []
broadcast_result_txids (dict a b c d e) =
    add_candidate
      (add_candidate
        (add_candidate (add_candidate (add_candidate [] (normalize_txid a)) (normalize_txid b))
          (normalize_txid c))
        (normalize_txid d))
      (normalize_txid e)

-- `json.loads(row["chain_check_metadata"] or "{}")`
abbrev pub metadata_or_empty : Option Metadata → Metadata
metadata_or_empty (some m) = m
metadata_or_empty none = record {
  signed_tx_json_hash = none;
  source_wallet_address = none;
  broadcast_txid_verified = false;
  broadcast_txid_candidates = [];
  broadcast_result = none;
  confirmation = none;
}

abbrev is_empty : List String → Bool
is_empty [] = true
is_empty (_ ∷ _) = false

-- `expected in candidates`
abbrev option_in : Option String → List String → Bool
option_in none ts = false
option_in (some t) ts = contains t ts

-- The two checks of `_verify_broadcast_result`: a transaction id is there, and the expected one is.
unfoldable pub check_broadcast_txids : Option String → List String → M (Unit {0})
check_broadcast_txids expected candidates = do
  raise_if (is_empty candidates) (
      payout_error "TRON broadcast result did not include a transaction id" "BROADCAST_TXID_MISSING"
        503)
  raise_if (not (option_in expected candidates)) (
      payout_error "TRON broadcast transaction id does not match signed transaction"
        "BROADCAST_TXID_MISMATCH" 503)

-- The assignments of a failure that may be tried again.
abbrev pub retry_fields : Exc → List Field
retry_fields exc =
    Field.lease_owner none
    ∷ Field.lease_expires_at none
    ∷ Field.attempt_id none
    ∷ Field.failure_class (some "TRANSIENT")
    ∷ Field.error_code exc.code
    ∷ Field.error_message (some exc.message)
    ∷ Field.is_reconciliation_required false
    ∷ Field.resource_reservation_id none
    ∷ []

module _ (env : Env) where
  -- `_transition`: the row is written if its version is still the one that was read. What is
  -- returned is read again, in a statement of its own.
  unfoldable pub transition : Option Row → State → List Field → M (Option Row)
  transition none state fields = raise not_created
  transition (some row) state fields = do
    transition_id ← uuid4 env
    time ← utcnow env
    written ←
        compare_and_set env row.execution_id row.state_version
          (write_row state transition_id time fields)
    raise_if (not written) cas_conflict
    get_row env row.execution_id

  -- What `recover_stale_execution` does with a row in an unsafe state whose lease has expired.
  unfoldable pub recover_expired : Row → M (Option Row)
  unfolding state_name
  recover_expired row =
      if not (is_signing row.state)
      then transition (some row) State.reconciliation_required (
          Field.failure_class (some "AMBIGUOUS")
          ∷ Field.error_code (some ("STALE_" <> state_name row.state <> "_WITH_SIDE_EFFECT"))
          ∷ Field.error_message (
              some (
                "Stale "
                <> state_name row.state
                <> " cannot be automatically retried because signing or broadcasting may already have happened"))
          ∷ Field.is_reconciliation_required true
          ∷ [])
      else if has_unsafe_side_effect row
      then transition (some row) State.reconciliation_required (
          Field.failure_class (some "AMBIGUOUS")
          ∷ Field.error_code (some "STALE_SIGNING_WITH_SIDE_EFFECT")
          ∷ Field.error_message (
              some
                "Stale SIGNING contains resource, signed transaction, or broadcast evidence and cannot be automatically retried")
          ∷ Field.is_reconciliation_required true
          ∷ [])
      else transition (some row) State.received (
          Field.lease_owner none
          ∷ Field.lease_expires_at none
          ∷ Field.attempt_id none
          ∷ Field.is_reconciliation_required false
          ∷ [])

  unfoldable pub report : Option Row → M Status
  report row = do pure (row_to_status "OK" (← subscript row))

  unfoldable pub recover_row : Option Row → M Status
  unfolding report
  recover_row none = raise not_created
  recover_row (some row) =
      if not (in_unsafe_recovery_states row.state) then report (some row) else do
        now ← utcnow env
        if lease_expired row now then recover_expired row >>= report else report (some row)

  -- `recover_stale_execution`
  unfoldable pub recover_stale_execution : String → M Status
  unfolding recover_row
  recover_stale_execution id = get_row env id >>= recover_row

  -- `_mark_resource_reserved`
  unfoldable pub mark_resource_reserved : Row → String → M (Option Row)
  mark_resource_reserved row reservation_id =
      transition (some row) State.signing (Field.resource_reservation_id (some reservation_id) ∷ [])

  -- `_mark_signed`
  unfoldable pub mark_signed : Row → Evidence → M (Option Row)
  mark_signed row evidence = do
    now ← utcnow env
    transition (some row) State.signed (
        Field.signed_raw_tx_ref (some evidence.signed_raw_tx_ref)
        ∷ Field.signed_raw_tx_hash (some evidence.signed_raw_tx_hash)
        ∷ Field.signed_raw_tx_stored_at (some now)
        ∷ Field.reference_block evidence.reference_block
        ∷ Field.expiration_at evidence.expiration_at
        ∷ Field.txid (some evidence.txid)
        ∷ Field.chain_check_metadata (some evidence.chain_check_metadata)
        ∷ [])

  -- `_mark_broadcasting`
  unfoldable pub mark_broadcasting : Option Row → M (Option Row)
  mark_broadcasting row = do
    now ← utcnow env
    transition row State.broadcasting
        (Field.broadcast_provider (some "tronpy") ∷ Field.broadcast_attempted_at (some now) ∷ [])

  -- What `_verify_broadcast_result` writes once the checks have passed.
  unfoldable pub write_verified : Option Row → List String → M (Option Row)
  write_verified row candidates = do
    r ← subscript row
    let metadata = metadata_or_empty r.chain_check_metadata
    transition (some r) r.state (
        Field.chain_check_metadata (
          some (record metadata {
            broadcast_txid_verified = true;
            broadcast_txid_candidates = candidates;
          }))
        ∷ [])

  -- `_verify_broadcast_result`
  unfoldable pub verify_broadcast_result : Option Row → String → BroadcastResult → M (Option Row)
  unfolding write_verified
  verify_broadcast_result row expected_txid result = do
    let candidates = broadcast_result_txids result
    check_broadcast_txids (normalize_txid (some expected_txid)) candidates
    write_verified row candidates

  -- `_mark_broadcasted`
  unfoldable pub mark_broadcasted : Option Row → String → BroadcastResult → M (Option Row)
  mark_broadcasted row txid result = do
    r ← subscript row
    let metadata = metadata_or_empty r.chain_check_metadata
    transition (some r) State.broadcasted (
        Field.txid (some txid)
        ∷ Field.chain_check_metadata (some (record metadata { broadcast_result = some result }))
        ∷ Field.txids (txid ∷ [])
        ∷ Field.is_reconciliation_required false
        ∷ [])

  -- The failed row is written by one of three transitions, or left alone.
  unfoldable pub settle_failure : Row → Exc → M Status
  unfolding report
  settle_failure row exc =
      if in_no_downgrade_states row.state || is_cas_conflict exc
      then report (some row)
      else if is_retryable_pre_broadcast_error exc && not (has_unsafe_side_effect row)
      then transition (some row) State.received (retry_fields exc) >>= report
      else if has_unsafe_side_effect row
      then transition (some row) State.reconciliation_required (
          Field.failure_class (some "AMBIGUOUS")
          ∷ Field.error_code (some (or_else exc.code "UNSAFE_EXECUTION_INTERRUPTED"))
          ∷ Field.error_message (some exc.message)
          ∷ Field.is_reconciliation_required true
          ∷ [])
        >>= report
      else transition (some row) State.failed_pre_broadcast (
          Field.failure_class (some "PREFLIGHT")
          ∷ Field.error_code (some (or_else exc.code "EXECUTION_PRE_BROADCAST_FAILED"))
          ∷ Field.error_message (some exc.message)
          ∷ Field.is_reconciliation_required false
          ∷ [])
        >>= report

  unfoldable pub settle_found : Exc → Option Row → M Status
  settle_found exc none = raise exc
  settle_found exc (some row) = settle_failure row exc

  -- `_mark_failed_or_reconciliation`
  unfoldable pub mark_failed_or_reconciliation : String → Exc → M Status
  unfolding settle_found
  mark_failed_or_reconciliation id exc = get_row env id >>= settle_found exc
