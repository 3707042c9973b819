-- ===== src/Payout/Fields.antt =====
-- The columns that `_transition` writes, and the tests on a row and on an exception
-- (app/payout_execution.py).
use tron_shkeeper.Base.{
  ℕ, ◌+◌, String, ◌&&◌, ◌||◌, Bool, true, false, Option, none, some, List, [], ◌∷◌, ◌=s◌, contains,
  truthy, if◌then◌else◌,
}
use tron_shkeeper.Payout.Types.{State, Metadata, Row, Exc, payout_error}

-- The keyword arguments that `_transition` accepts.
pub data Field : Type 0 where
  lease_owner : Option String → Field
  lease_expires_at : Option ℕ → Field
  attempt_id : Option String → Field
  resource_reservation_id : Option String → Field
  reference_block : Option String → Field
  expiration_at : Option ℕ → Field
  signed_raw_tx_ref : Option String → Field
  signed_raw_tx_hash : Option String → Field
  signed_raw_tx_stored_at : Option ℕ → Field
  txid : Option String → Field
  broadcast_provider : Option String → Field
  broadcast_attempted_at : Option ℕ → Field
  chain_check_metadata : Option Metadata → Field
  failure_class : Option String → Field
  error_code : Option String → Field
  error_message : Option String → Field
  is_reconciliation_required : Bool → Field
  txids : List String → Field
  message_hashes : List String → Field

unfoldable pub assign : Field → Row → Row
assign (lease_owner v) r = record r { lease_owner = v }
assign (lease_expires_at v) r = record r { lease_expires_at = v }
assign (attempt_id v) r = record r { attempt_id = v }
assign (resource_reservation_id v) r = record r { resource_reservation_id = v }
assign (reference_block v) r = record r { reference_block = v }
assign (expiration_at v) r = record r { expiration_at = v }
assign (signed_raw_tx_ref v) r = record r { signed_raw_tx_ref = v }
assign (signed_raw_tx_hash v) r = record r { signed_raw_tx_hash = v }
assign (signed_raw_tx_stored_at v) r = record r { signed_raw_tx_stored_at = v }
assign (txid v) r = record r { txid = v }
assign (broadcast_provider v) r = record r { broadcast_provider = v }
assign (broadcast_attempted_at v) r = record r { broadcast_attempted_at = v }
assign (chain_check_metadata v) r = record r { chain_check_metadata = v }
assign (failure_class v) r = record r { failure_class = v }
assign (error_code v) r = record r { error_code = v }
assign (error_message v) r = record r { error_message = v }
assign (is_reconciliation_required v) r = record r { is_reconciliation_required = v }
assign (txids v) r = record r { txids = v }
assign (message_hashes v) r = record r { message_hashes = v }

unfoldable pub assign_all : List Field → Row → Row
unfolding assign
assign_all [] r = r
assign_all (f ∷ fs) r = assign_all fs (assign f r)

-- The assignments that every transition makes.
unfoldable pub stamp : State → String → ℕ → Row → Row
stamp state transition_id time r = record r {
  state = state;
  state_version = r.state_version + 1;
  state_transition_id = transition_id;
  state_updated_at = time;
}

-- The row that one UPDATE of `_transition` writes.
unfoldable pub write_row : State → String → ℕ → List Field → Row → Row
unfolding assign_all stamp
write_row state transition_id time fields r = assign_all fields (stamp state transition_id time r)

abbrev pub not_created : Exc
not_created = payout_error "Payout execution was not created" "NO_EXECUTION_CREATED" 404

abbrev pub cas_conflict : Exc
cas_conflict =
    payout_error "Payout execution state changed concurrently" "PAYOUT_EXECUTION_CAS_CONFLICT" 409

-- `exc.code == "PAYOUT_EXECUTION_CAS_CONFLICT"` of a `PayoutExecutionError`
unfoldable pub is_cas_conflict : Exc → Bool
is_cas_conflict e =
    e.is_payout && elim (e.code) [ none ↦ false | some c ↦ c =s "PAYOUT_EXECUTION_CAS_CONFLICT" ]

-- `any(row[field] for field in (…))`
unfoldable pub has_unsafe_side_effect : Row → Bool
has_unsafe_side_effect r =
    truthy r.signed_raw_tx_ref
    || truthy r.signed_raw_tx_hash
    || truthy r.txid
    || elim (r.broadcast_attempted_at) [ none ↦ false | some _ ↦ true ]

abbrev pub legacy_retryable_codes : List String
legacy_retryable_codes = "PAYOUT_RESOURCE_LOCK_UNAVAILABLE" ∷ []

abbrev pub retryable_temporary_codes : List String
retryable_temporary_codes =
    "PROFEEX_ESTIMATE_UNAVAILABLE" ∷ "RESOURCE_ESTIMATE_UNAVAILABLE" ∷ "RESOURCE_READ_FAILED"
    ∷ "PROVIDER_FAILED" ∷ "RESOURCE_RECHECK_FAILED" ∷ "PAYOUT_DESTINATION_ACTIVATION_PENDING"
    ∷ "PAYOUT_DESTINATION_ACTIVATION_UNAVAILABLE" ∷ "PAYOUT_DESTINATION_ACTIVATION_DUPLICATE"
    ∷ "PAYOUT_DESTINATION_ACTIVATION_TIMEOUT" ∷ "PAYOUT_DESTINATION_ACTIVATION_QUOTE_UNAVAILABLE"
    ∷ []

abbrev pub code_in : Option String → List String → Bool
code_in none codes = false
code_in (some c) codes = contains c codes

-- `getattr(exc, "temporary", default)`
abbrev pub temporary_or : Bool → Exc → Bool
temporary_or default e = elim (e.temporary) [ none ↦ default | some b ↦ b ]

-- `_is_retryable_pre_broadcast_error`
unfoldable pub is_retryable_pre_broadcast_error : Exc → Bool
is_retryable_pre_broadcast_error e =
    if e.provider_order_accepted
    then false
    else if code_in e.code legacy_retryable_codes
    then temporary_or true e
    else code_in e.code retryable_temporary_codes && temporary_or false e
