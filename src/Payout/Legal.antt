-- ===== src/Payout/Legal.antt =====
-- Proofs about the transitions of app/payout_execution.py, for the rows that they are made on.
use tron_shkeeper.Base.{
  ℕ, String, ◌≡◌, refl, true, false, Option, none, some, List, [], ◌∷◌, arith, truthy,
}
use tron_shkeeper.Payout.Types.{State, is_received, Metadata, Row}
use tron_shkeeper.Payout.Fields.{Field, write_row, has_unsafe_side_effect}
use tron_shkeeper.Payout.Evolution.{IsSound}
use tron_shkeeper.Payout.Statements.{IsLegal}

module _ (r : Row) (sound : IsSound r) where
  pub validated-IsLegal : is_received r.state ≡ true → IsLegal State.validated [] r
  unfolding write_row has_unsafe_side_effect
  validated-IsLegal h = record {
    sound = λ tid time. ground (arith, sound.repeatable_is_clean);
    hash_kept = λ tid time t. refl;
  }

  -- SIGNING says nothing of the columns.
  pub signing-IsLegal :
      (owner : Option String) (expires : Option ℕ) (attempt : Option String)
      → IsLegal State.signing
          (Field.lease_owner owner ∷ Field.lease_expires_at expires ∷ Field.attempt_id attempt ∷ [])
          r
  unfolding write_row
  signing-IsLegal owner expires attempt = record {
    sound = λ tid time. ground arith;
    hash_kept = λ tid time t. refl;
  }

  pub reserved-IsLegal :
      (reservation : Option String)
      → IsLegal State.signing (Field.resource_reservation_id reservation ∷ []) r
  unfolding write_row
  reserved-IsLegal reservation = record {
    sound = λ tid time. ground arith;
    hash_kept = λ tid time t. refl;
  }

  -- A row with no signed transaction may get one.
  pub signed-IsLegal :
      (ref hash : String) (stored : ℕ) (block : Option String) (expires : Option ℕ) (txid : String)
      (metadata : Metadata)
      → truthy r.signed_raw_tx_hash ≡ false
      → truthy (some hash) ≡ true
      → IsLegal State.signed
          (Field.signed_raw_tx_ref (some ref)
            ∷ Field.signed_raw_tx_hash (some hash)
            ∷ Field.signed_raw_tx_stored_at (some stored)
            ∷ Field.reference_block block
            ∷ Field.expiration_at expires
            ∷ Field.txid (some txid)
            ∷ Field.chain_check_metadata (some metadata)
            ∷ [])
          r
  unfolding write_row
  signed-IsLegal ref hash stored block expires txid metadata unsigned nonempty = record {
    sound = λ tid time. record { signed_has_hash = λ _. nonempty; repeatable_is_clean = λ h. cc };
    hash_kept = λ tid time t. cc;
  }

  pub broadcasting-IsLegal :
      (provider : Option String) (attempted : Option ℕ)
      → truthy r.signed_raw_tx_hash ≡ true
      → IsLegal State.broadcasting
          (Field.broadcast_provider provider ∷ Field.broadcast_attempted_at attempted ∷ [])
          r
  unfolding write_row
  broadcasting-IsLegal provider attempted signed = record {
    sound = λ tid time. record { signed_has_hash = λ _. signed; repeatable_is_clean = λ h. cc };
    hash_kept = λ tid time t. refl;
  }

  pub same_state-IsLegal :
      (metadata : Option Metadata) → IsLegal r.state (Field.chain_check_metadata metadata ∷ []) r
  unfolding write_row has_unsafe_side_effect
  same_state-IsLegal metadata = record {
    sound = λ tid time. record {
      signed_has_hash = sound.signed_has_hash;
      repeatable_is_clean = sound.repeatable_is_clean;
    };
    hash_kept = λ tid time t. refl;
  }

  pub broadcasted-IsLegal :
      (txid : Option String) (metadata : Option Metadata) (txids : List String)
      → truthy r.signed_raw_tx_hash ≡ true
      → IsLegal State.broadcasted
          (Field.txid txid
            ∷ Field.chain_check_metadata metadata
            ∷ Field.txids txids
            ∷ Field.is_reconciliation_required false
            ∷ [])
          r
  unfolding write_row
  broadcasted-IsLegal txid metadata txids signed = record {
    sound = λ tid time. record { signed_has_hash = λ _. signed; repeatable_is_clean = λ h. cc };
    hash_kept = λ tid time t. refl;
  }

  -- RECONCILIATION_REQUIRED is legal from anywhere.
  pub reconciliation-IsLegal :
      (cls code message : Option String)
      → IsLegal State.reconciliation_required
          (Field.failure_class cls
            ∷ Field.error_code code
            ∷ Field.error_message message
            ∷ Field.is_reconciliation_required true
            ∷ [])
          r
  unfolding write_row
  reconciliation-IsLegal cls code message = record {
    sound = λ tid time. record { signed_has_hash = λ h. cc; repeatable_is_clean = λ h. cc };
    hash_kept = λ tid time t. refl;
  }

  module _ (clean : has_unsafe_side_effect r ≡ false) where
    pub recovered-IsLegal :
        IsLegal State.received
          (Field.lease_owner none
            ∷ Field.lease_expires_at none
            ∷ Field.attempt_id none
            ∷ Field.is_reconciliation_required false
            ∷ [])
          r
    unfolding write_row has_unsafe_side_effect
    recovered-IsLegal = record {
      sound = λ tid time. record { signed_has_hash = λ h. cc; repeatable_is_clean = λ h. clean };
      hash_kept = λ tid time t. refl;
    }

    pub retried-IsLegal :
        (code message : Option String)
        → IsLegal State.received
            (Field.lease_owner none
              ∷ Field.lease_expires_at none
              ∷ Field.attempt_id none
              ∷ Field.failure_class (some "TRANSIENT")
              ∷ Field.error_code code
              ∷ Field.error_message message
              ∷ Field.is_reconciliation_required false
              ∷ Field.resource_reservation_id none
              ∷ [])
            r
    unfolding write_row has_unsafe_side_effect
    retried-IsLegal code message = record {
      sound = λ tid time. record { signed_has_hash = λ h. cc; repeatable_is_clean = λ h. clean };
      hash_kept = λ tid time t. refl;
    }

    pub failed-IsLegal :
        (cls code message : Option String)
        → IsLegal State.failed_pre_broadcast
            (Field.failure_class cls
              ∷ Field.error_code code
              ∷ Field.error_message message
              ∷ Field.is_reconciliation_required false
              ∷ [])
            r
    unfolding write_row has_unsafe_side_effect
    failed-IsLegal cls code message = record {
      sound = λ tid time. record { signed_has_hash = λ h. cc; repeatable_is_clean = λ h. clean };
      hash_kept = λ tid time t. refl;
    }
