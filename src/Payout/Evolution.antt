-- ===== src/Payout/Evolution.antt =====
-- How the shared state may move. `Advances` relates a row to what the same execution looks like
-- later, `IsSafe` is the invariant of the table and of what was sent, and `IsFair` is what is assumed
-- of the other processes: that they keep both, as the operations of the program do.
use tron_shkeeper.Base.{
  ℕ, ◌<◌, String, ◌≡◌, refl, ◌⊎◌, inl, inr, ◌∙◌, Bool, true, false, some, arith, truthy, All,
}
use tron_shkeeper.Payout.Types.{State, Row}
use tron_shkeeper.Payout.Fields.{has_unsafe_side_effect}
use tron_shkeeper.Payout.World.{Sent, Shared, Env, find_row}

-- The states that only a signed transaction leads to.
abbrev pub is_after_signing : State → Bool
is_after_signing State.signed = true
is_after_signing State.broadcasting = true
is_after_signing State.broadcasted = true
is_after_signing State.confirming = true
is_after_signing State.confirmed = true
is_after_signing State.failed_chain_terminal = true
is_after_signing _ = false

-- The states in which the payout may be tried again, by the worker or by the merchant.
abbrev pub is_repeatable : State → Bool
is_repeatable State.received = true
is_repeatable State.validated = true
is_repeatable State.failed_pre_broadcast = true
is_repeatable _ = false

-- What the states say of the columns: after signing the hash of the signed transaction is stored, and
-- where the payout may be tried again nothing was signed or sent.
pub record IsSound (r : Row) : Type 0 where
  pub signed_has_hash : is_after_signing r.state ≡ true → truthy r.signed_raw_tx_hash ≡ true
  pub repeatable_is_clean : is_repeatable r.state ≡ true → has_unsafe_side_effect r ≡ false

pub record Advances (r r' : Row) : Type 0 where
  pub same_id : r'.execution_id ≡ r.execution_id
  pub same_payload : r'.canonical_payload ≡ r.canonical_payload
  pub same_request : r'.request_hash ≡ r.request_hash
  pub same_hash : r'.sidecar_payload_hash ≡ r.sidecar_payload_hash
  pub newer : (r' ≡ r) ⊎ (r.state_version < r'.state_version)
  pub hash_kept : truthy r.signed_raw_tx_hash ≡ true → r'.signed_raw_tx_hash ≡ r.signed_raw_tx_hash

pub Advances-refl : (r : Row) → Advances r r
Advances-refl r = record {
  same_id = refl;
  same_payload = refl;
  same_request = refl;
  same_hash = refl;
  newer = inl refl;
  hash_kept = λ _. refl;
}

newer_trans :
    {r r' r'' : Row}
    → (r' ≡ r) ⊎ (r.state_version < r'.state_version)
    → (r'' ≡ r') ⊎ (r'.state_version < r''.state_version)
    → (r'' ≡ r) ⊎ (r.state_version < r''.state_version)
newer_trans (inl p) (inl q) = inl (q ∙ p)
newer_trans (inl p) (inr q) = inr (ground arith)
newer_trans (inr p) (inl q) = inr (ground arith)
newer_trans (inr p) (inr q) = inr (omega arith)

pub Advances-trans : {r r' r'' : Row} → Advances r r' → Advances r' r'' → Advances r r''
Advances-trans a b = record {
  same_id = b.same_id ∙ a.same_id;
  same_payload = b.same_payload ∙ a.same_payload;
  same_request = b.same_request ∙ a.same_request;
  same_hash = b.same_hash ∙ a.same_hash;
  newer = newer_trans a.newer b.newer;
  hash_kept = λ t. ground (arith, a.hash_kept t, b.hash_kept);
}

-- The row of an execution, later.
abbrev pub Later : Shared → String → Row → Type 0
Later s id r = (c : Row) × (find_row id s.rows ≡ some c) × Advances r c

pub record Evolves (s s' : Shared) : Type 0 where
  pub rows : (id : String) (r : Row) → find_row id s.rows ≡ some r → Later s' id r

pub Evolves-refl : (s : Shared) → Evolves s s
Evolves-refl s = record { rows = λ id r found. (r, found, Advances-refl r) }

pub Evolves-trans : {s s' s'' : Shared} → Evolves s s' → Evolves s' s'' → Evolves s s''
Evolves-trans a b = record {
  rows = λ id r found.
      let (c, found', up) = a.rows id r found in
      let (d, found'', up') = b.rows id c found' in (d, found'', Advances-trans up up');
}

-- The transaction that was sent is the one whose hash the execution's row stores.
abbrev pub IsRecorded : (String → String) → Shared → Sent → Type 0
IsRecorded sha256_hex s e =
    (r : Row) × (find_row e.execution_id s.rows ≡ some r)
    × (r.signed_raw_tx_hash ≡ some (sha256_hex e.tx.raw))

pub record IsSafe (sha256_hex : String → String) (s : Shared) : Type 0 where
  pub sound : (id : String) (r : Row) → find_row id s.rows ≡ some r → IsSound r
  pub recorded : All (IsRecorded sha256_hex s) s.sent

pub record IsFair (env : Env) : Type 0 where
  pub hash_nonempty : (raw : String) → truthy (some (env.sha256_hex raw)) ≡ true
  pub others_safe :
      (n : ℕ) (s : Shared) → IsSafe env.sha256_hex s → IsSafe env.sha256_hex (env.others n s)
  pub others_evolve : (n : ℕ) (s : Shared) → IsSafe env.sha256_hex s → Evolves s (env.others n s)
