-- ===== src/Payout/Known.antt =====
-- Rows that a process has read, and the transitions that a row allows.
use tron_shkeeper.Base.{
  ℕ, ◌+◌, String, ◌≡◌, ◌≢◌, ◌⊎◌, inl, inr, true, Option, some, arith, List, [], ◌∷◌, ◌=s◌, eq_iff,
  Bool-cases, truthy,
}
use tron_shkeeper.Payout.Types.{State, Row}
use tron_shkeeper.Payout.World.{Shared, find_row}
use tron_shkeeper.Payout.Fields.{Field, assign, assign_all, stamp, write_row}
use tron_shkeeper.Payout.Rows.{find_row-id}
use tron_shkeeper.Payout.Evolution.{
  IsSound, Advances, Advances-refl, Advances-trans, Later, Evolves, IsSafe,
}

pub same_or_other : (s t : String) → (s ≡ t) ⊎ (s ≢ t)
same_or_other s t = elim (Bool-cases (s =s t)) [
  | inl e ↦ inl ((eq_iff s t).0 e)
  | inr e ↦ inr (λ same. cc ((eq_iff s t).1 same))
]

-- A row that was read at some time: sound, and the execution's row is now that row or a later one.
pub record Knows (s : Shared) (r : Row) : Type 0 where
  pub sound : IsSound r
  pub later : Later s r.execution_id r

pub Knows-Evolves : {s s' : Shared} {r : Row} → Knows s r → Evolves s s' → Knows s' r
Knows-Evolves {r} k up =
    let (c, found, ahead) = k.later in
    let (d, found', ahead') = up.rows r.execution_id c found in
    record { sound = k.sound; later = (d, found', Advances-trans ahead ahead') }

-- A row that is in the table now.
pub Knows-found :
    (sha : String → String) (s : Shared) (id : String) (r : Row)
    → IsSafe sha s
    → find_row id s.rows ≡ some r
    → Knows s r
Knows-found sha s id r safe found = record {
  sound = safe.sound id r found;
  later = (r, cc (find_row-id id s.rows r found), Advances-refl r);
}

-- A row that is known of is the row in the table, or an earlier version of it.
pub current-eq : {r c : Row} → Advances r c → c.state_version ≡ r.state_version → c ≡ r
current-eq a same = elim (a.newer) [ inl e ↦ e | inr more ↦ absurd (omega arith) ]

-- Columns that no transition writes, and the version that it counts up.
pub record Rewrites (r r' : Row) (versions : ℕ) : Type 0 where
  pub same_id : r'.execution_id ≡ r.execution_id
  pub same_payload : r'.canonical_payload ≡ r.canonical_payload
  pub same_request : r'.request_hash ≡ r.request_hash
  pub same_hash : r'.sidecar_payload_hash ≡ r.sidecar_payload_hash
  pub version : r'.state_version ≡ r.state_version + versions

pub assign-Rewrites : (f : Field) (r : Row) → Rewrites r (assign f r) 0
unfolding assign
assign-Rewrites (Field.lease_owner v) r = ground arith
assign-Rewrites _ r = ground arith

pub assign_all-Rewrites : (fs : List Field) (r : Row) → Rewrites r (assign_all fs r) 0
unfolding assign_all
assign_all-Rewrites [] r = ground arith
assign_all-Rewrites (f ∷ fs) r =
    ground (arith, assign-Rewrites f r, assign_all-Rewrites fs (assign f r))

pub write_row-Rewrites :
    (state : State) (tid : String) (time : ℕ) (fs : List Field) (r : Row)
    → Rewrites r (write_row state tid time fs r) 1
unfolding write_row stamp
write_row-Rewrites state tid time fs r =
    ground (arith, assign_all-Rewrites fs (stamp state tid time r))

-- A transition that a row allows: it leads to a sound row, and keeps the hash of a transaction that
-- is signed.
pub record IsLegal (state : State) (fs : List Field) (r : Row) : Type 0 where
  pub sound : (tid : String) (time : ℕ) → IsSound (write_row state tid time fs r)
  pub hash_kept :
      (tid : String) (time : ℕ)
      → truthy r.signed_raw_tx_hash ≡ true
      → (write_row state tid time fs r).signed_raw_tx_hash ≡ r.signed_raw_tx_hash

pub write_row-Advances :
    (state : State) (tid : String) (time : ℕ) (fs : List Field) (r : Row)
    → IsLegal state fs r
    → Advances r (write_row state tid time fs r)
write_row-Advances state tid time fs r legal =
    let w = write_row-Rewrites state tid time fs r in
    record {
      same_id = w.same_id;
      same_payload = w.same_payload;
      same_request = w.same_request;
      same_hash = w.same_hash;
      newer = inr (omega (arith, w.version));
      hash_kept = legal.hash_kept tid time;
    }

-- What a transition returns: a row that is sound and is the one it wrote, or a later one.
pub record Written (state : State) (fs : List Field) (row : Row) (o : Option Row) (s : Shared)
    : Type 0 where
  pub row' : Row
  pub transition_id : String
  pub time : ℕ
  pub returned : o ≡ some row'
  pub known : Knows s row'
  pub ahead : Advances (write_row state transition_id time fs row) row'
