-- ===== src/Payout/Replace.antt =====
-- Proofs about a read, and about the replacement of a row in the table.
use tron_shkeeper.Base.{
  ℕ, String, ◌≡◌, refl, ◌≢◌, sym, ◌∙◌, subst, inl, inr, true, some, arith, List, [], ◌∷◌, All,
  truthy,
}
use tron_shkeeper.Payout.Types.{Row}
use tron_shkeeper.Payout.World.{
  Sent, Shared, World, Env, before_statement, get_row, find_row, update_row,
}
use tron_shkeeper.Payout.Rows.{update_row_found, update_row-find_ne}
use tron_shkeeper.Payout.Evolution.{
  IsSound, Advances, Advances-refl, Advances-trans, Later, Evolves, IsRecorded, IsSafe, IsFair,
}
use tron_shkeeper.Payout.Ensures.{Ensures}
use tron_shkeeper.Payout.Known.{same_or_other, Knows, Knows-found}

module _ {env : Env} (fair : IsFair env) where
  pub before_statement-Evolves :
      (w : World)
      → IsSafe env.sha256_hex w.shared
      → Evolves w.shared (before_statement env w).shared
        × IsSafe env.sha256_hex (before_statement env w).shared
  unfolding before_statement
  before_statement-Evolves w safe =
      (fair.others_evolve w.tick w.shared safe, fair.others_safe w.tick w.shared safe)

  -- A read returns the row that is there.
  pub get_row-Ensures :
      (id : String) (w : World)
      → IsSafe env.sha256_hex w.shared
      → Ensures env.sha256_hex w (λ o s. o ≡ find_row id s.rows) (get_row env id w)
  unfolding get_row
  get_row-Ensures id w safe =
      let (up, safe') = before_statement-Evolves w safe in
      record { evolves = up; safe = safe'; post = refl }

  -- A read of an execution that exists returns a row that is sound and not older.
  pub get_row-Later :
      (id : String) (r : Row) (w : World)
      → IsSafe env.sha256_hex w.shared
      → Later w.shared id r
      → Ensures env.sha256_hex w
          (λ o s. (c : Row) × (o ≡ some c) × Knows s c × Advances r c)
          (get_row env id w)
  unfolding get_row
  get_row-Later id r w safe (c, found, ahead) =
      let e = get_row-Ensures id w safe in
      let (d, found', ahead') = e.evolves.rows id c found in
      record {
        evolves = e.evolves;
        safe = e.safe;
        post = (
          d,
          found',
          Knows-found env.sha256_hex (get_row env id w).1.shared id d e.safe found',
          Advances-trans ahead ahead',
        );
      }

  -- What was sent stays on record, whatever the others do.
  pub IsRecorded-Evolves :
      (s s' : Shared)
      → Evolves s s'
      → (sent : List Sent) → All (IsRecorded env.sha256_hex s) sent
      → All (IsRecorded env.sha256_hex s') sent
  IsRecorded-Evolves s s' up [] h = tt
  IsRecorded-Evolves s s' up (x ∷ sent) ((r, at, signed), h) =
      let (c, at', ahead) = up.rows x.execution_id r at in
      let stored : truthy r.signed_raw_tx_hash ≡ true =
        subst (λ v. truthy v ≡ true) (sym signed) (fair.hash_nonempty x.tx.raw) in
      ((c, at', ahead.hash_kept stored ∙ signed), IsRecorded-Evolves s s' up sent h)

  -- A row is replaced by a sound one that it may become.
  pub replace_row :
      (s : Shared) (rows' : List Row) (id : String) (version : ℕ) (write : Row → Row) (row : Row)
      → IsSafe env.sha256_hex s
      → ((r : Row) → (write r).execution_id ≡ r.execution_id)
      → find_row id s.rows ≡ some row
      → update_row id version write s.rows ≡ some rows'
      → IsSound (write row)
      → Advances row (write row)
      → Evolves s (record s { rows = rows' }) × IsSafe env.sha256_hex (record s { rows = rows' })
  replace_row s rows' id version write row safe keep found e sound ahead = (
    record { rows = later },
    record {
      sound = sound';
      recorded =
          IsRecorded-Evolves s (record s { rows = rows' }) (record { rows = later }) s.sent
            safe.recorded;
    },
  )
    where
      now : find_row id rows' ≡ some (write row)
      now =
          let (r, found', at, wrote) = update_row_found id version write s.rows keep e in
          let same : r ≡ row = ground arith in rw (← same) wrote

      other : (j : String) → j ≢ id → find_row j rows' ≡ find_row j s.rows
      other j ne = update_row-find_ne id version write s.rows j keep ne e

      later :
          (j : String) (r : Row)
          → find_row j s.rows ≡ some r
          → Later (record s { rows = rows' }) j r
      later j r at = elim (same_or_other j id) [
        | inl here ↦
            let is_row : row ≡ r = cc in
            (write row, cc now, subst (λ x. Advances x (write row)) is_row ahead)
        | inr there ↦ (r, other j there ∙ at, Advances-refl r)
      ]

      sound' : (j : String) (r : Row) → find_row j rows' ≡ some r → IsSound r
      sound' j r at = elim (same_or_other j id) [
        | inl here ↦ let is_row : write row ≡ r = cc now in subst IsSound is_row sound
        | inr there ↦ safe.sound j r (sym (other j there) ∙ at)
      ]
