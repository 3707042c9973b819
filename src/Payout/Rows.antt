-- ===== src/Payout/Rows.antt =====
-- Proofs about the table under an update of one row.
use tron_shkeeper.Base.{
  ℕ, String, ◌≡◌, ◌≢◌, inl, inr, some, List, [], ◌∷◌, arith, ◌=s◌, eq_iff, Bool-cases, Option-cases,
}
use tron_shkeeper.Payout.Types.{Row}
use tron_shkeeper.Payout.World.{find_row, update_row}

pub find_row-id :
    (id : String) (rows : List Row) (r : Row) → find_row id rows ≡ some r → r.execution_id ≡ id
unfolding find_row
find_row-id id [] r h = cc
find_row-id id (x ∷ rows) r h = ground (arith, find_row-id id rows r, eq_iff x.execution_id id)

module _ (id : String) (version : ℕ) (write : Row → Row) where
  -- An update that succeeds has found the row at the version asked for, and writes it.
  pub update_row_found :
      (rows : List Row) {rows' : List Row}
      → ((r : Row) → (write r).execution_id ≡ r.execution_id)
      → update_row id version write rows ≡ some rows'
      → (r : Row) × (find_row id rows ≡ some r)
        × (r.state_version ≡ version)
        × (find_row id rows' ≡ some (write r))
  unfolding find_row update_row
  update_row_found [] keep h = cc
  update_row_found (x ∷ rows) {rows'} keep h = elim (Bool-cases (x.execution_id =s id)) [
    | inl here ↦ (x, rw here, ground arith, ground (arith, keep x))
    | inr there ↦ elim (Option-cases (update_row id version write rows)) [
      | inl e ↦ absurd (ground arith)
      | inr (rest, e) ↦
          let (r, found, at, wrote) = update_row_found rows keep e in
          (r, rw there found, at, ground arith)
    ]
  ]

  pub update_row-find_ne :
      (rows : List Row) {rows' : List Row} (j : String)
      → ((r : Row) → (write r).execution_id ≡ r.execution_id)
      → j ≢ id
      → update_row id version write rows ≡ some rows'
      → find_row j rows' ≡ find_row j rows
  unfolding find_row update_row
  update_row-find_ne [] j keep ne h = cc
  update_row-find_ne (x ∷ rows) {rows'} j keep ne h =
      elim (Option-cases (update_row id version write rows)) [
        | inl e ↦ ground (arith, keep x, eq_iff x.execution_id id, eq_iff x.execution_id j)
        | inr (rest, e) ↦ ground (
          arith,
          keep x,
          eq_iff x.execution_id id,
          eq_iff x.execution_id j,
          update_row-find_ne rows j keep ne e,
        )
      ]
