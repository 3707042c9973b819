-- ===== src/Outbox/Batch.antt =====
-- Proofs about `claim_due_payout_callbacks` (app/payout_callback_outbox.py).
use mathlib.Core.List.{Memᴰ}
use mathlib.Core.List.Memᴰ
use tron_shkeeper.Base.{
  ℕ, zero, suc, String, ◌≡◌, refl, sym, subst, ◌⊎◌, inl, inr, Bool, true, false, [], ◌∷◌, ◌==◌,
  arith, if◌then◌else◌, Bool-cases,
}
use tron_shkeeper.Outbox.Table.{
  Callback, Config, Table, is_before, is_claimable, claim_row, take_claim, insert_by_due,
  order_by_due, select_claimable, limit_rows, due_rows, has_id, claim_selected,
  claim_due_payout_callbacks,
}

insert_by_due-Memᴰ :
    (q x : Callback) (rs : Table) → Memᴰ x (insert_by_due q rs) → (x ≡ q) ⊎ Memᴰ x rs
unfolding insert_by_due
insert_by_due-Memᴰ q x [] member = Memᴰ.cases_cons member
insert_by_due-Memᴰ q x (r ∷ rs) member = inserted (insert_by_due-Memᴰ q x rs) (is_before q r) member
  where
    inserted :
        (Memᴰ x (insert_by_due q rs) → (x ≡ q) ⊎ Memᴰ x rs)
        → (b : Bool) → Memᴰ x (if b then q ∷ r ∷ rs else r ∷ insert_by_due q rs)
        → (x ≡ q) ⊎ Memᴰ x (r ∷ rs)
    inserted go true m = Memᴰ.cases_cons m
    inserted go false (Memᴰ.head same) = inr (Memᴰ.head same)
    inserted go false (Memᴰ.tail later) = elim (go later) [
      | inl same ↦ inl same
      | inr there ↦ inr (Memᴰ.tail there)
    ]

order_by_due-Memᴰ : (x : Callback) (rs : Table) → Memᴰ x (order_by_due rs) → Memᴰ x rs
unfolding order_by_due
order_by_due-Memᴰ x [] member = member
order_by_due-Memᴰ x (r ∷ rs) member = elim (insert_by_due-Memᴰ r x (order_by_due rs) member) [
  | inl same ↦ Memᴰ.head same
  | inr later ↦ Memᴰ.tail (order_by_due-Memᴰ x rs later)
]

limit_rows-Memᴰ : (n : ℕ) (x : Callback) (rs : Table) → Memᴰ x (limit_rows n rs) → Memᴰ x rs
unfolding limit_rows
limit_rows-Memᴰ zero x rs member = absurd (Memᴰ.not-nil member)
limit_rows-Memᴰ (suc n) x [] member = member
limit_rows-Memᴰ (suc n) x (r ∷ rs) (Memᴰ.head same) = Memᴰ.head same
limit_rows-Memᴰ (suc n) x (r ∷ rs) (Memᴰ.tail later) = Memᴰ.tail (limit_rows-Memᴰ n x rs later)

select_claimable-Memᴰ :
    (c : Config) (now : ℕ) (x : Callback) (rs : Table)
    → Memᴰ x (select_claimable c now rs)
    → Memᴰ x rs × (is_claimable c now x ≡ true)
unfolding select_claimable
select_claimable-Memᴰ c now x [] member = absurd (Memᴰ.not-nil member)
select_claimable-Memᴰ c now x (r ∷ rs) member =
    selected (select_claimable-Memᴰ c now x rs) (is_claimable c now r) refl member
  where
    selected :
        (Memᴰ x (select_claimable c now rs) → Memᴰ x rs × (is_claimable c now x ≡ true))
        → (b : Bool) → is_claimable c now r ≡ b
        → Memᴰ x (if b then r ∷ select_claimable c now rs else select_claimable c now rs)
        → Memᴰ x (r ∷ rs) × (is_claimable c now x ≡ true)
    selected go true claimable (Memᴰ.head same) =
        (Memᴰ.head same, subst (λ q. is_claimable c now q ≡ true) (sym same) claimable)
    selected go true claimable (Memᴰ.tail later) =
        let (there, claimable_x) = go later in (Memᴰ.tail there, claimable_x)
    selected go false refused later =
        let (there, claimable_x) = go later in (Memᴰ.tail there, claimable_x)

-- A row of the list with the key.
record HasKey (id : ℕ) (rs : Table) : Type 0 where
  found : Callback
  member : Memᴰ found rs
  same_id : found.id ≡ id

has_id-HasKey : (id : ℕ) (rs : Table) → has_id id rs ≡ true → HasKey id rs
unfolding has_id
has_id-HasKey id [] has = ground arith
has_id-HasKey id (r ∷ rs) has = elim (Bool-cases (r.id == id)) [
  | inl same ↦ record { found = r; member = Memᴰ.head refl; same_id = ground (arith, same) }
  | inr other ↦
      let later = has_id-HasKey id rs (ground (arith, has, other)) in
      record { found = later.found; member = Memᴰ.tail later.member; same_id = later.same_id }
]

-- Keys tell the rows of a table apart.
unfoldable pub HasKeys : Table → Type 0
HasKeys table = (q r : Callback) → Memᴰ q table → Memᴰ r table → q.id ≡ r.id → q ≡ r

-- A row that a batch claim leaves, and the row that it comes from.
pub record IsClaimOf (c : Config) (now : ℕ) (token : String) (table : Table) (r' : Callback)
    : Type 0 where
  pub row : Callback
  pub member : Memᴰ row table
  pub step : (r' ≡ row) ⊎ ((is_claimable c now row ≡ true) × (r' ≡ claim_row c now token row))

chosen_claimable :
    (c : Config) (now limit : ℕ) (table : Table) (r : Callback)
    → HasKeys table
    → Memᴰ r table
    → has_id r.id (due_rows c now limit table) ≡ true
    → is_claimable c now r ≡ true
unfolding due_rows HasKeys
chosen_claimable c now limit table r keys member has =
    let key = has_id-HasKey r.id (due_rows c now limit table) has in
    let due = limit_rows-Memᴰ limit key.found _ key.member in
    let (there, claimable) =
      select_claimable-Memᴰ c now key.found table (order_by_due-Memᴰ key.found _ due) in
    subst (λ q. is_claimable c now q ≡ true) (keys key.found r there member key.same_id) claimable

take_claim-claim_row :
    (c : Config) (now : ℕ) (token : String) (r : Callback)
    → is_claimable c now r ≡ true
    → take_claim now token r ≡ claim_row c now token r
unfolding take_claim claim_row
take_claim-claim_row c now token r claimable = ground arith

claim_selected-Memᴰ :
    (c : Config) (now : ℕ) (token : String) (chosen rs table : Table) (r' : Callback)
    → ((r : Callback) → Memᴰ r rs → Memᴰ r table)
    → ((r : Callback) → Memᴰ r rs → has_id r.id chosen ≡ true → is_claimable c now r ≡ true)
    → Memᴰ r' (claim_selected now token chosen rs)
    → IsClaimOf c now token table r'
unfolding claim_selected
claim_selected-Memᴰ c now token chosen [] table r' within claimable member =
    absurd (Memᴰ.not-nil member)
claim_selected-Memᴰ c now token chosen (r ∷ rs) table r' within claimable (Memᴰ.head same) =
    elim (Bool-cases (has_id r.id chosen)) [
      | inl has ↦
          let may = claimable r (Memᴰ.head refl) has in
          let taken = take_claim-claim_row c now token r may in
          record {
            row = r;
            member = within r (Memᴰ.head refl);
            step = inr (may, ground (arith, same, has, taken));
          }
      | inr other ↦ record {
        row = r;
        member = within r (Memᴰ.head refl);
        step = inl (ground (arith, same, other));
      }
    ]
claim_selected-Memᴰ c now token chosen (r ∷ rs) table r' within claimable (Memᴰ.tail later) =
    claim_selected-Memᴰ c now token chosen rs table r' (λ q m. within q (Memᴰ.tail m))
      (λ q m. claimable q (Memᴰ.tail m)) later

-- In a table whose keys tell its rows apart, each row after a batch claim is a row of the table, or
-- such a row that may be claimed as a single claim leaves it.
pub claim_due_payout_callbacks-IsClaimOf :
    (c : Config) (now limit : ℕ) (token : String) (table : Table) (r' : Callback)
    → HasKeys table
    → Memᴰ r' (claim_due_payout_callbacks c now limit token table)
    → IsClaimOf c now token table r'
unfolding claim_due_payout_callbacks
claim_due_payout_callbacks-IsClaimOf c now limit token table r' keys member =
    claim_selected-Memᴰ c now token (due_rows c now limit table) table table r' (λ q m. m)
      (λ q m has. chosen_claimable c now limit table q keys m has) member
