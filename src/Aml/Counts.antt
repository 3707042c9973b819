-- ===== src/Aml/Counts.antt =====
-- How often an address is paid for a deposit, by the table and by the transfers, with proofs about lists of
-- payouts (app/custom/aml/functions.py).
use mathlib.Core.List.{Memᴰ}
use tron_shkeeper.Base.{
  ℕ, ◌+◌, ◌≤◌, ◌≡◌, refl, ap, subst, String, true, false, List, [], ◌∷◌, ◌++◌, inl, inr, Bool-cases,
  contains, ◌=s◌, ◌&&◌, leb, if◌then◌else◌, arith, eq_iff,
}
use tron_shkeeper.Aml.Split.{Share, RiskLevel, SplitConfig, PaidRow, addresses_done, unpaid}
use tron_shkeeper.Aml.Exact.{exact_shares}

-- How often an address is in a list, and in the rows of a transaction.
unfoldable pub occurrences : String → List Share → ℕ
occurrences a [] = 0
occurrences a ((address, part) ∷ rest) = (if a =s address then 1 else 0) + occurrences a rest

unfoldable pub paid_times : String → String → List PaidRow → ℕ
paid_times tx_id a [] = 0
paid_times tx_id a (r ∷ rs) =
    (if r.tx_id =s tx_id && a =s r.address then 1 else 0) + paid_times tx_id a rs

pub paid_times-append :
    (tx_id a : String) (rows : List PaidRow) (r : PaidRow)
    → paid_times tx_id a (rows ++ r ∷ [])
      ≤ paid_times tx_id a rows + (if a =s r.address then 1 else 0)
unfolding paid_times
paid_times-append tx_id a [] r = ground arith
paid_times-append tx_id a (x ∷ rows) r =
    let later = paid_times-append tx_id a rows r in omega (arith, later)

-- The keys of a dictionary are told apart.
pub record IsDistinct (config : SplitConfig) : Type 0 where
  pub levels :
      (level : RiskLevel)
      → Memᴰ level config.risk_scores
      → (a : String) → occurrences a level.addresses ≤ 1
  pub split : (a : String) → occurrences a config.regular_split ≤ 1

pub occurrences-exact_shares :
    (a : String) (amount : ℕ) (shares : List Share)
    → occurrences a (exact_shares amount shares) ≡ occurrences a shares
unfolding occurrences exact_shares
occurrences-exact_shares a amount [] = refl
occurrences-exact_shares a amount ((address, ratio) ∷ rest) =
    ap (λ n. (if a =s address then 1 else 0) + n) (occurrences-exact_shares a amount rest)

pub occurrences-unpaid :
    (a : String) (done : List String) (pieces : List Share)
    → occurrences a (unpaid done pieces) ≤ occurrences a pieces
unfolding occurrences unpaid
occurrences-unpaid a done [] = omega arith
occurrences-unpaid a done ((address, part) ∷ rest) =
    let later = occurrences-unpaid a done rest in
    elim (Bool-cases (contains address done)) [
      | inl yes_done ↦ rw yes_done (omega (arith, later))
      | inr not_done ↦ rw not_done (omega (arith, later))
    ]

pub unpaid-done :
    (a : String) (done : List String) (pieces : List Share)
    → contains a done ≡ true
    → occurrences a (unpaid done pieces) ≡ 0
unfolding occurrences unpaid
unpaid-done a done [] is_done = refl
unpaid-done a done ((address, part) ∷ rest) is_done =
    let later = unpaid-done a done rest is_done in
    elim (Bool-cases (contains address done)) [
      | inl yes_done ↦ rw yes_done later
      | inr not_done ↦ elim (Bool-cases (a =s address)) [
        | inl same ↦
            let is_done' : contains address done ≡ true =
              subst (λ x. contains x done ≡ true) ((eq_iff a address).0 same) is_done in
            absurd (ground (arith, is_done', not_done))
        | inr different ↦ rw (not_done, different) (omega (arith, later))
      ]
    ]

paid-done :
    (tx_id a : String) (rows : List PaidRow)
    → 1 ≤ paid_times tx_id a rows
    → contains a (addresses_done tx_id rows) ≡ true
unfolding paid_times addresses_done
paid-done tx_id a [] once = absurd (omega (arith, once))
paid-done tx_id a (r ∷ rs) once = elim (Bool-cases (r.tx_id =s tx_id)) [
  | inl here ↦ elim (Bool-cases (a =s r.address)) [
    | inl same ↦ rw (here, same) refl
    | inr different ↦
        rw (here, different) (paid-done tx_id a rs (ground (arith, once, here, different)))
  ]
  | inr elsewhere ↦ rw elsewhere (paid-done tx_id a rs (ground (arith, once, elsewhere)))
]

pub unpaid-never :
    (tx_id a : String) (rows : List PaidRow)
    → contains a (addresses_done tx_id rows) ≡ false
    → paid_times tx_id a rows ≡ 0
unpaid-never tx_id a rows not_done = elim (Bool-cases (leb 1 (paid_times tx_id a rows))) [
  | inl some_times ↦
      let is_done = paid-done tx_id a rows (ground (arith, some_times)) in
      absurd (ground (arith, is_done, not_done))
  | inr never ↦ ground (arith, never)
]

-- How many of the transfers are for a deposit and to an address.
unfoldable pub times : String → String → List (String × String) → ℕ
times tx_id a [] = 0
times tx_id a ((tx, address) ∷ rest) =
    (if tx =s tx_id && a =s address then 1 else 0) + times tx_id a rest

pub paid_times-snoc :
    (tx_id a : String) (rows : List PaidRow) (r : PaidRow)
    → paid_times tx_id a (rows ++ r ∷ [])
      ≡ paid_times tx_id a rows + (if r.tx_id =s tx_id && a =s r.address then 1 else 0)
unfolding paid_times
paid_times-snoc tx_id a [] r = omega arith
paid_times-snoc tx_id a (x ∷ rows) r =
    let later = paid_times-snoc tx_id a rows r in omega (arith, later)
