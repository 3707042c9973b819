-- ===== src/Auth/Replay.antt =====
-- Proofs about requests that come again to `verify_payout_request` (app/payout_auth.py).
use mathlib.Core.List.{Memᴰ}
use mathlib.Core.List.Memᴰ
use tron_shkeeper.Base.{
  ℕ, ◌≤◌, ◌≡◌, ◌≢◌, refl, sym, subst, String, Bool, true, false, Option, none, some, List, [], ◌∷◌,
  ◌++◌, ◌⊎◌, inl, inr, ◌&&◌, ◌=s◌, if◌then◌else◌, arith, Bool-cases, All, eq_refl,
}
use tron_shkeeper.Auth.Request.{
  Stamp, at_least_zero, below_zero, NonceRow, Request, Env, Refusal, Times, read_request,
  is_expired, is_old, delete_old, has_nonce, remember_nonce, answer_nonce, admit_request,
  judge_request, verify_payout_request, verify_all,
}

-- A row that is not expired at a time is kept until then.
fresh_not_old :
    (stamp : Stamp) (tolerance now later : ℕ)
    → is_expired later tolerance stamp ≡ false
    → now ≤ later
    → is_old now tolerance stamp ≡ false
unfolding is_expired is_old
fresh_not_old (at_least_zero n) tolerance now later fresh before = ground (arith, fresh, before)
fresh_not_old (below_zero n) tolerance now later fresh before = ground (arith, fresh, before)

delete_old-keeps :
    (now tolerance : ℕ) (row : NonceRow) (rows : List NonceRow)
    → is_old now tolerance row.timestamp ≡ false
    → Memᴰ row rows
    → Memᴰ row (delete_old now tolerance rows)
unfolding delete_old
delete_old-keeps now tolerance row [] fresh m = m
delete_old-keeps now tolerance row (x ∷ rows) fresh m = elim (Memᴰ.cases_cons m) [
  | inl e ↦
      let kept : is_old now tolerance x.timestamp ≡ false =
        subst (λ r. is_old now tolerance r.timestamp ≡ false) e fresh in
      rw kept (Memᴰ.head e)
  | inr later ↦
      let m' = delete_old-keeps now tolerance row rows fresh later in
      elim (Bool-cases (is_old now tolerance x.timestamp)) [
        | inl old ↦ rw old m'
        | inr kept ↦ rw kept (Memᴰ.tail m')
      ]
]

has_nonce-member :
    (row : NonceRow) (rows : List NonceRow) → Memᴰ row rows → has_nonce row rows ≡ true
unfolding has_nonce
has_nonce-member row [] m = absurd (Memᴰ.not-nil m)
has_nonce-member row (x ∷ rows) m = elim (Memᴰ.cases_cons m) [
  | inl e ↦
      let here : row.consumer =s row.consumer && row.key_id =s row.key_id && row.nonce =s row.nonce
          ≡ true =
        rw (eq_refl row.consumer, eq_refl row.key_id, eq_refl row.nonce) refl in
      let same : x.consumer =s row.consumer && x.key_id =s row.key_id && x.nonce =s row.nonce
          ≡ true =
        subst
          (λ y. y.consumer =s row.consumer && y.key_id =s row.key_id && y.nonce =s row.nonce ≡ true)
          e here in
      rw same refl
  | inr later ↦
      let found = has_nonce-member row rows later in
      elim (Bool-cases
        (x.consumer =s row.consumer && x.key_id =s row.key_id && x.nonce =s row.nonce)) [
          | inl same ↦ rw same refl
          | inr other ↦ rw other found
        ]
]

member-append : (row : NonceRow) (rows : List NonceRow) → Memᴰ row (rows ++ row ∷ [])
member-append row [] = Memᴰ.head refl
member-append row (x ∷ rows) = Memᴰ.tail (member-append row rows)

append-keeps :
    (row new : NonceRow) (rows : List NonceRow) → Memᴰ row rows → Memᴰ row (rows ++ new ∷ [])
append-keeps row new [] m = absurd (Memᴰ.not-nil m)
append-keeps row new (x ∷ rows) m = elim (Memᴰ.cases_cons m) [
  | inl e ↦ Memᴰ.head e
  | inr later ↦ Memᴰ.tail (append-keeps row new rows later)
]

remember_nonce-keeps :
    (now tolerance : ℕ) (row new : NonceRow) (rows : List NonceRow)
    → is_old now tolerance row.timestamp ≡ false
    → Memᴰ row rows
    → Memᴰ row (remember_nonce now tolerance new rows).1
unfolding remember_nonce
remember_nonce-keeps now tolerance row new rows fresh m =
    elim (Bool-cases (has_nonce new (delete_old now tolerance rows))) [
      | inl known ↦ rw known m
      | inr unknown ↦
          rw unknown (append-keeps row new _ (delete_old-keeps now tolerance row rows fresh m))
    ]

answer_nonce-rows : (answer : Bool × List NonceRow) → (answer_nonce answer).1 ≡ answer.1
answer_nonce-rows (true, rows) = refl
answer_nonce-rows (false, rows) = refl

admit_request-keeps :
    (now tolerance : ℕ) (row new : NonceRow) (refusal : Option Refusal) (rows : List NonceRow)
    → is_old now tolerance row.timestamp ≡ false
    → Memᴰ row rows
    → Memᴰ row (admit_request now tolerance new refusal rows).1
unfolding admit_request
admit_request-keeps now tolerance row new (some refusal) rows fresh m = m
admit_request-keeps now tolerance row new none rows fresh m =
    subst (λ l. Memᴰ row l) (sym (answer_nonce-rows (remember_nonce now tolerance new rows)))
      (remember_nonce-keeps now tolerance row new rows fresh m)

module _ (env : Env) (rail : String) (row : NonceRow) where
  judge_request-keeps :
      (now : Times) (r : Request) (read : Refusal ⊎ NonceRow) (rows : List NonceRow)
      → is_old now.deleting env.tolerance row.timestamp ≡ false
      → Memᴰ row rows
      → Memᴰ row (judge_request env now rail r read rows).1
  unfolding judge_request
  judge_request-keeps now r (inl refusal) rows fresh m = m
  judge_request-keeps now r (inr new) rows fresh m =
      elim (Bool-cases (is_expired now.checked env.tolerance new.timestamp)) [
        | inl expired ↦ rw expired m
        | inr current ↦
            rw current (admit_request-keeps now.deleting env.tolerance row new _ rows fresh m)
      ]

  verify_all-keeps :
      (last : ℕ) (requests : List (Times × Request)) (rows : List NonceRow)
      → is_expired last env.tolerance row.timestamp ≡ false
      → All (λ e. e.0.deleting ≤ last) requests
      → Memᴰ row rows
      → Memᴰ row (verify_all env rail requests rows)
  unfolding verify_all verify_payout_request
  verify_all-keeps last [] rows fresh before m = m
  verify_all-keeps last ((now, r) ∷ rest) rows fresh (first, others) m =
      verify_all-keeps last rest _ fresh others (
        judge_request-keeps now r (read_request r) rows
          (fresh_not_old row.timestamp env.tolerance now.deleting last fresh first) m)

-- What is known where a request was let in: its row is in the table.
admit_request-stored :
    (now tolerance : ℕ) (row : NonceRow) (refusal : Option Refusal) (rows : List NonceRow)
    → (admit_request now tolerance row refusal rows).0 ≡ none
    → Memᴰ row (admit_request now tolerance row refusal rows).1
unfolding admit_request remember_nonce
admit_request-stored now tolerance row (some refusal) rows admitted =
    absurd (ground (arith, admitted))
admit_request-stored now tolerance row none rows admitted =
    elim (Bool-cases (has_nonce row (delete_old now tolerance rows))) [
      | inl known ↦ absurd (ground (arith, admitted, known))
      | inr unknown ↦ rw unknown (member-append row _)
    ]

else_admitted :
    (b : Bool) (x y : Option Refusal × List NonceRow)
    → b ≡ false
    → (if b then x else y).0 ≡ none
    → y.0 ≡ none
else_admitted true x y is_false h = absurd (ground (arith, is_false))
else_admitted false x y is_false h = h

record IsStored (env : Env) (read : Refusal ⊎ NonceRow) (rows : List NonceRow) : Type 0 where
  row : NonceRow
  same : read ≡ inr row
  member : Memᴰ row rows

judge_request-IsStored :
    (env : Env) (now : Times) (rail : String) (r : Request) (read : Refusal ⊎ NonceRow)
    (rows : List NonceRow)
    → (judge_request env now rail r read rows).0 ≡ none
    → IsStored env read (judge_request env now rail r read rows).1
unfolding judge_request
judge_request-IsStored env now rail r (inl refusal) rows admitted =
    absurd (ground (arith, admitted))
judge_request-IsStored env now rail r (inr row) rows admitted =
    elim (Bool-cases (is_expired now.checked env.tolerance row.timestamp)) [
      | inl expired ↦ absurd (ground (arith, admitted, expired))
      | inr current ↦ record {
        row = row;
        same = refl;
        member = rw current (
            admit_request-stored now.deleting env.tolerance row _ rows
              (else_admitted _ _ _ current admitted));
      }
    ]

-- A request whose row is stored is refused.
admit_request-known :
    (now tolerance : ℕ) (row : NonceRow) (refusal : Option Refusal) (rows : List NonceRow)
    → is_old now tolerance row.timestamp ≡ false
    → Memᴰ row rows
    → (admit_request now tolerance row refusal rows).0 ≢ none
unfolding admit_request remember_nonce
admit_request-known now tolerance row (some refusal) rows fresh m admitted =
    ground (arith, admitted)
admit_request-known now tolerance row none rows fresh m admitted =
    let known = has_nonce-member row _ (delete_old-keeps now tolerance row rows fresh m) in
    ground (arith, admitted, known)

judge_request-known :
    (env : Env) (last : Times) (rail : String) (r : Request) (row : NonceRow) (rows : List NonceRow)
    → (is_expired last.checked env.tolerance row.timestamp ≡ false
        → is_expired last.deleting env.tolerance row.timestamp ≡ false)
    → (is_expired last.deleting env.tolerance row.timestamp ≡ false → Memᴰ row rows)
    → (judge_request env last rail r (inr row) rows).0 ≢ none
unfolding judge_request
judge_request-known env last rail r row rows in_time stored admitted =
    elim (Bool-cases (is_expired last.checked env.tolerance row.timestamp)) [
      | inl expired ↦ ground (arith, admitted, expired)
      | inr current ↦
          admit_request-known last.deleting env.tolerance row _ rows
            (fresh_not_old row.timestamp env.tolerance last.deleting last.deleting (in_time current)
              (omega arith))
            (stored (in_time current)) (else_admitted _ _ _ current admitted)
    ]

-- A request that was let in is refused whenever it comes again, whatever requests came in between, as
-- long as none of them deleted nonces at a later time, and the request, if it has not expired when it
-- is checked again, has not expired when it deletes the old nonces.
pub verify_payout_request-once :
    (env : Env) (rail : String) (r : Request) (rows : List NonceRow) (first last : Times)
    (between : List (Times × Request))
    → (verify_payout_request env first rail r rows).0 ≡ none
    → All (λ e. e.0.deleting ≤ last.deleting) between
    → ((row : NonceRow)
        → read_request r ≡ inr row
        → is_expired last.checked env.tolerance row.timestamp ≡ false
        → is_expired last.deleting env.tolerance row.timestamp ≡ false)
    → (verify_payout_request env last rail r
        (verify_all env rail between (verify_payout_request env first rail r rows).1)).0
      ≢ none
unfolding verify_payout_request
verify_payout_request-once env rail r rows first last between admitted before in_time =
    let stored = judge_request-IsStored env first rail r (read_request r) rows admitted in
    subst
      (λ read.
        (judge_request env last rail r read
          (verify_all env rail between (judge_request env first rail r (read_request r) rows).1)).0
        ≢ none)
      (sym stored.same)
      (judge_request-known env last rail r stored.row _ (in_time stored.row stored.same) (λ current.
        verify_all-keeps env rail stored.row last.deleting between _ current before stored.member))
