-- ===== src/Confirmation/Verdict.antt =====
-- Proofs about the verdicts of `refresh_tron_usdt_confirmation` (app/payout_status.py).
use mathlib.Core.List.{Memᴰ}
use mathlib.Core.List.Memᴰ
use tron_shkeeper.Base.{
  ℕ, ◌+◌, ◌-◌, ◌≤◌, ◌<◌, String, ◌≡◌, refl, sym, subst, ap, ◌⊎◌, inl, inr, true, false, Option,
  none, some, List, ◌∙◌, [], ◌∷◌, arith, Bool-cases,
}
use tron_shkeeper.Payout.Types.{State, Result, ok, err}
use tron_shkeeper.Confirmation.Transfers.{
  Token, Transfer, LogEntry, Contract, trigger_smart_contract, transfer_contract, other_contract,
  Tx, TxInfo, Decoders, parse_entry, parse_log, parse_contract, parse_tx, is_success, add_transfer,
  and_then, trx_transfer,
}
use tron_shkeeper.Confirmation.Check.{
  Expected, Progress, present, progress_at, confirmation_progress, has_min_confirmations,
  is_expected, find_expected, check_found, check_parsed, refresh_tron_usdt_confirmation,
}

-- A transfer of the list that is expected.
pub record HasExpected (expected : Expected) (ts : List Transfer) : Type 0 where
  pub transfer : Transfer
  pub member : Memᴰ transfer ts
  pub fits : is_expected expected transfer ≡ true

found_or_later :
    (expected : Expected) (x : Transfer) (ts : List Transfer) {t : Transfer}
    → find_expected expected (x ∷ ts) ≡ some t
    → is_expected expected x ≡ false
    → find_expected expected ts ≡ some t
unfolding find_expected
found_or_later expected x ts found other = ground arith

find_expected-some :
    (expected : Expected) (ts : List Transfer) {t : Transfer}
    → find_expected expected ts ≡ some t
    → HasExpected expected ts
unfolding find_expected
find_expected-some expected [] found = ground arith
find_expected-some expected (x ∷ ts) found = elim (Bool-cases (is_expected expected x)) [
  | inl fits ↦ record { transfer = x; member = Memᴰ.head refl; fits = fits }
  | inr other ↦
      let later = find_expected-some expected ts (found_or_later expected x ts found other) in
      record { transfer = later.transfer; member = Memᴰ.tail later.member; fits = later.fits }
]

find_expected-none :
    (expected : Expected) (ts : List Transfer)
    → find_expected expected ts ≡ none
    → {t : Transfer} → Memᴰ t ts
    → is_expected expected t ≡ false
unfolding find_expected
find_expected-none expected [] missing member = elim member [ ]
find_expected-none expected (x ∷ ts) missing (Memᴰ.head same) =
    let at_x : is_expected expected x ≡ false = ground arith in
    subst (λ u. is_expected expected u ≡ false) (sym same) at_x
find_expected-none expected (x ∷ ts) missing (Memᴰ.tail later) =
    find_expected-none expected ts (ground arith) later

-- A log entry that tells of the transfer.
pub record IsLogged (decoders : Decoders) (tokens : List Token) (txid : String)
    (log : List LogEntry) (t : Transfer) : Type 0 where
  pub entry : LogEntry
  pub member : Memᴰ entry log
  pub parsed : parse_entry decoders tokens txid entry ≡ ok (some t)

and_then-ok :
    {A B : Type 0} (r : Result A) (f : A → Result B) {b : B}
    → and_then r f ≡ ok b
    → (a : A) × ((r ≡ ok a) × (f a ≡ ok b))
and_then-ok (ok a) f run = (a, (refl, run))
and_then-ok (err e) f run = ground arith

add_transfer-cases :
    (o : Option Transfer) (ts : List Transfer) {t : Transfer}
    → Memᴰ t (add_transfer o ts)
    → (o ≡ some t) ⊎ Memᴰ t ts
add_transfer-cases none ts member = inr member
add_transfer-cases (some x) ts (Memᴰ.head same) = inl (ap some (sym same))
add_transfer-cases (some x) ts (Memᴰ.tail later) = inr later

parse_log-IsLogged :
    (decoders : Decoders) (tokens : List Token) (txid : String) (log : List LogEntry)
    (ts : List Transfer) {t : Transfer}
    → parse_log decoders tokens txid log ≡ ok ts
    → Memᴰ t ts
    → IsLogged decoders tokens txid log t
unfolding parse_log
parse_log-IsLogged decoders tokens txid [] ts {t} parsed member =
    let none_left : ts ≡ [] = ground arith in
    absurd (Memᴰ.not-nil (subst (λ l. Memᴰ t l) none_left member))
parse_log-IsLogged decoders tokens txid (entry ∷ log) ts {t} parsed member =
    let (o, (head_ok, rest_run)) = and_then-ok (parse_entry decoders tokens txid entry) _ parsed in
    let (rest, (rest_ok, added)) = and_then-ok (parse_log decoders tokens txid log) _ rest_run in
    let same : ts ≡ add_transfer o rest = ground arith in
    elim (add_transfer-cases o rest (subst (λ l. Memᴰ t l) same member)) [
      | inl this ↦ record { entry = entry; member = Memᴰ.head refl; parsed = head_ok ∙ ap ok this }
      | inr later ↦
          let found = parse_log-IsLogged decoders tokens txid log rest rest_ok later in
          record { entry = found.entry; member = Memᴰ.tail found.member; parsed = found.parsed }
    ]

-- Only a contract call has a transfer of a token, and then it is logged.
parse_contract-IsLogged :
    (decoders : Decoders) (tokens : List Token) (txid : String) (log : Option (List LogEntry))
    (c : Contract) (ts : List Transfer) {t : Transfer}
    → parse_contract decoders tokens txid log c ≡ ok ts
    → Memᴰ t ts
    → t.is_trc20 ≡ true
    → (entries : List LogEntry) × ((log ≡ some entries) × IsLogged decoders tokens txid entries t)
unfolding parse_contract
parse_contract-IsLogged decoders tokens txid log (transfer_contract a b n) ts {t} parsed member
      token =
    let alone : ts ≡ trx_transfer txid a b n ∷ [] = ground arith in
    let same = Memᴰ.eq_of_singleton (subst (λ l. Memᴰ t l) alone member) in
    let not_token : false ≡ true = sym (ap (λ u. u.is_trc20) same) ∙ token in ground arith
parse_contract-IsLogged decoders tokens txid none trigger_smart_contract ts parsed member token =
    ground arith
parse_contract-IsLogged decoders tokens txid (some log) trigger_smart_contract ts parsed member
      token =
    (log, (refl, parse_log-IsLogged decoders tokens txid log ts parsed member))
parse_contract-IsLogged decoders tokens txid log (other_contract c) ts parsed member token =
    ground arith

-- The chain shows that the payout was paid: the transaction succeeded, its log has an entry that
-- tells of the expected transfer, and its block has enough blocks on it.
pub record IsPaid (decoders : Decoders) (tokens : List Token) (min_confirmations : ℕ)
    (expected : Expected) (tx : Tx) (info : TxInfo) (latest : Result ℕ) : Type 0 where
  pub log : List LogEntry
  pub transfer : Transfer
  pub block : ℕ
  pub height : ℕ
  pub succeeded : is_success tx.contract_ret ≡ true
  pub has_log : info.log ≡ some log
  pub logged : IsLogged decoders tokens tx.txid log transfer
  pub fits : is_expected expected transfer ≡ true
  pub in_block : info.block_number ≡ some block
  pub at_height : latest ≡ ok height
  pub buried : min_confirmations ≤ height + 1 - block

check_found-confirmed :
    (progress : Progress) (o : Option Transfer)
    → (check_found progress o).state ≡ State.confirmed
    → (has_min_confirmations progress ≡ true) × ((t : Transfer) × (o ≡ some t))
unfolding check_found
check_found-confirmed progress none verdict = ground arith
check_found-confirmed progress (some t) verdict = (ground arith, (t, refl))

check_found-terminal :
    (progress : Progress) (o : Option Transfer)
    → (check_found progress o).state ≡ State.failed_chain_terminal
    → o ≡ none
unfolding check_found
check_found-terminal progress none verdict = refl
check_found-terminal progress (some t) verdict = ground arith

check_found-paid :
    (progress : Progress) (o : Option Transfer)
    → has_min_confirmations progress ≡ true
    → (o ≡ none → ⊥)
    → (check_found progress o).state ≡ State.confirmed
unfolding check_found
check_found-paid progress none enough found = absurd (found refl)
check_found-paid progress (some t) enough found = ground arith

check_parsed-confirmed :
    (expected : Expected) (progress : Progress) (contract_ret : Option String)
    (r : Result (List Transfer))
    → (check_parsed expected progress contract_ret r).state ≡ State.confirmed
    → (has_min_confirmations progress ≡ true)
      × ((ts : List Transfer) × ((r ≡ ok ts) × HasExpected expected ts))
unfolding check_parsed
check_parsed-confirmed expected progress contract_ret (err e) verdict = ground arith
check_parsed-confirmed expected progress contract_ret (ok ts) verdict =
    let (enough, (t, found)) = check_found-confirmed progress _ verdict in
    (enough, (ts, (refl, find_expected-some expected ts found)))

parse_tx-IsLogged :
    (decoders : Decoders) (tokens : List Token) (tx : Tx) (info : TxInfo) (ts : List Transfer)
    {t : Transfer}
    → parse_tx decoders tokens tx info ≡ ok ts
    → Memᴰ t ts
    → t.is_trc20 ≡ true
    → (is_success tx.contract_ret ≡ true)
      × ((log : List LogEntry) × ((info.log ≡ some log) × IsLogged decoders tokens tx.txid log t))
unfolding parse_tx
parse_tx-IsLogged decoders tokens tx info ts parsed member token =
    let success : is_success tx.contract_ret ≡ true = ground arith in
    let contract : parse_contract decoders tokens tx.txid info.log tx.contract ≡ ok ts =
      ground arith in
    (
      success,
      parse_contract-IsLogged decoders tokens tx.txid info.log tx.contract ts contract member token,
    )

progress_at-enough :
    (min_confirmations : ℕ) (b : Option ℕ) (latest : Result ℕ)
    → 0 < min_confirmations
    → has_min_confirmations (progress_at min_confirmations (present b) latest) ≡ true
    → (block : ℕ) × ((height : ℕ) × ((b ≡ some block)
          × ((latest ≡ ok height) × (min_confirmations ≤ height + 1 - block))))
unfolding progress_at
progress_at-enough m none latest some_needed enough = ground arith
progress_at-enough m (some n) (err e) some_needed enough = ground arith
progress_at-enough m (some n) (ok latest) some_needed enough =
    (n, (latest, (refl, (refl, ground arith))))

is_expected-token :
    (expected : Expected) (t : Transfer) → is_expected expected t ≡ true → t.is_trc20 ≡ true
unfolding is_expected
is_expected-token expected t fits = ground arith

-- Where at least one confirmation is asked for, a payout is confirmed only if the transaction
-- succeeded, its log has an entry that is parsed to a transfer of USDT with the payout's source,
-- destination and amount, and the latest block is so many blocks on that the transaction's own and
-- the blocks after it are the number that is asked for.
pub confirmed-IsPaid :
    (decoders : Decoders) (tokens : List Token) (min_confirmations : ℕ) (expected : Expected)
    (tx : Tx) (info : TxInfo) (latest : Result ℕ)
    → 0 < min_confirmations
    → (refresh_tron_usdt_confirmation decoders tokens min_confirmations expected tx info
        latest).state
      ≡ State.confirmed
    → IsPaid decoders tokens min_confirmations expected tx info latest
unfolding refresh_tron_usdt_confirmation confirmation_progress
confirmed-IsPaid decoders tokens m expected tx info latest some_needed verdict =
    let (enough, (ts, (parsed, has))) =
      check_parsed-confirmed expected _ tx.contract_ret _ verdict in
    let (block, (height, (in_block, (at_height, buried)))) =
      progress_at-enough m info.block_number latest some_needed enough in
    let (succeeded, (log, (has_log, logged))) =
      parse_tx-IsLogged decoders tokens tx info ts parsed has.member
        (is_expected-token expected has.transfer has.fits) in
    record {
      log = log;
      transfer = has.transfer;
      block = block;
      height = height;
      succeeded = succeeded;
      has_log = has_log;
      logged = logged;
      fits = has.fits;
      in_block = in_block;
      at_height = at_height;
      buried = buried;
    }

-- Where a transaction that can be parsed is failed for good, none of its transfers is the expected
-- one.
pub terminal_not_paid :
    (decoders : Decoders) (tokens : List Token) (min_confirmations : ℕ) (expected : Expected)
    (tx : Tx) (info : TxInfo) (latest : Result ℕ) (ts : List Transfer) (t : Transfer)
    → (refresh_tron_usdt_confirmation decoders tokens min_confirmations expected tx info
        latest).state
      ≡ State.failed_chain_terminal
    → parse_tx decoders tokens tx info ≡ ok ts
    → Memᴰ t ts
    → is_expected expected t ≡ false
unfolding refresh_tron_usdt_confirmation check_parsed
terminal_not_paid decoders tokens m expected tx info latest ts t verdict parsed member =
    let at_ts =
      subst
        (λ r.
          (check_parsed expected (confirmation_progress m info latest) tx.contract_ret r).state
          ≡ State.failed_chain_terminal)
        parsed verdict in
    find_expected-none expected ts (check_found-terminal _ _ at_ts) member

-- A payout is confirmed where its transaction can be parsed, one of the transfers is the expected
-- one, and there are as many confirmations as are asked for.
pub paid_is_confirmed :
    (decoders : Decoders) (tokens : List Token) (min_confirmations : ℕ) (expected : Expected)
    (tx : Tx) (info : TxInfo) (latest : Result ℕ) (ts : List Transfer) (t : Transfer)
    → parse_tx decoders tokens tx info ≡ ok ts
    → Memᴰ t ts
    → is_expected expected t ≡ true
    → has_min_confirmations (confirmation_progress min_confirmations info latest) ≡ true
    → (refresh_tron_usdt_confirmation decoders tokens min_confirmations expected tx info
        latest).state
      ≡ State.confirmed
unfolding refresh_tron_usdt_confirmation check_parsed
paid_is_confirmed decoders tokens m expected tx info latest ts t parsed member fits enough =
    let progress = confirmation_progress m info latest in
    subst (λ r. (check_parsed expected progress tx.contract_ret r).state ≡ State.confirmed)
      (sym parsed)
      (check_found-paid progress (find_expected expected ts) enough
        (λ missing. let unfit = find_expected-none expected ts missing member in ground arith))
