-- ===== src/Confirmation/Check.antt =====
-- `refresh_tron_usdt_confirmation` (app/payout_status.py). The chain's answers are arguments: the
-- transaction, its info, and the number of the latest block.
use tron_shkeeper.Base.{
  ℕ, zero, suc, ◌+◌, ◌-◌, ◌*◌, String, Bool, true, false, Option, none, some, List, [], ◌∷◌, ◌&&◌,
  not, leb, ◌==◌, ◌=s◌, if◌then◌else◌,
}
use tron_shkeeper.Payout.Types.{State, Result, ok, err}
use tron_shkeeper.Confirmation.Transfers.{
  Token, Transfer, Tx, TxInfo, Decoders, parse_tx, is_success,
}

-- What the payout promised: its source, destination, and amount in micro-USDT.
pub record Expected : Type 0 where
  pub source : String
  pub destination : String
  pub amount : ℕ

-- `_confirmation_progress`
pub record Progress : Type 0 where
  pub confirmations : ℕ
  pub min_confirmations : ℕ
  pub tx_block_number : Option ℕ
  pub latest_block_number : Option ℕ
  pub confirmation_error : Option String

-- The returned dictionary; `failure` is the pair of `error_code` and `error_message`.
pub record Check : Type 0 where
  pub state : State
  pub transfer_match : Bool
  pub matched_transfer : Option Transfer
  pub error : Option String
  pub failure : Option (String × String)
  pub confirmation : Progress

abbrev pub no_progress : ℕ → Option ℕ → String → Progress
no_progress min_confirmations block_number message = record {
  confirmations = 0;
  min_confirmations = min_confirmations;
  tx_block_number = block_number;
  latest_block_number = none;
  confirmation_error = some message;
}

-- A block number that is 0 counts as missing.
abbrev pub present : Option ℕ → Option ℕ
present none = none
present (some n) = elim (n == 0) [ true ↦ none | false ↦ some n ]

unfoldable pub progress_at : ℕ → Option ℕ → Result ℕ → Progress
progress_at min_confirmations none latest =
    no_progress min_confirmations none "transaction block number is unavailable"
progress_at min_confirmations (some n) (err e) = no_progress min_confirmations (some n) e.message
progress_at min_confirmations (some n) (ok latest) = record {
  confirmations = latest + 1 - n;
  min_confirmations = min_confirmations;
  tx_block_number = some n;
  latest_block_number = some latest;
  confirmation_error = none;
}

unfoldable pub confirmation_progress : ℕ → TxInfo → Result ℕ → Progress
unfolding progress_at
confirmation_progress min_confirmations info latest =
    progress_at min_confirmations (present info.block_number) latest

-- `_has_min_confirmations`
abbrev pub has_min_confirmations : Progress → Bool
has_min_confirmations p = leb p.min_confirmations p.confirmations

unfoldable pub power_of_ten : ℕ → ℕ
power_of_ten zero = 1
power_of_ten (suc n) = 10 * power_of_ten n

-- Whether so many units of a token are so many micro-USDT: `Decimal` compares the quotients.
unfoldable pub same_amount : ℕ → ℕ → ℕ → Bool
unfolding power_of_ten
same_amount units decimals micro = units * 1_000_000 == micro * power_of_ten decimals

-- The condition on a transfer.
unfoldable pub is_expected : Expected → Transfer → Bool
unfolding same_amount
is_expected expected t =
    t.is_trc20
    && t.symbol =s "USDT"
    && t.src_addr =s expected.source
    && t.dst_addr =s expected.destination
    && same_amount t.units t.decimals expected.amount

-- The loop over the transfers ends at the first that is expected.
unfoldable pub find_expected : Expected → List Transfer → Option Transfer
unfolding is_expected
find_expected expected [] = none
find_expected expected (t ∷ ts) =
    if is_expected expected t then some t else find_expected expected ts

abbrev pub confirming : Option Transfer → Option String → Progress → Check
confirming t error progress = record {
  state = State.confirming;
  transfer_match = elim t [ none ↦ false | some m ↦ true ];
  matched_transfer = t;
  error = error;
  failure = none;
  confirmation = progress;
}

abbrev pub chain_terminal : Option String → String → String → Progress → Check
chain_terminal error code message progress = record {
  state = State.failed_chain_terminal;
  transfer_match = false;
  matched_transfer = none;
  error = error;
  failure = some (code, message);
  confirmation = progress;
}

-- What a transfer that was found or not, and the progress, come to.
unfoldable pub check_found : Progress → Option Transfer → Check
check_found progress (some t) =
    if has_min_confirmations progress
    then record (confirming (some t) none progress) { state = State.confirmed }
    else confirming (some t) none progress
check_found progress none =
    if has_min_confirmations progress
    then chain_terminal none "TRON_USDT_TRANSFER_NOT_FOUND"
        "Confirmed TRON transaction does not contain the expected USDT transfer" progress
    else confirming none none progress

-- `contractRet not in (None, "SUCCESS")`
abbrev pub is_failed : Option String → Bool
is_failed none = false
is_failed (some status) = not (is_success (some status))

unfoldable pub check_parsed : Expected → Progress → Option String → Result (List Transfer) → Check
unfolding check_found find_expected
check_parsed expected progress contract_ret (ok transfers) =
    check_found progress (find_expected expected transfers)
check_parsed expected progress contract_ret (err e) =
    if is_failed contract_ret
    then chain_terminal (some e.message) "TRON_TRANSACTION_FAILED" e.message progress
    else confirming none (some e.message) progress

-- `refresh_tron_usdt_confirmation`
unfoldable pub refresh_tron_usdt_confirmation :
    Decoders → List Token → ℕ → Expected → Tx → TxInfo → Result ℕ → Check
unfolding check_parsed parse_tx confirmation_progress
refresh_tron_usdt_confirmation decoders tokens min_confirmations expected tx info latest =
    check_parsed expected (confirmation_progress min_confirmations info latest) tx.contract_ret
      (parse_tx decoders tokens tx info)
