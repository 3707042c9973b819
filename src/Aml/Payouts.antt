-- ===== src/Aml/Payouts.antt =====
-- `AmlWallet.payout_for_tx` (app/custom/aml/classes.py): the pieces of a deposit are sent one by one, and
-- the row of each is written after it was sent.
use tron_shkeeper.Base.{
  ℕ, String, Bool, true, false, Option, none, some, List, [], ◌∷◌, ◌++◌, ◌=s◌, ltb, leb, length,
  if◌then◌else◌,
}
use tron_shkeeper.Payout.Types.{Exc, Result, ok, err}
use tron_shkeeper.Effect.{Effect, pure, raise, ◌>>=◌, ◌>>◌, modify, gets, of_result}
use tron_shkeeper.Aml.Split.{Share, SplitConfig, Deposit, PaidRow, total, build_payout_list}

-- What `Wallet.transfer` comes to: the transaction and a status, the client's ValidationError, or
-- another exception.
pub data Sent : Type 0 where
  sent : (txid status : String) → Sent
  invalid : Sent
  failed : Exc → Sent

-- The table of payouts, and, for each transfer that went out, the deposit and the address: all of
-- them, and those whose row was not written.
pub record Books : Type 0 where
  pub rows : List PaidRow
  pub transfers : List (String × String)
  pub lost : List (String × String)

-- The wallet and the configuration; amounts are in hundredths of a unit. What the wallet answers may
-- depend on what was sent before.
pub record Bank : Type 0 where
  -- `balance_of` of the account
  pub balance : Result ℕ
  -- TRX_MIN_TRANSFER_THRESHOLD, or the threshold of the token
  pub threshold : ℕ
  -- TRX_PER_BANDWIDTH_UNIT * BANDWIDTH_PER_TRX_TRANSFER
  pub bandwidth_cost : ℕ
  -- the check of the fee for the transfers of a token, with the TRX that it may send first
  pub provide_fee : ℕ → Result Bool
  -- `transfer`: the address, the piece and the cost that is taken off it
  pub transfer : Books → String → ℕ → ℕ → Sent
  -- what comes of the steps after a transfer, up to the commit of its row: an exception, or a stop of
  -- the process, leaves no row
  pub commit : Books → Result (Unit {0})

-- Whether the workflow of the symbol lets the payouts go, with the cost of each. The sum of the
-- pieces less the costs, and the costs, is the sum of the pieces.
unfoldable pub check_funds : Bank → String → ℕ → List Share → Result Bool
unfolding total
check_funds bank symbol balance pieces =
    if ltb balance bank.threshold
    then ok false
    else if symbol =s "TRX"
    then ok (leb (total pieces) balance)
    else bank.provide_fee (length pieces)

abbrev pub cost_of : Bank → String → ℕ
cost_of bank symbol = if symbol =s "TRX" then bank.bandwidth_cost else 0

-- What is written after a transfer that went out.
unfoldable pub note_transfer : PaidRow → Result (Unit {0}) → Effect Books Bool
unfolding pure raise modify ◌>>◌
note_transfer row (err e) =
    modify (λ b. record b {
      transfers = (row.tx_id, row.address) ∷ b.transfers;
      lost = (row.tx_id, row.address) ∷ b.lost;
    })
    >> raise e
note_transfer row (ok u) =
    modify (λ b. record b {
      rows = b.rows ++ row ∷ [];
      transfers = (row.tx_id, row.address) ∷ b.transfers;
    })
    >> pure true

-- What comes after a transfer, and whether the loop goes on.
unfoldable pub write_payout : Bank → String → String → ℕ → ℕ → Sent → Effect Books Bool
unfolding pure raise gets ◌>>=◌ note_transfer
write_payout bank tx_id address piece cost invalid = pure false
write_payout bank tx_id address piece cost (failed e) = raise e
write_payout bank tx_id address piece cost (sent txid status) =
    gets bank.commit
    >>= note_transfer (record {
      tx_id = tx_id;
      address = address;
      amount_calc = piece;
      cost = cost;
      external_tx_id = txid;
      status = status;
    })

unfoldable pub send_all : Bank → String → ℕ → List Share → Effect Books Bool
unfolding pure gets ◌>>=◌ write_payout
send_all bank tx_id cost [] = pure true
send_all bank tx_id cost ((address, piece) ∷ rest) =
    gets (λ b. bank.transfer b address piece cost) >>= λ answer.
    write_payout bank tx_id address piece cost answer >>= λ go_on.
    if go_on then send_all bank tx_id cost rest else pure false

-- The payouts of a list, if there is one.
unfoldable pub pay_list : Bank → String → String → Option (List Share) → Effect Books Bool
unfolding pure ◌>>=◌ check_funds send_all
pay_list bank symbol tx_id none = pure false
pay_list bank symbol tx_id (some pieces) = of_result bank.balance >>= λ balance.
    of_result (check_funds bank symbol balance pieces) >>= λ enough.
    if enough then send_all bank tx_id (cost_of bank symbol) pieces else pure false

-- `payout_for_tx`
unfoldable pub payout_for_tx :
    SplitConfig → List Deposit → Bank → String → String → Effect Books Bool
unfolding gets ◌>>=◌ build_payout_list pay_list
payout_for_tx config deposits bank symbol tx_id =
    gets (λ b. build_payout_list config symbol tx_id deposits b.rows) >>= λ list.
    of_result list >>= pay_list bank symbol tx_id

-- The books after runs of `payout_for_tx` for a transaction, each with answers of its own.
unfoldable pub run_payouts :
    SplitConfig → List Deposit → String → String → List Bank → Books → Books
unfolding payout_for_tx
run_payouts config deposits symbol tx_id [] b = b
run_payouts config deposits symbol tx_id (bank ∷ banks) b =
    run_payouts config deposits symbol tx_id banks
      (payout_for_tx config deposits bank symbol tx_id b).1
