-- ===== src/Confirmation/Tests.antt =====
-- A confirmed transaction, and the theorems on verdicts (app/payout_status.py) at it.
use mathlib.Core.List.{Memᴰ}
use tron_shkeeper.Base.{◌≡◌, refl, true, false, some, List, [], ◌∷◌, arith}
use tron_shkeeper.Payout.Types.{State, ok}
use tron_shkeeper.Confirmation.Transfers.{
  Token, Transfer, trigger_smart_contract, Tx, TxInfo, Decoders, transfer_event, parse_tx,
}
use tron_shkeeper.Confirmation.Check.{
  Expected, is_expected, has_min_confirmations, confirmation_progress,
  refresh_tron_usdt_confirmation,
}
use tron_shkeeper.Confirmation.Verdict.{
  IsPaid, confirmed-IsPaid, terminal_not_paid, paid_is_confirmed,
}

abbrev decoders : Decoders
decoders = record { decode_address = λ s. ok s; decode_uint256 = λ s. ok 5_000_000 }

abbrev tokens : List Token
tokens = record { symbol = "USDT"; contract_address = "TR7"; decimal = 6; here = true } ∷ []

abbrev tx : Tx
tx = record { txid = "t1"; contract = trigger_smart_contract; contract_ret = some "SUCCESS" }

abbrev info : TxInfo
info = record {
  log = some (
      record {
        address = "TR7";
        topics = transfer_event ∷ "TFee" ∷ "TDest" ∷ [];
        event_data = "4c4b40";
      }
      ∷ []);
  block_number = some 100;
}

abbrev expected : Expected
expected = record { source = "TFee"; destination = "TDest"; amount = 5_000_000 }

abbrev other : Expected
other = record { source = "TFee"; destination = "TElse"; amount = 5_000_000 }

abbrev transfer : Transfer
transfer = record {
  txid = "t1";
  symbol = "USDT";
  src_addr = "TFee";
  dst_addr = "TDest";
  units = 5_000_000;
  decimals = 6;
  is_trc20 = true;
}

check-confirmed :
    (refresh_tron_usdt_confirmation decoders tokens 19 expected tx info (ok 118)).state
    ≡ State.confirmed
unfolding refresh_tron_usdt_confirmation
check-confirmed = refl

check-terminal :
    (refresh_tron_usdt_confirmation decoders tokens 19 other tx info (ok 118)).state
    ≡ State.failed_chain_terminal
unfolding refresh_tron_usdt_confirmation
check-terminal = refl

tx-parsed : parse_tx decoders tokens tx info ≡ ok (transfer ∷ [])
unfolding parse_tx
tx-parsed = refl

confirmed-IsPaid_example : IsPaid decoders tokens 19 expected tx info (ok 118)
confirmed-IsPaid_example =
    confirmed-IsPaid decoders tokens 19 expected tx info (ok 118) (omega arith) check-confirmed

terminal_not_paid_example : is_expected other transfer ≡ false
terminal_not_paid_example =
    terminal_not_paid decoders tokens 19 other tx info (ok 118) (transfer ∷ []) transfer
      check-terminal tx-parsed (Memᴰ.head refl)

transfer-fits : is_expected expected transfer ≡ true
unfolding is_expected
transfer-fits = refl

progress-enough : has_min_confirmations (confirmation_progress 19 info (ok 118)) ≡ true
unfolding confirmation_progress
progress-enough = refl

paid_is_confirmed_example :
    (refresh_tron_usdt_confirmation decoders tokens 19 expected tx info (ok 118)).state
    ≡ State.confirmed
paid_is_confirmed_example =
    paid_is_confirmed decoders tokens 19 expected tx info (ok 118) (transfer ∷ []) transfer
      tx-parsed (Memᴰ.head refl) transfer-fits progress-enough
