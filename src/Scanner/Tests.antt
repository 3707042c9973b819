-- ===== src/Scanner/Tests.antt =====
-- The scanner on a small chain, and the theorems on it (app/block_scanner.py).
use mathlib.Core.List.{Memᴰ}
use tron_shkeeper.Base.{
  ℕ, String, ◌≤◌, ◌<◌, ◌≡◌, refl, true, false, Option, none, some, List, [], ◌∷◌, ltb, upper, arith,
}
use tron_shkeeper.Payout.Types.{ok}
use tron_shkeeper.Confirmation.Transfers.{
  Transfer, transfer_contract, trigger_smart_contract, LogEntry, Tx, transfer_event, parse_tx,
}
use tron_shkeeper.Scanner.Range.{Config, Turn, run_turns}
use tron_shkeeper.Scanner.Progress.{WasScanned, seen-WasScanned, IsClear, clear_turns_catch_up}
use tron_shkeeper.Scanner.Events.{is_at_least, is_above, notified, trc20_sweep, Work, decision, Env}
use tron_shkeeper.Scanner.Scan.{Node, info_of, scan}
use tron_shkeeper.Scanner.Notices.{scan-notified}

abbrev config : Config
config = record { max_block_chunk_size = 2; last_block_num_hint = none }

-- The first turn fails at a block, the next ones go through.
abbrev failing : Turn
failing = record { first_height = ok 20; height = ok 20; scan = λ b. ltb b 13 }

abbrev clear : Turn
clear = record { first_height = ok 20; height = ok 20; scan = λ b. true }

run-after_failure : run_turns config (failing ∷ clear ∷ []) (some 10) ≡ some 13
unfolding run_turns
run-after_failure = refl

run-first : run_turns config (clear ∷ []) none ≡ some 20
unfolding run_turns
run-first = refl

seen-WasScanned_example :
    (m : ℕ) × ((run_turns config (failing ∷ clear ∷ []) (some 10) ≡ some m)
      × ((10 ≤ m) × ((b : ℕ) → 10 < b → b ≤ m → WasScanned (failing ∷ clear ∷ []) b)))
seen-WasScanned_example = seen-WasScanned config (failing ∷ clear ∷ []) 10

clear-IsClear : IsClear 20 clear
clear-IsClear = record { answers = refl; scans = λ b. refl }

clear_turns_catch_up_example :
    run_turns config (clear ∷ clear ∷ clear ∷ clear ∷ []) (some 10) ≡ some 20
clear_turns_catch_up_example =
    clear_turns_catch_up config (clear ∷ clear ∷ clear ∷ clear ∷ []) 20 10
      (clear-IsClear, (clear-IsClear, (clear-IsClear, (clear-IsClear, tt)))) (omega arith)
      (omega arith)

abbrev env : Env
env = record {
  watched = "TOne" ∷ "TTwo" ∷ [];
  main_account = "TFee";
  drain = none;
  skip_notifications = false;
  celery_nodelay = false;
  trx_min_transfer_threshold = 1_000_000;
  notify = λ symbol txid. ok "success";
  eligibility = λ symbol address txid. decision (some "allow");
  transfer_now = λ address symbol txid. ok tt;
}

-- An AML configuration: deposits of more than one TRX are checked.
abbrev aml_env : Env
aml_env = record env {
  drain = some (record {
    aml_enabled = true;
    aml_cryptos = ("TRX", 1_000_000) ∷ [];
    regular_enabled = false;
    regular_cryptos = "TRX" ∷ [];
  });
}

abbrev usdt_tx : Tx
usdt_tx = record { txid = "t1"; contract = trigger_smart_contract; contract_ret = some "SUCCESS" }

abbrev trx_tx : Tx
trx_tx = record {
  txid = "t2";
  contract = transfer_contract "TOther" "TTwo" 500_000;
  contract_ret = some "SUCCESS";
}

abbrev failed_tx : Tx
failed_tx = record {
  txid = "t0";
  contract = transfer_contract "TOther" "TTwo" 500_000;
  contract_ret = some "OUT_OF_ENERGY";
}

abbrev own_tx : Tx
own_tx = record {
  txid = "t3";
  contract = transfer_contract "TOne" "TTwo" 500_000;
  contract_ret = some "SUCCESS";
}

abbrev logs : String → Option (List LogEntry)
logs txid = some (
    record {
      address = "TR7";
      topics = transfer_event ∷ "TOther" ∷ "TOne" ∷ [];
      event_data = "4c4b40";
    }
    ∷ [])

abbrev node : Node
node = record {
  decoders = record { decode_address = λ s. ok s; decode_uint256 = λ s. ok 5_000_000 };
  tokens = record { symbol = "USDT"; contract_address = "TR7"; decimal = 6; here = true } ∷ [];
  download_block = λ n. ok (some (failed_tx ∷ usdt_tx ∷ trx_tx ∷ []));
  download_logs = λ n. ok logs;
}

abbrev node_of : Tx → Node
node_of tx = record node { download_block = λ n. ok (some (tx ∷ [])) }

abbrev empty_work : Work
empty_work = record { events = []; rows = [] }

abbrev usdt_transfer : Transfer
usdt_transfer = record {
  txid = "t1";
  symbol = "USDT";
  src_addr = "TOther";
  dst_addr = "TOne";
  units = 5_000_000;
  decimals = 6;
  is_trc20 = true;
}

-- A small deposit of TRX is told and stays where it is; the USDT is told and swept.
scan-events :
    (scan env node 7 empty_work).1.events
    ≡ notified "TRX" "t2" ∷ trc20_sweep "TOne" "USDT" "t1" ∷ notified "USDT" "t1" ∷ []
unfolding scan parse_tx upper is_at_least is_above
scan-events = refl

scan-ok : (scan env node 7 empty_work).0 ≡ ok true
unfolding scan parse_tx upper is_at_least is_above
scan-ok = refl

parsed :
    parse_tx node.decoders node.tokens usdt_tx (info_of env node logs usdt_tx)
    ≡ ok (usdt_transfer ∷ [])
unfolding parse_tx
parsed = refl

scan-notified_example : Memᴰ (notified "USDT" "t1") (scan env node 7 empty_work).1.events
scan-notified_example =
    scan-notified env node 7 empty_work refl refl refl (Memᴰ.tail (Memᴰ.head refl)) parsed
      (Memᴰ.head refl) (record { to_watched = refl; not_ignored = λ _. refl }) scan-ok

-- With AML checks, a deposit at or below the smallest amount makes the scan of its block fail, after
-- the shop was told; so does a transfer between two one-time accounts.
scan-small_deposit : (scan aml_env (node_of trx_tx) 7 empty_work).0 ≡ ok false
unfolding scan parse_tx upper is_at_least is_above
scan-small_deposit = refl

scan-own_transfer : (scan aml_env (node_of own_tx) 7 empty_work).0 ≡ ok false
unfolding scan parse_tx upper is_at_least is_above
scan-own_transfer = refl
