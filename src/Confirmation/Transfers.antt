-- ===== src/Confirmation/Transfers.antt =====
-- `parse_tx` (app/block_scanner.py): the transfers of a transaction. The decoders of the chain's ABI
-- are parameters. An amount is kept in the units of its token.
use Prim.Native.String.{◌++◌ as ◌<>◌}
use tron_shkeeper.Base.{
  ℕ, String, Bool, true, false, Option, none, some, List, [], ◌∷◌, ◌&&◌, ◌=s◌, if◌then◌else◌,
}
use tron_shkeeper.Payout.Types.{ErrorClass, Exc, Result, ok, err, plain_error, error_of}

-- `Token` of app/schemas.py, as far as it is read here; `here` tells whether it belongs to the
-- network of the configuration.
pub record Token : Type 0 where
  pub symbol : String
  pub contract_address : String
  pub decimal : ℕ
  pub here : Bool

-- `TronTransaction` of app/schemas.py; the amount is `units` over the power of ten of `decimals`.
pub record Transfer : Type 0 where
  pub txid : String
  pub symbol : String
  pub src_addr : String
  pub dst_addr : String
  pub units : ℕ
  pub decimals : ℕ
  pub is_trc20 : Bool

pub record LogEntry : Type 0 where
  pub address : String
  pub topics : List String
  pub event_data : String

-- The first contract of the raw data, by its type.
pub data Contract : Type 0 where
  transfer_contract : (owner_address to_address : String) (amount : ℕ) → Contract
  trigger_smart_contract : Contract
  other_contract : String → Contract

-- A transaction; `contract_ret` is the entry of `ret`, if there is one.
pub record Tx : Type 0 where
  pub txid : String
  pub contract : Contract
  pub contract_ret : Option String

-- `get_transaction_info`: the log and the block's number, where they are there
pub record TxInfo : Type 0 where
  pub log : Option (List LogEntry)
  pub block_number : Option ℕ

pub record Decoders : Type 0 where
  pub decode_address : String → Result String
  pub decode_uint256 : String → Result ℕ

-- `config.get_symbol`; `none` is `UnknownToken`
unfoldable pub get_symbol : List Token → String → Option String
get_symbol [] address = none
get_symbol (t ∷ ts) address =
    if t.here && t.contract_address =s address then some t.symbol else get_symbol ts address

-- `config.get_decimal`
unfoldable pub get_decimal : List Token → String → Result ℕ
get_decimal [] symbol = err (plain_error "Unknown token")
get_decimal (t ∷ ts) symbol =
    if t.here && t.symbol =s symbol then ok t.decimal else get_decimal ts symbol

abbrev pub transfer_event : String
transfer_event = "ddf252ad1be2c89b69c2b068fc378daa952ba7f163c4a11628f55a4df523b3ef"

abbrev pub and_then : {A : Type 0} {B : Type 0} → Result A → (A → Result B) → Result B
and_then (ok a) f = f a
and_then (err e) f = err e

-- The transfer that a log entry with these topics tells.
unfoldable pub decode_transfer :
    Decoders → List Token → String → String → String → String → String → Result (Option Transfer)
unfolding get_decimal
decode_transfer decoders tokens txid symbol hex_from hex_to event_data =
    and_then (decoders.decode_address hex_from) (λ src_addr.
      and_then (decoders.decode_address hex_to) (λ dst_addr.
        and_then (decoders.decode_uint256 event_data) (λ units.
          and_then (get_decimal tokens symbol) (λ decimals. ok (
            some (record {
              txid = txid;
              symbol = symbol;
              src_addr = src_addr;
              dst_addr = dst_addr;
              units = units;
              decimals = decimals;
              is_trc20 = true;
            }))))))

-- `_, hex_from_addr, hex_to_addr = entry["topics"]`
unfoldable pub decode_topics :
    Decoders → List Token → String → String → List String → String → Result (Option Transfer)
unfolding decode_transfer
decode_topics decoders tokens txid symbol [] event_data =
    err (plain_error "not enough values to unpack")
decode_topics decoders tokens txid symbol (a ∷ []) event_data =
    err (plain_error "not enough values to unpack")
decode_topics decoders tokens txid symbol (a ∷ b ∷ []) event_data =
    decode_transfer decoders tokens txid symbol a b event_data
decode_topics decoders tokens txid symbol (a ∷ b ∷ c ∷ rest) event_data =
    err (plain_error "too many values to unpack")

unfoldable pub parse_event :
    Decoders → List Token → String → String → List String → String → Result (Option Transfer)
unfolding decode_topics
parse_event decoders tokens txid symbol [] event_data = err (plain_error "list index out of range")
parse_event decoders tokens txid symbol (event ∷ rest) event_data =
    if event =s transfer_event
    then decode_topics decoders tokens txid symbol rest event_data
    else ok none

-- The body of the loop over the log; an entry of another token, or another event, is passed over.
unfoldable pub parse_entry : Decoders → List Token → String → LogEntry → Result (Option Transfer)
unfolding get_symbol parse_event
parse_entry decoders tokens txid entry = elim (get_symbol tokens entry.address) [
  | none ↦ ok none
  | some symbol ↦ parse_event decoders tokens txid symbol entry.topics entry.event_data
]

abbrev pub add_transfer : Option Transfer → List Transfer → List Transfer
add_transfer none ts = ts
add_transfer (some t) ts = t ∷ ts

unfoldable pub parse_log : Decoders → List Token → String → List LogEntry → Result (List Transfer)
unfolding parse_entry
parse_log decoders tokens txid [] = ok []
parse_log decoders tokens txid (entry ∷ entries) =
    let rest = parse_log decoders tokens txid entries in
    and_then (parse_entry decoders tokens txid entry)
      (λ t. and_then rest (λ ts. ok (add_transfer t ts)))

abbrev pub trx_transfer : String → String → String → ℕ → Transfer
trx_transfer txid owner_address to_address amount = record {
  txid = txid;
  symbol = "TRX";
  src_addr = owner_address;
  dst_addr = to_address;
  units = amount;
  decimals = 6;
  is_trc20 = false;
}

unfoldable pub parse_contract :
    Decoders → List Token → String → Option (List LogEntry) → Contract → Result (List Transfer)
unfolding parse_log
parse_contract decoders tokens txid log (transfer_contract owner_address to_address amount) =
    ok (trx_transfer txid owner_address to_address amount ∷ [])
parse_contract decoders tokens txid none trigger_smart_contract =
    err (error_of ErrorClass.unknown_transaction_type "Transaction produced no logs")
parse_contract decoders tokens txid (some log) trigger_smart_contract =
    parse_log decoders tokens txid log
parse_contract decoders tokens txid log (other_contract type) =
    err (error_of ErrorClass.unknown_transaction_type ("Unknown transaction type: " <> type))

-- Whether `tx["ret"][0]["contractRet"]` is SUCCESS
abbrev pub is_success : Option String → Bool
is_success none = false
is_success (some status) = status =s "SUCCESS"

-- What `parse_tx` raises for another result; a missing `ret` is a `KeyError`.
abbrev pub result_error : Option String → Exc
result_error none = plain_error "ret"
result_error (some status) = error_of ErrorClass.bad_contract_result "TXID has a bad result"

-- `parse_tx`
unfoldable pub parse_tx : Decoders → List Token → Tx → TxInfo → Result (List Transfer)
unfolding parse_contract
parse_tx decoders tokens tx info =
    if is_success tx.contract_ret
    then parse_contract decoders tokens tx.txid info.log tx.contract
    else err (result_error tx.contract_ret)
