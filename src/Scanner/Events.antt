-- ===== src/Scanner/Events.antt =====
-- What a scan does to the world: the notices to the shop, the tasks that it starts, and the table of
-- AML transactions; with app/sweep_guard.py, `add_transaction_to_db` and
-- `queue_guarded_payout_if_allowed` of app/custom/aml.
use tron_shkeeper.Base.{
  ℕ, ◌*◌, String, Bool, true, false, Option, none, some, List, [], ◌∷◌, ◌++◌, ◌||◌, not, ltb, leb,
  ◌=s◌, upper, contains, if◌then◌else◌,
}
use tron_shkeeper.Payout.Types.{Exc, Result, ok, err, plain_error}
use tron_shkeeper.Effect.{Effect, pure, raise, ◌>>=◌, ◌>>◌, modify, gets, of_result}
use tron_shkeeper.Confirmation.Check.{power_of_ten}

pub data Event : Type 0 where
  -- a notice that the shop has confirmed: symbol and transaction
  notified : String → String → Event
  -- `transfer_trc20_from.delay(address, symbol, txid)`
  trc20_sweep : String → String → String → Event
  -- `transfer_trx_from.delay(address)`
  trx_sweep : String → Event
  -- `check_transaction.delay(symbol, account, txid)`
  check_queued : String → String → String → Event
  -- `run_payout_for_tx`, delayed: symbol, account and transaction
  payout_queued : String → String → String → Event

-- `Transaction` of app/custom/aml/models.py, as far as it is read here
pub record AmlRow : Type 0 where
  pub tx_id : String
  pub address : String
  pub crypto : String
  pub ttype : String
  pub status : String

-- The events, the latest first, and the table.
pub record Work : Type 0 where
  pub events : List Event
  pub rows : List AmlRow

-- `ExternalDrain` of app/custom/aml/schemas.py: the smallest amounts that are checked, in micro-units.
pub record Drain : Type 0 where
  pub aml_enabled : Bool
  pub aml_cryptos : List (String × ℕ)
  pub regular_enabled : Bool
  pub regular_cryptos : List String

-- What the eligibility request of app/sweep_guard.py comes to: it fails or its body is no JSON
-- object, or it is one with a decision.
pub data Answer : Type 0 where
  failed : Answer
  decision : Option String → Answer

pub record Env : Type 0 where
  -- WATCHED_ACCOUNTS and `main_account`
  pub watched : List String
  pub main_account : String
  -- EXTERNAL_DRAIN_CONFIG
  pub drain : Option Drain
  -- DEVMODE_SKIP_NOTIFICATIONS and DEVMODE_CELERY_NODELAY
  pub skip_notifications : Bool
  pub celery_nodelay : Bool
  -- TRX_MIN_TRANSFER_THRESHOLD, in micro-units
  pub trx_min_transfer_threshold : ℕ
  -- the shop's answer to a notice is its "status"
  pub notify : String → String → Result String
  pub eligibility : String → String → String → Answer
  -- `transfer_trc20_from` where it is called at once
  pub transfer_now : String → String → String → Result (Unit {0})

abbrev pub record_event : Event → Effect Work (Unit {0})
record_event e = modify (λ w. record w { events = e ∷ w.events })

-- An amount of a token against micro-units: `Decimal` compares the quotients.
unfoldable pub is_above : ℕ → ℕ → ℕ → Bool
unfolding power_of_ten
is_above units decimals micro = ltb (micro * power_of_ten decimals) (units * 1_000_000)

unfoldable pub is_at_least : ℕ → ℕ → ℕ → Bool
unfolding power_of_ten
is_at_least units decimals micro = leb (micro * power_of_ten decimals) (units * 1_000_000)

-- `is_sweep_gate_active`
unfoldable pub is_sweep_gate_active : String → Bool
is_sweep_gate_active symbol = upper symbol =s "USDT"

abbrev pub is_allowed : Answer → Bool
is_allowed failed = false
is_allowed (decision none) = false
is_allowed (decision (some d)) = d =s "allow"

-- `is_sweep_allowed`
unfoldable pub is_sweep_allowed : Env → String → String → String → Bool
unfolding is_sweep_gate_active
is_sweep_allowed env symbol address txid =
    if not (is_sweep_gate_active symbol)
    then true
    else is_allowed (env.eligibility (upper symbol) address txid)

-- The smallest amount that is checked, of a symbol that is configured.
unfoldable pub min_check_amount : List (String × ℕ) → String → Option ℕ
min_check_amount [] symbol = none
min_check_amount ((s, n) ∷ rest) symbol =
    if s =s symbol then some n else min_check_amount rest symbol

pub data DrainType : Type 0 where
  -- with the smallest amount
  aml : ℕ → DrainType
  regular : DrainType
  symbol_not_found : DrainType

-- `get_external_drain_type`
unfoldable pub get_external_drain_type : Drain → String → Result DrainType
unfolding min_check_amount
get_external_drain_type drain symbol = elim (min_check_amount drain.aml_cryptos symbol) [
  | none ↦ ok symbol_not_found
  | some n ↦
      if not (contains symbol drain.regular_cryptos)
      then ok symbol_not_found
      else if drain.aml_enabled
      then ok (aml n)
      else if drain.regular_enabled
      then ok regular
      else err (plain_error "Can't get payout type")
]

abbrev pub add_row : String → String → String → String → String → Effect Work (Unit {0})
add_row tx_id address crypto ttype status = modify (λ w. record w {
  rows =
      w.rows
      ++ record {
        tx_id = tx_id;
        address = address;
        crypto = crypto;
        ttype = ttype;
        status = status;
      }
        ∷ [];
})

-- The error of a local variable that was not assigned.
abbrev pub unbound_local : Exc
unbound_local = plain_error "cannot access local variable 'ttype'"

-- The row of a deposit that is to be drained.
unfoldable pub add_deposit :
    String → String → ℕ → ℕ → String → Bool → DrainType → Effect Work (Unit {0})
unfolding pure raise ◌>>◌ modify is_above
add_deposit tx_id account units decimals symbol enqueue_check symbol_not_found = pure tt
add_deposit tx_id account units decimals symbol enqueue_check regular =
    add_row tx_id account symbol "regular" "pending"
add_deposit tx_id account units decimals symbol enqueue_check (aml min_amount) =
    if is_above units decimals min_amount
    then ((if enqueue_check then record_event (check_queued symbol account tx_id) else pure tt)
        >> add_row tx_id account symbol "aml" "pending")
    else raise unbound_local

-- `add_transaction_to_db`, `from_fee` for the internal type
unfoldable pub add_transaction_to_db :
    Drain → String → String → ℕ → ℕ → String → Bool → Bool → Effect Work (Unit {0})
unfolding add_deposit get_external_drain_type ◌>>=◌
add_transaction_to_db drain tx_id account units decimals symbol from_fee enqueue_check =
    of_result (get_external_drain_type drain symbol) >>= λ drain_type.
    if from_fee
    then add_row tx_id account symbol "from_fee" "skipped"
    else add_deposit tx_id account units decimals symbol enqueue_check drain_type

unfoldable pub has_row : String → List AmlRow → Bool
has_row tx_id [] = false
has_row tx_id (r ∷ rs) = r.tx_id =s tx_id || has_row tx_id rs

-- The first row of the transaction gets the status.
unfoldable pub set_status : String → String → List AmlRow → List AmlRow
set_status tx_id status [] = []
set_status tx_id status (r ∷ rs) =
    if r.tx_id =s tx_id then record r { status = status } ∷ rs else r ∷ set_status tx_id status rs

-- `_mark_transaction_status`
unfoldable pub mark_transaction_status : String → String → Effect Work Bool
unfolding has_row set_status gets modify ◌>>=◌
mark_transaction_status tx_id status = gets (λ w. has_row tx_id w.rows) >>= λ found.
    modify (λ w. record w { rows = set_status tx_id status w.rows }) >>= λ _. pure found

-- `queue_guarded_payout_if_allowed`
unfoldable pub queue_guarded_payout_if_allowed : Env → String → String → String → Effect Work Bool
unfolding is_sweep_allowed mark_transaction_status pure ◌>>=◌
queue_guarded_payout_if_allowed env symbol account txid =
    if is_sweep_allowed env symbol account txid
    then (mark_transaction_status txid "ready" >>= λ marked.
        if marked
        then (record_event (payout_queued symbol account txid) >>= λ _. pure true)
        else pure false)
    else pure false
