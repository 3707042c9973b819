-- ===== src/Scanner/Notices.antt =====
-- Proofs about the notices that a scan sends (app/block_scanner.py).
use mathlib.Core.List.{Memᴰ}
use mathlib.Core.List.Memᴰ
use tron_shkeeper.Base.{
  ℕ, String, ◌≡◌, refl, subst, inl, inr, Bool, true, false, Option, none, some, List, [], ◌∷◌, not,
  ◌=s◌, arith,
}
use tron_shkeeper.Payout.Types.{Result, ok, err, plain_error}
use tron_shkeeper.Effect.{Effect, continue, ◌>>=◌, of_result}
use tron_shkeeper.Effect.Contracts.{
  After, Contract, Contract-pure, Contract-raise, Contract-if, Contract-bind, Contract-catch,
  Contract-modify,
}
use tron_shkeeper.Confirmation.Transfers.{Transfer, LogEntry, Tx, parse_tx}
use tron_shkeeper.Scanner.Events.{Event, notified, Work, Drain, Env, record_event}
use tron_shkeeper.Scanner.Scan.{
  Node, notify_shkeeper, is_watched, aml_workflow, is_ignored, default_workflow, handle_transfer,
  handle_transfers, handle_parsed, info_of, handle_txs, handle_block, scan,
}
use tron_shkeeper.Scanner.Kept.{
  Raised, AnyWork, Puts, start_sweep-Keeps, after_notice-Keeps, handle_transfers-Keeps,
  handle_txs-Keeps, bind-Puts, later-Puts,
}

-- The transfer is one that the scan tells of: it goes to a one-time account, and is not the main
-- account's own TRX where the default workflow runs.
pub record IsTold (env : Env) (t : Transfer) : Type 0 where
  pub to_watched : is_watched env t.dst_addr ≡ true
  pub not_ignored : env.drain ≡ none → is_ignored env t ≡ false

record_event-Puts : (event : Event) → Puts event (record_event event)
record_event-Puts event =
    Contract-modify (λ w. record w { events = event ∷ w.events })
      (λ _ _. record { member = Memᴰ.head refl })

clash : {b : Bool} → b ≡ true → b ≡ false → ⊥
clash set unset = ground arith

not-true : {b : Bool} → not b ≡ true → b ≡ false
not-true {b = true} h = ground arith
not-true {b = false} h = refl

module _ (env : Env) (notices : env.skip_notifications ≡ false) where
  notify_shkeeper-Puts :
      (symbol txid : String) → Puts (notified symbol txid) (notify_shkeeper env symbol txid)
  unfolding notify_shkeeper
  notify_shkeeper-Puts symbol txid =
      Contract-if env.skip_notifications _ _ (λ skip. absurd (clash skip notices))
        (λ _. later-Puts (of_result (env.notify symbol txid)) _ (λ status.
          Contract-if (status =s "success") _ _ (λ _. record_event-Puts (notified symbol txid))
            (λ _. Contract-raise (plain_error "NotificationFailed") (λ _ _. tt))))

  module _ (t : Transfer) (to_watched : is_watched env t.dst_addr ≡ true) where
    aml_workflow-Puts : (drain : Drain) → Puts (notified t.symbol t.txid) (aml_workflow env drain t)
    unfolding aml_workflow
    aml_workflow-Puts drain =
        Contract-if _ _ _ (λ h. absurd (clash to_watched (not-true h)))
          (λ _.
            bind-Puts _ _ (notify_shkeeper-Puts t.symbol t.txid)
              (λ _. after_notice-Keeps env drain t))

    default_workflow-Puts :
        is_ignored env t ≡ false → Puts (notified t.symbol t.txid) (default_workflow env t)
    unfolding default_workflow
    default_workflow-Puts not_ignored =
        Contract-if _ _ _ (λ h. absurd (clash h not_ignored))
          (λ _.
            Contract-if _ _ _
              (λ _.
                bind-Puts _ _ (notify_shkeeper-Puts t.symbol t.txid) (λ _. start_sweep-Keeps env t))
              (λ h. absurd (clash to_watched h)))

  handle_transfer-Puts :
      (t : Transfer) → IsTold env t → Puts (notified t.symbol t.txid) (handle_transfer env t)
  unfolding handle_transfer
  handle_transfer-Puts t told = option env.drain told.not_ignored
    where
      option :
          (d : Option Drain)
          → (d ≡ none → is_ignored env t ≡ false)
          → Puts
              (notified t.symbol t.txid)
              (elim d [ none ↦ default_workflow env t | some drain ↦ aml_workflow env drain t ])
      option none h = default_workflow-Puts t told.to_watched (h refl)
      option (some drain) h = aml_workflow-Puts t told.to_watched drain

  handle_transfers-Puts :
      {t : Transfer}
      → IsTold env t
      → (ts : List Transfer) → Memᴰ t ts
      → Puts (notified t.symbol t.txid) (handle_transfers env ts)
  unfolding handle_transfers
  handle_transfers-Puts told [] m = absurd (Memᴰ.not-nil m)
  handle_transfers-Puts {t} told (x ∷ ts) m = elim (Memᴰ.cases_cons m) [
    | inl e ↦
        bind-Puts _ _
          (subst (λ x. Puts (notified t.symbol t.txid) (handle_transfer env x)) e
            (handle_transfer-Puts t told))
          (λ _. handle_transfers-Keeps env ts)
    | inr later ↦ later-Puts _ _ (λ _. handle_transfers-Puts told ts later)
  ]

  handle_parsed-Puts :
      {t : Transfer} {ts : List Transfer} {r : Result (List Transfer)}
      → IsTold env t
      → r ≡ ok ts
      → Memᴰ t ts
      → Puts (notified t.symbol t.txid) (handle_parsed env r)
  unfolding handle_parsed
  handle_parsed-Puts {t} {ts} told parsed m = rw parsed (handle_transfers-Puts told ts m)

  handle_txs-Puts :
      (node : Node) (logs : String → Option (List LogEntry)) {tx : Tx} {t : Transfer}
      {ts : List Transfer}
      → IsTold env t
      → parse_tx node.decoders node.tokens tx (info_of env node logs tx) ≡ ok ts
      → Memᴰ t ts
      → (txs : List Tx) → Memᴰ tx txs
      → Puts (notified t.symbol t.txid) (handle_txs env node logs txs)
  unfolding handle_txs
  handle_txs-Puts node logs told parsed m [] n = absurd (Memᴰ.not-nil n)
  handle_txs-Puts node logs {tx} {t} {ts} told parsed m (x ∷ txs) n = elim (Memᴰ.cases_cons n) [
    | inl e ↦
        bind-Puts _ _
          (handle_parsed-Puts told
            (subst (λ x. parse_tx node.decoders node.tokens x (info_of env node logs x) ≡ ok ts) e
              parsed)
            m)
          (λ _. handle_txs-Keeps env node logs txs)
    | inr later ↦ later-Puts _ _ (λ _. handle_txs-Puts node logs told parsed m txs later)
  ]

-- What a scan is asked for: the event is there where the scan says that all went well.
abbrev Told : Event → Bool → Work → Type 0
Told e all_well w = all_well ≡ true → Memᴰ e w.events

-- A request whose answer is known goes on with it.
known :
    {A B : Type 0} {Q : B → Work → Type 0} {r : Result A} {a : A}
    → r ≡ ok a
    → (f : A → Effect Work B) → Contract AnyWork (f a) Q Raised
    → Contract AnyWork (of_result r >>= f) Q Raised
unfolding ◌>>=◌ continue
known {A} {B} {Q} same f h = rw same (record { at = λ w p. h.at w p })

told_at :
    {e : Event} (r : Result Bool) (w : Work)
    → After (Told e) Raised r w
    → r ≡ ok true
    → Memᴰ e w.events
unfolding After
told_at (ok true) w h same = h refl
told_at (ok false) w h same = ground arith
told_at (err x) w h same = ground arith

handle_block-Told :
    (env : Env) (node : Node) (block_num : ℕ) (txs : List Tx)
    {logs : String → Option (List LogEntry)} {e : Event}
    → node.download_logs block_num ≡ ok logs
    → Puts e (handle_txs env node logs txs)
    → Contract AnyWork (handle_block env node block_num (some txs)) (Told e) Raised
unfolding handle_block
handle_block-Told env node block_num txs {logs} {e} entries told =
    known entries _ (Contract-bind _ _ told (λ _. Contract-pure true (λ _ seen _. seen.member)))

scan-Told :
    (env : Env) (node : Node) (block_num : ℕ) {txs : List Tx} {e : Event}
    → node.download_block block_num ≡ ok (some txs)
    → Contract AnyWork (handle_block env node block_num (some txs)) (Told e) Raised
    → Contract AnyWork (scan env node block_num) (Told e) Raised
unfolding scan
scan-Told env node block_num {txs} {e} block told =
    Contract-catch _ _ (known block _ told)
      (λ x. Contract-pure false (λ _ _ h. absurd (clash h refl)))

-- Where notices are sent, a scan of a block that says that all went well has sent one for every
-- transfer that is parsed from a transaction of the block and goes to a one-time account, save TRX
-- of the main account in the default workflow.
pub scan-notified :
    (env : Env) (node : Node) (block_num : ℕ) (w : Work) {txs : List Tx}
    {logs : String → Option (List LogEntry)} {tx : Tx} {ts : List Transfer} {t : Transfer}
    → env.skip_notifications ≡ false
    → node.download_block block_num ≡ ok (some txs)
    → node.download_logs block_num ≡ ok logs
    → Memᴰ tx txs
    → parse_tx node.decoders node.tokens tx (info_of env node logs tx) ≡ ok ts
    → Memᴰ t ts
    → IsTold env t
    → (scan env node block_num w).0 ≡ ok true
    → Memᴰ (notified t.symbol t.txid) (scan env node block_num w).1.events
scan-notified env node block_num w {txs} {logs} {tx} {ts} {t} notices block entries n parsed m
      told =
    told_at _ _ (
      (scan-Told env node block_num block (
          handle_block-Told env node block_num txs entries
            (handle_txs-Puts env notices node logs told parsed m txs n))).at
        w tt)
