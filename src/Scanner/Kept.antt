-- ===== src/Scanner/Kept.antt =====
-- Proofs about the events that were recorded (app/block_scanner.py and app/custom/aml).
use mathlib.Core.List.{Memᴰ}
use tron_shkeeper.Base.{
  ℕ, String, Bool, true, false, Option, none, some, List, [], ◌∷◌, if◌then◌else◌,
}
use tron_shkeeper.Payout.Types.{Exc, Result, ok, err}
use tron_shkeeper.Effect.{Effect, pure, raise, ◌>>=◌, ◌>>◌, of_result}
use tron_shkeeper.Effect.Contracts.{
  After, Contract, Contract-pure, Contract-raise, Contract-if, Contract-bind, Contract-of_result,
  Contract-modify, Contract-gets,
}
use tron_shkeeper.Confirmation.Transfers.{Transfer, LogEntry, Tx}
use tron_shkeeper.Scanner.Events.{
  Event, payout_queued, Work, Drain, DrainType, aml, regular, symbol_not_found, Env, record_event,
  is_above, is_sweep_gate_active, is_sweep_allowed, get_external_drain_type, add_row, unbound_local,
  add_deposit, add_transaction_to_db, has_row, set_status, mark_transaction_status,
  queue_guarded_payout_if_allowed,
}
use tron_shkeeper.Scanner.Scan.{
  Node, notify_shkeeper, handle_guarded, handle_unguarded, aml_workflow, start_sweep,
  default_workflow, handle_transfer, handle_transfers, handle_parsed, handle_txs,
}

-- Nothing is asked of an exception: it ends the scan.
abbrev pub Raised : Exc → Work → Type 0
Raised _ _ = Unit {0}

pub record Seen (e : Event) (w : Work) : Type 0 where
  pub member : Memᴰ e w.events

abbrev pub AnyWork : Work → Type 0
AnyWork _ = Unit {0}

-- The event stays, or comes about.
abbrev pub Keeps : {A : Type 0} → Event → Effect Work A → Type 0
Keeps e m = Contract (Seen e) m (λ _. Seen e) Raised

abbrev pub Puts : {A : Type 0} → Event → Effect Work A → Type 0
Puts e m = Contract AnyWork m (λ _. Seen e) Raised

module _ {A : Type 0} where
  pub anything-After : (r : Result A) (w : Work) → After (λ _. AnyWork) Raised r w
  unfolding After
  anything-After (ok a) w = tt
  anything-After (err x) w = tt

  pub anything : (m : Effect Work A) → Contract AnyWork m (λ _. AnyWork) Raised
  anything m = record { at = λ w _. anything-After (m w).0 (m w).1 }

module _ {e : Event} where
  pub pure-Keeps : {A : Type 0} (a : A) → Keeps e (pure a)
  pure-Keeps a = Contract-pure a (λ _ seen. seen)

  pub raise-Keeps : {A : Type 0} (x : Exc) → Keeps e (raise {A = A} x)
  raise-Keeps x = Contract-raise x (λ _ _. tt)

  pub of_result-Keeps : {A : Type 0} (r : Result A) → Keeps e (of_result r)
  of_result-Keeps r = Contract-of_result r (λ _ _ _. tt)

  pub bind-Keeps :
      {A B : Type 0} (m : Effect Work A) (f : A → Effect Work B)
      → Keeps e m
      → ((a : A) → Keeps e (f a))
      → Keeps e (m >>= f)
  bind-Keeps m f hm hf = Contract-bind m f hm hf

  pub if-Keeps :
      {A : Type 0} (b : Bool) (m n : Effect Work A)
      → Keeps e m
      → Keeps e n
      → Keeps e (if b then m else n)
  if-Keeps b m n hm hn = Contract-if b m n (λ _. hm) (λ _. hn)

  pub record_event-Keeps : (event : Event) → Keeps e (record_event event)
  record_event-Keeps event = Contract-modify _ (λ _ seen. record { member = Memᴰ.tail seen.member })

  pub add_row-Keeps : (a b c d f : String) → Keeps e (add_row a b c d f)
  add_row-Keeps a b c d f = Contract-modify _ (λ _ seen. record { member = seen.member })

  pub notify_shkeeper-Keeps :
      (env : Env) (symbol txid : String) → Keeps e (notify_shkeeper env symbol txid)
  unfolding notify_shkeeper
  notify_shkeeper-Keeps env symbol txid = if-Keeps env.skip_notifications _ _ (pure-Keeps tt) (
      bind-Keeps _ _ (of_result-Keeps (env.notify symbol txid))
        (λ status. if-Keeps _ _ _ (record_event-Keeps _) (raise-Keeps _)))

  pub add_deposit-Keeps :
      (tx_id account : String) (units decimals : ℕ) (symbol : String) (enqueue_check : Bool)
      (drain_type : DrainType)
      → Keeps e (add_deposit tx_id account units decimals symbol enqueue_check drain_type)
  unfolding add_deposit ◌>>◌
  add_deposit-Keeps tx_id account units decimals symbol enqueue_check symbol_not_found =
      pure-Keeps tt
  add_deposit-Keeps tx_id account units decimals symbol enqueue_check regular =
      add_row-Keeps tx_id account symbol "regular" "pending"
  add_deposit-Keeps tx_id account units decimals symbol enqueue_check (aml min_amount) =
      if-Keeps (is_above units decimals min_amount) _ _
        (bind-Keeps _ _ (if-Keeps enqueue_check _ _ (record_event-Keeps _) (pure-Keeps tt))
          (λ _. add_row-Keeps tx_id account symbol "aml" "pending"))
        (raise-Keeps unbound_local)

  pub add_transaction_to_db-Keeps :
      (drain : Drain) (tx_id account : String) (units decimals : ℕ) (symbol : String)
      (from_fee enqueue_check : Bool)
      → Keeps e
          (add_transaction_to_db drain tx_id account units decimals symbol from_fee enqueue_check)
  unfolding add_transaction_to_db
  add_transaction_to_db-Keeps drain tx_id account units decimals symbol from_fee enqueue_check =
      bind-Keeps _ _ (of_result-Keeps (get_external_drain_type drain symbol)) (λ drain_type.
        if-Keeps from_fee _ _ (add_row-Keeps _ _ _ _ _)
          (add_deposit-Keeps tx_id account units decimals symbol enqueue_check drain_type))

  pub mark_transaction_status-Keeps :
      (tx_id status : String) → Keeps e (mark_transaction_status tx_id status)
  unfolding mark_transaction_status
  mark_transaction_status-Keeps tx_id status =
      Contract-bind _ _ (Contract-gets (λ w. has_row tx_id w.rows)) (λ found.
        Contract-bind _ _
          (Contract-modify (λ w. record w { rows = set_status tx_id status w.rows })
            (λ _ seen. record { member = seen.1.member }))
          (λ _. Contract-pure found (λ _ seen. seen)))

  pub queue_guarded_payout_if_allowed-Keeps :
      (env : Env) (symbol account txid : String)
      → Keeps e (queue_guarded_payout_if_allowed env symbol account txid)
  unfolding queue_guarded_payout_if_allowed
  queue_guarded_payout_if_allowed-Keeps env symbol account txid =
      if-Keeps (is_sweep_allowed env symbol account txid) _ _
        (bind-Keeps _ _ (mark_transaction_status-Keeps txid "ready") (λ marked.
          if-Keeps marked _ _
            (bind-Keeps _ _ (record_event-Keeps (payout_queued symbol account txid))
              (λ _. pure-Keeps true))
            (pure-Keeps false)))
        (pure-Keeps false)

  pub handle_guarded-Keeps :
      (env : Env) (drain : Drain) (t : Transfer) → Keeps e (handle_guarded env drain t)
  unfolding handle_guarded
  handle_guarded-Keeps env drain t =
      if-Keeps _ _ _
        (bind-Keeps _ _
          (add_transaction_to_db-Keeps drain t.txid t.dst_addr t.units t.decimals t.symbol false
            false)
          (λ _.
            bind-Keeps _ _ (queue_guarded_payout_if_allowed-Keeps env t.symbol t.dst_addr t.txid)
              (λ _. pure-Keeps tt)))
        (if-Keeps _ _ _
          (add_transaction_to_db-Keeps drain t.txid t.dst_addr t.units t.decimals t.symbol true
            true)
          (pure-Keeps tt))

  pub handle_unguarded-Keeps :
      (env : Env) (drain : Drain) (t : Transfer) → Keeps e (handle_unguarded env drain t)
  unfolding handle_unguarded
  handle_unguarded-Keeps env drain t =
      if-Keeps _ _ _
        (bind-Keeps _ _
          (add_transaction_to_db-Keeps drain t.txid t.dst_addr t.units t.decimals t.symbol false
            true)
          (λ _. record_event-Keeps (payout_queued t.symbol t.dst_addr t.txid)))
        (if-Keeps _ _ _
          (add_transaction_to_db-Keeps drain t.txid t.dst_addr t.units t.decimals t.symbol true
            true)
          (raise-Keeps _))

  pub start_sweep-Keeps : (env : Env) (t : Transfer) → Keeps e (start_sweep env t)
  unfolding start_sweep
  start_sweep-Keeps env t =
      if-Keeps t.is_trc20 _ _
        (if-Keeps _ _ _ (pure-Keeps tt)
          (if-Keeps env.celery_nodelay _ _ (of_result-Keeps _) (record_event-Keeps _)))
        (if-Keeps _ _ _ (record_event-Keeps _) (pure-Keeps tt))

  pub after_notice-Keeps :
      (env : Env) (drain : Drain) (t : Transfer)
      → Keeps e (
          if is_sweep_gate_active t.symbol
          then handle_guarded env drain t
          else handle_unguarded env drain t)
  after_notice-Keeps env drain t =
      if-Keeps (is_sweep_gate_active t.symbol) _ _ (handle_guarded-Keeps env drain t)
        (handle_unguarded-Keeps env drain t)

  pub aml_workflow-Keeps :
      (env : Env) (drain : Drain) (t : Transfer) → Keeps e (aml_workflow env drain t)
  unfolding aml_workflow
  aml_workflow-Keeps env drain t = if-Keeps _ _ _ (pure-Keeps tt) (
      bind-Keeps _ _ (notify_shkeeper-Keeps env t.symbol t.txid)
        (λ _. after_notice-Keeps env drain t))

  pub default_workflow-Keeps : (env : Env) (t : Transfer) → Keeps e (default_workflow env t)
  unfolding default_workflow
  default_workflow-Keeps env t = if-Keeps _ _ _ (pure-Keeps tt) (
      if-Keeps _ _ _
        (bind-Keeps _ _ (notify_shkeeper-Keeps env t.symbol t.txid) (λ _. start_sweep-Keeps env t))
        (pure-Keeps tt))

  pub handle_transfer-Keeps : (env : Env) (t : Transfer) → Keeps e (handle_transfer env t)
  unfolding handle_transfer
  handle_transfer-Keeps env t = option env.drain
    where
      option :
          (d : Option Drain)
          → Keeps e
              (elim d [ none ↦ default_workflow env t | some drain ↦ aml_workflow env drain t ])
      option none = default_workflow-Keeps env t
      option (some drain) = aml_workflow-Keeps env drain t

  pub handle_transfers-Keeps : (env : Env) (ts : List Transfer) → Keeps e (handle_transfers env ts)
  unfolding handle_transfers
  handle_transfers-Keeps env [] = pure-Keeps tt
  handle_transfers-Keeps env (t ∷ ts) =
      bind-Keeps _ _ (handle_transfer-Keeps env t) (λ _. handle_transfers-Keeps env ts)

  pub handle_parsed-Keeps : (env : Env) (r : Result (List Transfer)) → Keeps e (handle_parsed env r)
  unfolding handle_parsed
  handle_parsed-Keeps env (ok ts) = handle_transfers-Keeps env ts
  handle_parsed-Keeps env (err x) = if-Keeps _ _ _ (pure-Keeps tt) (raise-Keeps x)

  pub handle_txs-Keeps :
      (env : Env) (node : Node) (logs : String → Option (List LogEntry)) (txs : List Tx)
      → Keeps e (handle_txs env node logs txs)
  unfolding handle_txs
  handle_txs-Keeps env node logs [] = pure-Keeps tt
  handle_txs-Keeps env node logs (tx ∷ txs) =
      bind-Keeps _ _ (handle_parsed-Keeps env _) (λ _. handle_txs-Keeps env node logs txs)

  pub bind-Puts :
      {A B : Type 0} (m : Effect Work A) (f : A → Effect Work B)
      → Puts e m
      → ((a : A) → Keeps e (f a))
      → Puts e (m >>= f)
  bind-Puts m f hm hf = Contract-bind m f hm hf

  pub later-Puts :
      {A B : Type 0} (m : Effect Work A) (f : A → Effect Work B)
      → ((a : A) → Puts e (f a))
      → Puts e (m >>= f)
  later-Puts m f hf = Contract-bind m f (anything m) hf
