-- ===== src/Payout/Tests.antt =====
-- Runs of the operations at concrete inputs, and the theorems at inputs that meet their hypotheses.
use mathlib.Core.List.{Memᴰ}
use tron_shkeeper.Base.{
  String, true, not, none, some, [], ◌∷◌, ◌≡◌, refl, inl, inr, subst, ap, arith, Bool-cases, eq_iff,
  truthy, ◌=s◌,
}
use tron_shkeeper.Payout.Submit.{Submission, find_external}
use tron_shkeeper.Payout.Resubmit.{IsIdempotent, submit-IsIdempotent}
use tron_shkeeper.Payout.Types.{Row, State, ok}
use tron_shkeeper.Confirmation.Transfers.{trigger_smart_contract, transfer_event}
use tron_shkeeper.Confirmation.Check.{refresh_tron_usdt_confirmation}
use tron_shkeeper.Payout.Refresh.{Chain, status}
use tron_shkeeper.Payout.World.{World, Sent, find_row}
use tron_shkeeper.Payout.Fields.{has_unsafe_side_effect}
use tron_shkeeper.Payout.Execute.{execute}
use tron_shkeeper.Payout.Evolution.{IsSound, IsSafe, IsFair, Evolves, Evolves-refl}
use tron_shkeeper.Payout.Guarantees.{
  execute_call, recover_call, run_call, run_calls, run_call-IsSafe, sent_same_hash,
  repeatable_never_sent,
}
use tron_shkeeper.Payout.Code.{payout_code}
use tron_shkeeper.Payout.Samples.{payload, alone, tools, start, fresh_row, shared_of, sample_tx}

alone-nonempty : (raw : String) → truthy (some (alone.sha256_hex raw)) ≡ true
alone-nonempty raw = elim (Bool-cases (alone.sha256_hex raw =s "")) [
  | inl e ↦ absurd (cc ((eq_iff (alone.sha256_hex raw) "").0 e))
  | inr e ↦ ap not e
]

alone-IsFair : IsFair alone
alone-IsFair = record {
  hash_nonempty = alone-nonempty;
  others_safe = λ n s safe. safe;
  others_evolve = λ n s safe. Evolves-refl s;
}

one_row-IsSafe :
    (sha : String → String) (row : Row) → IsSound row → IsSafe sha (shared_of (row ∷ []))
unfolding find_row
one_row-IsSafe sha row sound = record {
  sound = λ id r found. elim (Bool-cases (row.execution_id =s id)) [
    | inl here ↦ let same : row ≡ r = ground arith in subst IsSound same sound
    | inr there ↦ absurd (ground arith)
  ];
  recorded = tt;
}

fresh-IsSound : IsSound fresh_row
unfolding has_unsafe_side_effect
fresh-IsSound = record { signed_has_hash = λ h. cc; repeatable_is_clean = λ h. refl }

start-IsSafe : IsSafe alone.sha256_hex start.shared
start-IsSafe = one_row-IsSafe alone.sha256_hex fresh_row fresh-IsSound

-- A chain on which the payout of the sample was paid, under 19 blocks.
abbrev paid_chain : Chain
paid_chain = record {
  decoders = record { decode_address = λ s. ok s; decode_uint256 = λ s. ok 5_000_000 };
  tokens = record { symbol = "USDT"; contract_address = "TR7"; decimal = 6; here = true } ∷ [];
  min_confirmations = 19;
  fee_deposit_address = "TFee";
  get = λ t txid. ok (
    record { txid = "ab12"; contract = trigger_smart_contract; contract_ret = some "SUCCESS" },
    (
      record {
        log = some (
            record {
              address = "TR7";
              topics = transfer_event ∷ "TFee" ∷ "TDest" ∷ [];
              event_data = "4c4b40";
            }
            ∷ []);
        block_number = some 100;
      },
      ok 118,
    ),
  );
}

-- A received payout is paid and then found on the chain.
status-confirmed :
    let w = (execute alone tools "e1" start).1 in
    let w' = (status alone paid_chain "e1" "shop" w).1 in
    elim (find_row "e1" w'.shared.rows) [ none ↦ State.received | some r ↦ r.state ]
    ≡ State.confirmed
unfolding payout_code status refresh_tron_usdt_confirmation
status-confirmed = refl

-- A received payout is signed, broadcast once and marked.
execute-start :
    let (r, w) = execute alone tools "e1" start in
    (w.shared.sent ≡ record { execution_id = "e1"; tx = sample_tx } ∷ []) × (w.tick ≡ 24)
unfolding payout_code
execute-start = (refl, refl)

run_call-IsSafe_example :
    IsSafe alone.sha256_hex (run_call alone (execute_call tools "e1") start).shared
    × Evolves start.shared (run_call alone (execute_call tools "e1") start).shared
run_call-IsSafe_example = run_call-IsSafe alone-IsFair (execute_call tools "e1") start start-IsSafe

abbrev sent_e1 : Sent
sent_e1 = record { execution_id = "e1"; tx = sample_tx }

sent_same_hash_example : alone.sha256_hex sent_e1.tx.raw ≡ alone.sha256_hex sent_e1.tx.raw
unfolding run_calls run_call payout_code
sent_same_hash_example =
    sent_same_hash alone-IsFair (execute_call tools "e1" ∷ execute_call tools "e1" ∷ []) start
      sent_e1 sent_e1 start-IsSafe (Memᴰ.head refl) (Memᴰ.head refl) refl

repeatable_never_sent_example :
    ¬ Memᴰ sent_e1 (run_calls alone (recover_call "e1" ∷ []) start).shared.sent
unfolding run_calls run_call payout_code
repeatable_never_sent_example =
    repeatable_never_sent alone-IsFair (recover_call "e1" ∷ []) start fresh_row sent_e1 start-IsSafe
      refl refl

abbrev submission : Submission
submission = record {
  canonical = record payload { execution_id = "e9"; external_id = "x9" };
  request_hash = "r";
  sidecar_payload_hash = "s";
  source_wallet_ref = none;
  payout_queue = none;
}

abbrev no_rows : World
no_rows = record { shared = record { rows = []; sent = []; queued = [] }; tick = 0 }

-- Another request for the same execution.
submit-IsIdempotent_example :
    IsIdempotent alone submission (record submission { request_hash = "other" }) no_rows
unfolding find_row find_external
submit-IsIdempotent_example =
    submit-IsIdempotent alone submission (record submission { request_hash = "other" }) no_rows refl
      refl refl
