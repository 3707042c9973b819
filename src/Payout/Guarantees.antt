-- ===== src/Payout/Guarantees.antt =====
-- Proofs about sequences of calls of app/payout_execution.py, with other processes between their
-- statements.
use mathlib.Core.List.{Memᴰ}
use tron_shkeeper.Base.{
  String, ◌≡◌, sym, subst, true, some, List, [], ◌∷◌, arith, truthy, All_of_Memᴰ,
}
use tron_shkeeper.Payout.Types.{Row, Exc}
use tron_shkeeper.Payout.Fields.{has_unsafe_side_effect}
use tron_shkeeper.Payout.World.{Sent, World, Env, find_row}
use tron_shkeeper.Payout.Wallet.{Tools}
use tron_shkeeper.Payout.Transitions.{recover_stale_execution, mark_failed_or_reconciliation}
use tron_shkeeper.Payout.Execute.{execute}
use tron_shkeeper.Payout.Refresh.{Chain, status}
use tron_shkeeper.Payout.Safety.Following.{status-Holds}
use tron_shkeeper.Payout.Evolution.{is_repeatable, Evolves, IsRecorded, IsSafe, IsFair}
use tron_shkeeper.Payout.Safety.Recovery.{recover-Holds, mark_failed-Holds}
use tron_shkeeper.Payout.Safety.Paying.{execute-Holds}

-- A call of one of the operations, in a world.
pub data Call : Type 0 where
  execute_call : Tools → String → Call
  recover_call : String → Call
  fail_call : String → Exc → Call
  status_call : Chain → String → String → Call

unfoldable pub run_call : Env → Call → World → World
run_call env (execute_call tools id) w = (execute env tools id w).1
run_call env (recover_call id) w = (recover_stale_execution env id w).1
run_call env (fail_call id exc) w = (mark_failed_or_reconciliation env id exc w).1
run_call env (status_call chain id consumer) w = (status env chain id consumer w).1

unfoldable pub run_calls : Env → List Call → World → World
run_calls env [] w = w
run_calls env (c ∷ cs) w = run_calls env cs (run_call env c w)

module _ {env : Env} (fair : IsFair env) where
  -- Every call, interrupted between any two of its statements by fair processes, leads from a safe
  -- shared state to a safe one, in which every row is the row it was or a later version of it.
  pub run_call-IsSafe :
      (c : Call) (w : World)
      → IsSafe env.sha256_hex w.shared
      → IsSafe env.sha256_hex (run_call env c w).shared × Evolves w.shared (run_call env c w).shared
  unfolding run_call
  run_call-IsSafe (execute_call tools id) w safe =
      let e = (execute-Holds fair tools id).at w safe tt in (e.safe, e.evolves)
  run_call-IsSafe (recover_call id) w safe =
      let e = (recover-Holds fair id).at w safe tt in (e.safe, e.evolves)
  run_call-IsSafe (fail_call id exc) w safe =
      let e = (mark_failed-Holds fair id exc).at w safe tt in (e.safe, e.evolves)
  run_call-IsSafe (status_call chain id consumer) w safe =
      let e = (status-Holds fair chain id consumer).at w safe tt in (e.safe, e.evolves)

  run_calls-IsSafe :
      (cs : List Call) (w : World)
      → IsSafe env.sha256_hex w.shared
      → IsSafe env.sha256_hex (run_calls env cs w).shared
  unfolding run_calls
  run_calls-IsSafe [] w safe = safe
  run_calls-IsSafe (c ∷ cs) w safe =
      run_calls-IsSafe cs (run_call env c w) (run_call-IsSafe c w safe).0

  -- After any calls from a safe state, two transactions that were sent for one execution have the
  -- same hash: no second, different transaction is ever broadcast for an execution.
  pub sent_same_hash :
      (cs : List Call) (w : World) (a b : Sent)
      → IsSafe env.sha256_hex w.shared
      → Memᴰ a (run_calls env cs w).shared.sent
      → Memᴰ b (run_calls env cs w).shared.sent
      → a.execution_id ≡ b.execution_id
      → env.sha256_hex a.tx.raw ≡ env.sha256_hex b.tx.raw
  sent_same_hash cs w a b safe ma mb same =
      let s = (run_calls env cs w).shared in
      let recorded = (run_calls-IsSafe cs w safe).recorded in
      let (r, found, stored) = All_of_Memᴰ (IsRecorded env.sha256_hex s) s.sent recorded ma in
      let (r', found', stored') = All_of_Memᴰ (IsRecorded env.sha256_hex s) s.sent recorded mb in
      let one : r ≡ r' = cc (found, found', same) in cc (stored, stored', one)

  -- After any calls from a safe state, an execution that is RECEIVED, VALIDATED or
  -- FAILED_PRE_BROADCAST, and so may be paid again, has never been broadcast.
  pub repeatable_never_sent :
      (cs : List Call) (w : World) (r : Row) (e : Sent)
      → IsSafe env.sha256_hex w.shared
      → find_row e.execution_id (run_calls env cs w).shared.rows ≡ some r
      → is_repeatable r.state ≡ true
      → ¬ Memᴰ e (run_calls env cs w).shared.sent
  unfolding has_unsafe_side_effect
  repeatable_never_sent cs w r e safe found repeatable m =
      let s = (run_calls env cs w).shared in
      let safe' = run_calls-IsSafe cs w safe in
      let clean = (safe'.sound e.execution_id r found).repeatable_is_clean repeatable in
      let (r', found', stored) =
        All_of_Memᴰ (IsRecorded env.sha256_hex s) s.sent safe'.recorded m in
      let one : r' ≡ r = cc (found, found') in
      let hash : r.signed_raw_tx_hash ≡ some (env.sha256_hex e.tx.raw) = cc (stored, one) in
      let signed : truthy r.signed_raw_tx_hash ≡ true =
        subst (λ v. truthy v ≡ true) (sym hash) (fair.hash_nonempty e.tx.raw) in
      ground (arith, clean, signed)
