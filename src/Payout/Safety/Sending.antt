-- ===== src/Payout/Safety/Sending.antt =====
-- Proofs about the broadcast of a signed payout and the marks around it.
use tron_shkeeper.Base.{
  String, ◌≡◌, refl, sym, subst, ◌∙◌, true, false, Option, some, arith, truthy,
}
use tron_shkeeper.Payout.Types.{Row, SignedTx, Evidence}
use tron_shkeeper.Payout.World.{Shared, Env, record_sent, find_row}
use tron_shkeeper.Payout.Wallet.{Tools, signed_transfer_evidence}
use tron_shkeeper.Payout.Execute.{with_source_address, broadcast, broadcast_signed}
use tron_shkeeper.Payout.Evolution.{IsSound, Evolves, Evolves-refl, IsFair}
use tron_shkeeper.Payout.Holds.{
  Any, Holds, Holds-pure, Holds-bind, Holds-weaken, Holds-subscript, Holds-at_tick,
}
use tron_shkeeper.Payout.Statements.{Knows, IsRecorded-Evolves}
use tron_shkeeper.Payout.Safety.Marks.{
  Carries, Carries-IsStable, mark_signed-Holds, mark_broadcasting-Holds, verify-Holds,
  mark_broadcasted-Holds,
}

with_source_address-hash :
    (a : Option String) (e : Evidence)
    → (with_source_address a e).signed_raw_tx_hash ≡ e.signed_raw_tx_hash
unfolding with_source_address
with_source_address-hash a e = ground arith

signed_transfer_evidence-hash :
    (sha : String → String) (tx : SignedTx)
    → (signed_transfer_evidence sha tx).signed_raw_tx_hash ≡ sha tx.raw
unfolding signed_transfer_evidence
signed_transfer_evidence-hash sha tx = refl

module _ {env : Env} (fair : IsFair env) (tools : Tools) where
  -- A transaction may be sent when the row stores its hash: what was sent stays on record.
  record_sent-Holds :
      (id : String) (o : Option Row) (tx : SignedTx)
      → Holds env.sha256_hex
          (Carries id (env.sha256_hex tx.raw) o)
          (record_sent id tx)
          (λ _. Carries id (env.sha256_hex tx.raw) o)
  unfolding record_sent
  record_sent-Holds id o tx = record {
    at = λ w safe c.
        let s' : Shared = (record_sent id tx w).1.shared in
        let up : Evolves w.shared s' = record { rows = (Evolves-refl w.shared).rows } in
        let (d, found, ahead) = c.known.later in
        let signed : truthy c.row.signed_raw_tx_hash ≡ true =
          subst (λ v. truthy v ≡ true) (sym c.stored) (fair.hash_nonempty tx.raw) in
        record {
          evolves = up;
          safe = record {
            sound = safe.sound;
            recorded = (
              (
                d,
                subst (λ i. find_row i w.shared.rows ≡ some d) c.same_id found,
                ahead.hash_kept signed ∙ c.stored,
              ),
              IsRecorded-Evolves fair w.shared s' up w.shared.sent safe.recorded,
            );
          };
          post = (Carries-IsStable id (env.sha256_hex tx.raw) o).keep w.shared s' up c;
        };
  }

  broadcast-Holds :
      (id : String) (o : Option Row) (tx : SignedTx)
      → Holds env.sha256_hex
          (Carries id (env.sha256_hex tx.raw) o)
          (broadcast tools id tx)
          (λ _. Carries id (env.sha256_hex tx.raw) o)
  unfolding broadcast
  broadcast-Holds id o tx = Holds-bind _ _ (record_sent-Holds id o tx) (λ _. Holds-at_tick _)

  pub broadcast_signed-Holds :
      (row : Row) (tx : SignedTx)
      → IsSound row
      → truthy row.signed_raw_tx_hash ≡ false
      → Holds env.sha256_hex (λ s. Knows s row) (broadcast_signed env tools row tx) Any
  unfolding broadcast_signed
  broadcast_signed-Holds row tx sound unsigned =
      let evidence =
        with_source_address tools.wallet.source_address
          (signed_transfer_evidence env.sha256_hex tx) in
      let id = row.execution_id in
      let hash = env.sha256_hex tx.raw in
      let nonempty : truthy (some hash) ≡ true = fair.hash_nonempty tx.raw in
      let same : evidence.signed_raw_tx_hash ≡ hash =
        with_source_address-hash tools.wallet.source_address
          (signed_transfer_evidence env.sha256_hex tx)
        ∙ signed_transfer_evidence-hash env.sha256_hex tx in
      Holds-bind _ _
        (Holds-weaken _
          (mark_signed-Holds fair row evidence sound unsigned
            (subst (λ h. truthy (some h) ≡ true) (sym same) nonempty))
          (λ s k. k) (λ o s c. subst (λ h. Carries id h o s) same c))
        λ signed.
          Holds-bind _ _ (mark_broadcasting-Holds fair id hash nonempty signed) λ broadcasting.
            Holds-bind _ _ (broadcast-Holds id broadcasting tx) λ result.
              Holds-bind _ _ (verify-Holds fair id hash nonempty broadcasting tx.txid result)
                λ verified.
                  Holds-bind _ _
                    (mark_broadcasted-Holds fair id hash nonempty verified tx.txid result)
                    λ done.
                      Holds-bind _ _ (Holds-subscript {Q = Any} done (λ r e s c. tt))
                        (λ row'. Holds-pure _ (λ s c. tt))
