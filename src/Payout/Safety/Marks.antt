-- ===== src/Payout/Safety/Marks.antt =====
-- Proofs about the marks of a signed payout.
use tron_shkeeper.Base.{
  ℕ, String, ◌≡◌, refl, sym, subst, ◌∙◌, true, false, Option, none, some, List, truthy,
}
use tron_shkeeper.Payout.Types.{State, Row, Evidence, BroadcastResult}
use tron_shkeeper.Payout.World.{Shared, Env, ◌>>=◌}
use tron_shkeeper.Payout.Fields.{Field, write_row}
use tron_shkeeper.Payout.Transitions.{
  transition, mark_signed, mark_broadcasting, check_broadcast_txids, write_verified,
  verify_broadcast_result, mark_broadcasted, normalize_txid, broadcast_result_txids,
}
use tron_shkeeper.Payout.Evolution.{IsSound, IsFair}
use tron_shkeeper.Payout.Holds.{
  Holds, Holds-raise, Holds-bind, Holds-weaken, Holds-utcnow, Holds-guard, IsStable,
}
use tron_shkeeper.Payout.Statements.{Knows, Knows-Evolves, IsLegal, Written, write_row-Rewrites}
use tron_shkeeper.Payout.Safety.Calls.{transition-Holds}
use tron_shkeeper.Payout.Legal.{
  signed-IsLegal, broadcasting-IsLegal, same_state-IsLegal, broadcasted-IsLegal,
}

-- A row of the execution that stores a transaction's hash.
pub record Carries (id hash : String) (o : Option Row) (s : Shared) : Type 0 where
  pub row : Row
  pub returned : o ≡ some row
  pub known : Knows s row
  pub same_id : row.execution_id ≡ id
  pub stored : row.signed_raw_tx_hash ≡ some hash

pub Carries-IsStable : (id hash : String) (o : Option Row) → IsStable (Carries id hash o)
Carries-IsStable id hash o = record {
  keep = λ s s' up c. record {
    row = c.row;
    returned = c.returned;
    known = Knows-Evolves c.known up;
    same_id = c.same_id;
    stored = c.stored;
  };
}

-- A transition that leaves the hash alone carries it on.
Carries-Written :
    (id hash : String) (state : State) (fs : List Field) (r : Row) (o : Option Row) (s : Shared)
    → r.execution_id ≡ id
    → truthy (some hash) ≡ true
    → ((tid : String) (time : ℕ) → (write_row state tid time fs r).signed_raw_tx_hash ≡ some hash)
    → Written state fs r o s
    → Carries id hash o s
Carries-Written id hash state fs r o s same nonempty stored w =
    let written = write_row-Rewrites state w.transition_id w.time fs r in
    let here = stored w.transition_id w.time in
    record {
      row = w.row';
      returned = w.returned;
      known = w.known;
      same_id = w.ahead.same_id ∙ written.same_id ∙ same;
      stored = w.ahead.hash_kept (subst (λ v. truthy v ≡ true) (sym here) nonempty) ∙ here;
    }

-- The row that is carried, for an option that is known.
Carries-row :
    {id hash : String} {r : Row} {s : Shared}
    → Carries id hash (some r) s
    → Knows s r × (r.execution_id ≡ id) × (r.signed_raw_tx_hash ≡ some hash)
Carries-row {id} {hash} {r} {s} c =
    let same : c.row ≡ r = cc (c.returned) in
    (
      subst (λ x. Knows s x) same c.known,
      subst (λ x. x.execution_id ≡ id) same c.same_id,
      subst (λ x. x.signed_raw_tx_hash ≡ some hash) same c.stored,
    )

module _ {env : Env} (fair : IsFair env) where
  pub mark_signed-Holds :
      (row : Row) (e : Evidence)
      → IsSound row
      → truthy row.signed_raw_tx_hash ≡ false
      → truthy (some e.signed_raw_tx_hash) ≡ true
      → Holds env.sha256_hex
          (λ s. Knows s row)
          (mark_signed env row e)
          (Carries row.execution_id e.signed_raw_tx_hash)
  unfolding mark_signed write_row
  mark_signed-Holds row e sound unsigned nonempty = Holds-bind _ _ (Holds-utcnow env) λ now.
      Holds-weaken _
        (transition-Holds fair _ _ row (signed-IsLegal row sound _ _ now _ _ _ _ unsigned nonempty))
        (λ s k. k)
        (λ o s w.
          Carries-Written row.execution_id e.signed_raw_tx_hash _ _ row o s refl nonempty
            (λ tid time. refl) w)

  -- A transition of a row that is gone raises.
  no_row :
      {P : Shared → Type 0} {Q : Option Row → Shared → Type 0} (state : State) (fs : List Field)
      → Holds env.sha256_hex P (transition env none state fs) Q
  unfolding transition
  no_row state fs = Holds-raise _

  module _ (id hash : String) (nonempty : truthy (some hash) ≡ true) where
    -- A transition of a carried row, legal for every row with that hash.
    carry :
        (state : State) (fs : List Field) (r : Row)
        → (IsSound r → truthy r.signed_raw_tx_hash ≡ true → IsLegal state fs r)
        → ((tid : String) (time : ℕ)
            → (write_row state tid time fs r).signed_raw_tx_hash ≡ r.signed_raw_tx_hash)
        → Holds env.sha256_hex
            (Carries id hash (some r))
            (transition env (some r) state fs)
            (Carries id hash)
    carry state fs r legal kept = record {
      at = λ w safe c.
          let (known, same, stored) = Carries-row c in
          let signed : truthy r.signed_raw_tx_hash ≡ true =
            subst (λ v. truthy v ≡ true) (sym stored) nonempty in
          (Holds-weaken {P' = λ s. Knows s r} _
              (transition-Holds fair state fs r (legal known.sound signed)) (λ s k. k)
              (λ o s.
                Carries-Written id hash state fs r o s same nonempty
                  (λ tid time. kept tid time ∙ stored))).at
            w safe known;
    }

    pub mark_broadcasting-Holds :
        (o : Option Row)
        → Holds env.sha256_hex (Carries id hash o) (mark_broadcasting env o) (Carries id hash)
    unfolding mark_broadcasting write_row
    mark_broadcasting-Holds none = Holds-bind _ _ (Holds-utcnow env) (λ now. no_row _ _)
    mark_broadcasting-Holds (some r) = Holds-bind _ _ (Holds-utcnow env) λ now.
        carry _ _ r (λ sound signed. broadcasting-IsLegal r sound _ _ signed) (λ tid time. refl)

    check-Holds :
        {P : Shared → Type 0} (expected : Option String) (candidates : List String)
        → Holds env.sha256_hex P (check_broadcast_txids expected candidates) (λ _ s. P s)
    unfolding check_broadcast_txids
    check-Holds expected candidates = Holds-bind _ _ (Holds-guard _ _) (λ _. Holds-guard _ _)

    verified :
        (o : Option Row) (candidates : List String)
        → Holds env.sha256_hex
            (Carries id hash o)
            (write_verified env o candidates)
            (Carries id hash)
    unfolding write_verified write_row ◌>>=◌
    verified none candidates = Holds-raise _
    verified (some r) candidates =
        carry _ _ r (λ sound signed. same_state-IsLegal r sound _) (λ tid time. refl)

    pub verify-Holds :
        (o : Option Row) (txid : String) (result : BroadcastResult)
        → Holds env.sha256_hex
            (Carries id hash o)
            (verify_broadcast_result env o txid result)
            (Carries id hash)
    unfolding verify_broadcast_result
    verify-Holds o txid result =
        Holds-bind _ _ (check-Holds (normalize_txid (some txid)) (broadcast_result_txids result))
          λ _. verified o (broadcast_result_txids result)

    pub mark_broadcasted-Holds :
        (o : Option Row) (txid : String) (result : BroadcastResult)
        → Holds env.sha256_hex
            (Carries id hash o)
            (mark_broadcasted env o txid result)
            (Carries id hash)
    unfolding mark_broadcasted write_row ◌>>=◌
    mark_broadcasted-Holds none txid result = Holds-raise _
    mark_broadcasted-Holds (some r) txid result =
        carry _ _ r (λ sound signed. broadcasted-IsLegal r sound _ _ _ signed) (λ tid time. refl)
