-- ===== src/Profeex/Honest.antt =====
-- Proofs about a purchase and what is noted of it (app/resource_providers/profeex.py).
use mathlib.Core.List.{Memᴰ}
use mathlib.Core.List.Memᴰ
use tron_shkeeper.Base.{
  ℕ, ◌≤◌, ◌≡◌, refl, subst, ap, String, Bool, true, false, Option, none, some, [], ◌∷◌, ◌==◌,
  length, arith, inl, inr,
}
use tron_shkeeper.Payout.Types.{Exc}
use tron_shkeeper.Effect.{pure, ◌>>=◌, ◌>>◌}
use tron_shkeeper.Effect.Contracts.{
  After, Contract, Contract-pure, Contract-if, Contract-option, Contract-bind, Contract-then,
  Contract-modify, Contract-weaken,
}
use tron_shkeeper.Profeex.Failures.{classify_profeex_failure, Body, Reply, response, failed}
use tron_shkeeper.Profeex.Client.{Settings, Purchase, Outside, Provider, P, set_failure, purchase}
use tron_shkeeper.Profeex.Orders.{unhashable_status, accept_order, create_order, extract_task_id}
use tron_shkeeper.Profeex.Acquire.{follow_order, buy_resource}
use tron_shkeeper.Profeex.Waits.{classify_profeex_failure-IsFinal, IsClocked, IsKept}
use tron_shkeeper.Profeex.Accepted.{
  was_accepted, HasFinalFailure, IsFollowed, IsRecheck, after_order-IsFollowed,
}

module _ {W : Type 0} (o : Outside W) where
  -- What is known when a resource was asked for: at most one purchase was requested; where the
  -- answer is that the resource is there, so it is; where an order was accepted and the answer is
  -- no, the failure is final.
  pub record IsHonest (There : W → Type 0) (b : Bool) (p : Provider W) : Type 0 where
    pub at_most_one : length p.purchases ≤ 1
    pub there : b ≡ true → There p.outside
    pub final :
        (entry : Purchase × Reply)
        → Memᴰ entry p.purchases
        → was_accepted entry.1 ≡ true
        → b ≡ false
        → HasFinalFailure p

  abbrev pub IsUnasked : Provider W → Type 0
  IsUnasked p = p.purchases ≡ []

  pub unasked-IsHonest :
      (There : W → Type 0) (b : Bool) (p : Provider W)
      → IsUnasked p
      → (b ≡ true → There p.outside)
      → IsHonest There b p
  unasked-IsHonest There b p unasked there = record {
    at_most_one = rw unasked (omega arith);
    there = there;
    final = λ entry m. absurd (Memᴰ.not-nil (subst (Memᴰ entry) unasked m));
  }

  followed-IsHonest :
      (There : W → Type 0) (entry : Purchase × Reply) (b : Bool) (p : Provider W)
      → IsFollowed o There (entry ∷ []) b p
      → IsHonest There b p
  followed-IsHonest There entry b p h = record {
    at_most_one = rw (h.kept.same) (omega arith);
    there = h.there;
    final = λ entry m accepted. h.failed_final;
  }

  -- The state after a purchase.
  record IsPurchase (reply : Reply) (p : Provider W) : Type 0 where
    request : Purchase
    kept : IsKept o ((request, reply) ∷ []) p

  -- An order was made out; or none was, and if one was accepted its failure is final.
  IsCreated : Option Body → Provider W → Type 0
  IsCreated none p =
      (entry : Purchase × Reply) × (IsKept o (entry ∷ []) p
        × (was_accepted entry.1 ≡ true → HasFinalFailure p))
  IsCreated (some order) p = (entry : Purchase × Reply) × IsKept o (entry ∷ []) p

  module _ {E : Exc → Provider W → Type 0} where
    purchase-IsPurchase :
        (request : Purchase) → Contract IsUnasked (purchase o request) IsPurchase E
    unfolding purchase After
    purchase-IsPurchase request = record {
      at = λ p unasked. record {
        request = request;
        kept = record { same = ap (λ l. (request, (o.buy request p.outside).0) ∷ l) unasked };
      };
    }

    refuse-IsCreated :
        (reply : Reply) (code : String)
        → was_accepted reply ≡ false
        → Contract (IsPurchase reply) (set_failure code none false >> pure none) IsCreated E
    unfolding IsCreated
    refuse-IsCreated reply code refused =
        Contract-then {Q = IsPurchase reply} _ _
          (Contract-modify _
            (λ p h. record { request = h.request; kept = record { same = h.kept.same } }))
          (Contract-pure none (λ p h.
            ((h.request, reply), (h.kept, λ accepted. absurd (ground (arith, accepted, refused))))))

    lose-IsCreated :
        (reply : Reply) (code : String)
        → Contract (IsPurchase reply) (set_failure code none true >> pure none) IsCreated E
    unfolding IsCreated
    lose-IsCreated reply code =
        Contract-then {Q = λ p. IsPurchase reply p × HasFinalFailure p} _ _
          (Contract-modify _ (λ p h. (
            record { request = h.request; kept = record { same = h.kept.same } },
            record {
              failure = classify_profeex_failure code none true;
              stored = refl;
              final = classify_profeex_failure-IsFinal code none;
            },
          )))
          (Contract-pure none (λ p h. ((h.0.request, reply), (h.0.kept, λ _. h.1))))

    accept_order-IsCreated :
        (reply : Reply) → Contract (IsPurchase reply) (accept_order reply) IsCreated E
    unfolding accept_order IsCreated
    accept_order-IsCreated (failed e) = refuse-IsCreated (failed e) _ refl
    accept_order-IsCreated (response r) =
        Contract-if (r.status_code == 202) _ _
          (λ _.
            Contract-option r.body _ _
              (lose-IsCreated (response r) "ACCEPTED_ORDER_WITHOUT_TASK_ID")
              (λ order. Contract-pure (some order) (λ p h. ((h.request, response r), h.kept))))
          (λ refused. refuse-IsCreated (response r) _ refused)

    create_order-IsCreated :
        (settings : Settings) (receiver : String) (amount : ℕ) (path duration_label : String)
        → Contract IsUnasked
            (create_order o settings receiver amount path duration_label)
            IsCreated
            E
    unfolding create_order
    create_order-IsCreated settings receiver amount path duration_label =
        Contract-bind _ _ (purchase-IsPurchase _) accept_order-IsCreated

    module _ (clocked : IsClocked o) (receiver : String) (There : W → Type 0) (settings : Settings)
        (recheck : P W Bool) (rechecked : IsRecheck o E There recheck)
        (crash : (entry : Purchase × Reply) (p : Provider W)
          → IsKept o (entry ∷ []) p
          → E unhashable_status p) where
      follow-IsHonest :
          (order : Body)
          → Contract
              (IsCreated (some order))
              (extract_task_id order >>= follow_order o receiver settings recheck order)
              (IsHonest There)
              E
      unfolding IsCreated
      follow-IsHonest order = record {
        at = λ p h.
            (Contract-weaken _
                (after_order-IsFollowed o {purchases = h.0 ∷ []} clocked receiver There settings
                  recheck rechecked (crash h.0) order)
                (λ p k. k) (followed-IsHonest There h.0) (λ e p k. k)).at
              p h.1;
      }

      no_order-IsHonest : Contract (IsCreated none) (pure false) (IsHonest There) E
      unfolding IsCreated
      no_order-IsHonest = Contract-pure false (λ p h.
          let (entry, (kept, final)) = h in
          record {
            at_most_one = rw (kept.same) (omega arith);
            there = λ same. absurd (ground (arith, same));
            final = λ e m accepted _.
                final (subst (λ x. was_accepted x.1 ≡ true) (only m kept) accepted);
          })
        where
          only :
              {e entry : Purchase × Reply} {p : Provider W}
              → Memᴰ e p.purchases
              → IsKept o (entry ∷ []) p
              → e ≡ entry
          only {e} m kept = elim (Memᴰ.cases_cons (subst (Memᴰ e) (kept.same) m)) [
            | inl same ↦ same
            | inr later ↦ absurd (Memᴰ.not-nil later)
          ]

      pub buy_resource-IsHonest :
          (amount : ℕ) (path duration_label : String)
          → Contract IsUnasked
              (buy_resource o receiver settings amount path duration_label recheck)
              (IsHonest There)
              E
      unfolding buy_resource
      buy_resource-IsHonest amount path duration_label =
          Contract-bind _ _ (create_order-IsCreated settings receiver amount path duration_label)
            after_created
        where
          after_created :
              (created : Option Body)
              → Contract
                  (IsCreated created)
                  (elim created [
                    | none ↦ pure false
                    | some order ↦
                        extract_task_id order >>= follow_order o receiver settings recheck order
                  ])
                  (IsHonest There)
                  E
          after_created none = no_order-IsHonest
          after_created (some order) = follow-IsHonest order
