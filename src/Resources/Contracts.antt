-- ===== src/Resources/Contracts.antt =====
-- Contracts for the questions to the outside world and the calls of providers
-- (app/usdt_resource_provisioning.py).
unfoldable pub use tron_shkeeper.Effect.Contracts.{After}
pub use tron_shkeeper.Effect.Contracts.{
  Contract, Contract-pure, Contract-raise, Contract-elim, Contract-if, Contract-option,
  Contract-result, Contract-list, Contract-bind, Contract-then, Contract-weaken, Contract-of_result,
}
use tron_shkeeper.Base.{Option, List}
use tron_shkeeper.Payout.Types.{Exc}
use tron_shkeeper.Resources.Types.{
  Answer, acquired, refused, raised, raise, Failure, Attempt, World, M, ask,
}

module _ {W : Type 0} where
  pub Contract-answer :
      {E : Exc → World W → Type 0} {B : Type 0} {R : B → World W → Type 0}
      (Q : Answer → World W → Type 0) (a : Answer) (m : M W B) (n : Option Failure → M W B)
      → ((e : Exc) (w : World W) → Q (raised e) w → E e w)
      → Contract (Q acquired) m R E
      → ((f : Option Failure) → Contract (Q (refused f)) (n f) R E)
      → Contract (Q a) (elim a [ acquired ↦ m | raised e ↦ raise e | refused f ↦ n f ]) R E
  Contract-answer Q acquired m n he hm hn = hm
  Contract-answer Q (raised e) m n he hm hn = Contract-raise e (he e)
  Contract-answer Q (refused f) m n he hm hn = hn f

  -- What does not read the outside world is not touched by a question to it.
  pub Contract-ask :
      {A : Type 0} {E : Exc → World W → Type 0} (K : List Attempt → Type 0) (f : W → A × W)
      → Contract (λ w. K w.attempts) (ask f) (λ _ w. K w.attempts) E
  unfolding ask After
  Contract-ask K f = record { at = λ w p. p }
