-- ===== src/Effect/Contracts.antt =====
-- Contracts for effects: what holds of the state before, of the result and the state after, and of
-- the exception and the state after.
use tron_shkeeper.Base.{
  if◌then◌else◌, ◌≡◌, refl, Bool, true, false, Option, none, some, List, [], ◌∷◌,
}
use tron_shkeeper.Payout.Types.{Exc, Result, ok, err}
use tron_shkeeper.Effect.{
  Effect, pure, raise, continue, ◌>>=◌, ◌>>◌, of_result, handle, catch, modify, gets,
}

module _ {S : Type 0} where
  unfoldable pub After :
      {A : Type 0} → (A → S → Type 0) → (Exc → S → Type 0) → Result A → S → Type 0
  After Q E (ok a) s = Q a s
  After Q E (err e) s = E e s

  pub record Contract {A : Type 0} (P : S → Type 0) (m : Effect S A) (Q : A → S → Type 0)
      (E : Exc → S → Type 0) : Type 0 where
    pub at : (s : S) → P s → After Q E (m s).0 (m s).1

  -- What cannot raise returns.
  pub returns :
      {A : Type 0} (Q : A → S → Type 0) (r : Result A) (s : S)
      → After Q (λ _ _. ⊥) r s
      → (a : A) × ((r ≡ ok a) × Q a s)
  unfolding After
  returns Q (ok a) s q = (a, (refl, q))
  returns Q (err e) s q = absurd q

  module _ {P : S → Type 0} {E : Exc → S → Type 0} where
    pub Contract-pure :
        {A : Type 0} {Q : A → S → Type 0} (a : A)
        → ((s : S) → P s → Q a s)
        → Contract P (pure a) Q E
    unfolding pure After
    Contract-pure a q = record { at = q }

    pub Contract-raise :
        {A : Type 0} {Q : A → S → Type 0} (e : Exc)
        → ((s : S) → P s → E e s)
        → Contract P (raise {A = A} e) Q E
    unfolding raise After
    Contract-raise e q = record { at = q }

    pub Contract-elim :
        {A : Type 0} {Q : A → S → Type 0} (b : Bool) (m n : Effect S A)
        → (b ≡ true → Contract P m Q E)
        → (b ≡ false → Contract P n Q E)
        → Contract P (elim b [ true ↦ m | false ↦ n ]) Q E
    Contract-elim true m n hm hn = hm refl
    Contract-elim false m n hm hn = hn refl

    pub Contract-if :
        {A : Type 0} {Q : A → S → Type 0} (b : Bool) (m n : Effect S A)
        → (b ≡ true → Contract P m Q E)
        → (b ≡ false → Contract P n Q E)
        → Contract P (if b then m else n) Q E
    Contract-if true m n hm hn = hm refl
    Contract-if false m n hm hn = hn refl

    pub Contract-option :
        {A B : Type 0} {Q : B → S → Type 0} (o : Option A) (m : Effect S B) (n : A → Effect S B)
        → Contract P m Q E
        → ((a : A) → Contract P (n a) Q E)
        → Contract P (elim o [ none ↦ m | some a ↦ n a ]) Q E
    Contract-option none m n hm hn = hm
    Contract-option (some a) m n hm hn = hn a

    pub Contract-result :
        {A B : Type 0} {Q : B → S → Type 0} (r : Result A) (m : A → Effect S B)
        (n : Exc → Effect S B)
        → ((a : A) → Contract P (m a) Q E)
        → ((e : Exc) → Contract P (n e) Q E)
        → Contract P (elim r [ ok a ↦ m a | err e ↦ n e ]) Q E
    Contract-result (ok a) m n hm hn = hm a
    Contract-result (err e) m n hm hn = hn e

    pub Contract-list :
        {A B : Type 0} {Q : B → S → Type 0} (l : List A) (m : Effect S B)
        (n : A → List A → Effect S B)
        → Contract P m Q E
        → ((a : A) (l : List A) → Contract P (n a l) Q E)
        → Contract P (elim l [ [] ↦ m | a ∷ l ↦ n a l ]) Q E
    Contract-list [] m n hm hn = hm
    Contract-list (a ∷ l) m n hm hn = hn a l

    pub Contract-bind :
        {A B : Type 0} {Q : A → S → Type 0} {R : B → S → Type 0} (m : Effect S A)
        (f : A → Effect S B)
        → Contract P m Q E
        → ((a : A) → Contract (Q a) (f a) R E)
        → Contract P (m >>= f) R E
    unfolding ◌>>=◌ After continue
    Contract-bind {A} {B} {Q} {R} m f hm hf = record {
      at = λ s p. step (m s).0 (m s).1 (hm.at s p);
    }
      where
        step :
            (r : Result A) (s : S) → After Q E r s → After R E (continue f r s).0 (continue f r s).1
        step (ok a) s q = (hf a).at s q
        step (err e) s q = q

    pub Contract-then :
        {A B : Type 0} {Q : S → Type 0} {R : B → S → Type 0} (m : Effect S A) (n : Effect S B)
        → Contract P m (λ _. Q) E
        → Contract Q n R E
        → Contract P (m >> n) R E
    unfolding ◌>>◌
    Contract-then m n hm hn = Contract-bind m (λ _. n) hm (λ _. hn)

    pub Contract-weaken :
        {A : Type 0} {P' : S → Type 0} {Q Q' : A → S → Type 0} {E' : Exc → S → Type 0}
        (m : Effect S A)
        → Contract P m Q E
        → ((s : S) → P' s → P s)
        → ((a : A) (s : S) → Q a s → Q' a s)
        → ((e : Exc) (s : S) → E e s → E' e s)
        → Contract P' m Q' E'
    unfolding After
    Contract-weaken {A} {P'} {Q} {Q'} {E'} m h before after failed = record {
      at = λ s p. step (m s).0 (m s).1 (h.at s (before s p));
    }
      where
        step : (r : Result A) (s : S) → After Q E r s → After Q' E' r s
        step (ok a) s q = after a s q
        step (err e) s q = failed e s q

    pub Contract-of_result :
        {A : Type 0} (r : Result A)
        → ((e : Exc) (s : S) → P s → E e s)
        → Contract P (of_result r) (λ _. P) E
    unfolding After
    Contract-of_result (ok a) q = record { at = λ s p. p }
    Contract-of_result (err e) q = record { at = q e }

    -- A handler is called in the state that the exception left.
    pub Contract-catch :
        {A : Type 0} {Q : A → S → Type 0} {F : Exc → S → Type 0} (m : Effect S A)
        (h : Exc → Effect S A)
        → Contract P m Q F
        → ((e : Exc) → Contract (F e) (h e) Q E)
        → Contract P (catch m h) Q E
    unfolding catch handle After
    Contract-catch {A} {Q} {F} m h hm hh = record { at = λ s p. step (m s).0 (m s).1 (hm.at s p) }
      where
        step : (r : Result A) (s : S) → After Q F r s → After Q E (handle h r s).0 (handle h r s).1
        step (ok a) s q = q
        step (err e) s q = (hh e).at s q

    pub Contract-modify :
        {Q : S → Type 0} (f : S → S) → ((s : S) → P s → Q (f s)) → Contract P (modify f) (λ _. Q) E
    unfolding modify After
    Contract-modify f q = record { at = q }

    pub Contract-gets : {A : Type 0} (f : S → A) → Contract P (gets f) (λ a s. (a ≡ f s) × P s) E
    unfolding gets After
    Contract-gets f = record { at = λ s p. (refl, p) }
