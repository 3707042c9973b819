-- ===== src/Payout/Holds.antt =====
-- Rules for actions: from every safe state in which `P` holds, the action ensures `Q`, whatever the
-- other processes do meanwhile. A precondition that other processes cannot break may be kept.
use tron_shkeeper.Base.{◌≡◌, refl, Bool, true, false, Option, none, some, String, if◌then◌else◌}
use tron_shkeeper.Payout.Types.{Exc, Result, ok, err}
use tron_shkeeper.Payout.World.{
  Shared, World, Env, M, pure, raise, raise_if, subscript, catch, ◌>>=◌, utcnow, uuid4,
}
use tron_shkeeper.Payout.Evolution.{Evolves, Evolves-refl, IsSafe}
use tron_shkeeper.Payout.Ensures.{
  Ensures, Ensures-pure, Ensures-raise, Ensures-bind, Ensures-handle, Ensures-weaken,
  Ensures-run_from,
}

-- Nothing is said.
abbrev pub Any : {A : Type 0} → A → Shared → Type 0
Any a s = Unit

abbrev pub Always : Shared → Type 0
Always s = Unit

pub record Holds (sha256_hex : String → String) {A : Type 0} (P : Shared → Type 0) (m : M A)
    (Q : A → Shared → Type 0) : Type 0 where
  pub at : (w : World) → IsSafe sha256_hex w.shared → P w.shared → Ensures sha256_hex w Q (m w)

pub record IsStable (P : Shared → Type 0) : Type 0 where
  pub keep : (s s' : Shared) → Evolves s s' → P s → P s'

module _ {sha : String → String} {A : Type 0} {P : Shared → Type 0} {Q : A → Shared → Type 0} where
  pub Holds-pure : (a : A) → ((s : Shared) → P s → Q a s) → Holds sha P (pure a) Q
  Holds-pure a q = record { at = λ w safe p. Ensures-pure sha w a safe (q w.shared p) }

  pub Holds-raise : (e : Exc) → Holds sha P (raise {A = A} e) Q
  Holds-raise e = record { at = λ w safe p. Ensures-raise sha w e safe }

  pub Holds-if :
      (b : Bool) (m n : M A)
      → (b ≡ true → Holds sha P m Q)
      → (b ≡ false → Holds sha P n Q)
      → Holds sha P (if b then m else n) Q
  Holds-if true m n hm hn = hm refl
  Holds-if false m n hm hn = hn refl

  pub Holds-subscript :
      (o : Option A)
      → ((a : A) → o ≡ some a → (s : Shared) → P s → Q a s)
      → Holds sha P (subscript o) Q
  Holds-subscript none q = Holds-raise _
  Holds-subscript (some a) q = Holds-pure a (q a refl)

  pub Holds-weaken :
      {P' : Shared → Type 0} {Q' : A → Shared → Type 0} (m : M A)
      → Holds sha P m Q
      → ((s : Shared) → P' s → P s)
      → ((a : A) (s : Shared) → Q a s → Q' a s)
      → Holds sha P' m Q'
  Holds-weaken m h stronger weaker = record {
    at = λ w safe p. Ensures-weaken sha w (m w) (h.at w safe (stronger w.shared p)) weaker;
  }

  -- What others cannot break holds afterwards too.
  pub Holds-frame :
      {K : Shared → Type 0} (m : M A)
      → IsStable K
      → Holds sha P m Q
      → Holds sha (λ s. K s × P s) m (λ a s. K s × Q a s)
  Holds-frame m stable h = record {
    at = λ w safe (k, p).
        Ensures-run_from sha w (m w) (h.at w safe p) (λ a s up q. (stable.keep w.shared s up k, q));
  }

  pub Holds-catch :
      (m : M A) (h : Exc → M A)
      → IsStable P
      → Holds sha P m Q
      → ((e : Exc) → Holds sha P (h e) Q)
      → Holds sha P (catch m h) Q
  unfolding catch
  Holds-catch m h stable hm hh = record {
    at = λ w safe p.
        Ensures-handle sha w (m w) h (hm.at w safe p)
          (λ e w' up safe'. (hh e).at w' safe' (stable.keep w.shared w'.shared up p));
  }

pub Holds-bind :
    {sha : String → String} {A B : Type 0} {P : Shared → Type 0} {Q : A → Shared → Type 0}
    {R : B → Shared → Type 0} (m : M A) (f : A → M B)
    → Holds sha P m Q
    → ((a : A) → Holds sha (Q a) (f a) R)
    → Holds sha P (m >>= f) R
unfolding ◌>>=◌
Holds-bind {sha} m f hm hf = record {
  at = λ w safe p.
      Ensures-bind sha w (m w) f (hm.at w safe p) (λ a w' up safe' q. (hf a).at w' safe' q);
}

module _ {sha : String → String} {P : Shared → Type 0} where
  pub Holds-raise_if : (b : Bool) (e : Exc) → Holds sha P (raise_if b e) (λ _ s. (b ≡ false) × P s)
  Holds-raise_if true e = Holds-raise e
  Holds-raise_if false e = Holds-pure tt (λ s p. (refl, p))

  -- A fact that does not depend on the state.
  pub Holds-given :
      {X : Type 0} {A : Type 0} {Q : A → Shared → Type 0} {m : M A}
      → (X → Holds sha P m Q)
      → Holds sha (λ s. X × P s) m Q
  Holds-given h = record { at = λ w safe (x, p). (h x).at w safe p }

  pub Holds-guard : (b : Bool) (e : Exc) → Holds sha P (raise_if b e) (λ _ s. P s)
  Holds-guard true e = Holds-raise e
  Holds-guard false e = Holds-pure tt (λ s p. p)

  -- A call of a parameter does not touch what is shared.
  pub Holds-at_tick : {A : Type 0} (f : World → Result A) → Holds sha P (λ w. (f w, w)) (λ _ s. P s)
  Holds-at_tick f = record { at = λ w safe p. run (f w) w safe p }
    where
      run :
          {A : Type 0} (r : Result A) (w : World)
          → IsSafe sha w.shared
          → P w.shared
          → Ensures sha w (λ _ s. P s) (r, w)
      run (ok a) w safe p = Ensures-pure sha w a safe p
      run (err e) w safe p = Ensures-raise sha w e safe

  pub Holds-uuid4 : (env : Env) → Holds sha P (uuid4 env) (λ _ s. P s)
  Holds-uuid4 env = record {
    at = λ w safe p. record { evolves = Evolves-refl w.shared; safe = safe; post = p };
  }

  pub Holds-utcnow : (env : Env) → Holds sha P (utcnow env) (λ _ s. P s)
  Holds-utcnow env = record {
    at = λ w safe p. record { evolves = Evolves-refl w.shared; safe = safe; post = p };
  }
