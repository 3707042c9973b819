-- ===== src/Payout/Ensures.antt =====
-- What a run from a world ensures: the shared state has evolved, it is safe again, and the result, if
-- there is one, has a property. One rule for each way to build a run.
use tron_shkeeper.Base.{◌≡◌, refl, Bool, true, false, String, if◌then◌else◌}
use tron_shkeeper.Payout.Types.{Exc, Result, ok, err}
use tron_shkeeper.Payout.World.{Shared, World, M, continue, handle}
use tron_shkeeper.Payout.Evolution.{Evolves, Evolves-refl, Evolves-trans, IsSafe}

abbrev pub Post : {A : Type 0} → (A → Shared → Type 0) → Result A → Shared → Type 0
Post Q (ok a) s = Q a s
Post Q (err e) s = Unit

module _ (sha256_hex : String → String) where
  pub record Ensures {A : Type 0} (w : World) (Q : A → Shared → Type 0) (out : Result A × World)
      : Type 0 where
    pub evolves : Evolves w.shared out.1.shared
    pub safe : IsSafe sha256_hex out.1.shared
    pub post : Post Q out.0 out.1.shared

  -- A run is gone on with from where it stands.
  abbrev pub Next :
      {A B : Type 0} → World → (A → Shared → Type 0) → (B → Shared → Type 0) → (A → M B) → Type 0
  Next {A} w Q Q' f =
      (a : A) (w' : World)
      → Evolves w.shared w'.shared
      → IsSafe sha256_hex w'.shared
      → Q a w'.shared
      → Ensures w' Q' (f a w')

  module _ {A : Type 0} {Q : A → Shared → Type 0} where
    pub Ensures-pure :
        (w : World) (a : A) → IsSafe sha256_hex w.shared → Q a w.shared → Ensures w Q (ok a, w)
    Ensures-pure w a safe q = record { evolves = Evolves-refl w.shared; safe = safe; post = q }

    pub Ensures-raise : (w : World) (e : Exc) → IsSafe sha256_hex w.shared → Ensures w Q (err e, w)
    Ensures-raise w e safe = record { evolves = Evolves-refl w.shared; safe = safe; post = tt }

    -- What is ensured from a later world is ensured.
    pub Ensures-after :
        {w w' : World} {out : Result A × World}
        → Evolves w.shared w'.shared
        → Ensures w' Q out
        → Ensures w Q out
    Ensures-after up e = record {
      evolves = Evolves-trans up e.evolves;
      safe = e.safe;
      post = e.post;
    }

    pub Ensures-handle :
        (w : World) (out : Result A × World) (h : Exc → M A)
        → Ensures w Q out
        → ((e : Exc) (w' : World)
            → Evolves w.shared w'.shared
            → IsSafe sha256_hex w'.shared
            → Ensures w' Q (h e w'))
        → Ensures w Q (handle out.0 h out.1)
    Ensures-handle w (ok a, w') h e next = e
    Ensures-handle w (err x, w') h e next = Ensures-after e.evolves (next x w' e.evolves e.safe)

    pub Ensures-weaken :
        {Q' : A → Shared → Type 0} (w : World) (out : Result A × World)
        → Ensures w Q out
        → ((a : A) (s : Shared) → Q a s → Q' a s)
        → Ensures w Q' out
    Ensures-weaken w (ok a, w') e weaker = record {
      evolves = e.evolves;
      safe = e.safe;
      post = weaker a w'.shared e.post;
    }
    Ensures-weaken w (err x, w') e weaker = record { evolves = e.evolves; safe = e.safe; post = tt }

    -- The same, where what has happened in between is known.
    pub Ensures-run_from :
        {Q' : A → Shared → Type 0} (w : World) (out : Result A × World)
        → Ensures w Q out
        → ((a : A) (s : Shared) → Evolves w.shared s → Q a s → Q' a s)
        → Ensures w Q' out
    Ensures-run_from w (ok a, w') e next = record {
      evolves = e.evolves;
      safe = e.safe;
      post = next a w'.shared e.evolves e.post;
    }
    Ensures-run_from w (err x, w') e next = record { evolves = e.evolves; safe = e.safe; post = tt }

    pub Ensures-if :
        (b : Bool) (m n : M A) (w : World)
        → (b ≡ true → Ensures w Q (m w))
        → (b ≡ false → Ensures w Q (n w))
        → Ensures w Q ((if b then m else n) w)
    Ensures-if true m n w em en = em refl
    Ensures-if false m n w em en = en refl

  pub Ensures-bind :
      {A B : Type 0} {Q : A → Shared → Type 0} {Q' : B → Shared → Type 0} (w : World)
      (out : Result A × World) (f : A → M B)
      → Ensures w Q out
      → Next w Q Q' f
      → Ensures w Q' (continue out.0 f out.1)
  Ensures-bind w (ok a, w') f e next = Ensures-after e.evolves (next a w' e.evolves e.safe e.post)
  Ensures-bind w (err x, w') f e next = record { evolves = e.evolves; safe = e.safe; post = tt }
