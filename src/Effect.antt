-- ===== src/Effect.antt =====
-- Code that reads and changes a state and may raise: an exception keeps the changes that were made before
-- it. The functions of several files are such effects, each over a state of its own.
pub mod Contracts
use tron_shkeeper.Payout.Types.{Exc, Result, ok, err}

abbrev pub Effect : Type 0 → Type 0 → Type 0
Effect S A = S → Result A × S

unfoldable pub pure : {S : Type 0} {A : Type 0} → A → Effect S A
pure a w = (ok a, w)

unfoldable pub raise : {S : Type 0} {A : Type 0} → Exc → Effect S A
raise e w = (err e, w)

-- What a result goes on with, or the exception that it is.
unfoldable pub continue :
    {S : Type 0} {A : Type 0} {B : Type 0} → (A → Effect S B) → Result A → Effect S B
continue f (ok a) w = f a w
continue f (err e) w = (err e, w)

infixl 5 ◌>>=◌ ◌>>◌
unfoldable pub ◌>>=◌ :
    {S : Type 0} {A : Type 0} {B : Type 0} → Effect S A → (A → Effect S B) → Effect S B
unfolding continue
◌>>=◌ m f w = continue f (m w).0 (m w).1

unfoldable pub ◌>>◌ : {S : Type 0} {A : Type 0} {B : Type 0} → Effect S A → Effect S B → Effect S B
unfolding ◌>>=◌
◌>>◌ m n = m >>= (λ _. n)

abbrev pub of_result : {S : Type 0} {A : Type 0} → Result A → Effect S A
of_result (ok a) w = (ok a, w)
of_result (err e) w = (err e, w)

-- `try: m  except … as exc: h(exc)`
unfoldable pub handle : {S : Type 0} {A : Type 0} → (Exc → Effect S A) → Result A → Effect S A
handle h (ok a) s = (ok a, s)
handle h (err e) s = h e s

unfoldable pub catch : {S : Type 0} {A : Type 0} → Effect S A → (Exc → Effect S A) → Effect S A
unfolding handle
catch m h s = handle h (m s).0 (m s).1

unfoldable pub modify : {S : Type 0} → (S → S) → Effect S (Unit {0})
modify f s = (ok tt, f s)

-- The state is read.
unfoldable pub gets : {S : Type 0} {A : Type 0} → (S → A) → Effect S A
gets f s = (ok (f s), s)
