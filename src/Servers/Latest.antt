-- ===== src/Servers/Latest.antt =====
-- Proofs about the settings row over several rounds (app/connection_manager.py).
use tron_shkeeper.Base.{
  ℕ, ◌≡◌, refl, sym, ◌∙◌, ap, subst, inl, inr, Bool, true, false, Option, none, some, List, [], ◌∷◌,
  ◌++◌, ◌==◌, Bool-cases, All, arith,
}
use tron_shkeeper.Payout.Types.{Result, ok, err}
use tron_shkeeper.Servers.Choice.{
  get_best_server_id, Setting, set_best, refresh_best_server, refresh_all,
  refresh_best_server_thread_handler,
}

-- A round in which a best server is found.
unfoldable pub HasBest : List (Option ℕ) → Type 0
HasBest blocks = (server_id : ℕ) × (get_best_server_id blocks ≡ ok server_id)

set_best-current :
    (server_id old : ℕ)
    → (changed : Bool) × (set_best (ok server_id) (some old) ≡ (ok changed, some server_id))
set_best-current server_id old = elim (Bool-cases (server_id == old)) [
  | inl same ↦ (false, rw same (ap (λ n. (ok false, some n)) (ground (arith, same))))
  | inr other ↦ (true, rw other refl)
]

refresh_all-step :
    (blocks : List (Option ℕ)) (rest : List (List (Option ℕ))) (server_id old : ℕ)
    → get_best_server_id blocks ≡ ok server_id
    → refresh_all (blocks ∷ rest) (some old) ≡ refresh_all rest (some server_id)
unfolding refresh_all refresh_best_server
refresh_all-step blocks rest server_id old best =
    subst (λ r. next (set_best r (some old)) ≡ refresh_all rest (some server_id)) (sym best)
      (ap next (set_best-current server_id old).1)
  where
    next : Result Bool × Setting → Setting
    next (result, setting) = elim result [ ok _ ↦ refresh_all rest setting | err e ↦ setting ]

refresh_all-latest :
    (rounds : List (List (Option ℕ))) (blocks : List (Option ℕ)) (server_id old : ℕ)
    → All HasBest rounds
    → get_best_server_id blocks ≡ ok server_id
    → refresh_all (rounds ++ (blocks ∷ [])) (some old) ≡ some server_id
unfolding HasBest refresh_all
refresh_all-latest [] blocks server_id old found best =
    refresh_all-step blocks [] server_id old best ∙ refl
refresh_all-latest (first ∷ rest) blocks server_id old (found, later) best =
    refresh_all-step first (rest ++ (blocks ∷ [])) found.0 old found.1
    ∙ refresh_all-latest rest blocks server_id found.0 later best

-- The thread after its first round without a row.
started : List (List (Option ℕ)) → Result ℕ → Setting
started rest (ok server_id) = refresh_all rest (some server_id)
started rest (err e) = refresh_best_server_thread_handler rest none

-- Where a best server is found in every round, the row names that of the last round after the thread
-- ran, whether it was there before or not.
pub refresh_best_server_thread_handler-latest :
    (rounds : List (List (Option ℕ))) (blocks : List (Option ℕ)) (server_id : ℕ) (setting : Setting)
    → All HasBest rounds
    → get_best_server_id blocks ≡ ok server_id
    → refresh_best_server_thread_handler (rounds ++ (blocks ∷ [])) setting ≡ some server_id
unfolding HasBest refresh_best_server_thread_handler started refresh_all
refresh_best_server_thread_handler-latest rounds blocks server_id (some old) found best =
    refresh_all-latest rounds blocks server_id old found best
refresh_best_server_thread_handler-latest [] blocks server_id none found best =
    subst (λ r. started [] r ≡ some server_id) (sym best) refl
refresh_best_server_thread_handler-latest (first ∷ rest) blocks server_id none (found, later) best =
    subst (λ r. started (rest ++ (blocks ∷ [])) r ≡ some server_id) (sym found.1)
      (refresh_all-latest rest blocks server_id found.0 later best)
