-- ===== src/Servers/Tests.antt =====
-- Three servers, of which one is offline, and the theorems at them (app/connection_manager.py).
use tron_shkeeper.Base.{ℕ, ◌≡◌, refl, Option, none, some, List, [], ◌∷◌}
use tron_shkeeper.Payout.Types.{ok}
use tron_shkeeper.Servers.Choice.{get_best_server_id, refresh_best_server_thread_handler}
use tron_shkeeper.Servers.Latest.{HasBest, refresh_best_server_thread_handler-latest}
use tron_shkeeper.Servers.Best.{
  IsBest, get_best_server_id-IsBest, IsInRange, refresh_best_server_thread_handler-IsInRange,
}

abbrev answers : List (Option ℕ)
answers = none ∷ some 70 ∷ some 71 ∷ []

best-chosen : get_best_server_id answers ≡ ok 2
unfolding get_best_server_id
best-chosen = refl

get_best_server_id-IsBest_example : IsBest answers 2
get_best_server_id-IsBest_example = get_best_server_id-IsBest answers 2 refl best-chosen

refresh_best_server_thread_handler-IsInRange_example :
    IsInRange 3 (refresh_best_server_thread_handler ((none ∷ none ∷ none ∷ []) ∷ answers ∷ []) none)
unfolding IsInRange
refresh_best_server_thread_handler-IsInRange_example =
    refresh_best_server_thread_handler-IsInRange 3 ((none ∷ none ∷ none ∷ []) ∷ answers ∷ []) none
      (refl, (refl, tt)) tt

refresh_best_server_thread_handler-latest_example :
    refresh_best_server_thread_handler ((some 8 ∷ some 7 ∷ none ∷ []) ∷ answers ∷ []) none ≡ some 2
unfolding HasBest get_best_server_id
refresh_best_server_thread_handler-latest_example =
    refresh_best_server_thread_handler-latest ((some 8 ∷ some 7 ∷ none ∷ []) ∷ []) answers 2 none
      ((0, refl), tt) refl
