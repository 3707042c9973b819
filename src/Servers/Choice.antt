-- ===== src/Servers/Choice.antt =====
-- `ConnectionManager` (app/connection_manager.py): the best of the configured servers, and the settings
-- row `current_server_id`. What a server answers is an argument: its block number, or none where the
-- request fails or its answer cannot be read.
use tron_shkeeper.Base.{
  ℕ, ◌+◌, Bool, true, false, Option, none, some, List, [], ◌∷◌, ltb, ◌==◌, length, if◌then◌else◌,
}
use tron_shkeeper.Payout.Types.{Result, ok, err, plain_error}

-- An entry of `get_servers_status`: the server's id, and the block of its node_info where it is online.
pub record ServerStatus : Type 0 where
  pub server_id : ℕ
  pub block : Option ℕ

-- `get_servers_status`, from an id on
unfoldable pub get_servers_status : ℕ → List (Option ℕ) → List ServerStatus
get_servers_status server_id [] = []
get_servers_status server_id (block ∷ blocks) =
    record { server_id = server_id; block = block } ∷ get_servers_status (server_id + 1) blocks

-- A server that is online, with its block.
abbrev pub Online : Type 0
Online = ℕ × ℕ

unfoldable pub online_servers : List ServerStatus → List Online
online_servers [] = []
online_servers (s ∷ rest) =
    let others = online_servers rest in
    elim (s.block) [ none ↦ others | some block ↦ (s.server_id, block) ∷ others ]

-- `max(…, key=…)` of what is left and the best so far: the first of the greatest
unfoldable pub max_block : Online → List Online → Online
max_block best [] = best
max_block best (s ∷ rest) = max_block (if ltb best.1 s.1 then s else best) rest

abbrev pub first_max : List Online → Result ℕ
first_max [] = err (plain_error "All servers are unreachable!")
first_max (s ∷ rest) = ok (max_block s rest).0

-- `get_best_server_id`
unfoldable pub get_best_server_id : List (Option ℕ) → Result ℕ
unfolding get_servers_status online_servers max_block
get_best_server_id blocks =
    if length blocks == 1 then ok 0 else first_max (online_servers (get_servers_status 0 blocks))

-- The settings row, if it is there.
abbrev pub Setting : Type 0
Setting = Option ℕ

-- `set_current_server_id`, an UPDATE
abbrev pub set_current_server_id : ℕ → Setting → Setting
set_current_server_id server_id none = none
set_current_server_id server_id (some old) = some server_id

abbrev pub is_current : ℕ → Setting → Bool
is_current server_id none = false
is_current server_id (some old) = server_id == old

-- What `refresh_best_server` does with the best server.
abbrev pub set_best : Result ℕ → Setting → Result Bool × Setting
set_best (err e) setting = (err e, setting)
set_best (ok server_id) setting =
    if is_current server_id setting
    then (ok false, setting)
    else (ok true, set_current_server_id server_id setting)

-- `refresh_best_server`
unfoldable pub refresh_best_server : List (Option ℕ) → Setting → Result Bool × Setting
unfolding get_best_server_id
refresh_best_server blocks setting = set_best (get_best_server_id blocks) setting

-- The loop that refreshes: an exception ends it.
unfoldable pub refresh_all : List (List (Option ℕ)) → Setting → Setting
unfolding refresh_best_server
refresh_all [] setting = setting
refresh_all (blocks ∷ rest) setting =
    let (result, setting') = refresh_best_server blocks setting in
    elim result [ ok _ ↦ refresh_all rest setting' | err e ↦ setting' ]

-- `refresh_best_server_thread_handler`, by the answers that it gets: without a row the first best
-- server is inserted, however often that is tried.
unfoldable pub refresh_best_server_thread_handler : List (List (Option ℕ)) → Setting → Setting
unfolding get_best_server_id refresh_all
refresh_best_server_thread_handler rounds (some server_id) = refresh_all rounds (some server_id)
refresh_best_server_thread_handler [] none = none
refresh_best_server_thread_handler (blocks ∷ rest) none = elim (get_best_server_id blocks) [
  | ok server_id ↦ refresh_all rest (some server_id)
  | err e ↦ refresh_best_server_thread_handler rest none
]
