-- ===== src/Scanner/Range.antt =====
-- The loop of `BlockScanner` over chunks of blocks (app/block_scanner.py): the settings row
-- `last_seen_block_num`, `get_blocks`, and one turn of `__call__`. The heights that the node answers,
-- and whether the scan of a block succeeds, are arguments of a turn.
use tron_shkeeper.Base.{
  ℕ, zero, suc, ◌+◌, ◌-◌, Bool, true, Option, none, some, List, [], ◌∷◌, ◌&&◌, ltb, ◌==◌,
  if◌then◌else◌,
}
use tron_shkeeper.Payout.Types.{Result, ok, err, plain_error}

-- The entries of app/config.py that are read here.
pub record Config : Type 0 where
  -- BLOCK_SCANNER_MAX_BLOCK_CHUNK_SIZE
  pub max_block_chunk_size : ℕ
  -- BLOCK_SCANNER_LAST_BLOCK_NUM_HINT
  pub last_block_num_hint : Option ℕ

-- The row of the table `settings`, if it is there.
abbrev pub Settings : Type 0
Settings = Option ℕ

-- A hint that is 0 counts as missing.
unfoldable pub initial_block_num : Option ℕ → Result ℕ → Result ℕ
initial_block_num none height = height
initial_block_num (some zero) height = height
initial_block_num (some (suc n)) height = ok (suc n)

-- `get_last_seen_block_num`, with the height that it may ask for: the number, and the settings.
unfoldable pub get_last_seen_block_num : Config → Result ℕ → Settings → Result ℕ × Settings
unfolding initial_block_num
get_last_seen_block_num config height (some n) = (ok n, some n)
get_last_seen_block_num config height none =
    elim (initial_block_num config.last_block_num_hint height) [
      | ok n ↦ (ok n, some n)
      | err e ↦ (err e, none)
    ]

-- A `range`
pub record Blocks : Type 0 where
  pub start : ℕ
  pub stop : ℕ

-- The blocks after the last one that was seen, up to the height.
unfoldable pub blocks_after : Config → ℕ → ℕ → Result Blocks
blocks_after config last_seen current_height =
    if ltb current_height last_seen
    then err (plain_error "Tron fullnode height unexpectedly dropped")
    else let next_block = last_seen + 1 in
      let target_block = next_block + config.max_block_chunk_size in
      ok (record {
        start = next_block;
        stop = (if ltb current_height target_block then current_height else target_block) + 1;
      })

abbrev pub blocks_for : Config → Result ℕ → Result ℕ → Result Blocks
blocks_for config (err e) height = err e
blocks_for config (ok last_seen) (err e) = err e
blocks_for config (ok last_seen) (ok current_height) = blocks_after config last_seen current_height

-- `get_blocks`, with the two heights that it may ask for.
unfoldable pub get_blocks : Config → Result ℕ → Result ℕ → Settings → Result Blocks × Settings
unfolding get_last_seen_block_num blocks_after
get_blocks config first_height height settings =
    let (last_seen, settings') = get_last_seen_block_num config first_height settings in
    (blocks_for config last_seen height, settings')

-- `all(results)` for the `n` blocks from one on.
unfoldable pub all_scanned : (ℕ → Bool) → ℕ → ℕ → Bool
all_scanned scan start zero = true
all_scanned scan start (suc n) = scan start && all_scanned scan (start + 1) n

-- `set_last_seen_block_num`, an UPDATE
abbrev pub set_last_seen_block_num : ℕ → Settings → Settings
set_last_seen_block_num n none = none
set_last_seen_block_num n (some m) = some n

-- What the world answers in a turn of the loop.
pub record Turn : Type 0 where
  pub first_height : Result ℕ
  pub height : Result ℕ
  pub scan : ℕ → Bool

-- The chunk is committed if it has blocks and each was scanned.
unfoldable pub commit_chunk : (ℕ → Bool) → Result Blocks → Settings → Settings
unfolding all_scanned
commit_chunk scan (err e) settings = settings
commit_chunk scan (ok blocks) settings =
    if blocks.start == blocks.stop
    then settings
    else if all_scanned scan blocks.start (blocks.stop - blocks.start)
    then set_last_seen_block_num (blocks.stop - 1) settings
    else settings

-- One turn of `__call__`; every exception is caught, and the loop goes on.
unfoldable pub run_turn : Config → Turn → Settings → Settings
unfolding get_blocks commit_chunk
run_turn config turn settings =
    let (blocks, settings') = get_blocks config turn.first_height turn.height settings in
    commit_chunk turn.scan blocks settings'

unfoldable pub run_turns : Config → List Turn → Settings → Settings
unfolding run_turn
run_turns config [] settings = settings
run_turns config (turn ∷ turns) settings = run_turns config turns (run_turn config turn settings)
