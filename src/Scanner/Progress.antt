-- ===== src/Scanner/Progress.antt =====
-- Proofs about the turns of the scanner and the number that they store (app/block_scanner.py).
use mathlib.Core.List.{Memᴰ}
use native.Mathlib.Nat.{le_trans}
use tron_shkeeper.Base.{
  ℕ, zero, suc, ◌+◌, ◌-◌, ◌*◌, ◌≤◌, ◌<◌, ◌≡◌, refl, subst, inl, inr, Bool, true, some, List, [],
  ◌∷◌, ◌==◌, leb, if◌then◌else◌, arith, Bool-cases, All, length,
}
use tron_shkeeper.Payout.Types.{Result, ok, err}
use tron_shkeeper.Scanner.Range.{
  Config, Settings, get_last_seen_block_num, Blocks, blocks_after, blocks_for, get_blocks,
  all_scanned, Turn, commit_chunk, run_turn, run_turns,
}

-- The blocks that `get_blocks` gives follow the last one that was seen, reach no further than the
-- height, and are one more than the chunk size where the chain is long enough.
blocks_after_bounds :
    (config : Config) (last_seen height : ℕ) {blocks : Blocks}
    → blocks_after config last_seen height ≡ ok blocks
    → (blocks.start ≡ last_seen + 1)
      × (blocks.stop ≡ (
          if leb (last_seen + 1 + config.max_block_chunk_size) height
          then blocks.start + (config.max_block_chunk_size + 1)
          else height + 1))
unfolding blocks_after
blocks_after_bounds config last_seen height found = ground arith

all_scanned-at :
    (scan : ℕ → Bool) (start n b : ℕ)
    → all_scanned scan start n ≡ true
    → start ≤ b
    → b < start + n
    → scan b ≡ true
unfolding all_scanned
all_scanned-at scan start zero b all from to = absurd (omega arith)
all_scanned-at scan start (suc n) b all from to = elim (Bool-cases (start == b)) [
  | inl here ↦ let same : start ≡ b = ground arith in subst (λ k. scan k ≡ true) same (ground arith)
  | inr later ↦ all_scanned-at scan (start + 1) n b (ground arith) (ground arith) (omega arith)
]

-- What a turn does from a block that was seen: the new number, and that what lies between was
-- scanned in it.
record IsAdvance (turn : Turn) (n : ℕ) (settings : Settings) : Type 0 where
  reached : ℕ
  stored : settings ≡ some reached
  onward : n ≤ reached
  scanned : (b : ℕ) → n < b → b ≤ reached → turn.scan b ≡ true

stays-IsAdvance : (turn : Turn) (n : ℕ) → IsAdvance turn n (some n)
stays-IsAdvance turn n = record {
  reached = n;
  stored = refl;
  onward = omega arith;
  scanned = λ b above below. absurd (omega arith);
}

commit_blocks-IsAdvance :
    (turn : Turn) (n : ℕ) (blocks : Blocks)
    → blocks.start ≡ n + 1
    → blocks.start ≤ blocks.stop
    → IsAdvance turn n (commit_chunk turn.scan (ok blocks) (some n))
unfolding commit_chunk
commit_blocks-IsAdvance turn n blocks from to = elim (Bool-cases (blocks.start == blocks.stop)) [
  | inl empty ↦ rw empty (stays-IsAdvance turn n)
  | inr more ↦ elim (Bool-cases (all_scanned turn.scan blocks.start (blocks.stop - blocks.start))) [
    | inr failed ↦ rw (more, failed) (stays-IsAdvance turn n)
    | inl all ↦
        let some_blocks : blocks.start < blocks.stop = ground arith in
        rw (more, all)
          (record {
            reached = blocks.stop - 1;
            stored = refl;
            onward = omega arith;
            scanned = λ b above below.
                all_scanned-at turn.scan blocks.start (blocks.stop - blocks.start) b all
                  (omega arith) (omega arith);
          })
  ]
]

commit_chunk-IsAdvance :
    (config : Config) (turn : Turn) (n : ℕ) (r : Result Blocks)
    → ((blocks : Blocks) → r ≡ ok blocks → (blocks.start ≡ n + 1) × (blocks.start ≤ blocks.stop))
    → IsAdvance turn n (commit_chunk turn.scan r (some n))
unfolding commit_chunk
commit_chunk-IsAdvance config turn n (err e) at_blocks = stays-IsAdvance turn n
commit_chunk-IsAdvance config turn n (ok blocks) at_blocks =
    let (from, to) = at_blocks blocks refl in commit_blocks-IsAdvance turn n blocks from to

blocks_for-from :
    (config : Config) (n : ℕ) (height : Result ℕ) (blocks : Blocks)
    → blocks_for config (ok n) height ≡ ok blocks
    → (blocks.start ≡ n + 1) × (blocks.start ≤ blocks.stop)
unfolding blocks_after
blocks_for-from config n (err e) blocks found = ground arith
blocks_for-from config n (ok height) blocks found = ground arith

run_turn-IsAdvance :
    (config : Config) (turn : Turn) (n : ℕ) → IsAdvance turn n (run_turn config turn (some n))
unfolding run_turn get_blocks get_last_seen_block_num
run_turn-IsAdvance config turn n =
    commit_chunk-IsAdvance config turn n (blocks_for config (ok n) turn.height)
      (blocks_for-from config n turn.height)

-- A turn of the list in which the block was scanned.
pub record WasScanned (turns : List Turn) (b : ℕ) : Type 0 where
  pub turn : Turn
  pub member : Memᴰ turn turns
  pub scanned : turn.scan b ≡ true

-- From a settings row, the loop keeps one; its number does not fall, and every block after the old
-- number, up to the new one, was scanned in one of the turns.
pub seen-WasScanned :
    (config : Config) (turns : List Turn) (n : ℕ)
    → (m : ℕ) × ((run_turns config turns (some n) ≡ some m)
        × ((n ≤ m) × ((b : ℕ) → n < b → b ≤ m → WasScanned turns b)))
unfolding run_turns
seen-WasScanned config [] n = (n, (refl, (omega arith, λ b above below. absurd (omega arith))))
seen-WasScanned config (turn ∷ turns) n =
    let now = run_turn-IsAdvance config turn n in
    let (m, (stored, (onward, later))) = seen-WasScanned config turns now.reached in
    (
      m,
      (
        rw now.stored stored,
        (
          le_trans now.onward onward,
          λ b above below. elim (Bool-cases (leb b now.reached)) [
            | inl early ↦ record {
              turn = turn;
              member = Memᴰ.head refl;
              scanned = now.scanned b above (ground (arith, early));
            }
            | inr late ↦
                let found = later b (ground (arith, late)) below in
                record {
                  turn = found.turn;
                  member = Memᴰ.tail found.member;
                  scanned = found.scanned;
                }
          ],
        ),
      ),
    )

-- A turn in which the node answers that height and every block is scanned.
pub record IsClear (height : ℕ) (turn : Turn) : Type 0 where
  pub answers : turn.height ≡ ok height
  pub scans : (b : ℕ) → turn.scan b ≡ true

all_scanned-clear :
    (scan : ℕ → Bool) (start n : ℕ) → ((b : ℕ) → scan b ≡ true) → all_scanned scan start n ≡ true
unfolding all_scanned
all_scanned-clear scan start zero clear = refl
all_scanned-clear scan start (suc n) clear =
    rw (clear start) (all_scanned-clear scan (start + 1) n clear)

-- The number after one clear turn.
abbrev next_seen : Config → ℕ → ℕ → ℕ
next_seen config height n =
    if leb height (n + 1 + config.max_block_chunk_size)
    then height
    else n + 1 + config.max_block_chunk_size

commit_clear :
    (config : Config) (scan : ℕ → Bool) (height n : ℕ)
    → ((b : ℕ) → scan b ≡ true)
    → n ≤ height
    → commit_chunk scan (blocks_after config n height) (some n) ≡ some (next_seen config height n)
unfolding commit_chunk blocks_after
commit_clear config scan height n clear below = ground (
  arith,
  all_scanned-clear scan (n + 1) (height + 1 - (n + 1)) clear,
  all_scanned-clear scan (n + 1) (n + 1 + config.max_block_chunk_size + 1 - (n + 1)) clear,
)

run_turn-clear :
    (config : Config) (turn : Turn) (height n : ℕ)
    → IsClear height turn
    → n ≤ height
    → run_turn config turn (some n) ≡ some (next_seen config height n)
unfolding run_turn get_blocks get_last_seen_block_num
run_turn-clear config turn height n clear below =
    rw (clear.answers) (commit_clear config turn.scan height n clear.scans below)

one_turn_less :
    (height n c l : ℕ)
    → height ≤ n + suc l * (c + 1)
    → height ≤ (if leb height (n + 1 + c) then height else n + 1 + c) + l * (c + 1)
one_turn_less height n c l enough =
    let unfolded : suc l * (c + 1) ≡ c + 1 + l * (c + 1) = grind arith in ground (arith, unfolded)

-- Turns that are all clear at a height bring the scanner to it, if there are enough of them for the
-- blocks that are missing, a chunk and one block in each.
pub clear_turns_catch_up :
    (config : Config) (turns : List Turn) (height n : ℕ)
    → All (IsClear height) turns
    → n ≤ height
    → height ≤ n + length turns * (config.max_block_chunk_size + 1)
    → run_turns config turns (some n) ≡ some height
unfolding run_turns
clear_turns_catch_up config [] height n clear below enough = ground arith
clear_turns_catch_up config (turn ∷ turns) height n (now, later) below enough =
    rw (run_turn-clear config turn height n now below) (
      clear_turns_catch_up config turns height (next_seen config height n) later (ground arith)
        (one_turn_less height n config.max_block_chunk_size (length turns) enough))
