-- ===== src/Outbox/Claims.antt =====
-- Proofs about claims and the records of attempts (app/payout_callback_outbox.py).
use tron_shkeeper.Base.{
  ℕ, ◌+◌, ◌<◌, String, ◌≡◌, ◌⊎◌, true, false, Option, some, List, [], ◌∷◌, ◌=s◌, All, arith,
}
use tron_shkeeper.Outbox.Table.{
  Status, dispatching, sent, failed, Callback, Config, Table, get_payout_callback, update_callback,
  is_claimable, claim_row, claim_payout_callback, after_attempt, update_after_attempt, record_row,
}

-- A claim that is won keeps every other claim out until it is stale, a TTL later.
pub claim_row-exclusive :
    (c : Config) (now later : ℕ) (mine other : String) (r : Callback)
    → is_claimable c now r ≡ true
    → later < now + c.claim_ttl_sec
    → claim_row c later other (claim_row c now mine r) ≡ claim_row c now mine r
unfolding claim_row
claim_row-exclusive c now later mine other r won early = ground arith

-- An update that keeps a row and every key is not seen when that row is read.
pub get_payout_callback-update :
    (id j : ℕ) (write : Callback → Callback) (table : Table) {r : Callback}
    → get_payout_callback j table ≡ some r
    → write r ≡ r
    → ((s : Callback) → (write s).id ≡ s.id)
    → get_payout_callback j (update_callback id write table) ≡ some r
unfolding get_payout_callback update_callback
get_payout_callback-update id j write [] found same keep = found
get_payout_callback-update id j write (x ∷ table) {r} found same keep = ground (
  arith,
  keep x,
  λ (f : get_payout_callback j table ≡ some r).
      get_payout_callback-update id j write table {r = r} f same keep,
)

abbrev pub IsFinal : Status → Type 0
IsFinal s = (s ≡ sent) ⊎ (s ≡ failed)

claim_row-keep :
    (c : Config) (now : ℕ) (token : String) (r : Callback) → (claim_row c now token r).id ≡ r.id
unfolding claim_row
claim_row-keep c now token r = ground arith

claim_row-final :
    (c : Config) (now : ℕ) (token : String) (r : Callback)
    → IsFinal r.status
    → claim_row c now token r ≡ r
unfolding claim_row is_claimable
claim_row-final c now token r final = ground arith

record_row-keep :
    (c : Config) (now : ℕ) (token : String) (s : Status) (http : Option ℕ)
    (text error : Option String) (r : Callback)
    → (record_row c now token s http text error r).id ≡ r.id
unfolding record_row after_attempt
record_row-keep c now token s http text error r = ground arith

record_row-final :
    (c : Config) (now : ℕ) (token : String) (s : Status) (http : Option ℕ)
    (text error : Option String) (r : Callback)
    → IsFinal r.status
    → record_row c now token s http text error r ≡ r
unfolding record_row
record_row-final c now token s http text error r final = ground arith

-- A callback that was sent or has failed for good is changed neither by a claim nor by the record
-- of an attempt, whoever makes them and whichever row they are for.
pub final_stays :
    (c : Config) (now id j : ℕ) (token : String) (s : Status) (http : Option ℕ)
    (text error : Option String) (table : Table) {r : Callback}
    → get_payout_callback j table ≡ some r
    → IsFinal r.status
    → (get_payout_callback j (claim_payout_callback c now token id table) ≡ some r)
      × (get_payout_callback j (update_after_attempt c now id token s http text error table)
          ≡ some r)
unfolding claim_payout_callback update_after_attempt
final_stays c now id j token s http text error table {r} found final = (
  get_payout_callback-update id j _ table found (claim_row-final c now token r final)
      (claim_row-keep c now token),
  get_payout_callback-update id j (record_row c now token s http text error) table found
      (record_row-final c now token s http text error r final)
      (record_row-keep c now token s http text error),
)

-- A statement of another worker.
pub data Step : Type 0 where
  claim_step : (now : ℕ) (token : String) (id : ℕ) → Step
  record_step :
      (now id : ℕ) (token : String) (status : Status) (http : Option ℕ) (text error : Option String)
      → Step

unfoldable pub run_step : Config → Step → Table → Table
unfolding claim_payout_callback update_after_attempt
run_step c (claim_step now token id) table = claim_payout_callback c now token id table
run_step c (record_step now id token status http text error) table =
    update_after_attempt c now id token status http text error table

unfoldable pub run_steps : Config → List Step → Table → Table
unfolding run_step
run_steps c [] table = table
run_steps c (s ∷ steps) table = run_steps c steps (run_step c s table)

-- A claim comes before a time, and the record of an attempt has another token.
abbrev pub IsForeign : ℕ → String → Step → Type 0
IsForeign stale mine (claim_step now token id) = now < stale
IsForeign stale mine (record_step now id token status http text error) = (mine =s token) ≡ false

-- A row that is claimed with a token since a time.
pub record IsClaimed (mine : String) (since : ℕ) (r : Callback) : Type 0 where
  pub held : r.status ≡ dispatching
  pub holder : r.claim_token ≡ some mine
  pub time : r.claimed_at ≡ some since

claim_row-held :
    (c : Config) (now since : ℕ) (mine token : String) (r : Callback)
    → IsClaimed mine since r
    → now < since + c.claim_ttl_sec
    → claim_row c now token r ≡ r
unfolding claim_row is_claimable
claim_row-held c now since mine token r claimed early =
    let held = claimed.held in let time = claimed.time in ground (arith, held, time, early)

record_row-foreign :
    (c : Config) (now since : ℕ) (mine token : String) (s : Status) (http : Option ℕ)
    (text error : Option String) (r : Callback)
    → IsClaimed mine since r
    → (mine =s token) ≡ false
    → record_row c now token s http text error r ≡ r
unfolding record_row
record_row-foreign c now since mine token s http text error r claimed foreign =
    let holder = claimed.holder in ground (arith, holder, foreign)

run_step-held :
    (c : Config) (j since : ℕ) (mine : String) (s : Step) (table : Table) {r : Callback}
    → get_payout_callback j table ≡ some r
    → IsClaimed mine since r
    → IsForeign (since + c.claim_ttl_sec) mine s
    → get_payout_callback j (run_step c s table) ≡ some r
unfolding run_step claim_payout_callback update_after_attempt
run_step-held c j since mine (claim_step now token id) table {r} found claimed early =
    get_payout_callback-update id j (claim_row c now token) table found
      (claim_row-held c now since mine token r claimed early) (claim_row-keep c now token)
run_step-held c j since mine (record_step now id token s http text error) table {r} found claimed
      foreign =
    get_payout_callback-update id j (record_row c now token s http text error) table found
      (record_row-foreign c now since mine token s http text error r claimed foreign)
      (record_row-keep c now token s http text error)

-- Until a claim is stale, the claimed row is as it was after any claims of other workers and any
-- records of attempts with other tokens.
pub claimed_row_stays :
    (c : Config) (j since : ℕ) (mine : String) (steps : List Step) (table : Table) {r : Callback}
    → get_payout_callback j table ≡ some r
    → IsClaimed mine since r
    → All (IsForeign (since + c.claim_ttl_sec) mine) steps
    → get_payout_callback j (run_steps c steps table) ≡ some r
unfolding run_steps
claimed_row_stays c j since mine [] table found claimed foreign = found
claimed_row_stays c j since mine (s ∷ steps) table found claimed (first, others) =
    claimed_row_stays c j since mine steps _
      (run_step-held c j since mine s table found claimed first) claimed others
