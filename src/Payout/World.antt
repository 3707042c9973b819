-- ===== src/Payout/World.antt =====
-- What the payout code shares with the other processes, and the calls into it. The table
-- `payout_executions` is a list of rows with distinct keys, read and written by `execution_id`, its
-- primary key. Before each statement of the database, other processes may change what is shared:
-- `Env.others` says how, so a theorem for all `Env` is one about all interleavings.
use tron_shkeeper.Base.{
  ℕ, suc, String, Bool, true, false, Option, none, some, List, [], ◌∷◌, ◌==◌, ◌=s◌, if◌then◌else◌,
}
use tron_shkeeper.Payout.Types.{Row, SignedTx, Exc, plain_error, Result, ok, err}

-- A transaction that was handed to the network, and the execution that it was for.
pub record Sent : Type 0 where
  pub execution_id : String
  pub tx : SignedTx

-- `queued` are the executions that were handed to the task queue, each with its queue.
pub record Shared : Type 0 where
  pub rows : List Row
  pub sent : List Sent
  pub queued : List (String × String)

pub record World : Type 0 where
  pub shared : Shared
  pub tick : ℕ

-- The entries of app/config.py that the payout code reads.
pub record Config : Type 0 where
  pub lease_ttl_sec : ℕ
  pub tx_expiration_cap_sec : ℕ
  pub auto_enqueue_enabled : Bool
  pub preflight_checks_enabled : Bool
  pub usdt_payout_queue : String
  pub usdt_contract : String
  pub network : String

-- The surroundings of a process: its clock, in microseconds, its source of identifiers, what the
-- others do, and SHA-256. The tick is the number of database statements so far.
pub record Env : Type 0 where
  pub config : Config
  pub now : ℕ → ℕ
  pub uuid : ℕ → String
  pub others : ℕ → Shared → Shared
  pub sha256_hex : String → String

abbrev pub M : Type 0 → Type 0
M A = World → Result A × World

module _ {A : Type 0} where
  abbrev pub pure : A → M A
  pure a w = (ok a, w)

  abbrev pub raise : Exc → M A
  raise e w = (err e, w)

  -- `row["…"]` of a row that may be `None`
  abbrev pub subscript : Option A → M A
  subscript none = raise (plain_error "'NoneType' object is not subscriptable")
  subscript (some a) = pure a

  abbrev pub lift : Result A → M A
  lift r w = (r, w)

  abbrev pub handle : Result A → (Exc → M A) → M A
  handle (ok a) h w = (ok a, w)
  handle (err e) h w = h e w

  -- `try: m  except Exception as exc: h(exc)`
  unfoldable pub catch : M A → (Exc → M A) → M A
  catch m h w = let (r, w') = m w in handle r h w'

abbrev pub continue : {A B : Type 0} → Result A → (A → M B) → M B
continue (ok a) f w = f a w
continue (err e) f w = (err e, w)

infixl 5 ◌>>=◌ ◌>>◌
unfoldable pub ◌>>=◌ : {A B : Type 0} → M A → (A → M B) → M B
◌>>=◌ m f w = let (r, w') = m w in continue r f w'

abbrev pub ◌>>◌ : {A B : Type 0} → M A → M B → M B
m >> n = m >>= λ _. n

abbrev pub raise_if : Bool → Exc → M (Unit {0})
raise_if true e = raise e
raise_if false e = pure tt

-- `SELECT * FROM payout_executions WHERE execution_id = ?`
unfoldable pub find_row : String → List Row → Option Row
find_row id [] = none
find_row id (r ∷ rs) = if r.execution_id =s id then some r else find_row id rs

-- `UPDATE payout_executions SET … WHERE execution_id = ? AND state_version = ?`: the new table, if
-- one row was changed.
unfoldable pub update_row : String → ℕ → (Row → Row) → List Row → Option (List Row)
update_row id version write [] = none
update_row id version write (r ∷ rs) =
    let rest = update_row id version write rs in
    if r.execution_id =s id
    then (if r.state_version == version then some (write r ∷ rs) else none)
    else elim rest [ none ↦ none | some rs' ↦ some (r ∷ rs') ]

-- The call that hands a transaction to the network.
unfoldable pub record_sent : String → SignedTx → M (Unit {0})
record_sent id tx w = (
  ok tt,
  record {
    shared = record (w.shared) { sent = record { execution_id = id; tx = tx } ∷ w.shared.sent };
    tick = w.tick;
  },
)

-- `task.apply_async(args=[execution_id], queue=queue)`
unfoldable pub enqueue_execution : String → String → M (Unit {0})
enqueue_execution id queue w = (
  ok tt,
  record { shared = record (w.shared) { queued = (id, queue) ∷ w.shared.queued }; tick = w.tick },
)

abbrev pub set_rows : World → List Row → World
set_rows w rows = record { shared = record (w.shared) { rows = rows }; tick = w.tick }

abbrev pub commit_update : World → Option (List Row) → Result Bool × World
commit_update w none = (ok false, w)
commit_update w (some rows) = (ok true, set_rows w rows)

module _ (env : Env) where
  -- The others act, and time passes.
  unfoldable pub before_statement : World → World
  before_statement w = record { shared = env.others w.tick w.shared; tick = suc w.tick }

  -- `_utcnow()` and `datetime('now')`
  abbrev pub utcnow : M ℕ
  utcnow w = (ok (env.now w.tick), w)

  -- `str(uuid.uuid4())`
  abbrev pub uuid4 : M String
  uuid4 w = (ok (env.uuid w.tick), record w { tick = suc w.tick })

  -- `PayoutExecutionStore._get_row`
  unfoldable pub get_row : String → M (Option Row)
  unfolding before_statement find_row
  get_row id w = let w' = before_statement w in (ok (find_row id w'.shared.rows), w')

  -- One UPDATE and its commit; `false` if no row was changed, and then nothing is written.
  unfoldable pub compare_and_set : String → ℕ → (Row → Row) → M Bool
  unfolding before_statement update_row
  compare_and_set id version write w =
      let w' = before_statement w in commit_update w' (update_row id version write w'.shared.rows)
