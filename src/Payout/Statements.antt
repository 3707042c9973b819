-- ===== src/Payout/Statements.antt =====
-- Proofs about `_transition`.
use tron_shkeeper.Base.{
  ℕ, suc, String, ◌≡◌, refl, sym, ◌∙◌, ap, Bool, true, false, not, Option, none, some, arith, List,
}
use tron_shkeeper.Payout.Types.{State, Row}
use tron_shkeeper.Payout.World.{
  World, Env, before_statement, get_row, compare_and_set, update_row, commit_update, raise_if,
  ◌>>=◌, ◌>>◌,
}
use tron_shkeeper.Payout.Fields.{Field, write_row, cas_conflict}
use tron_shkeeper.Payout.Transitions.{transition}
use tron_shkeeper.Payout.Rows.{update_row_found}
use tron_shkeeper.Payout.Evolution.{Advances-refl, Later, Evolves-refl, IsSafe, IsFair}
use tron_shkeeper.Payout.Ensures.{
  Ensures, Ensures-raise, Ensures-after, Ensures-bind, Ensures-weaken,
}
use tron_shkeeper.Payout.Known.{
  Knows, Knows-Evolves, Knows-found, current-eq, Rewrites, write_row-Rewrites, IsLegal,
  write_row-Advances, Written,
}
pub use tron_shkeeper.Payout.Replace.{get_row-Ensures, get_row-Later, IsRecorded-Evolves}
use tron_shkeeper.Payout.Replace.{before_statement-Evolves, replace_row}
pub use tron_shkeeper.Payout.Known.{
  Knows, Knows-Evolves, Knows-found, Rewrites, write_row-Rewrites, IsLegal, Written,
}

module _ {env : Env} (fair : IsFair env) where
  -- The outcome of the update, for a row that was read before the others acted.
  commit_update-Ensures :
      (state : State) (fs : List Field) (row : Row) (tid : String) (time : ℕ) (w : World)
      (o : Option (List Row))
      → IsSafe env.sha256_hex w.shared
      → Knows w.shared row
      → IsLegal state fs row
      → update_row row.execution_id row.state_version (write_row state tid time fs) w.shared.rows
        ≡ o
      → Ensures env.sha256_hex w
          (λ done s. done ≡ true → Later s row.execution_id (write_row state tid time fs row))
          (commit_update w o)
  commit_update-Ensures state fs row tid time w none safe known legal e = record {
    evolves = Evolves-refl w.shared;
    safe = safe;
    post = λ h. cc;
  }
  commit_update-Ensures state fs row tid time w (some rows) safe known legal e =
      let write : Row → Row = write_row state tid time fs in
      let keep : (r : Row) → (write r).execution_id ≡ r.execution_id =
        λ r. (write_row-Rewrites state tid time fs r).same_id in
      let (c, found, ahead) = known.later in
      let (r, found', at, wrote) =
        update_row_found row.execution_id row.state_version write w.shared.rows keep e in
      let same : r ≡ c = ground arith in
      let current : c ≡ row =
        current-eq ahead (ap (λ (x : Row). x.state_version) (sym same) ∙ at) in
      let (up, safe') =
        replace_row fair w.shared rows row.execution_id row.state_version write row safe keep
          (found ∙ ap some current) e (legal.sound tid time)
          (write_row-Advances state tid time fs row legal) in
      record {
        evolves = up;
        safe = safe';
        post = λ _. (write row, wrote ∙ ap (λ x. some (write x)) (same ∙ current), Advances-refl _);
      }

  compare_and_set-Ensures :
      (state : State) (fs : List Field) (row : Row) (tid : String) (time : ℕ) (w : World)
      → IsSafe env.sha256_hex w.shared
      → Knows w.shared row
      → IsLegal state fs row
      → Ensures env.sha256_hex w
          (λ done s. done ≡ true → Later s row.execution_id (write_row state tid time fs row))
          (compare_and_set env row.execution_id row.state_version (write_row state tid time fs) w)
  unfolding compare_and_set
  compare_and_set-Ensures state fs row tid time w safe known legal =
      let (up, safe') = before_statement-Evolves fair w safe in
      Ensures-after env.sha256_hex up (
        commit_update-Ensures state fs row tid time (before_statement env w) _ safe'
          (Knows-Evolves known up) legal refl)

  -- After the update: a conflict, or the row is read again.
  read_back-Ensures :
      (state : State) (fs : List Field) (row : Row) (tid : String) (time : ℕ) (done : Bool)
      (w : World)
      → IsSafe env.sha256_hex w.shared
      → (done ≡ true → Later w.shared row.execution_id (write_row state tid time fs row))
      → Ensures env.sha256_hex w
          (Written state fs row)
          ((raise_if (not done) cas_conflict >> get_row env row.execution_id) w)
  unfolding ◌>>=◌
  read_back-Ensures state fs row tid time false w safe later = Ensures-raise env.sha256_hex w _ safe
  read_back-Ensures state fs row tid time true w safe later =
      Ensures-weaken env.sha256_hex w (get_row env row.execution_id w)
        (get_row-Later fair row.execution_id (write_row state tid time fs row) w safe (later refl))
        λ o s (c, returned, known, ahead). record {
          row' = c;
          transition_id = tid;
          time = time;
          returned = returned;
          known = known;
          ahead = ahead;
        }

  -- A legal transition of a row that was read keeps the shared state safe.
  pub transition-Ensures :
      (state : State) (fs : List Field) (row : Row) (w : World)
      → IsSafe env.sha256_hex w.shared
      → Knows w.shared row
      → IsLegal state fs row
      → Ensures env.sha256_hex w (Written state fs row) (transition env (some row) state fs w)
  unfolding transition ◌>>=◌
  transition-Ensures state fs row w safe known legal =
      let tid : String = env.uuid w.tick in
      let time : ℕ = env.now (suc w.tick) in
      let w' : World = record w { tick = suc w.tick } in
      Ensures-after env.sha256_hex {w' = w'} (Evolves-refl w.shared) (
        Ensures-bind env.sha256_hex w'
          (compare_and_set env row.execution_id row.state_version (write_row state tid time fs) w')
          _ (compare_and_set-Ensures state fs row tid time w' safe known legal)
          (λ done w'' up safe' later. read_back-Ensures state fs row tid time done w'' safe' later))
