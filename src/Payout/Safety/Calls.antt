-- ===== src/Payout/Safety/Calls.antt =====
-- The rules for the statements of the database, as actions.
use tron_shkeeper.Base.{String, ◌≡◌, subst, ℕ, Option, some, List}
use tron_shkeeper.Payout.Types.{State, Row}
use tron_shkeeper.Payout.World.{Shared, Env, ◌>>=◌, subscript, get_row}
use tron_shkeeper.Payout.Fields.{Field, write_row}
use tron_shkeeper.Payout.Transitions.{transition}
use tron_shkeeper.Payout.Evolution.{Advances, IsFair}
use tron_shkeeper.Payout.Rows.{find_row-id}
use tron_shkeeper.Payout.Holds.{
  Any, Holds, Holds-bind, Holds-weaken, Holds-subscript, Always, IsStable,
}
use tron_shkeeper.Payout.Statements.{
  Knows, Knows-found, Knows-Evolves, IsLegal, Written, get_row-Ensures, transition-Ensures,
}

pub Knows-IsStable : (row : Row) → IsStable (λ s. Knows s row)
Knows-IsStable row = record { keep = λ s s' up k. Knows-Evolves k up }

-- What a read returns: nothing, or a row that is known of from then on.
pub record Read (id : String) (o : Option Row) (s : Shared) : Type 0 where
  pub known : (row : Row) → o ≡ some row → Knows s row × (row.execution_id ≡ id)

-- A row that a legal transition of `row` has returned.
pub record Rewritten (state : State) (fs : List Field) (row : Row) (row' : Row) (s : Shared)
    : Type 0 where
  pub transition_id : String
  pub time : ℕ
  pub known : Knows s row'
  pub ahead : Advances (write_row state transition_id time fs row) row'

module _ {env : Env} (fair : IsFair env) where
  pub get_row-Holds : (id : String) → Holds env.sha256_hex Always (get_row env id) (Read id)
  unfolding get_row
  get_row-Holds id = record {
    at = λ w safe _.
        let e = get_row-Ensures fair id w safe in
        record {
          evolves = e.evolves;
          safe = e.safe;
          post = record {
            known = λ row found. (
              Knows-found env.sha256_hex (get_row env id w).1.shared id row e.safe found,
              find_row-id id (get_row env id w).1.shared.rows row found,
            );
          };
        };
  }

  pub transition-Holds :
      (state : State) (fs : List Field) (row : Row)
      → IsLegal state fs row
      → Holds env.sha256_hex
          (λ s. Knows s row)
          (transition env (some row) state fs)
          (Written state fs row)
  transition-Holds state fs row legal = record {
    at = λ w safe known. transition-Ensures fair state fs row w safe known legal;
  }

  -- A legal transition, of which only safety is asked.
  pub transition-Any :
      (state : State) (fs : List Field) (row : Row)
      → IsLegal state fs row
      → Holds env.sha256_hex (λ s. Knows s row) (transition env (some row) state fs) Any
  transition-Any state fs row legal =
      Holds-weaken _ (transition-Holds state fs row legal) (λ s k. k) (λ o s _. tt)

  -- A legal transition and the subscript of what it returns.
  pub rewrite-Holds :
      (state : State) (fs : List Field) (row : Row)
      → IsLegal state fs row
      → Holds env.sha256_hex
          (λ s. Knows s row)
          (transition env (some row) state fs >>= subscript)
          (Rewritten state fs row)
  rewrite-Holds state fs row legal = Holds-bind _ _ (transition-Holds state fs row legal) λ o.
      Holds-subscript o λ r e s h.
        let same : h.row' ≡ r = cc (h.returned, e) in
        record {
          transition_id = h.transition_id;
          time = h.time;
          known = subst (λ x. Knows s x) same h.known;
          ahead =
              subst (λ x. Advances (write_row state h.transition_id h.time fs row) x) same h.ahead;
        }
