-- ===== src/Payout/Resubmit.antt =====
-- Proofs about submissions that are repeated (app/payout_execution.py).
use tron_shkeeper.Base.{
  suc, String, true, false, none, some, List, [], ◌∷◌, ◌++◌, ◌≡◌, refl, ap, ◌∙◌, ◌=s◌, Bool-cases,
  inl, inr, arith, eq_refl, if◌then◌else◌,
}
use tron_shkeeper.Payout.Types.{State, Row, ok, err}
use tron_shkeeper.Payout.Status.{row_to_status}
use tron_shkeeper.Payout.World.{World, Env, M, ◌>>=◌, get_row, before_statement, find_row}
use tron_shkeeper.Payout.Submit.{
  Submission, is_same_request, find_external, new_row, conflict, insert_row, enqueue_if_enabled,
  accept_existing, after_insert, submit, another_payload,
}

-- The surroundings with executions enqueued, in which no other process acts.
abbrev pub undisturbed : Env → Env
undisturbed env = record env {
  config = record (env.config) { auto_enqueue_enabled = true };
  others = λ n s. s;
}

find_row-append :
    (rows : List Row) (r : Row)
    → find_row r.execution_id rows ≡ none
    → find_row r.execution_id (rows ++ r ∷ []) ≡ some r
unfolding find_row
find_row-append [] r absent = rw (eq_refl r.execution_id) refl
find_row-append (x ∷ rows) r absent = elim (Bool-cases (x.execution_id =s r.execution_id)) [
  | inl here ↦ absurd (ground (arith, absent, here))
  | inr there ↦ rw there (find_row-append rows r (ground (arith, absent, there)))
]

-- The row that a submission makes.
abbrev pub row_of : Env → Submission → World → Row
row_of env p w =
    new_row (undisturbed env) p (env.uuid (suc (suc w.tick))) (env.now (suc (suc (suc w.tick))))

-- The world after a submission whose execution is new.
abbrev pub after_submit : Env → Submission → World → World
after_submit env p w =
    let row = row_of env p w in
    record {
      shared = record (w.shared) {
        rows = w.shared.rows ++ row ∷ [];
        queued = (row.execution_id, row.payout_queue) ∷ w.shared.queued;
      };
      tick = suc (suc (suc (suc (suc w.tick))));
    }

bind_ok :
    {A B : Type 0} (m : M A) (f : A → M B) (w : World) {w' : World} {a : A}
    → m w ≡ (ok a, w')
    → (m >>= f) w ≡ f a w'
unfolding ◌>>=◌
bind_ok m f w same = rw same refl

insert_row-new :
    (env : Env) (row : Row) (w : World)
    → find_row row.execution_id w.shared.rows ≡ none
    → find_external row.consumer row.external_id w.shared.rows ≡ none
    → insert_row (undisturbed env) row w ≡ (
      ok true,
      record { shared = record (w.shared) { rows = w.shared.rows ++ row ∷ [] }; tick = suc w.tick },
    )
unfolding insert_row before_statement
insert_row-new env row w absent free = rw (absent, free) refl

-- A row that was received is enqueued.
enqueue_received :
    (env : Env) (row : Row) (w : World)
    → row.state ≡ State.received
    → enqueue_if_enabled (undisturbed env) row w ≡ (
      ok row,
      record {
        shared = record (w.shared) {
          queued = (row.execution_id, row.payout_queue) ∷ w.shared.queued;
        };
        tick = w.tick;
      },
    )
unfolding enqueue_if_enabled
enqueue_received env row w received = rw received refl

after_insert-new :
    (env : Env) (p : Submission) (row : Row) (w : World)
    → row.state ≡ State.received
    → find_row p.canonical.execution_id w.shared.rows ≡ some row
    → after_insert (undisturbed env) p true w ≡ (
      ok (row_to_status "ACCEPTED" row),
      record {
        shared = record (w.shared) {
          queued = (row.execution_id, row.payout_queue) ∷ w.shared.queued;
        };
        tick = suc w.tick;
      },
    )
unfolding after_insert get_row before_statement ◌>>=◌
after_insert-new env p row w received found =
    rw found (rw (enqueue_received env row _ received) refl)

submit-new :
    (env : Env) (p : Submission) (w : World)
    → find_row p.canonical.execution_id w.shared.rows ≡ none
    → find_external p.canonical.consumer p.canonical.external_id w.shared.rows ≡ none
    → submit (undisturbed env) p w
      ≡ (ok (row_to_status "ACCEPTED" (row_of env p w)), after_submit env p w)
unfolding submit get_row before_statement ◌>>=◌ new_row
submit-new env p w absent free =
    rw (absent, free)
      (bind_ok (insert_row (undisturbed env) (row_of env p w)) (after_insert (undisturbed env) p)
          (record { shared = w.shared; tick = suc (suc (suc w.tick)) })
          (insert_row-new env (row_of env p w) _ absent free)
        ∙ after_insert-new env p (row_of env p w) _ refl
            (find_row-append w.shared.rows (row_of env p w) absent))

-- A row of the same request is accepted as it is.
accept_existing-same :
    (env : Env) (p : Submission) (message : String) (row : Row) (w : World)
    → is_same_request p row ≡ true
    → row.state ≡ State.received
    → accept_existing (undisturbed env) p message row w ≡ (
      ok (row_to_status "ACCEPTED" row),
      record {
        shared = record (w.shared) {
          queued = (row.execution_id, row.payout_queue) ∷ w.shared.queued;
        };
        tick = w.tick;
      },
    )
unfolding accept_existing ◌>>=◌
accept_existing-same env p message row w same received =
    rw same (rw (enqueue_received env row w received) refl)

accept_existing-conflict :
    (env : Env) (p : Submission) (message : String) (row : Row) (w : World)
    → is_same_request p row ≡ false
    → accept_existing (undisturbed env) p message row w ≡ (err (conflict message), w)
unfolding accept_existing ◌>>=◌
accept_existing-conflict env p message row w other = rw other refl

submit-existing :
    (env : Env) (p : Submission) (row : Row) (w : World)
    → find_row p.canonical.execution_id w.shared.rows ≡ some row
    → is_same_request p row ≡ true
    → row.state ≡ State.received
    → submit (undisturbed env) p w ≡ (
      ok (row_to_status "ACCEPTED" row),
      record {
        shared = record (w.shared) {
          queued = (row.execution_id, row.payout_queue) ∷ w.shared.queued;
        };
        tick = suc w.tick;
      },
    )
unfolding submit get_row before_statement ◌>>=◌
submit-existing env p row w found same received =
    rw found (accept_existing-same env p another_payload row _ same received)

submit-conflict :
    (env : Env) (p : Submission) (row : Row) (w : World)
    → find_row p.canonical.execution_id w.shared.rows ≡ some row
    → is_same_request p row ≡ false
    → submit (undisturbed env) p w
      ≡ (err (conflict another_payload), record { shared = w.shared; tick = suc w.tick })
unfolding submit get_row before_statement ◌>>=◌
submit-conflict env p row w found other =
    rw found (accept_existing-conflict env p another_payload row _ other)

-- What a submission and a second one of the same execution come to.
pub record IsIdempotent (env : Env) (p q : Submission) (w : World) : Type 0 where
  -- the first makes one row, which is received, and hands it to the queue
  pub first :
      submit (undisturbed env) p w
      ≡ (ok (row_to_status "ACCEPTED" (row_of env p w)), after_submit env p w)
  -- the second reports that row if it is the same request, and a conflict if it is not
  pub second : (submit (undisturbed env) q (submit (undisturbed env) p w).1).0 ≡ (
      if is_same_request q (row_of env p w)
      then ok (row_to_status "ACCEPTED" (row_of env p w))
      else err (conflict another_payload))
  -- and makes no row
  pub no_row :
      (submit (undisturbed env) q (submit (undisturbed env) p w).1).1.shared.rows
      ≡ w.shared.rows ++ row_of env p w ∷ []

submit-again :
    (env : Env) (q : Submission) (row : Row) (w : World)
    → find_row q.canonical.execution_id w.shared.rows ≡ some row
    → row.state ≡ State.received
    → ((submit (undisturbed env) q w).0 ≡ (
        if is_same_request q row
        then ok (row_to_status "ACCEPTED" row)
        else err (conflict another_payload)))
      × ((submit (undisturbed env) q w).1.shared.rows ≡ w.shared.rows)
submit-again env q row w found received = elim (Bool-cases (is_same_request q row)) [
  | inl same ↦
      let out = submit-existing env q row w found same received in
      (rw same (ap (λ o. o.0) out), ap (λ o. o.1.shared.rows) out)
  | inr other ↦
      let out = submit-conflict env q row w found other in
      (rw other (ap (λ o. o.0) out), ap (λ o. o.1.shared.rows) out)
]

received : (env : Env) (p : Submission) (w : World) → (row_of env p w).state ≡ State.received
unfolding new_row
received env p w = refl

there :
    (env : Env) (p q : Submission) (w : World)
    → find_row p.canonical.execution_id w.shared.rows ≡ none
    → q.canonical.execution_id ≡ p.canonical.execution_id
    → find_row q.canonical.execution_id (after_submit env p w).shared.rows ≡ some (row_of env p w)
unfolding new_row
there env p q w absent same_id =
    ap (λ id. find_row id (after_submit env p w).shared.rows) same_id
    ∙ find_row-append w.shared.rows (row_of env p w) absent

-- Where no other process acts and executions are enqueued, a submission of an execution whose id and
-- external id are new makes one row and enqueues it; after it a submission of the same execution id
-- makes none, and reports that row if it is the same request, and a conflict if it is not.
pub submit-IsIdempotent :
    (env : Env) (p q : Submission) (w : World)
    → find_row p.canonical.execution_id w.shared.rows ≡ none
    → find_external p.canonical.consumer p.canonical.external_id w.shared.rows ≡ none
    → q.canonical.execution_id ≡ p.canonical.execution_id
    → IsIdempotent env p q w
submit-IsIdempotent env p q w absent free same_id =
    let first = submit-new env p w absent free in
    let found = there env p q w absent same_id in
    let (answer, kept) =
      submit-again env q (row_of env p w) (after_submit env p w) found (received env p w) in
    record {
      first = first;
      second = ap (λ out. (submit (undisturbed env) q out.1).0) first ∙ answer;
      no_row = ap (λ out. (submit (undisturbed env) q out.1).1.shared.rows) first ∙ kept;
    }
