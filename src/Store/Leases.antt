-- ===== src/Store/Leases.antt =====
-- store.py: the lease of a question, and the transitions that its owner makes.
use mm_harness.Prelude.{
  ℕ, suc, String, Bool, false, not, ◌&&◌, Option, none, some, List, any, ◌==◌, string_eq,
  if◌then◌else◌,
}
use mm_harness.Errors.{
  Result, ok, err, not_found, lease_lost, leased_by, invalid_transition, raise_if,
}
use mm_harness.Json.{field, end, string, integer, pos, object}
use mm_harness.Tools.Audit.{text_or_null}
use mm_harness.Store.Models.{
  QuestionState, state_text, is_state, QuestionRecord, Database, Library, Stamp,
}
use mm_harness.Store.Events.{◌>>=◌, transaction, update_by_id, append_event}
use mm_harness.Store.Questions.{expiry, ends_after, is_live, is_text, question_of, get_question}

-- UPDATE questions SET … WHERE id=?
abbrev pub update_question : String → (QuestionRecord → QuestionRecord) → Database → Database
update_question id change db = record db {
  questions = update_by_id (λ q. q.id) id change db.questions;
}

-- a change of a question whose result is the question as it is stored after it
unfoldable pub then_question :
    String → Result (Unit {0}) × Database → Result QuestionRecord × Database
unfolding get_question
then_question id (err e, db) = (err e, db)
then_question id (ok u, db) = (get_question id db, db)

-- another worker's lease that is not over
abbrev pub is_leased : String → ℕ → QuestionRecord → Bool
is_leased worker now q = elim q.lease_owner [
  | none ↦ false
  | some owner ↦ not (owner == worker) && ends_after now q.lease_expires_at
]

-- the worker's lease, not over
abbrev pub owns : String → ℕ → QuestionRecord → Bool
owns worker now q = is_text worker q.lease_owner && is_live now q.lease_expires_at

module _ (lib : Library) where
  open lib use {iso}

  unfoldable pub acquire_question_lease :
      ℕ → ℕ → Stamp → String → String → ℕ → Database → Result QuestionRecord × Database
  acquire_question_lease now again stamp id worker seconds db = then_question id (
      transaction
        (λ db. elim (question_of id db) [
          | none ↦ err not_found
          | some q ↦ do
            _ ← raise_if (is_leased worker now q) leased_by
            after ←
                append_event lib stamp q.project_id (some id) none "question.lease_acquired"
                  (object (
                    field "worker_id" (string worker)
                      (field "expires_at" (string (iso (expiry again seconds))) end)))
                  (update_question id
                    (λ q. record q {
                      lease_owner = some worker;
                      lease_expires_at = some (expiry again seconds);
                    })
                    db)
            ok (tt, after)
        ])
        db)

  unfoldable pub renew_question_lease :
      ℕ → ℕ → String → String → ℕ → Database → Result (Unit {0}) × Database
  renew_question_lease now again id worker seconds db =
      transaction
        (λ db. elim (question_of id db) [
          | none ↦ err lease_lost
          | some q ↦ do
            _ ← raise_if (not (owns worker now q)) lease_lost
            ok (
              tt,
              update_question id (λ q. record q { lease_expires_at = some (expiry again seconds) })
                  db,
            )
        ])
        db

  unfoldable pub release_question_lease :
      Stamp → String → String → Database → Result (Unit {0}) × Database
  release_question_lease stamp id worker db =
      transaction
        (λ db. elim (question_of id db) [
          | none ↦ ok (tt, db)
          | some q ↦ if not (is_text worker q.lease_owner) then ok (tt, db) else do
            after ←
                append_event lib stamp q.project_id (some id) none "question.lease_released"
                  (object (field "worker_id" (string worker) end))
                  (update_question id
                    (λ q. record q { lease_owner = none; lease_expires_at = none }) db)
            ok (tt, after)
        ])
        db

  -- `revision or the old one`, where none is given
  abbrev pub next_revision : Option ℕ → QuestionRecord → ℕ
  next_revision none q = q.revision
  next_revision (some n) q = n

  -- what `transition` does in its transaction
  unfoldable pub write_transition :
      ℕ
      → Stamp
      → String
      → String
      → List QuestionState
      → QuestionState
      → Option ℕ
      → Option String
      → Database
      → Result (Unit {0} × Database)
  write_transition now stamp id worker expected new_state revision failure_reason db =
      elim (question_of id db) [
        | none ↦ err not_found
        | some q ↦ do
          _ ← raise_if (not (owns worker now q)) lease_lost
          _ ← raise_if (not (any (is_state q.state) expected)) invalid_transition
          after ←
              append_event lib stamp q.project_id (some id) none "question.transitioned"
                (object (
                  field "from" (string (state_text q.state)) (
                    field "to" (string (state_text new_state)) (
                      field "revision" (integer (pos (next_revision revision q)))
                        (field "failure_reason" (text_or_null failure_reason) end)))))
                (update_question id
                  (λ r. record r {
                    state = new_state;
                    revision = next_revision revision q;
                    failure_reason = failure_reason;
                    updated_at = now;
                    version = suc r.version;
                  })
                  db)
          ok (tt, after)
      ]

  unfoldable pub transition :
      ℕ
      → Stamp
      → String
      → String
      → List QuestionState
      → QuestionState
      → Option ℕ
      → Option String
      → Database
      → Result QuestionRecord × Database
  transition now stamp id worker expected new_state revision failure_reason db = then_question id (
      transaction (write_transition now stamp id worker expected new_state revision failure_reason)
        db)
