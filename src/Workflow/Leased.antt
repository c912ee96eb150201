-- ===== src/Workflow/Leased.antt =====
-- What a worker does with a question's lease leaves the question in its state and its revision.
use mm_harness.Prelude.{
  String, ℕ, List, [], ◌∷◌, Option, none, some, Bool-cases, Option-cases, inl, inr, string_eq, ◌≡◌,
  refl, sym, ap, ◌∙◌, arith,
}
use mm_harness.Errors.{ok}
use mm_harness.Json.{Json}
use mm_harness.Store.Models.{QuestionState, QuestionRecord, Database, Library, Stamp}
use mm_harness.Store.Events.{by_id, update_by_id, append_event}
use mm_harness.Store.Leases.{
  update_question, acquire_question_lease, renew_question_lease, release_question_lease,
}
use mm_harness.Store.Keeps.{
  Leaves-ok, Leaves-err, then_question-keeps, transaction-keeps, Leaves-bind,
}
use mm_harness.Store.Questions.{question_of, is_text}
use mm_harness.Store.Rows.{append_event-rows}
use mm_harness.Workflow.Runs.{stands}

-- of a row that may be there
abbrev standing : Option QuestionRecord → Option (QuestionState × ℕ)
standing none = none
standing (some q) = some (q.state, q.revision)

module _ (change : QuestionRecord → QuestionRecord)
    (same_id : (q : QuestionRecord) → (change q).id ≡ q.id)
    (same_state : (q : QuestionRecord) → (change q).state ≡ q.state)
    (same_revision : (q : QuestionRecord) → (change q).revision ≡ q.revision) where
  update-standing :
      (id target : String) (rows : List QuestionRecord)
      → standing
          (by_id (λ (q : QuestionRecord). q.id) id (update_by_id (λ q. q.id) target change rows))
        ≡ standing (by_id (λ (q : QuestionRecord). q.id) id rows)
  unfolding update_by_id
  update-standing id target [] = refl
  update-standing id target (q ∷ rows) =
      ground (arith, update-standing id target rows, same_id q, same_state q, same_revision q)

stands-standing :
    (id : String) (db : Database)
    → stands id db ≡ standing (by_id (λ (q : QuestionRecord). q.id) id db.questions)
stands-standing id db = elim (Option-cases (question_of id db)) [
  | inl e ↦ rw (e, stands) refl
  | inr (q, e) ↦ rw (e, stands) refl
]

module _ (lib : Library) (id : String) where
  changed-stands :
      (change : QuestionRecord → QuestionRecord)
      → ((q : QuestionRecord) → (change q).id ≡ q.id)
      → ((q : QuestionRecord) → (change q).state ≡ q.state)
      → ((q : QuestionRecord) → (change q).revision ≡ q.revision)
      → (target : String) (db : Database)
      → stands id (update_question target change db) ≡ stands id db
  changed-stands change i s r target db =
      stands-standing id (update_question target change db)
      ∙ update-standing change i s r id target db.questions
      ∙ sym (stands-standing id db)

  event-stands :
      (stamp : Stamp) (project : String) (question activity : Option String) (event_type : String)
      (payload : Json) (db after : Database)
      → append_event lib stamp project question activity event_type payload db ≡ ok after
      → stands id after ≡ stands id db
  event-stands stamp project question activity event_type payload db after h =
      stands-standing id after
      ∙ ap (λ qs. standing (by_id (λ (q : QuestionRecord). q.id) id qs))
          (append_event-rows lib stamp project question activity event_type payload db after h).0
      ∙ sym (stands-standing id db)

  pub release_question_lease-stands :
      (stamp : Stamp) (target worker : String) (db : Database)
      → stands id (release_question_lease lib stamp target worker db).1 ≡ stands id db
  unfolding release_question_lease
  release_question_lease-stands stamp target worker db =
      transaction-keeps (λ d. stands id d ≡ stands id db) _ db refl
        (elim (Option-cases (question_of target db)) [
          | inl e ↦ rw e (Leaves-ok refl)
          | inr (q, e) ↦ rw e (elim (Bool-cases (is_text worker q.lease_owner)) [
            | inr other ↦ rw other (Leaves-ok refl)
            | inl own ↦ rw own (
                Leaves-bind (λ after added. Leaves-ok (
                  event-stands _ _ _ _ _ _ _ after added
                  ∙ changed-stands _ (λ q. refl) (λ q. refl) (λ q. refl) target db)))
          ])
        ])

  renew_question_lease-stands :
      (now again : ℕ) (target worker : String) (seconds : ℕ) (db : Database)
      → stands id (renew_question_lease lib now again target worker seconds db).1 ≡ stands id db
  unfolding renew_question_lease
  renew_question_lease-stands now again target worker seconds db =
      transaction-keeps (λ d. stands id d ≡ stands id db) _ db refl
        (elim (Option-cases (question_of target db)) [
          | inl e ↦ rw e Leaves-err
          | inr (q, e) ↦ rw e (
              Leaves-bind (λ u owned.
                Leaves-ok (changed-stands _ (λ q. refl) (λ q. refl) (λ q. refl) target db)))
        ])

  pub acquire_question_lease-stands :
      (now again : ℕ) (stamp : Stamp) (target worker : String) (seconds : ℕ) (db : Database)
      → stands id (acquire_question_lease lib now again stamp target worker seconds db).1
        ≡ stands id db
  unfolding acquire_question_lease
  acquire_question_lease-stands now again stamp target worker seconds db =
      then_question-keeps (λ d. stands id d ≡ stands id db) target _
        (transaction-keeps (λ d. stands id d ≡ stands id db) _ db refl
          (elim (Option-cases (question_of target db)) [
            | inl e ↦ rw e Leaves-err
            | inr (q, e) ↦ rw e (
                Leaves-bind (λ u free. Leaves-bind (λ after added. Leaves-ok (
                  event-stands _ _ _ _ _ _ _ after added
                  ∙ changed-stands _ (λ q. refl) (λ q. refl) (λ q. refl) target db))))
          ]))
