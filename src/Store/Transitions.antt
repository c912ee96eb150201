-- ===== src/Store/Transitions.antt =====
-- The transitions of a question: what each refusal is for, and what a transition changes.
use mm_harness.Prelude.{
  ℕ, suc, String, true, not, Option, none, some, List, any, if◌then◌else◌, ◌≡◌, refl, sym, arith,
  Option-cases, ◌⊎◌, inl, inr,
}
use mm_harness.Errors.{Error, ok, err, lease_lost, not_found, invalid_transition, integrity_error}
use mm_harness.Store.Models.{QuestionState, is_state, QuestionRecord, Database, Library, Stamp}
use mm_harness.Store.Events.{bind-eq-ok, bind-eq-err}
use mm_harness.Store.Questions.{question_of}
use mm_harness.Store.Leases.{owns, next_revision, write_transition, transition}
use mm_harness.Store.Rows.{
  transaction-ok, then_question-ok, transaction-eq-err, then_question-eq-err, by_id-update_by_id,
  append_event-rows, append_event-err,
}

-- what a transition is refused with, before anything is written
abbrev pub refusal : ℕ → String → String → List QuestionState → Database → Option Error
refusal now id worker expected db = elim (question_of id db) [
  | none ↦ some not_found
  | some q ↦
      if not (owns worker now q)
      then some lease_lost
      else if not (any (is_state q.state) expected)
      then some invalid_transition
      else none
]

module _ (lib : Library) (now : ℕ) (stamp : Stamp) (id worker : String)
    (expected : List QuestionState) (new_state : QuestionState) (revision : Option ℕ)
    (reason : Option String) (db after : Database) where
  write_transition-ok :
      write_transition lib now stamp id worker expected new_state revision reason db
        ≡ ok (tt, after)
      → (old : QuestionRecord) × (question_of id db ≡ some old)
        × (owns worker now old ≡ true)
        × (any (is_state old.state) expected ≡ true)
        × (question_of id after
            ≡ some (record old {
              state = new_state;
              revision = next_revision lib revision old;
              failure_reason = reason;
              updated_at = now;
              version = suc old.version;
            }))
  unfolding write_transition
  write_transition-ok b = elim (Option-cases (question_of id db)) [
    | inl e ↦ absurd (ground (arith, rw (e, write_transition) at b))
    | inr (old, e) ↦
        let (u, owned, b1) = bind-eq-ok _ _ (rw (e, write_transition) at b) in
        let (v, allowed, b2) = bind-eq-ok _ _ b1 in
        let (d, added, b3) = bind-eq-ok _ _ b2 in
        let (same, others) = append_event-rows lib _ _ _ _ _ _ _ d added in
        let last : d ≡ after = ground (arith, b3) in
        (
          old,
          e,
          ground (arith, owned),
          ground (arith, allowed),
          rw (sym last, same) (by_id-update_by_id _ id _ db.questions old e refl),
        )
  ]

  -- A transition that returns was made by the worker whose lease of the question is not over, from one of
  -- the expected states; it leaves the question in the new state, at the next version, with its lease.
  pub transition-moves :
      (q : QuestionRecord)
      → transition lib now stamp id worker expected new_state revision reason db ≡ (ok q, after)
      → (old : QuestionRecord) × (question_of id db ≡ some old)
        × (owns worker now old ≡ true)
        × (any (is_state old.state) expected ≡ true)
        × (question_of id after
            ≡ some (record old {
              state = new_state;
              revision = next_revision lib revision old;
              failure_reason = reason;
              updated_at = now;
              version = suc old.version;
            }))
  unfolding transition
  transition-moves q h = write_transition-ok (transaction-ok _ db (then_question-ok id _ h).0)

  -- A transition that raises leaves the database as it was. It raises just the refusal that the question, its lease
  -- and its state call for; where they call for none, the event's id or hash is taken.
  pub transition-raises :
      (e : Error)
      → transition lib now stamp id worker expected new_state revision reason db ≡ (err e, after)
      → (after ≡ db)
        × ((refusal now id worker expected db ≡ some e)
            ⊎ ((refusal now id worker expected db ≡ none) × (e ≡ integrity_error)))
  unfolding transition write_transition
  transition-raises e h = elim (then_question-eq-err id _ h) [
    | inr (t, gone) ↦
        let (old, f, owned, allowed, found) = write_transition-ok (transaction-ok _ db t) in
        absurd (ground (arith, gone, found))
    | inl t ↦
        let (b, same) = transaction-eq-err _ db t in
        elim (Option-cases (question_of id db)) [
          | inl f ↦ (same, inl (ground (arith, f, rw (f, write_transition) at b)))
          | inr (q, f) ↦ elim (bind-eq-err _ _ (rw (f, write_transition) at b)) [
            | inl refused ↦ (same, inl (ground (arith, f, refused)))
            | inr (u, owned, b1) ↦ elim (bind-eq-err _ _ b1) [
              | inl refused ↦ (same, inl (ground (arith, f, owned, refused)))
              | inr (v, allowed, b2) ↦ elim (bind-eq-err _ _ b2) [
                | inl raised ↦ (
                  same,
                  inr (
                    ground (arith, f, owned, allowed),
                    append_event-err lib _ _ _ _ _ _ _ e raised,
                  ),
                )
                | inr (d, added, b3) ↦ absurd (ground (arith, b3))
              ]
            ]
          ]
        ]
  ]
