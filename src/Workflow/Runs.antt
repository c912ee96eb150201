-- ===== src/Workflow/Runs.antt =====
-- How often the stages of a question can be entered and completed.
use mm_harness.Prelude.{
  ℕ, suc, ◌+◌, ◌-◌, ◌*◌, ◌≤◌, String, Option, none, some, Option-cases, ◌≡◌, ◌≢◌, subst, arith, inl,
  inr,
}
use mm_harness.Errors.{ok}
use mm_harness.Store.Models.{QuestionState, StageKind, QuestionRecord, Database, Library, Stamp}
use mm_harness.Store.Questions.{question_of}
use mm_harness.Workflow.{ActivityResponse, Settings, enter_stage, complete_stage}
use mm_harness.Workflow.Steps.{Step, Steps, Steps-bounded}
use mm_harness.Workflow.Moves.{enter_stage-steps, complete_stage-steps}

-- the state and the revision of a question
abbrev pub stands : String → Database → Option (QuestionState × ℕ)
stands id db = elim (question_of id db) [ none ↦ none | some q ↦ some (q.state, q.revision) ]

stands-row :
    (id : String) (after later : Database) (new : QuestionRecord)
    → question_of id after ≡ some new
    → stands id later ≡ stands id after
    → (next : QuestionRecord) × (question_of id later ≡ some next)
      × (next.state ≡ new.state)
      × (next.revision ≡ new.revision)
stands-row id after later new placed same = elim (Option-cases (question_of id later)) [
  | inl e ↦ absurd (ground (arith, e, placed, same))
  | inr (next, e) ↦ (next, e, ground (arith, e, placed, same), ground (arith, e, placed, same))
]

module _ (lib : Library) (settings : Settings) where
  -- `n` stages of a question that are entered with a change, or completed, one after another, by any workers, each
  -- with the revision that is stored. What is between them leaves the question in its state and revision, and may change
  -- all else: a worker's lease is renewed and released, another worker acquires it, activities are claimed and concluded.
  pub data Runs (id : String) : ℕ → Database → Type 0 where
    ended : (db : Database) → Runs id 0 db
    entered :
        (n now : ℕ) (stamp : Stamp) (question old q : QuestionRecord) (worker : String)
        (stage : StageKind) (db after later : Database)
        → question.id ≡ id
        → question_of question.id db ≡ some old
        → enter_stage lib settings now stamp question worker db ≡ (ok (q, stage), after)
        → after ≢ db
        → stands id later ≡ stands id after
        → Runs id n later
        → Runs id (suc n) db
    completed :
        (n now : ℕ) (stamp : Stamp) (question old q : QuestionRecord) (worker : String)
        (response : ActivityResponse) (db after later : Database)
        → question.id ≡ id
        → question_of question.id db ≡ some old
        → old.revision ≡ question.revision
        → complete_stage lib settings now stamp question worker response db ≡ (ok q, after)
        → stands id later ≡ stands id after
        → Runs id n later
        → Runs id (suc n) db

  -- the steps of a run, from the stored row
  Runs-Steps :
      (id : String) (n : ℕ) (db : Database) (old : QuestionRecord)
      → question_of id db ≡ some old
      → Runs id n db
      → (s : QuestionState) × (r : ℕ) × Steps settings.max_revisions n old.state old.revision s r
  Runs-Steps id _ db old stored (ended _) =
      (old.state, old.revision, Steps.none_left old.state old.revision)
  Runs-Steps id _ db old stored
        (entered n now stamp question row q worker stage _ after later named found h changed between
          rest) =
      elim (enter_stage-steps lib settings now stamp question worker db after row found q stage h) [
        | inl same ↦ absurd (changed same)
        | inr (new, placed, step) ↦
            let e : row ≡ old = ground (arith, found, stored, named) in
            let (next, on, state, revision) =
              stands-row id after later new
                (subst (λ i. question_of i after ≡ some new) named placed) between in
            let (s, r, steps) = Runs-Steps id n later next on rest in
            (
              s,
              r,
              Steps.then n old.state new.state s old.revision new.revision r
                  (subst
                    (λ (x : QuestionRecord).
                      Step settings.max_revisions x.state x.revision new.state new.revision)
                    e step)
                  (rw (← state, ← revision) steps),
            )
      ]
  Runs-Steps id _ db old stored
        (completed n now stamp question row q worker response _ after later named found same h
          between rest) =
      let (new, placed, step) =
        complete_stage-steps lib settings now stamp question worker db after row found response q
          same h in
      let e : row ≡ old = ground (arith, found, stored, named) in
      let (next, on, state, revision) =
        stands-row id after later new (subst (λ i. question_of i after ≡ some new) named placed)
          between in
      let (s, r, steps) = Runs-Steps id n later next on rest in
      (
        s,
        r,
        Steps.then n old.state new.state s old.revision new.revision r
            (subst
              (λ (x : QuestionRecord).
                Step settings.max_revisions x.state x.revision new.state new.revision)
              e step)
            (rw (← state, ← revision) steps),
      )

  -- However the workers take turns, and whatever happens to the question's lease between their stages, the stages of a
  -- question are entered and completed at most eight times, and four times more for each revision that the bound leaves to
  -- the question as it is stored, if nothing else moves the question.
  pub Runs-bounded :
      (id : String) (n : ℕ) (db : Database) (old : QuestionRecord)
      → question_of id db ≡ some old
      → Runs id n db
      → n ≤ 4 * (settings.max_revisions - old.revision) + 8
  Runs-bounded id n db old stored run =
      let (s, r, steps) = Runs-Steps id n db old stored run in
      Steps-bounded settings.max_revisions n old.state s old.revision r steps
