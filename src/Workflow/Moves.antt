-- ===== src/Workflow/Moves.antt =====
-- The workflow's transitions are steps of the machine of the stages.
use mm_harness.Prelude.{
  ℕ, suc, String, true, false, Option, none, some, [], ◌∷◌, ltb, ◌==◌, string_eq, ◌≡◌, refl, sym,
  ap, ◌∙◌, arith, eq_iff, if◌then◌else◌, Bool-cases, Option-cases, ◌⊎◌, inl, inr,
}
use mm_harness.Errors.{Result, ok, err, Result-cases}
use mm_harness.Store.Models.{
  QuestionState, state_text, is_state, StageKind, QuestionRecord, Database, Library, Stamp,
}
use mm_harness.Store.Questions.{question_of}
use mm_harness.Store.Leases.{next_revision}
use mm_harness.Store.Transitions.{transition-moves}
use mm_harness.Workflow.{
  ReviewVerdict, ModelingStageOutput, CodingStageOutput, ReviewStageOutput, FinalizeStageOutput,
  StageOutput, ActivityResponse, Settings, move, begin, enter_stage, approval_evidence_error,
  complete_review, complete_stage,
}
use mm_harness.Workflow.Steps.{Step}
use mm_harness.Workflow.Evidence.{IsBacked, approval_evidence_error-none}

-- the state with a text
abbrev state_of : String → QuestionState
state_of s =
    if s == "pending"
    then QuestionState.pending
    else if s == "modeling"
    then QuestionState.modeling
    else if s == "ready_for_coding"
    then QuestionState.ready_for_coding
    else if s == "coding"
    then QuestionState.coding
    else if s == "ready_for_review"
    then QuestionState.ready_for_review
    else if s == "reviewing"
    then QuestionState.reviewing
    else if s == "revision_required"
    then QuestionState.revision_required
    else if s == "approved"
    then QuestionState.approved
    else if s == "finalizing"
    then QuestionState.finalizing
    else if s == "completed"
    then QuestionState.completed
    else QuestionState.failed

state_of-state_text : (s : QuestionState) → state_of (state_text s) ≡ s
state_of-state_text QuestionState.pending = refl
state_of-state_text QuestionState.modeling = refl
state_of-state_text QuestionState.ready_for_coding = refl
state_of-state_text QuestionState.coding = refl
state_of-state_text QuestionState.ready_for_review = refl
state_of-state_text QuestionState.reviewing = refl
state_of-state_text QuestionState.revision_required = refl
state_of-state_text QuestionState.approved = refl
state_of-state_text QuestionState.finalizing = refl
state_of-state_text QuestionState.completed = refl
state_of-state_text QuestionState.failed = refl

is_state-eq : (s t : QuestionState) → is_state s t ≡ true → s ≡ t
is_state-eq s t h =
    sym (state_of-state_text s)
    ∙ ap state_of ((eq_iff (state_text s) (state_text t)).0 h)
    ∙ state_of-state_text t

output_cases :
    (o : StageOutput)
    → ((x : ModelingStageOutput) × (o ≡ StageOutput.modeling x))
      ⊎ (((x : CodingStageOutput) × (o ≡ StageOutput.coding x))
          ⊎ (((x : ReviewStageOutput) × (o ≡ StageOutput.review x))
              ⊎ ((x : FinalizeStageOutput) × (o ≡ StageOutput.finalize x))))
output_cases (StageOutput.modeling x) = inl (x, refl)
output_cases (StageOutput.coding x) = inr (inl (x, refl))
output_cases (StageOutput.review x) = inr (inr (inl (x, refl)))
output_cases (StageOutput.finalize x) = inr (inr (inr (x, refl)))

module _ (lib : Library) (settings : Settings) (now : ℕ) (stamp : Stamp) (question : QuestionRecord)
    (worker : String) (db after : Database) (old : QuestionRecord)
    (stored : question_of question.id db ≡ some old) where
  -- a transition that returns takes the stored question from its one expected state
  moved :
      (from to : QuestionState) (revision : Option ℕ) (reason : Option String) (q : QuestionRecord)
      → move lib settings now stamp question worker from to revision reason db ≡ (ok q, after)
      → (new : QuestionRecord) × (question_of question.id after ≡ some new)
        × (old.state ≡ from)
        × (new.state ≡ to)
        × (new.revision ≡ next_revision lib revision old)
  moved from to revision reason q h =
      let (row, found, owned, expected, result) =
        transition-moves lib now stamp question.id worker (from ∷ []) to revision reason db after q
          h in
      let same : row ≡ old = ground (arith, found, stored) in
      (
        record row {
          state = to;
          revision = next_revision lib revision row;
          failure_reason = reason;
          updated_at = now;
          version = suc row.version;
        },
        result,
        ap (λ (r : QuestionRecord). r.state) (sym same)
            ∙ is_state-eq row.state from (ground (arith, expected)),
        refl,
        ap (next_revision lib revision) same,
      )

  stepped :
      (from to : QuestionState) (revision : Option ℕ) (reason : Option String) (q : QuestionRecord)
      → Step settings.max_revisions from old.revision to (next_revision lib revision old)
      → move lib settings now stamp question worker from to revision reason db ≡ (ok q, after)
      → (new : QuestionRecord) × (question_of question.id after ≡ some new)
        × Step settings.max_revisions old.state old.revision new.state new.revision
  stepped from to revision reason q step h =
      let (new, found, before, moves, counted) = moved from to revision reason q h in
      (new, found, rw (before, moves, counted) step)

  complete_review-steps :
      (verdict : ReviewVerdict) (q : QuestionRecord)
      → old.revision ≡ question.revision
      → complete_review lib settings now stamp question worker verdict db ≡ (ok q, after)
      → (new : QuestionRecord) × (question_of question.id after ≡ some new)
        × Step settings.max_revisions old.state old.revision new.state new.revision
  unfolding complete_review
  complete_review-steps ReviewVerdict.approve q same h =
      elim (Result-cases (approval_evidence_error lib settings question db)) [
        | inl (e, f) ↦ absurd (ground (arith, rw (f, complete_review) at h))
        | inr (o, f) ↦ elim (Option-cases o) [
          | inl none_left ↦
              stepped QuestionState.reviewing QuestionState.approved none none q
                (Step.approve old.revision) (rw (f, none_left, complete_review) at h)
          | inr (reason, some_left) ↦
              stepped QuestionState.reviewing QuestionState.failed none (some reason) q
                (Step.reject old.revision) (rw (f, some_left, complete_review) at h)
        ]
      ]
  complete_review-steps ReviewVerdict.revision_required q same h =
      elim (Bool-cases (ltb settings.max_revisions (suc question.revision))) [
        | inl over ↦
            stepped QuestionState.reviewing QuestionState.failed none _ q (Step.reject old.revision)
              (rw (over, complete_review) at h)
        | inr within ↦
            stepped QuestionState.reviewing QuestionState.revision_required
              (some (suc question.revision)) none q
              (rw (sym same) (Step.revise old.revision (ground (arith, within, same))))
              (rw (within, complete_review) at h)
      ]

  -- A stage that completes is one step of the machine of the stages, for the question as it is stored, which has the
  -- revision that the worker has read: no stage is left out, and a revision is started only within the bound.
  pub complete_stage-steps :
      (response : ActivityResponse) (q : QuestionRecord)
      → old.revision ≡ question.revision
      → complete_stage lib settings now stamp question worker response db ≡ (ok q, after)
      → (new : QuestionRecord) × (question_of question.id after ≡ some new)
        × Step settings.max_revisions old.state old.revision new.state new.revision
  unfolding complete_stage
  complete_stage-steps response q same h = elim (output_cases response.output) [
    | inl (o, e) ↦
        stepped QuestionState.modeling QuestionState.ready_for_coding none none q
          (Step.modelled old.revision) (rw (e, complete_stage) at h)
    | inr (inl (o, e)) ↦
        stepped QuestionState.coding QuestionState.ready_for_review none none q
          (Step.coded old.revision) (rw (e, complete_stage) at h)
    | inr (inr (inl (o, e))) ↦ complete_review-steps o.verdict q same (rw (e, complete_stage) at h)
    | inr (inr (inr (o, e))) ↦
        stepped QuestionState.finalizing QuestionState.completed none none q
          (Step.finished old.revision) (rw (e, complete_stage) at h)
  ]

  begin-ok :
      (stage next : StageKind) (r : Result QuestionRecord × Database) (q : QuestionRecord)
      → begin lib settings now stamp question worker stage r ≡ (ok (q, next), after)
      → r ≡ (ok q, after)
  unfolding begin
  begin-ok stage next (err e, d) q h = absurd (ground (arith, h))
  begin-ok stage next (ok x, d) q h = ground (arith, h)

  -- A stage that is entered is one step of the machine, or none where the question is in that stage already.
  pub enter_stage-steps :
      (q : QuestionRecord) (stage : StageKind)
      → enter_stage lib settings now stamp question worker db ≡ (ok (q, stage), after)
      → (after ≡ db)
        ⊎ ((new : QuestionRecord) × (question_of question.id after ≡ some new)
            × Step settings.max_revisions old.state old.revision new.state new.revision)
  unfolding enter_stage
  enter_stage-steps q stage h = go question.state refl
    where
      entered : QuestionState → QuestionState → StageKind → Type 0
      entered from to next =
          begin lib settings now stamp question worker next
            (move lib settings now stamp question worker from to none none db)
          ≡ (ok (q, stage), after)

      one :
          (from to : QuestionState) (next : StageKind)
          → Step settings.max_revisions from old.revision to old.revision
          → entered from to next
          → (after ≡ db)
            ⊎ ((new : QuestionRecord) × (question_of question.id after ≡ some new)
                × Step settings.max_revisions old.state old.revision new.state new.revision)
      one from to next step e = inr (stepped from to none none q step (begin-ok next stage _ q e))

      go :
          (s : QuestionState)
          → question.state ≡ s
          → (after ≡ db)
            ⊎ ((new : QuestionRecord) × (question_of question.id after ≡ some new)
                × Step settings.max_revisions old.state old.revision new.state new.revision)
      go QuestionState.pending e = one _ _ _ (Step.model old.revision) (rw (e, enter_stage) at h)
      go QuestionState.modeling e = inl (ground (arith, rw (e, enter_stage) at h))
      go QuestionState.ready_for_coding e =
          one _ _ _ (Step.code old.revision) (rw (e, enter_stage) at h)
      go QuestionState.revision_required e =
          one _ _ _ (Step.code_again old.revision) (rw (e, enter_stage) at h)
      go QuestionState.coding e = inl (ground (arith, rw (e, enter_stage) at h))
      go QuestionState.ready_for_review e =
          one _ _ _ (Step.review old.revision) (rw (e, enter_stage) at h)
      go QuestionState.reviewing e = inl (ground (arith, rw (e, enter_stage) at h))
      go QuestionState.approved e = one _ _ _ (Step.finish old.revision) (rw (e, enter_stage) at h)
      go QuestionState.finalizing e = inl (ground (arith, rw (e, enter_stage) at h))
      go QuestionState.completed e = absurd (ground (arith, rw (e, enter_stage) at h))
      go QuestionState.failed e = absurd (ground (arith, rw (e, enter_stage) at h))

  not_approved :
      (from to : QuestionState) (revision : Option ℕ) (reason : Option String)
      (q new : QuestionRecord)
      → is_state to QuestionState.approved ≡ false
      → question_of question.id after ≡ some new
      → new.state ≡ QuestionState.approved
      → move lib settings now stamp question worker from to revision reason db ≡ (ok q, after)
      → IsBacked lib settings question db
  not_approved from to revision reason q new other found reached h =
      let (row, stored_row, before, moves, counted) = moved from to revision reason q h in
      let same : row ≡ new = ground (arith, stored_row, found) in
      let arrived : to ≡ QuestionState.approved =
        sym moves ∙ ap (λ (r : QuestionRecord). r.state) same ∙ reached in
      absurd (ground (arith, rw arrived at other))

  -- A question is approved only if a modeling activity of it has succeeded, and the last successful coding activity of
  -- its current revision holds an output that was executed with success, has a passed entry for each validation that the
  -- first successful modeling activity's output requires, and was not executed by a remote interpreter, nor by Qwen
  -- outside the local sandbox.
  pub complete_stage-approves :
      (response : ActivityResponse) (q new : QuestionRecord)
      → complete_stage lib settings now stamp question worker response db ≡ (ok q, after)
      → question_of question.id after ≡ some new
      → new.state ≡ QuestionState.approved
      → IsBacked lib settings question db
  unfolding complete_stage complete_review
  complete_stage-approves response q new h found reached = elim (output_cases response.output) [
    | inl (o, e) ↦
        not_approved QuestionState.modeling QuestionState.ready_for_coding none none q new refl
          found reached (rw (e, complete_stage) at h)
    | inr (inl (o, e)) ↦
        not_approved QuestionState.coding QuestionState.ready_for_review none none q new refl found
          reached (rw (e, complete_stage) at h)
    | inr (inr (inl (o, e))) ↦ reviewed o.verdict (rw (e, complete_stage) at h)
    | inr (inr (inr (o, e))) ↦
        not_approved QuestionState.finalizing QuestionState.completed none none q new refl found
          reached (rw (e, complete_stage) at h)
  ]
    where
      reviewed :
          (verdict : ReviewVerdict)
          → complete_review lib settings now stamp question worker verdict db ≡ (ok q, after)
          → IsBacked lib settings question db
      reviewed ReviewVerdict.approve k =
          elim (Result-cases (approval_evidence_error lib settings question db)) [
            | inl (e, f) ↦ absurd (ground (arith, rw (f, complete_review) at k))
            | inr (o, f) ↦ elim (Option-cases o) [
              | inl clean ↦ approval_evidence_error-none lib settings question db (f ∙ ap ok clean)
              | inr (reason, raised) ↦
                  not_approved QuestionState.reviewing QuestionState.failed none (some reason) q new
                    refl found reached (rw (f, raised, complete_review) at k)
            ]
          ]
      reviewed ReviewVerdict.revision_required k =
          elim (Bool-cases (ltb settings.max_revisions (suc question.revision))) [
            | inl over ↦
                not_approved QuestionState.reviewing QuestionState.failed none _ q new refl found
                  reached (rw (over, complete_review) at k)
            | inr within ↦
                not_approved QuestionState.reviewing QuestionState.revision_required _ none q new
                  refl found reached (rw (within, complete_review) at k)
          ]
