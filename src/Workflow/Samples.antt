-- ===== src/Workflow/Samples.antt =====
-- A question under review, whose coding output is committed and passes what its model requires.
use mm_harness.Workflow.Leased.{acquire_question_lease-stands, release_question_lease-stands}
use mm_harness.Prelude.{
  ◌∙◌, ◌≤◌, ◌-◌, ◌*◌, ◌+◌, String, Bool, true, false, none, some, [], ◌∷◌, ◌≡◌, ◌≢◌, ap, arith,
  refl, text_length, is_blank, is_space, strip, strip_start, strip_end,
}
use mm_harness.Errors.{Result, ok, err, value_error}
use mm_harness.Json.{Json, boolean, end, get}
use mm_harness.Reports.{ReportPayload}
use mm_harness.Store.Models.{
  QuestionState, StageKind, ActivityStatus, QuestionRecord, Activity, Database,
}
use mm_harness.Store.Texts.{text_of, value_of}
use mm_harness.Store.Runs.{empty}
use mm_harness.Store.Events.{◌>>=◌, transaction, append_event, update_by_id}
use mm_harness.Store.Questions.{question_of, get_question}
use mm_harness.Store.Leases.{
  acquire_question_lease, release_question_lease, then_question, write_transition, transition,
}
use mm_harness.Store.Samples.{library, stamp, leased, created}
use mm_harness.Workflow.{
  ReviewVerdict, StageOutput, ActivityResponse, Settings, begin, enter_stage, by_creation,
  insert_by_creation, list_activities, is_validated, output_error, response_error,
  approval_evidence_error, complete_review, complete_stage,
}
use mm_harness.Workflow.Steps.{Step}
use mm_harness.Workflow.Runs.{stands, Runs, Runs-bounded}
use mm_harness.Workflow.Evidence.{IsBacked}
use mm_harness.Workflow.Moves.{complete_stage-steps, complete_stage-approves}

abbrev report : ReportPayload
report = record {
  title = "Yield";
  markdown = "The yield is 3.";
  summary = "";
  claims = [];
  limitations = [];
  structured = end;
  solution_report_path = none;
  solve_files = [];
}

abbrev responds : StageOutput → ActivityResponse
responds output = record { idempotency_key = "k"; output = output; executor_metadata = end }

abbrev model_output : StageOutput
model_output = StageOutput.modeling (record {
  report = report;
  required_validations = "mass balance" ∷ [];
  expected_outputs = "yield" ∷ [];
  downstream_outputs = [];
  artifacts = [];
})

abbrev code_output : StageOutput
code_output = StageOutput.coding (record {
  report = report;
  execution_succeeded = true;
  validations = ("mass balance", true) ∷ [];
  metrics = end;
  artifacts = [];
})

abbrev approval : ActivityResponse
approval = responds (
    StageOutput.review (record {
      report = report;
      verdict = ReviewVerdict.approve;
      revision_instructions = [];
      accepted_claims = [];
      artifacts = [];
    }))

-- a stored result says whether it is the model
abbrev read_response : Json → Result ActivityResponse
read_response (boolean true) = ok (responds model_output)
read_response (boolean false) = ok (responds code_output)
read_response _ = err value_error

abbrev settings : Settings
settings = record { max_revisions = 2; response_of = read_response }

abbrev reviewed : QuestionRecord
reviewed = record leased { state = QuestionState.reviewing }

abbrev waiting : QuestionRecord
waiting = record leased { state = QuestionState.ready_for_review }

abbrev committed : String → StageKind → Bool → Activity String
committed id stage result = record created {
  id = id;
  stage = stage;
  status = ActivityStatus.succeeded;
  result_json = some (text_of (boolean result));
}

abbrev under_review : Database
under_review = record empty {
  questions = reviewed ∷ [];
  activities = committed "v1" StageKind.modeling true ∷ committed "v2" StageKind.coding false ∷ [];
}

abbrev before_review : Database
before_review = record under_review { questions = waiting ∷ [] }

abbrev after_review : Database
after_review =
    (complete_stage library settings 9 (stamp "e9") reviewed "w1" approval under_review).1

abbrev after_entry : Database
after_entry = (enter_stage library settings 9 (stamp "e9") waiting "w1" before_review).1

abbrev approved_row : QuestionRecord
approved_row = record reviewed { state = QuestionState.approved; updated_at = 9; version = 2 }

abbrev entered_row : QuestionRecord
entered_row = record waiting { state = QuestionState.reviewing; updated_at = 9; version = 2 }

review_completed :
    complete_stage library settings 9 (stamp "e9") reviewed "w1" approval under_review
    ≡ (ok approved_row, after_review)
unfolding complete_stage complete_review approval_evidence_error list_activities by_creation
    insert_by_creation response_error output_error is_validated get transition write_transition
    then_question get_question transaction append_event update_by_id ◌>>=◌ text_of value_of is_blank
    is_space text_length strip strip_start strip_end
review_completed = refl

approved_stored : question_of "q" after_review ≡ some approved_row
unfolding complete_stage complete_review approval_evidence_error list_activities by_creation
    insert_by_creation response_error output_error is_validated get transition write_transition
    then_question get_question transaction append_event update_by_id ◌>>=◌ text_of value_of is_blank
    is_space text_length strip strip_start strip_end
approved_stored = refl

review_entered :
    enter_stage library settings 9 (stamp "e9") waiting "w1" before_review
    ≡ (ok (entered_row, StageKind.review), after_entry)
unfolding enter_stage begin transition write_transition then_question get_question transaction
    append_event update_by_id ◌>>=◌ text_of is_blank is_space text_length strip strip_start
    strip_end
review_entered = refl

complete_stage-steps_example :
    (new : QuestionRecord) × (question_of "q" after_review ≡ some new)
    × Step 2 QuestionState.reviewing 0 new.state new.revision
complete_stage-steps_example =
    complete_stage-steps library settings 9 (stamp "e9") reviewed "w1" under_review after_review
      reviewed refl approval approved_row refl review_completed

complete_stage-approves_example : IsBacked library settings reviewed under_review
complete_stage-approves_example =
    complete_stage-approves library settings 9 (stamp "e9") reviewed "w1" under_review after_review
      reviewed refl approval approved_row approved_row review_completed approved_stored refl

-- between the two stages the worker gives the question back, and another one takes it
abbrev given_back : Database
given_back = (release_question_lease library (stamp "e10") "q" "w1" after_entry).1

abbrev taken : Database
taken = (acquire_question_lease library 10 10 (stamp "e11") "q" "w2" 20 given_back).1

abbrev second_row : QuestionRecord
second_row = record entered_row { lease_owner = some "w2"; lease_expires_at = some 20_000_010 }

abbrev after_second : Database
after_second = (complete_stage library settings 12 (stamp "e12") second_row "w2" approval taken).1

abbrev second_approved : QuestionRecord
second_approved = record second_row { state = QuestionState.approved; updated_at = 12; version = 3 }

entry_taken : question_of "q" taken ≡ some second_row
unfolding release_question_lease acquire_question_lease enter_stage begin transition
    write_transition then_question get_question transaction append_event update_by_id ◌>>=◌ text_of
    is_blank is_space text_length strip strip_start strip_end
entry_taken = refl

entry_stands : stands "q" taken ≡ stands "q" after_entry
entry_stands =
    acquire_question_lease-stands library "q" 10 10 (stamp "e11") "q" "w2" 20 given_back
    ∙ release_question_lease-stands library "q" (stamp "e10") "q" "w1" after_entry

second_completed :
    complete_stage library settings 12 (stamp "e12") second_row "w2" approval taken
    ≡ (ok second_approved, after_second)
unfolding complete_stage complete_review approval_evidence_error list_activities by_creation
    insert_by_creation response_error output_error is_validated get transition write_transition
    then_question get_question transaction append_event update_by_id ◌>>=◌ text_of value_of is_blank
    is_space text_length strip strip_start strip_end release_question_lease acquire_question_lease
    enter_stage begin
second_completed = refl

entry_moved : after_entry ≢ before_review
unfolding enter_stage begin transition write_transition then_question get_question transaction
    append_event update_by_id ◌>>=◌ text_of is_blank is_space text_length strip strip_start
    strip_end
entry_moved e = let grown = ap (λ (d : Database). stands "q" d) e in absurd (ground (arith, grown))

Runs-bounded_example : 2 ≤ 4 * (2 - 0) + 8
Runs-bounded_example = Runs-bounded library settings "q" 2 before_review waiting refl (
    Runs.entered 1 9 (stamp "e9") waiting waiting entered_row "w1" StageKind.review before_review
      after_entry taken refl refl review_entered entry_moved entry_stands
      (Runs.completed 0 12 (stamp "e12") second_row second_row second_approved "w2" approval taken
        after_second after_second refl entry_taken refl second_completed refl
        (Runs.ended after_second)))
