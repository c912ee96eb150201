-- ===== src/Store/Samples.antt =====
-- A project with one question, whose first activity is claimed and completed with an artifact and a claim.
use mm_harness.Tools.Audit.{items_of}
use mm_harness.Prelude.{
  ap, ℕ, suc, String, true, none, some, [], ◌∷◌, any, length, ◌≡◌, ◌≢◌, refl, arith, eq_iff, ◌⊎◌,
  text_length, is_blank, is_space, strip, strip_start, strip_end,
}
use mm_harness.Errors.{ok, err, lease_lost, leased_by, invalid_transition, integrity_error}
use mm_harness.Json.{Json, Fields, null, field, end, object, array, item, nil, string}
use mm_harness.Reports.{ArtifactKind}
use mm_harness.Store.Models.{
  QuestionState, StageKind, ActivityStatus, QuestionRecord, ArtifactRecord, Activity, Database,
  Library, Stamp, is_state,
}
use mm_harness.Store.Texts.{text_of, value_of, value_of-text_of}
use mm_harness.Store.Events.{
  envelope_of, ◌>>=◌, transaction, update_by_id, append_event, verify_event_chain,
}
use mm_harness.Store.Questions.{
  question_of, insert_artifact, insert_question, get_question, create_project, create_question,
}
use mm_harness.Store.Leases.{
  then_question, owns, acquire_question_lease, renew_question_lease, next_revision,
  write_transition, transition,
}
use mm_harness.Store.Evidence.{verify_claim_evidence}
use mm_harness.Store.Activities.{get_or_create_activity, claim_activity, complete_activity}
use mm_harness.Store.Runs.{
  empty, IsReached, initialized, project_created, question_created, lease_acquired, transitioned,
  activity_created, activity_claimed, activity_completed, reached-verified,
}
use mm_harness.Store.CitedRuns.{reached-cited}
use mm_harness.Store.Exclusive.{acquire_question_lease-exclusive}
use mm_harness.Store.Transitions.{refusal, transition-moves, transition-raises}

abbrev pub library : Library
library = record {
  digest = λ s. s;
  json_text = text_of;
  loads = value_of;
  iso = λ t. "";
  number_text = λ n. "0";
}

abbrev pub stamp : String → Stamp
stamp id = record { event_id = id; occurred_at = 0 }

abbrev problem : ArtifactRecord
problem = record {
  id = "a1";
  project_id = "p";
  question_id = none;
  activity_id = none;
  kind = ArtifactKind.problem;
  logical_name = "problem.md";
  media_type = "text/markdown";
  sha256 = "00";
  size_bytes = 1;
  relative_path = "a1";
  metadata = object end;
  created_at = 1;
}

abbrev pub asked : QuestionRecord
asked = record {
  id = "q";
  project_id = "p";
  key = "Q1";
  title = "Yield";
  state = QuestionState.pending;
  problem_artifact_id = "a1";
  revision = 0;
  failure_reason = none;
  created_at = 2;
  updated_at = 2;
  version = 1;
  lease_owner = none;
  lease_expires_at = none;
}

abbrev with_project : Database
with_project = (create_project library 1 (stamp "e1") "p" "Contest" empty).1

abbrev with_question : Database
with_question = (create_question library 2 (stamp "e2") "q" "p" "Q1" "Yield" problem with_project).1

abbrev with_lease : Database
with_lease = (acquire_question_lease library 3 3 (stamp "e3") "q" "w1" 10 with_question).1

abbrev pub leased : QuestionRecord
leased = record asked { lease_owner = some "w1"; lease_expires_at = some 10_000_003 }

lease_taken :
    acquire_question_lease library 3 3 (stamp "e3") "q" "w1" 10 with_question
    ≡ (ok leased, with_lease)
unfolding acquire_question_lease then_question get_question transaction append_event update_by_id
    ◌>>=◌ create_project create_question insert_artifact insert_question text_of value_of is_blank
    is_space text_length strip strip_start strip_end
lease_taken = refl

abbrev with_transition : Database
with_transition =
    (transition library 4 (stamp "e4") "q" "w1" (QuestionState.pending ∷ []) QuestionState.modeling
      none none with_lease).1

abbrev pub modelled : QuestionRecord
modelled = record leased { state = QuestionState.modeling; updated_at = 4; version = 2 }

transition_made :
    transition library 4
      (stamp "e4")
      "q"
      "w1"
      (QuestionState.pending ∷ [])
      QuestionState.modeling
      none
      none
      with_lease
    ≡ (ok modelled, with_transition)
unfolding transition write_transition acquire_question_lease then_question get_question transaction
    append_event update_by_id ◌>>=◌ create_project create_question insert_artifact insert_question
    text_of value_of is_blank is_space text_length strip strip_start strip_end
transition_made = refl

transition_twice :
    transition library 5
      (stamp "e5")
      "q"
      "w1"
      (QuestionState.pending ∷ [])
      QuestionState.modeling
      none
      none
      with_transition
    ≡ (err invalid_transition, with_transition)
unfolding transition write_transition acquire_question_lease then_question get_question transaction
    append_event update_by_id ◌>>=◌ create_project create_question insert_artifact insert_question
    text_of value_of is_blank is_space text_length strip strip_start strip_end
transition_twice = refl

abbrev with_activity : Database
with_activity =
    (get_or_create_activity library 5 (stamp "e5") "v" modelled StageKind.modeling
      with_transition).1

abbrev with_claim : Database
with_claim = (claim_activity library 6 6 (stamp "e6") "v" "w1" 10 3 null with_activity).1

-- the model of the activity, with one claim
abbrev pub model_file : ArtifactRecord
model_file = record problem {
  id = "a2";
  question_id = some "q";
  activity_id = some "v";
  kind = ArtifactKind.modeling_report;
}

abbrev pub model_result : Fields
model_result =
    field "output"
      (object (
        field "report" (object (field "claims" (array (item (string "The yield is 3.") nil)) end))
          end))
      end

-- the first run ends with the result
abbrev with_end : Database
with_end =
    (complete_activity library 7 (stamp "e7") (λ i. "c") "v" "w1" model_result (model_file ∷ [])
      (some 1) with_claim).1

pub others_differ : ◌≢◌ {A = String} "w1" "w2"
others_differ e = absurd (ground (arith, (eq_iff "w1" "w2").1 e))

abbrev pub created : Activity String
created = record {
  id = "v";
  project_id = "p";
  question_id = "q";
  stage = StageKind.modeling;
  revision = 0;
  idempotency_key = "m2h:q:modeling:r0";
  status = ActivityStatus.pending;
  attempt_count = 0;
  request_json = none;
  result_json = none;
  error = none;
  worker_id = none;
  lease_expires_at = none;
  created_at = 5;
  updated_at = 5;
}

run-IsReached : IsReached library with_end
run-IsReached =
    activity_completed 7 (stamp "e7") (λ i. "c") "v" "w1" model_result (model_file ∷ []) (some 1)
      with_claim
      (activity_claimed 6 6 (stamp "e6") "v" "w1" 10 3 null with_activity (
        activity_created 5 (stamp "e5") "v" modelled StageKind.modeling with_transition (
          transitioned 4 (stamp "e4") "q" "w1" (QuestionState.pending ∷ []) QuestionState.modeling
            none none with_lease
            (lease_acquired 3 3 (stamp "e3") "q" "w1" 10 with_question (
              question_created 2 (stamp "e2") "q" "p" "Q1" "Yield" problem with_project
                (project_created 1 (stamp "e1") "p" "Contest" empty initialized))))))

reached-verified_example : verify_event_chain library with_end ≡ ok (length with_end.events)
reached-verified_example =
    reached-verified library with_end
      (λ event_id project question activity event_type payload at previous.
        ap
          (λ (p : Json).
            text_of (envelope_of event_id project question activity event_type p at previous))
          (value_of-text_of payload))
      run-IsReached

reached-cited_example : (n : ℕ) × (verify_claim_evidence library "q" with_end ≡ ok n)
reached-cited_example =
    reached-cited library "q" with_end (λ ids. value_of-text_of (array (items_of ids)))
      run-IsReached

acquire_question_lease-exclusive_example :
    (acquire_question_lease library 4 4 (stamp "e4") "q" "w2" 10 with_lease
      ≡ (err leased_by, with_lease))
    × (renew_question_lease library 4 4 "q" "w2" 10 with_lease ≡ (err lease_lost, with_lease))
    × (transition library 4
          (stamp "e4")
          "q"
          "w2"
          (QuestionState.pending ∷ [])
          QuestionState.modeling
          none
          none
          with_lease
        ≡ (err lease_lost, with_lease))
acquire_question_lease-exclusive_example =
    acquire_question_lease-exclusive library 3 3 (stamp "e3") "q" "w1" 10 with_question with_lease
      leased 4 (stamp "e4") "w2" 4 10 (QuestionState.pending ∷ []) QuestionState.modeling none none
      lease_taken others_differ (ground arith)

transition-moves_example :
    (old : QuestionRecord) × (question_of "q" with_lease ≡ some old)
    × (owns "w1" 4 old ≡ true)
    × (any (is_state old.state) (QuestionState.pending ∷ []) ≡ true)
    × (question_of "q" with_transition
        ≡ some (record old {
          state = QuestionState.modeling;
          revision = next_revision library none old;
          failure_reason = none;
          updated_at = 4;
          version = suc old.version;
        }))
transition-moves_example =
    transition-moves library 4 (stamp "e4") "q" "w1" (QuestionState.pending ∷ [])
      QuestionState.modeling none none with_lease with_transition modelled transition_made

transition-raises_example :
    (with_transition ≡ with_transition)
    × ((refusal 5 "q" "w1" (QuestionState.pending ∷ []) with_transition ≡ some invalid_transition)
        ⊎ ((refusal 5 "q" "w1" (QuestionState.pending ∷ []) with_transition ≡ none)
            × (invalid_transition ≡ integrity_error)))
transition-raises_example =
    transition-raises library 5 (stamp "e5") "q" "w1" (QuestionState.pending ∷ [])
      QuestionState.modeling none none with_transition with_transition invalid_transition
      transition_twice
