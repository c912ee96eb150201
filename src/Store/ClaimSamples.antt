-- ===== src/Store/ClaimSamples.antt =====
-- A waiting activity that one worker claims and completes, and another tries to.
use mm_harness.Prelude.{
  suc, ◌≤◌, String, true, false, ◌&&◌, none, some, [], ◌∷◌, ◌≡◌, refl, arith, ◌⊎◌, text_length,
  is_blank, is_space, strip, strip_start, strip_end,
}
use mm_harness.Errors.{ok, err, lease_lost, leased_by}
use mm_harness.Json.{null, object}
use mm_harness.Store.Models.{ActivityStatus, Activity, Database}
use mm_harness.Store.Texts.{text_of, value_of}
use mm_harness.Store.Events.{◌>>=◌, transaction, update_by_id, append_event}
use mm_harness.Store.Questions.{
  is_live, insert_artifact, insert_question, get_question, create_project, create_question,
}
use mm_harness.Store.Leases.{then_question, acquire_question_lease, write_transition, transition}
use mm_harness.Store.Activities.{
  activity_of, is_running, is_succeeded, load_activity, insert_activity, get_or_create_activity,
  claim_activity, complete_activity, fail_activity,
}
use mm_harness.Store.Runs.{empty}
use mm_harness.Store.Claims.{claimed, claim_activity-claims, claim_activity-exclusive}
use mm_harness.Store.Samples.{
  library, stamp, modelled, model_file, model_result, others_differ, created,
}

abbrev running_row : Activity String
running_row = record created {
  status = ActivityStatus.running;
  attempt_count = 1;
  request_json = some (text_of null);
  worker_id = some "w1";
  lease_expires_at = some 10_000_006;
  updated_at = 6;
}

-- a database with the activity, before its claim and after it
abbrev waiting : Database
waiting = record empty {
  projects =
      record { id = "p"; name = "Contest"; created_at = 1; updated_at = 1; version = 1 } ∷ [];
  questions = modelled ∷ [];
  activities = created ∷ [];
}

abbrev working : Database
working = (claim_activity library 6 6 (stamp "e6") "v" "w1" 10 3 null waiting).1

abbrev held : Database
held = record waiting { activities = running_row ∷ [] }

claim_made :
    claim_activity library 6 6 (stamp "e6") "v" "w1" 10 3 null waiting
    ≡ (ok (load_activity library running_row), working)
unfolding claim_activity get_or_create_activity insert_activity transition write_transition
    acquire_question_lease then_question get_question transaction append_event update_by_id ◌>>=◌
    create_project create_question insert_artifact insert_question text_of value_of is_blank
    is_space text_length strip strip_start strip_end
claim_made = refl

activity_found : activity_of "v" waiting ≡ some created
unfolding claim_activity get_or_create_activity insert_activity transition write_transition
    acquire_question_lease then_question get_question transaction append_event update_by_id ◌>>=◌
    create_project create_question insert_artifact insert_question text_of value_of is_blank
    is_space text_length strip strip_start strip_end
activity_found = refl

abbrev with_result : Database
with_result =
    (complete_activity library 7 (stamp "e7") (λ i. "c") "v" "w1" model_result (model_file ∷ [])
      (some 1) held).1

abbrev finished_row : Activity String
finished_row = record running_row {
  status = ActivityStatus.succeeded;
  result_json = some (text_of (object model_result));
  worker_id = none;
  lease_expires_at = none;
  updated_at = 7;
}

claim_activity-claims_example :
    (old : Activity String) × (activity_of "v" waiting ≡ some old)
    × (((is_succeeded old ≡ true)
          × (working ≡ waiting)
          × (load_activity library running_row ≡ load_activity library old))
        ⊎ ((is_succeeded old ≡ false)
            × ((is_running old && is_live 6 old.lease_expires_at) ≡ false)
            × (suc old.attempt_count ≤ 3)
            × (activity_of "v" working
                ≡ some (
                    claimed library 6 6
                      (stamp "e6")
                      "v"
                      "w1"
                      10
                      3
                      null
                      waiting
                      working
                      (load_activity library running_row)
                      old))
            × (load_activity library running_row
                ≡ load_activity library (
                    claimed library 6 6
                      (stamp "e6")
                      "v"
                      "w1"
                      10
                      3
                      null
                      waiting
                      working
                      (load_activity library running_row)
                      old))))
claim_activity-claims_example =
    claim_activity-claims library 6 6 (stamp "e6") "v" "w1" 10 3 null waiting working
      (load_activity library running_row) claim_made

claim_activity-exclusive_example :
    (claim_activity library 7 7 (stamp "e7") "v" "w1" 10 3 null working ≡ (err leased_by, working))
    × (complete_activity library 7 (stamp "e7") (λ i. "c") "v" "w2" model_result [] (some 1) working
        ≡ (err lease_lost, working))
    × (fail_activity library 7 (stamp "e7") "v" "w2" "late" (some 1) working
        ≡ (err lease_lost, working))
claim_activity-exclusive_example =
    claim_activity-exclusive library 6 6 (stamp "e6") "v" "w1" 10 3 null waiting working
      (load_activity library running_row) created 7 (stamp "e7") 7 "w1" "w2" 10 3 null (λ i. "c")
      model_result [] "late" (some 1) claim_made activity_found refl others_differ (ground arith)
