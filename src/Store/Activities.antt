-- ===== src/Store/Activities.antt =====
-- store.py: activities, their claims, and what ends them.
use Prim.Native.String.{◌++◌ as concat}
use mm_harness.Prelude.{
  ℕ, suc, String, Bool, true, not, ◌||◌, ◌&&◌, Option, none, some, List, [], ◌∷◌, ◌++◌, any, map,
  find, leb, ◌==◌, nat_eq, string_eq, if◌then◌else◌, take_text,
}
use mm_harness.Errors.{
  Result, ok, err, not_found, conflict, leased_by, lease_lost, integrity_error, raise_if,
}
use mm_harness.Json.{Json, Fields, field, end, string, integer, pos, object, array}
use mm_harness.Tools.Audit.{items_of}
use mm_harness.Store.Models.{
  StageKind, stage_text, is_stage, ActivityStatus, is_status, QuestionRecord, ArtifactRecord,
  Activity, ActivityRecord, Database, Library, Stamp,
}
use mm_harness.Store.Events.{◌>>=◌, transaction, by_id, update_by_id, append_event}
use mm_harness.Store.Questions.{expiry, is_live, is_text, is_some, project_of, question_of}
use mm_harness.Store.Evidence.{claims_of, insert_artifacts, insert_claims}

abbrev pub activity_of : String → Database → Option (Activity String)
activity_of id db = by_id (λ a. a.id) id db.activities

-- UPDATE activities SET … WHERE id=?
abbrev pub update_activity : String → (Activity String → Activity String) → Database → Database
update_activity id change db = record db {
  activities = update_by_id (λ a. a.id) id change db.activities;
}

abbrev pub is_running : Activity String → Bool
is_running a = is_status a.status ActivityStatus.running

abbrev pub is_succeeded : Activity String → Bool
is_succeeded a = is_status a.status ActivityStatus.succeeded

-- attempt_count is None, or the row's
abbrev pub is_attempt : Option ℕ → Activity String → Bool
is_attempt none a = true
is_attempt (some n) a = a.attempt_count == n

-- the worker holds the activity: it runs, in this attempt, under a lease that is not over
abbrev pub holds : String → Option ℕ → ℕ → Activity String → Bool
holds worker attempt now a =
    is_text worker a.worker_id
    && (is_attempt attempt a && (is_running a && is_live now a.lease_expires_at))

-- the row for a stage and a revision
abbrev pub is_for : String → StageKind → ℕ → Activity String → Bool
is_for question stage revision a =
    a.question_id == question && (is_stage a.stage stage && a.revision == revision)

module _ (lib : Library) where
  open lib use {json_text, loads, iso, number_text}

  abbrev pub loaded : Option String → Option Json
  loaded none = none
  loaded (some s) = if s == "" then none else some (loads s)

  -- _activity
  abbrev pub load_activity : Activity String → ActivityRecord
  load_activity a = record {
    id = a.id;
    project_id = a.project_id;
    question_id = a.question_id;
    stage = a.stage;
    revision = a.revision;
    idempotency_key = a.idempotency_key;
    status = a.status;
    attempt_count = a.attempt_count;
    request_json = loaded a.request_json;
    result_json = loaded a.result_json;
    error = a.error;
    worker_id = a.worker_id;
    lease_expires_at = a.lease_expires_at;
    created_at = a.created_at;
    updated_at = a.updated_at;
  }

  -- the row of an activity that a statement has written
  abbrev pub written : String → Database → Result (ActivityRecord × Database)
  written id db = elim (activity_of id db) [
    | none ↦ err not_found
    | some a ↦ ok (load_activity a, db)
  ]

  -- the row's constraints: its id, its key, its stage and revision, its project and question
  unfoldable pub insert_activity : Activity String → Database → Result Database
  insert_activity a db =
      if any
          (λ r.
            r.id == a.id
            || (r.idempotency_key == a.idempotency_key
                || is_for a.question_id a.stage a.revision r))
          db.activities
        || (not (is_some (project_of a.project_id db))
            || not (is_some (question_of a.question_id db)))
      then err integrity_error
      else ok (record db { activities = db.activities ++ a ∷ [] })

  unfoldable pub get_or_create_activity :
      ℕ → Stamp → String → QuestionRecord → StageKind → Database → Result ActivityRecord × Database
  get_or_create_activity now stamp id q stage db =
      transaction
        (λ db. elim (find (is_for q.id stage q.revision) db.activities) [
          | some a ↦ ok (load_activity a, db)
          | none ↦ do
            let key =
                concat (concat "m2h:" q.id)
                  (concat (concat ":" (stage_text stage)) (concat ":r" (number_text q.revision)))
            with_activity ←
                insert_activity
                  (record {
                    id = id;
                    project_id = q.project_id;
                    question_id = q.id;
                    stage = stage;
                    revision = q.revision;
                    idempotency_key = key;
                    status = ActivityStatus.pending;
                    attempt_count = 0;
                    request_json = none;
                    result_json = none;
                    error = none;
                    worker_id = none;
                    lease_expires_at = none;
                    created_at = now;
                    updated_at = now;
                  })
                  db
            after ←
                append_event lib stamp q.project_id (some q.id) (some id) "activity.created"
                  (object (
                    field "stage" (string (stage_text stage)) (
                      field "revision" (integer (pos q.revision))
                        (field "idempotency_key" (string key) end))))
                  with_activity
            written id after
        ])
        db

  unfoldable pub claim_activity :
      ℕ → ℕ → Stamp → String → String → ℕ → ℕ → Json → Database → Result ActivityRecord × Database
  claim_activity now again stamp id worker seconds max_attempts request db =
      transaction
        (λ db. elim (activity_of id db) [
          | none ↦ err not_found
          | some a ↦ if is_succeeded a then ok (load_activity a, db) else do
            _ ← raise_if (is_running a && is_live now a.lease_expires_at) leased_by
            _ ← raise_if (leb max_attempts a.attempt_count) conflict
            after ←
                append_event lib stamp a.project_id (some a.question_id) (some id)
                  "activity.claimed"
                  (object (
                    field "worker_id" (string worker) (
                      field "attempt" (integer (pos (suc a.attempt_count)))
                        (field "expires_at" (string (iso (expiry again seconds))) end))))
                  (update_activity id
                    (λ r. record r {
                      status = ActivityStatus.running;
                      attempt_count = suc a.attempt_count;
                      request_json = some (json_text request);
                      error = none;
                      worker_id = some worker;
                      lease_expires_at = some (expiry again seconds);
                      updated_at = now;
                    })
                    db)
            written id after
        ])
        db

  unfoldable pub renew_activity_lease :
      ℕ → ℕ → String → String → ℕ → Option ℕ → Database → Result (Unit {0}) × Database
  renew_activity_lease now again id worker seconds attempt db =
      transaction
        (λ db. elim (activity_of id db) [
          | none ↦ err lease_lost
          | some a ↦ do
            _ ← raise_if (not (holds worker attempt now a)) lease_lost
            ok (
              tt,
              update_activity id (λ r. record r { lease_expires_at = some (expiry again seconds) })
                  db,
            )
        ])
        db

  -- `claim_ids` gives the fresh id of the claim with an index
  unfoldable pub complete_activity :
      ℕ
      → Stamp
      → (ℕ → String)
      → String
      → String
      → Fields
      → List ArtifactRecord
      → Option ℕ
      → Database
      → Result ActivityRecord × Database
  complete_activity now stamp claim_ids id worker result artifacts attempt db =
      transaction
        (λ db. elim (activity_of id db) [
          | none ↦ err not_found
          | some a ↦ if is_succeeded a then ok (load_activity a, db) else do
            _ ← raise_if (not (holds worker attempt now a)) lease_lost
            with_artifacts ← insert_artifacts lib id a.question_id artifacts db
            with_claims ←
                insert_claims lib now claim_ids a (map (λ r. r.id) artifacts) (claims_of result)
                  with_artifacts
            after ←
                append_event lib stamp a.project_id (some a.question_id) (some id)
                  "activity.succeeded"
                  (object (field "artifact_ids" (array (items_of (map (λ r. r.id) artifacts))) end))
                  (update_activity id
                    (λ r. record r {
                      status = ActivityStatus.succeeded;
                      result_json = some (json_text (object result));
                      worker_id = none;
                      lease_expires_at = none;
                      updated_at = now;
                    })
                    with_claims)
            written id after
        ])
        db

  unfoldable pub fail_activity :
      ℕ → Stamp → String → String → String → Option ℕ → Database → Result ActivityRecord × Database
  fail_activity now stamp id worker error attempt db =
      transaction
        (λ db. elim (activity_of id db) [
          | none ↦ err not_found
          | some a ↦ do
            _ ← raise_if (not (holds worker attempt now a)) lease_lost
            after ←
                append_event lib stamp a.project_id (some a.question_id) (some id) "activity.failed"
                  (object (field "error" (string (take_text 4_000 error)) end))
                  (update_activity id
                    (λ r. record r {
                      status = ActivityStatus.failed;
                      error = some (take_text 4_000 error);
                      worker_id = none;
                      lease_expires_at = none;
                      updated_at = now;
                    })
                    db)
            written id after
        ])
        db
