-- ===== src/Store/Runs.antt =====
-- The databases that the store's operations lead to, and what holds of each of them.
use mm_harness.Prelude.{ℕ, String, Option, List, [], ◌≡◌, refl, length}
use mm_harness.Errors.{ok}
use mm_harness.Json.{Json, Fields}
use mm_harness.Store.Models.{
  QuestionState, QuestionRecord, ArtifactRecord, StageKind, Database, Library, Stamp,
}
use mm_harness.Store.Events.{envelope_of, verify_event_chain}
use mm_harness.Store.Questions.{create_project, create_question, register_artifact}
use mm_harness.Store.Leases.{
  acquire_question_lease, renew_question_lease, release_question_lease, transition,
}
use mm_harness.Store.Activities.{
  get_or_create_activity, claim_activity, renew_activity_lease, complete_activity, fail_activity,
}
use mm_harness.Store.Keeps
use mm_harness.Store.Keeps.Activities
use mm_harness.Store.Keeps.{IsKept}
use mm_harness.Store.Chain.{IsChained, IsChained-IsKept}

-- the database that `initialize` makes
abbrev pub empty : Database
empty = record {
  projects = [];
  artifacts = [];
  questions = [];
  activities = [];
  claims = [];
  events = [];
}

-- What operations lead to, each with any arguments, in any order, whether it succeeds or raises.
pub data IsReached (lib : Library) : Database → Type 0 where
  initialized : IsReached lib empty
  project_created :
      (now : ℕ) (stamp : Stamp) (id name : String) (db : Database)
      → IsReached lib db
      → IsReached lib (create_project lib now stamp id name db).1
  question_created :
      (now : ℕ) (stamp : Stamp) (id project_id key title : String) (problem : ArtifactRecord)
      (db : Database)
      → IsReached lib db
      → IsReached lib (create_question lib now stamp id project_id key title problem db).1
  artifact_registered :
      (stamp : Stamp) (a : ArtifactRecord) (db : Database)
      → IsReached lib db
      → IsReached lib (register_artifact lib stamp a db).1
  lease_acquired :
      (now again : ℕ) (stamp : Stamp) (id worker : String) (seconds : ℕ) (db : Database)
      → IsReached lib db
      → IsReached lib (acquire_question_lease lib now again stamp id worker seconds db).1
  lease_renewed :
      (now again : ℕ) (id worker : String) (seconds : ℕ) (db : Database)
      → IsReached lib db
      → IsReached lib (renew_question_lease lib now again id worker seconds db).1
  lease_released :
      (stamp : Stamp) (id worker : String) (db : Database)
      → IsReached lib db
      → IsReached lib (release_question_lease lib stamp id worker db).1
  transitioned :
      (now : ℕ) (stamp : Stamp) (id worker : String) (expected : List QuestionState)
      (new_state : QuestionState) (revision : Option ℕ) (failure_reason : Option String)
      (db : Database)
      → IsReached lib db
      → IsReached lib
          (transition lib now stamp id worker expected new_state revision failure_reason db).1
  activity_created :
      (now : ℕ) (stamp : Stamp) (id : String) (q : QuestionRecord) (stage : StageKind)
      (db : Database)
      → IsReached lib db
      → IsReached lib (get_or_create_activity lib now stamp id q stage db).1
  activity_claimed :
      (now again : ℕ) (stamp : Stamp) (id worker : String) (seconds max_attempts : ℕ)
      (request : Json) (db : Database)
      → IsReached lib db
      → IsReached lib
          (claim_activity lib now again stamp id worker seconds max_attempts request db).1
  activity_renewed :
      (now again : ℕ) (id worker : String) (seconds : ℕ) (attempt : Option ℕ) (db : Database)
      → IsReached lib db
      → IsReached lib (renew_activity_lease lib now again id worker seconds attempt db).1
  activity_completed :
      (now : ℕ) (stamp : Stamp) (claim_ids : ℕ → String) (id worker : String) (result : Fields)
      (added : List ArtifactRecord) (attempt : Option ℕ) (db : Database)
      → IsReached lib db
      → IsReached lib
          (complete_activity lib now stamp claim_ids id worker result added attempt db).1
  activity_failed :
      (now : ℕ) (stamp : Stamp) (id worker error : String) (attempt : Option ℕ) (db : Database)
      → IsReached lib db
      → IsReached lib (fail_activity lib now stamp id worker error attempt db).1

module _ (lib : Library) (P : Database → Type 0) (kept : IsKept lib P) (first : P empty) where
  pub reached-keeps : (db : Database) → IsReached lib db → P db
  reached-keeps _ initialized = first
  reached-keeps _ (project_created now stamp id name db r) =
      Keeps.create_project-keeps lib P kept now stamp id name db (reached-keeps db r)
  reached-keeps _ (question_created now stamp id project_id key title problem db r) =
      Keeps.create_question-keeps lib P kept now stamp id project_id key title problem db
        (reached-keeps db r)
  reached-keeps _ (artifact_registered stamp a db r) =
      Keeps.register_artifact-keeps lib P kept stamp a db (reached-keeps db r)
  reached-keeps _ (lease_acquired now again stamp id worker seconds db r) =
      Keeps.acquire_question_lease-keeps lib P kept now again stamp id worker seconds db
        (reached-keeps db r)
  reached-keeps _ (lease_renewed now again id worker seconds db r) =
      Keeps.renew_question_lease-keeps lib P kept now again id worker seconds db
        (reached-keeps db r)
  reached-keeps _ (lease_released stamp id worker db r) =
      Keeps.release_question_lease-keeps lib P kept stamp id worker db (reached-keeps db r)
  reached-keeps _
        (transitioned now stamp id worker expected new_state revision failure_reason db r) =
      Keeps.transition-keeps lib P kept now stamp id worker expected new_state revision
        failure_reason db (reached-keeps db r)
  reached-keeps _ (activity_created now stamp id q stage db r) =
      Keeps.Activities.get_or_create_activity-keeps lib P kept now stamp id q stage db
        (reached-keeps db r)
  reached-keeps _ (activity_claimed now again stamp id worker seconds max_attempts request db r) =
      Keeps.Activities.claim_activity-keeps lib P kept now again stamp id worker seconds
        max_attempts request db (reached-keeps db r)
  reached-keeps _ (activity_renewed now again id worker seconds attempt db r) =
      Keeps.Activities.renew_activity_lease-keeps lib P kept now again id worker seconds attempt db
        (reached-keeps db r)
  reached-keeps _ (activity_completed now stamp claim_ids id worker result added attempt db r) =
      Keeps.Activities.complete_activity-keeps lib P kept now stamp claim_ids id worker result added
        attempt db (reached-keeps db r)
  reached-keeps _ (activity_failed now stamp id worker error attempt db r) =
      Keeps.Activities.fail_activity-keeps lib P kept now stamp id worker error attempt db
        (reached-keeps db r)

-- Every database that the store's operations lead to, whatever they are called with and whether they
-- succeed or raise, passes the verification of the event chain, which counts all its events, if the
-- JSON library writes an event alike with its payload and with what it reads of the payload's text.
pub reached-verified :
    (lib : Library) (db : Database)
    → ((event_id project : String) (question activity : Option String) (event_type : String)
          (payload : Json) (at previous : String)
        → lib.json_text (
            envelope_of event_id project question activity event_type
              (lib.loads (lib.json_text payload))
              at
              previous)
          ≡ lib.json_text
              (envelope_of event_id project question activity event_type payload at previous))
    → IsReached lib db
    → verify_event_chain lib db ≡ ok (length db.events)
unfolding verify_event_chain
reached-verified lib db reads r =
    rw (reached-keeps lib (IsChained lib) (IsChained-IsKept lib reads) refl db r) refl
