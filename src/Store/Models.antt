-- ===== src/Store/Models.antt =====
-- models.py: the records of the durable store, and the rows that store.py keeps of them. An id is the
-- text of its UUID; a time is a number of microseconds, whose ISO text is compared as the number is.
use mm_harness.Prelude.{ℕ, String, Bool, Option, List, ◌==◌, string_eq}
use mm_harness.Json.{Json}
use mm_harness.Reports.{ArtifactKind}

pub data QuestionState : Type 0 where
  pending modeling ready_for_coding coding ready_for_review reviewing : QuestionState
  revision_required approved finalizing completed failed : QuestionState

pub data StageKind : Type 0 where
  modeling coding review finalize : StageKind

pub data ActivityStatus : Type 0 where
  pending running succeeded failed : ActivityStatus

abbrev pub state_text : QuestionState → String
state_text QuestionState.pending = "pending"
state_text QuestionState.modeling = "modeling"
state_text QuestionState.ready_for_coding = "ready_for_coding"
state_text QuestionState.coding = "coding"
state_text QuestionState.ready_for_review = "ready_for_review"
state_text QuestionState.reviewing = "reviewing"
state_text QuestionState.revision_required = "revision_required"
state_text QuestionState.approved = "approved"
state_text QuestionState.finalizing = "finalizing"
state_text QuestionState.completed = "completed"
state_text QuestionState.failed = "failed"

abbrev pub stage_text : StageKind → String
stage_text StageKind.modeling = "modeling"
stage_text StageKind.coding = "coding"
stage_text StageKind.review = "review"
stage_text StageKind.finalize = "finalize"

abbrev pub status_text : ActivityStatus → String
status_text ActivityStatus.pending = "pending"
status_text ActivityStatus.running = "running"
status_text ActivityStatus.succeeded = "succeeded"
status_text ActivityStatus.failed = "failed"

abbrev pub kind_text : ArtifactKind → String
kind_text ArtifactKind.problem = "problem"
kind_text ArtifactKind.dag_task_table = "dag_task_table"
kind_text ArtifactKind.input = "input"
kind_text ArtifactKind.modeling_report = "modeling_report"
kind_text ArtifactKind.coding_report = "coding_report"
kind_text ArtifactKind.review_report = "review_report"
kind_text ArtifactKind.final_question_report = "final_question_report"
kind_text ArtifactKind.final_latex_paper = "final_latex_paper"
kind_text ArtifactKind.source = "source"
kind_text ArtifactKind.data_file = "data"
kind_text ArtifactKind.figure = "figure"
kind_text ArtifactKind.output = "output"
kind_text ArtifactKind.log = "log"
kind_text ArtifactKind.other = "other"

-- a member of a `StrEnum` equals another one just if their texts are equal
abbrev pub is_state : QuestionState → QuestionState → Bool
is_state s t = state_text s == state_text t

abbrev pub is_stage : StageKind → StageKind → Bool
is_stage s t = stage_text s == stage_text t

abbrev pub is_status : ActivityStatus → ActivityStatus → Bool
is_status s t = status_text s == status_text t

pub record ProjectRecord : Type 0 where
  pub id : String
  pub name : String
  pub created_at : ℕ
  pub updated_at : ℕ
  pub version : ℕ

pub record QuestionRecord : Type 0 where
  pub id : String
  pub project_id : String
  pub key : String
  pub title : String
  pub state : QuestionState
  pub problem_artifact_id : String
  pub revision : ℕ
  pub failure_reason : Option String
  pub created_at : ℕ
  pub updated_at : ℕ
  pub version : ℕ
  pub lease_owner : Option String
  pub lease_expires_at : Option ℕ

-- A row keeps the text of the metadata, a record the metadata themselves.
pub record Artifact (J : Type 0) : Type 0 where
  pub id : String
  pub project_id : String
  pub question_id : Option String
  pub activity_id : Option String
  pub kind : ArtifactKind
  pub logical_name : String
  pub media_type : String
  pub sha256 : String
  pub size_bytes : ℕ
  pub relative_path : String
  pub metadata : J
  pub created_at : ℕ

abbrev pub ArtifactRecord : Type 0
ArtifactRecord = Artifact Json

-- A row keeps the texts of the request and of the result.
pub record Activity (J : Type 0) : Type 0 where
  pub id : String
  pub project_id : String
  pub question_id : String
  pub stage : StageKind
  pub revision : ℕ
  pub idempotency_key : String
  pub status : ActivityStatus
  pub attempt_count : ℕ
  pub request_json : Option J
  pub result_json : Option J
  pub error : Option String
  pub worker_id : Option String
  pub lease_expires_at : Option ℕ
  pub created_at : ℕ
  pub updated_at : ℕ

abbrev pub ActivityRecord : Type 0
ActivityRecord = Activity Json

-- a row of events; its `seq` is its place in the table
pub record EventRow : Type 0 where
  pub event_id : String
  pub project_id : String
  pub question_id : Option String
  pub activity_id : Option String
  pub event_type : String
  pub payload : String
  pub occurred_at : String
  pub previous_hash : String
  pub event_hash : String

-- A row keeps the text of the list of ids.
pub record Claim (J : Type 0) : Type 0 where
  pub id : String
  pub project_id : String
  pub question_id : String
  pub activity_id : String
  pub revision : ℕ
  pub claim_index : ℕ
  pub claim : String
  pub evidence_artifact_ids : J
  pub created_at : ℕ

abbrev pub ClaimEvidenceRecord : Type 0
ClaimEvidenceRecord = Claim (List String)

-- the tables, each in the order of insertion
pub record Database : Type 0 where
  pub projects : List ProjectRecord
  pub artifacts : List (Artifact String)
  pub questions : List QuestionRecord
  pub activities : List (Activity String)
  pub claims : List (Claim String)
  pub events : List EventRow

-- What the store calls: the digest, the JSON library, the ISO text of a time, the text of a number.
pub record Library : Type 0 where
  pub digest : String → String
  pub json_text : Json → String
  pub loads : String → Json
  pub iso : ℕ → String
  pub number_text : ℕ → String

-- the id and the time of the next event
pub record Stamp : Type 0 where
  pub event_id : String
  pub occurred_at : ℕ
