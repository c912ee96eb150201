-- ===== src/Workflow.antt =====
-- workflow.py: the stages of a question, over the durable store. Reading a stored result as an `ActivityResponse`
-- is pydantic's, and a parameter.
pub mod Steps
pub mod Evidence
pub mod Moves
pub mod Runs
pub mod Leased
pub mod Samples
use Prim.Native.String.{◌++◌ as concat}
use mm_harness.Prelude.{
  ℕ, suc, String, Bool, true, false, not, ◌&&◌, ◌||◌, Option, none, some, List, [], ◌∷◌, ◌++◌, any,
  all, find, select, map, ltb, leb, join, ◌==◌, nat_eq, string_eq, if◌then◌else◌,
}
use mathlib.Core.List.{reverse}
use mm_harness.Errors.{Error, Result, ok, err, conflict}
use mm_harness.Json.{Json, Fields, string, object, end, get}
use mm_harness.Reports.{ArtifactKind, ReportPayload, ProducedArtifact}
use mm_harness.Store.Models.{
  QuestionState, StageKind, is_stage, ActivityStatus, is_status, QuestionRecord, Activity,
  ActivityRecord, Database, Library, Stamp, Artifact, kind_text,
}
use mm_harness.Store.Events.{◌>>=◌}
use mm_harness.Store.Leases.{transition}
use mm_harness.Store.Activities.{load_activity}

pub data ReviewVerdict : Type 0 where
  approve revision_required : ReviewVerdict

pub record ModelingStageOutput : Type 0 where
  pub report : ReportPayload
  pub required_validations : List String
  pub expected_outputs : List String
  pub downstream_outputs : List String
  pub artifacts : List ProducedArtifact

pub record CodingStageOutput : Type 0 where
  pub report : ReportPayload
  pub execution_succeeded : Bool
  pub validations : List (String × Bool)
  pub metrics : Fields
  pub artifacts : List ProducedArtifact

pub record ReviewStageOutput : Type 0 where
  pub report : ReportPayload
  pub verdict : ReviewVerdict
  pub revision_instructions : List String
  pub accepted_claims : List String
  pub artifacts : List ProducedArtifact

pub record FinalizeStageOutput : Type 0 where
  pub report : ReportPayload
  pub downstream_outputs : Fields
  pub artifacts : List ProducedArtifact

pub data StageOutput : Type 0 where
  modeling : ModelingStageOutput → StageOutput
  coding : CodingStageOutput → StageOutput
  review : ReviewStageOutput → StageOutput
  finalize : FinalizeStageOutput → StageOutput

pub record ActivityResponse : Type 0 where
  pub idempotency_key : String
  pub output : StageOutput
  pub executor_metadata : Fields

-- the settings that the stages read, pydantic's reading of a stored result, and the text of a number
pub record Settings : Type 0 where
  pub max_revisions : ℕ
  pub response_of : Json → Result ActivityResponse

-- ORDER BY created_at
unfoldable pub insert_by_creation :
    Activity String → List (Activity String) → List (Activity String)
insert_by_creation a [] = a ∷ []
insert_by_creation a (b ∷ rows) =
    let rest = insert_by_creation a rows in
    if leb a.created_at b.created_at then a ∷ b ∷ rows else b ∷ rest

unfoldable pub by_creation : List (Activity String) → List (Activity String)
unfolding insert_by_creation
by_creation [] = []
by_creation (a ∷ rows) = insert_by_creation a (by_creation rows)

-- store.list_activities
unfoldable pub list_activities : Library → String → Database → List ActivityRecord
list_activities lib question db =
    map (load_activity lib) (by_creation (select (λ a. a.question_id == question) db.activities))

-- a committed activity of a stage
abbrev pub has_succeeded : StageKind → ActivityRecord → Bool
has_succeeded stage a = is_stage a.stage stage && is_status a.status ActivityStatus.succeeded

-- a result that is there and is no empty dictionary
abbrev pub result_of : Option ActivityRecord → Option Json
result_of none = none
result_of (some a) = elim a.result_json [
  | none ↦ none
  | some j ↦ elim j [ object end ↦ none | other ↦ some other ]
]

-- value == text
abbrev pub is_value : String → Option Json → Bool
is_value s (some (string t)) = t == s
is_value s _ = false

-- validations.get(name) is True
unfoldable pub is_validated : List (String × Bool) → String → Bool
is_validated [] name = false
is_validated ((key, passed) ∷ rest) name =
    let later = is_validated rest name in if key == name then passed else later

-- what speaks against an approval, given the outputs of the two stages
unfoldable pub output_error : ModelingStageOutput → CodingStageOutput → Fields → Option String
unfolding is_validated get
output_error model code metadata =
    let backend = get "execution_backend" metadata in
    let failed =
      select (λ name. not (is_validated code.validations name)) model.required_validations in
    if is_value "qwen" (get "provider" metadata) && not (is_value "local-sandbox" backend)
    then some "review approval requires local Sandbox evidence for Qwen coding output"
    else if is_value "remote-code-interpreter" backend
    then some
        "review approval requires local Sandbox evidence; remote code interpreter output is preliminary only"
    else if not code.execution_succeeded
    then some "review approved an unsuccessful execution"
    else elim failed [
      | [] ↦ none
      | name ∷ names ↦
          some (concat "review approved missing or failed validations: " (join ", " (name ∷ names)))
    ]

-- what speaks against it, given the two responses
unfoldable pub response_error : ActivityResponse → ActivityResponse → Option String
unfolding output_error
response_error m c = elim m.output [
  | modeling model ↦ elim c.output [
    | coding code ↦ output_error model code c.executor_metadata
    | _ ↦ some "review approval references incompatible evidence stages"
  ]
  | _ ↦ some "review approval references incompatible evidence stages"
]

module _ (lib : Library) (settings : Settings) where
  -- _approval_evidence_error
  unfoldable pub approval_evidence_error : QuestionRecord → Database → Result (Option String)
  approval_evidence_error question db =
      let activities = list_activities lib question.id db in
      let modeling_activity = find (has_succeeded StageKind.modeling) activities in
      let coding_activity =
        find (λ a. has_succeeded StageKind.coding a && a.revision == question.revision)
          (reverse activities) in
      elim (result_of modeling_activity) [
        | none ↦ ok (some "review approval lacks committed modeling or coding evidence")
        | some m ↦ elim (result_of coding_activity) [
          | none ↦ ok (some "review approval lacks committed modeling or coding evidence")
          | some c ↦ do
            model ← settings.response_of m
            code ← settings.response_of c
            ok (response_error model code)
        ]
      ]

  module _ (now : ℕ) (stamp : Stamp) (question : QuestionRecord) (worker : String) where
    -- a transition from one state, with the stage that follows
    abbrev pub move :
        QuestionState
        → QuestionState
        → Option ℕ
        → Option String
        → Database
        → Result QuestionRecord × Database
    move from to revision reason =
        transition lib now stamp question.id worker (from ∷ []) to revision reason

    unfoldable pub begin :
        StageKind
        → Result QuestionRecord × Database
        → Result (QuestionRecord × StageKind) × Database
    begin stage (err e, db) = (err e, db)
    begin stage (ok q, db) = (ok (q, stage), db)

    -- _enter_stage
    unfoldable pub enter_stage : Database → Result (QuestionRecord × StageKind) × Database
    unfolding begin
    enter_stage db = elim question.state [
      | QuestionState.pending ↦
          begin StageKind.modeling (move QuestionState.pending QuestionState.modeling none none db)
      | QuestionState.modeling ↦ (ok (question, StageKind.modeling), db)
      | QuestionState.ready_for_coding ↦
          begin StageKind.coding
            (move QuestionState.ready_for_coding QuestionState.coding none none db)
      | QuestionState.revision_required ↦
          begin StageKind.coding
            (move QuestionState.revision_required QuestionState.coding none none db)
      | QuestionState.coding ↦ (ok (question, StageKind.coding), db)
      | QuestionState.ready_for_review ↦
          begin StageKind.review
            (move QuestionState.ready_for_review QuestionState.reviewing none none db)
      | QuestionState.reviewing ↦ (ok (question, StageKind.review), db)
      | QuestionState.approved ↦
          begin StageKind.finalize
            (move QuestionState.approved QuestionState.finalizing none none db)
      | QuestionState.finalizing ↦ (ok (question, StageKind.finalize), db)
      | QuestionState.completed ↦ (err conflict, db)
      | QuestionState.failed ↦ (err conflict, db)
    ]

    -- a review's verdict
    unfoldable pub complete_review : ReviewVerdict → Database → Result QuestionRecord × Database
    unfolding approval_evidence_error
    complete_review revision_required db =
        let revision = suc question.revision in
        if ltb settings.max_revisions revision
        then move QuestionState.reviewing QuestionState.failed none
            (some (
              concat (concat "revision limit " (lib.number_text settings.max_revisions))
                " exhausted"))
            db
        else move QuestionState.reviewing QuestionState.revision_required (some revision) none db
    complete_review approve db = elim (approval_evidence_error question db) [
      | err e ↦ (err e, db)
      | ok none ↦ move QuestionState.reviewing QuestionState.approved none none db
      | ok (some reason) ↦ move QuestionState.reviewing QuestionState.failed none (some reason) db
    ]

    -- _complete_stage
    unfoldable pub complete_stage : ActivityResponse → Database → Result QuestionRecord × Database
    unfolding complete_review
    complete_stage response db = elim response.output [
      | modeling o ↦ move QuestionState.modeling QuestionState.ready_for_coding none none db
      | coding o ↦ move QuestionState.coding QuestionState.ready_for_review none none db
      | review o ↦ complete_review o.verdict db
      | finalize o ↦ move QuestionState.finalizing QuestionState.completed none none db
    ]
