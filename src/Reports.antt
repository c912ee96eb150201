-- ===== src/Reports.antt =====
-- models.py, domain/solve_problem.py and report_store.py: the reports and files that the Main Harness
-- receives, keeps and publishes. Identifiers (UUID) and times are numbers.
use mm_harness.Prelude.{ℕ, String, Bool, true, false, Option, List}
use mm_harness.Json.{Json, Fields}

pub data ArtifactKind : Type 0 where
  problem dag_task_table input modeling_report coding_report review_report : ArtifactKind
  final_question_report final_latex_paper source data_file figure output log other : ArtifactKind

abbrev pub is_latex_kind : ArtifactKind → Bool
is_latex_kind final_latex_paper = true
is_latex_kind _ = false

pub record ProducedArtifact : Type 0 where
  pub logical_name : String
  pub kind : ArtifactKind
  pub media_type : String
  pub text : Option String
  pub base64 : Option String
  pub metadata : Fields

pub data ReadOnlyFileRole : Type 0 where
  problem_file input_file dependency_solution dependency_output generated reference :
      ReadOnlyFileRole

abbrev pub is_solve_file : ReadOnlyFileRole → Bool
is_solve_file dependency_solution = true
is_solve_file dependency_output = true
is_solve_file generated = true
is_solve_file _ = false

pub record ReportFileRecord : Type 0 where
  pub relative_path : String
  pub purpose : String
  pub role : ReadOnlyFileRole
  pub task_id : String
  pub attempt : ℕ
  pub iteration : Option ℕ
  pub media_type : String
  pub sha256 : String
  pub size_bytes : ℕ

pub record ReadOnlyFileReference : Type 0 where
  pub relative_path : String
  pub purpose : String
  pub role : ReadOnlyFileRole
  pub owner_task_id : Option String
  pub media_type : String
  pub sha256 : Option String
  pub size_bytes : Option ℕ

unfoldable pub as_readonly : ReportFileRecord → ReadOnlyFileReference
as_readonly f = record {
  relative_path = f.relative_path;
  purpose = f.purpose;
  role = f.role;
  owner_task_id = Option.some f.task_id;
  media_type = f.media_type;
  sha256 = Option.some f.sha256;
  size_bytes = Option.some f.size_bytes;
}

-- The last two fields are not declared by `ReportPayload`: `dispatch` attaches them by `model_copy`.
pub record ReportPayload : Type 0 where
  pub title : String
  pub markdown : String
  pub summary : String
  pub claims : List String
  pub limitations : List String
  pub structured : Fields
  pub solution_report_path : Option String
  pub solve_files : List ReadOnlyFileReference

pub data SolveProblemStatus : Type 0 where
  completed revision_required blocked failed : SolveProblemStatus

-- ExplorationMaterial; a `confidence` is a float, and is kept as its JSON value
pub record ExplorationMaterial : Type 0 where
  pub branch_id : String
  pub report : ReportPayload
  pub candidate_scheme : String
  pub assumptions : List String
  pub required_validations : List String
  pub expected_outputs : List String
  pub expected_figures : List String
  pub coding_instructions : List String
  pub risks : List String
  pub confidence : Option Json
  pub requested_file_paths : List String

-- PreliminaryModelingReport: the fields of a route, and `exploration_summary`
pub record PreliminaryModelingReport : Type 0 where
  pub route : ExplorationMaterial
  pub exploration_summary : Option ReportPayload

pub record UnifiedModelingReport : Type 0 where
  pub report : ReportPayload
  pub selected_branch_ids : List String
  pub main_scheme : String
  pub required_validations : List String
  pub expected_outputs : List String
  pub expected_figures : List String
  pub coding_instructions : List String
  pub rejected_branch_reasons : Fields

pub record CodingHarnessReport : Type 0 where
  pub report : ReportPayload
  pub execution_succeeded : Bool
  pub validations : Fields
  pub validation_evidence : Fields
  pub metrics : Fields
  pub deviations : List String
  pub issues : List String
  pub artifacts : List ProducedArtifact
  pub generated_files : List ReadOnlyFileReference

pub data ModelReviewDecision : Type 0 where
  approve revise reject : ModelReviewDecision

pub data RevisionTarget : Type 0 where
  code model full : RevisionTarget

pub record SolveProblemReview : Type 0 where
  pub decision : ModelReviewDecision
  pub rationale : String
  pub revision_instructions : List String
  pub accepted_claims : List String
  pub revision_target : RevisionTarget
  pub requested_file_paths : List String

pub record SolveProblemIteration : Type 0 where
  pub iteration : ℕ
  pub preliminary_reports : List PreliminaryModelingReport
  pub modeling_report : Option UnifiedModelingReport
  pub coding_report : CodingHarnessReport
  pub review : SolveProblemReview

pub record SolveProblemReport : Type 0 where
  pub task_id : String
  pub status : SolveProblemStatus
  pub iteration_count : ℕ
  pub iterations : List SolveProblemIteration
  pub final_report : Option ReportPayload
  pub revision_instructions : List String
  pub artifacts : List ProducedArtifact
  pub archive_files : List ReadOnlyFileReference
  pub research_report : Option Json
  pub error : Option String
