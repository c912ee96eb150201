-- ===== src/Solve/Ports.antt =====
-- application/solve_problem.py: the ports of `SolveProblemService`, and what a step of it ends in. A step reads and changes
-- the world `W` behind the ports: the agents, the archive, the probes and the operator's commands.
use mm_harness.Prelude.{ℕ, String, Option, none, some, List, Bool}
use mm_harness.Errors.{Error}
use mm_harness.Json.{Json, Fields}
use mm_harness.Reports.{
  ReportPayload, ReadOnlyFileReference, ReadOnlyFileRole, ExplorationMaterial,
  PreliminaryModelingReport, UnifiedModelingReport, CodingHarnessReport, SolveProblemReview,
}
use mm_harness.MainHarness.Disclosure.{SolveProblemContext, DisclosedTextFile}
use mm_harness.MainHarness.Task.{SolveProblemTask}

-- HumanInterruptRequested
pub record HumanInterrupt : Type 0 where
  pub iteration : Option ℕ
  pub reason : String
  pub context : Option SolveProblemContext

-- an exception: its class and its text, or an operator's interrupt
pub data Raised : Type 0 where
  error : Error → String → Raised
  interrupt : HumanInterrupt → Raised

-- str(exc)
abbrev pub text_of : Raised → String
text_of (error e text) = text
text_of (interrupt i) = i.reason

pub data Outcome {ℓ} (A : Type ℓ) : Type ℓ where
  returned : A → Outcome A
  raised : Raised → Outcome A

abbrev pub Run : Type 0 → Type 0 → Type 0
Run W A = W → Outcome A × W

module _ {W : Type 0} where
  abbrev pub pure : {A : Type 0} → A → Run W A
  pure a w = (returned a, w)

  abbrev pub raise : {A : Type 0} → Raised → Run W A
  raise e w = (raised e, w)

  unfoldable pub continue_with : {A B : Type 0} → (A → Run W B) → Outcome A × W → Outcome B × W
  continue_with later (returned a, w) = later a w
  continue_with later (raised e, w) = (raised e, w)

  -- one statement after another
  infixl 5 ◌>>=◌
  abbrev pub ◌>>=◌ : {A B : Type 0} → Run W A → (A → Run W B) → Run W B
  (first >>= later) w = continue_with later (first w)

  infixl 5 ◌>>◌
  abbrev pub ◌>>◌ : {B : Type 0} → Run W (Unit {0}) → Run W B → Run W B
  first >> later = first >>= λ u. later

  unfoldable pub handled : {A : Type 0} → (Raised → Run W A) → Outcome A × W → Outcome A × W
  handled handler (returned a, w) = (returned a, w)
  handled handler (raised e, w) = handler e w

  -- try: first, except Exception as exc: handler
  abbrev pub attempt : {A : Type 0} → Run W A → (Raised → Run W A) → Run W A
  attempt first handler w = handled handler (first w)

  -- if option is None: absent, else: present
  unfoldable pub provided : {A B : Type 0} → Option B → Run W A → (B → Run W A) → Run W A
  provided none absent present = absent
  provided (some b) absent present = present b

pub data ModelingContract : Type 0 where
  preliminary_contract : PreliminaryModelingReport → ModelingContract
  unified_contract : UnifiedModelingReport → ModelingContract

abbrev pub required_validations : ModelingContract → List String
required_validations (preliminary_contract p) = p.route.required_validations
required_validations (unified_contract u) = u.required_validations

abbrev pub expected_outputs : ModelingContract → List String
expected_outputs (preliminary_contract p) = p.route.expected_outputs
expected_outputs (unified_contract u) = u.expected_outputs

pub data ControlKind : Type 0 where
  suggestion interrupt_command : ControlKind

pub record HumanCommand : Type 0 where
  pub sequence : ℕ
  pub kind : ControlKind
  pub message : String

-- `ModelAgentPort`; the methods that `getattr` may not find are optional
pub record ModelAgentPort (W : Type 0) : Type 0 where
  pub explore : SolveProblemTask → SolveProblemContext → ℕ → ℕ → Run W (List ExplorationMaterial)
  pub summarize_exploration :
      Option (
        SolveProblemTask → SolveProblemContext → List ExplorationMaterial → ℕ → Run W ReportPayload)
  pub formulate_preliminary : Option (
      SolveProblemTask
      → SolveProblemContext
      → List ExplorationMaterial
      → ReportPayload
      → ℕ
      → Run W PreliminaryModelingReport)
  pub unify : Option (
      SolveProblemTask
      → SolveProblemContext
      → List PreliminaryModelingReport
      → CodingHarnessReport
      → SolveProblemReview
      → ℕ
      → Run W UnifiedModelingReport)
  pub synthesize :
      SolveProblemTask
      → SolveProblemContext
      → List PreliminaryModelingReport
      → ℕ
      → Run W UnifiedModelingReport
  pub review :
      SolveProblemTask
      → SolveProblemContext
      → ModelingContract
      → CodingHarnessReport
      → ℕ
      → Run W SolveProblemReview
  pub compose_final_report :
      SolveProblemTask
      → SolveProblemContext
      → UnifiedModelingReport
      → CodingHarnessReport
      → SolveProblemReview
      → ℕ
      → Run W ReportPayload

pub record HumanControl (W : Type 0) : Type 0 where
  pub publish_status :
      String → String → ℕ → Option ℕ → String → String → String → Fields → Run W (Unit {0})
  pub pending : String → ℕ → Run W (List HumanCommand)
  pub is_interrupted : String → Run W Bool

-- `SolveProblemArchivePort.archive_markdown`: run, task, attempt, iteration, stage, name, text, purpose, role
abbrev pub ArchivePort : Type 0 → Type 0
ArchivePort W =
    ℕ
    → String
    → ℕ
    → ℕ
    → String
    → String
    → String
    → String
    → ReadOnlyFileRole
    → Run W ReadOnlyFileReference

-- `SolveProblemProbePort.record_probe`: run, task, attempt, iteration, event, actor, status, details
abbrev pub ProbePort : Type 0 → Type 0
ProbePort W = ℕ → String → ℕ → Option ℕ → String → String → String → Fields → Run W (Unit {0})

-- the texts that are written for the agents; the loop never reads them
pub record Writers : Type 0 where
  pub preliminary_markdown : PreliminaryModelingReport → String
  pub modeling_markdown : UnifiedModelingReport → String
  pub disclosure_failure : SolveProblemTask → ℕ → List String → String → String
  pub model_to_code :
      SolveProblemTask → SolveProblemContext → List PreliminaryModelingReport → ℕ → ℕ → String
  pub code_to_model :
      SolveProblemTask
      → SolveProblemContext
      → ModelingContract
      → CodingHarnessReport
      → ℕ
      → ℕ
      → String
  pub model_to_code_revision :
      SolveProblemTask
      → SolveProblemContext
      → ModelingContract
      → CodingHarnessReport
      → SolveProblemReview
      → ℕ
      → ℕ
      → String
  pub pointer : SolveProblemContext → SolveProblemTask → ℕ → String → String → String

-- `int(x)` of a float, which is the text of its `repr`: the text of the number, if it is a finite one
pub data Truncated : Type 0 where
  whole : String → Truncated
  infinite not_a_number : Truncated

-- The fields of `SolveProblemService`, and what Python and Pydantic answer: `str` of a number and of
-- a value, `UUID(text)`, the text of `int(text)` where the text has a number, `int` of a float, and a serialized report.
pub record Service (W : Type 0) : Type 0 where
  pub model_agent : ModelAgentPort W
  pub code_harness :
      SolveProblemTask → SolveProblemContext → ModelingContract → ℕ → Run W CodingHarnessReport
  pub max_iterations : ℕ
  pub research_agent : Option (String → ℕ → ℕ → Run W Json)
  pub file_reader : Option (SolveProblemContext → List String → Run W (List DisclosedTextFile))
  pub archive_writer : Option (ArchivePort W)
  pub probe_writer : Option (ProbePort W)
  pub human_control : Option (HumanControl W)
  pub writers : Writers
  pub number_text : ℕ → String
  pub value_text : Json → String
  pub uuid_of : String → Option ℕ
  pub int_text : String → Option String
  pub truncated : String → Truncated
  pub read_modeling : Fields → Option UnifiedModelingReport
  pub read_preliminary : Fields → Option PreliminaryModelingReport
