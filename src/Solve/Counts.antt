-- ===== src/Solve/Counts.antt =====
-- What a theorem on a solve asks of the ports of Solve/Ports.
use mm_harness.Errors.{Error}
use mm_harness.Prelude.{ℕ, String, Option, some, List, ◌≡◌, refl, nat_eq, arith}
use mm_harness.Json.{Json, Fields}
use mm_harness.Reports.{
  ReadOnlyFileRole, ExplorationMaterial, ReportPayload, PreliminaryModelingReport,
  CodingHarnessReport, SolveProblemReview, UnifiedModelingReport,
}
use mm_harness.MainHarness.Disclosure.{SolveProblemContext, DisclosedTextFile}
use mm_harness.MainHarness.Task.{SolveProblemTask}
use mm_harness.Solve.Ports.{
  Raised, error, interrupt, Outcome, returned, raised, Run, ModelingContract, HumanControl,
  ArchivePort, ProbePort, Service,
}
use mm_harness.Solve.Does.{Gives, Watch, Any, Does, Does-widen}

-- What is asked of the ports: the Code Agent's may count one call and no other counts, and each raises only what is
-- expected.
pub record Counts {W : Type 0} (service : Service W) (watch : Watch W) : Type 0 where
  pub code_harness :
      (task : SolveProblemTask) (context : SolveProblemContext) (modeling : ModelingContract)
      (i : ℕ)
      → Does watch 1 Any (service.code_harness task context modeling i)
  pub explore :
      (task : SolveProblemTask) (context : SolveProblemContext) (n i : ℕ)
      → Does watch 0 Any (service.model_agent.explore task context n i)
  pub summarize :
      (summarize : SolveProblemTask
        → SolveProblemContext
        → List ExplorationMaterial
        → ℕ
        → Run W ReportPayload)
      → service.model_agent.summarize_exploration ≡ some summarize
      → (task : SolveProblemTask) (context : SolveProblemContext)
        (routes : List ExplorationMaterial) (i : ℕ)
      → Does watch 0 Any (summarize task context routes i)
  pub formulate :
      (formulate : SolveProblemTask
        → SolveProblemContext
        → List ExplorationMaterial
        → ReportPayload
        → ℕ
        → Run W PreliminaryModelingReport)
      → service.model_agent.formulate_preliminary ≡ some formulate
      → (task : SolveProblemTask) (context : SolveProblemContext)
        (routes : List ExplorationMaterial) (summary : ReportPayload) (i : ℕ)
      → Does watch 0 Any (formulate task context routes summary i)
  pub unify :
      (unify : SolveProblemTask
        → SolveProblemContext
        → List PreliminaryModelingReport
        → CodingHarnessReport
        → SolveProblemReview
        → ℕ
        → Run W UnifiedModelingReport)
      → service.model_agent.unify ≡ some unify
      → (task : SolveProblemTask) (context : SolveProblemContext)
        (preliminary : List PreliminaryModelingReport) (coding : CodingHarnessReport)
        (review : SolveProblemReview) (i : ℕ)
      → Does watch 0 Any (unify task context preliminary coding review i)
  pub synthesize :
      (task : SolveProblemTask) (context : SolveProblemContext)
      (preliminary : List PreliminaryModelingReport) (i : ℕ)
      → Does watch 0 Any (service.model_agent.synthesize task context preliminary i)
  pub review :
      (task : SolveProblemTask) (context : SolveProblemContext) (modeling : ModelingContract)
      (coding : CodingHarnessReport) (i : ℕ)
      → Does watch 0 Any (service.model_agent.review task context modeling coding i)
  pub compose_final_report :
      (task : SolveProblemTask) (context : SolveProblemContext) (model : UnifiedModelingReport)
      (coding : CodingHarnessReport) (review : SolveProblemReview) (i : ℕ)
      → Does watch 0 Any
          (service.model_agent.compose_final_report task context model coding review i)
  pub research :
      (search : String → ℕ → ℕ → Run W Json)
      → service.research_agent ≡ some search
      → (query : String) (facets top : ℕ) → Does watch 0 Any (search query facets top)
  pub disclose :
      (read : SolveProblemContext → List String → Run W (List DisclosedTextFile))
      → service.file_reader ≡ some read
      → (context : SolveProblemContext) (paths : List String)
      → Does watch 0 Any (read context paths)
  pub archive_markdown :
      (write : ArchivePort W)
      → service.archive_writer ≡ some write
      → (run : ℕ) (task : String) (attempt i : ℕ) (stage name markdown purpose : String)
        (role : ReadOnlyFileRole)
      → Does watch 0 Any (write run task attempt i stage name markdown purpose role)
  pub record_probe :
      (write : ProbePort W)
      → service.probe_writer ≡ some write
      → (run : ℕ) (task : String) (attempt : ℕ) (i : Option ℕ) (event actor status : String)
        (details : Fields)
      → Does watch 0 Any (write run task attempt i event actor status details)
  pub control :
      (control : HumanControl W)
      → service.human_control ≡ some control
      → ((run task : String) (attempt : ℕ) (i : Option ℕ) (event actor status : String)
            (details : Fields)
          → Does watch 0 Any (control.publish_status run task attempt i event actor status details))
        × ((run : String) (cursor : ℕ) → Does watch 0 Any (control.pending run cursor))
        × ((run : String) → Does watch 0 Any (control.is_interrupted run))

abbrev pub counting : {W : Type 0} → (W → ℕ) → Watch W
counting calls = record { calls = calls; raises = λ e. Unit }

-- no count, and the exceptions named by their kind; no interrupt among them
abbrev pub erring : {W : Type 0} → (Error → Type 0) → Watch W
erring {W} expected = record { calls = λ w. 0; raises = among }
  where
    among : Raised → Type 0
    among (error e text) = expected e
    among (interrupt i) = ⊥

silent : {W A : Type 0} {k : ℕ} (step : Run W A) → Does (counting (λ w. 0)) k Any step
silent step = record { costs = λ w. omega arith; gives = λ w. value (step w).0 }
  where
    value : {A : Type 0} (o : Outcome A) → Gives (λ e. Unit) Any o
    value (returned a) = tt
    value (raised e) = tt

-- where nothing is counted
pub uncounted : {W : Type 0} (service : Service W) → Counts service (counting (λ w. 0))
uncounted service = record {
  code_harness = λ t c m i. silent _;
  explore = λ t c n i. silent _;
  summarize = λ f e t c rs i. silent _;
  formulate = λ f e t c rs s i. silent _;
  unify = λ f e t c p d r i. silent _;
  synthesize = λ t c p i. silent _;
  review = λ t c m d i. silent _;
  compose_final_report = λ t c m d r i. silent _;
  research = λ f e q n m. silent _;
  disclose = λ f e c ps. silent _;
  archive_markdown = λ f e n t m i a b c d r. silent _;
  record_probe = λ f e n t m i a b c d. silent _;
  control = λ f e. (λ n t m i a b c d. silent _, λ n m. silent _, λ n. silent _);
}

-- Inside the `try` of `solve` an interrupt is expected as well.
abbrev pub inside : {W : Type 0} → Watch W → Watch W
inside {W} watch = record { calls = watch.calls; raises = among }
  where
    among : Raised → Type 0
    among (error e text) = watch.raises (error e text)
    among (interrupt i) = Unit

within :
    {W A : Type 0} {k : ℕ} {Q : A → Type 0} {step : Run W A} (watch : Watch W)
    → Does watch k Q step
    → Does (inside watch) k Q step
within watch = Does-widen watch (inside watch) (λ w. refl) among
  where
    among : (e : Raised) → watch.raises e → (inside watch).raises e
    among (error e text) h = h
    among (interrupt i) h = tt

pub Counts-inside :
    {W : Type 0} (service : Service W) (watch : Watch W)
    → Counts service watch
    → Counts service (inside watch)
Counts-inside service watch counts = record {
  code_harness = λ t c m i. within watch (counts.code_harness t c m i);
  explore = λ t c n i. within watch (counts.explore t c n i);
  summarize = λ f e t c rs i. within watch (counts.summarize f e t c rs i);
  formulate = λ f e t c rs s i. within watch (counts.formulate f e t c rs s i);
  unify = λ f e t c p d r i. within watch (counts.unify f e t c p d r i);
  synthesize = λ t c p i. within watch (counts.synthesize t c p i);
  review = λ t c m d i. within watch (counts.review t c m d i);
  compose_final_report = λ t c m d r i. within watch (counts.compose_final_report t c m d r i);
  research = λ f e q n m. within watch (counts.research f e q n m);
  disclose = λ f e c ps. within watch (counts.disclose f e c ps);
  archive_markdown =
      λ f e n t m i a b c d r. within watch (counts.archive_markdown f e n t m i a b c d r);
  record_probe = λ f e n t m i a b c d. within watch (counts.record_probe f e n t m i a b c d);
  control = λ f e. (
    λ n t m i a b c d. within watch ((counts.control f e).0 n t m i a b c d),
    λ n m. within watch ((counts.control f e).1 n m),
    λ n. within watch ((counts.control f e).2 n),
  );
}
