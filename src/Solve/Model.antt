-- ===== src/Solve/Model.antt =====
-- application/solve_problem.py: the first stages of a round of `_solve`, up to the handoff to the Code Agent.
use Prim.Native.String.{◌++◌ as concat}
use mm_harness.Prelude.{
  ℕ, ◌-◌, String, Bool, true, false, not, ◌&&◌, Option, none, some, List, [], ◌∷◌, ◌++◌, map,
  select, contains, text_length, take_text, ◌==◌, string_eq, nat_eq, if◌then◌else◌, ◌⊎◌, inl, inr,
}
use mm_harness.Json.{boolean, string, array, integer, pos, end, field}
use mm_harness.Store.Evidence.{unique}
use mm_harness.Reports.{
  SolveProblemStatus, ReportPayload, ExplorationMaterial, PreliminaryModelingReport,
  SolveProblemIteration, SolveProblemReport, RevisionTarget, code, model, full, reference,
}
use mm_harness.MainHarness.Disclosure.{SolveProblemContext, DisclosedTextFile, texts_json}
use mm_harness.MainHarness.Task.{SolveProblemTask}
use mm_harness.Solve.Ports.{
  Raised, text_of, Run, pure, ◌>>=◌, ◌>>◌, attempt, provided, ModelingContract,
  preliminary_contract, required_validations, expected_outputs, Service,
}
use mm_harness.Solve.{probe, archive, record_context_marker, archive_files, guarded}

abbrev pub target_text : RevisionTarget → String
target_text code = "code"
target_text model = "model"
target_text full = "full"

-- a stage of a round: the loop returns a report, or goes on
pub data Progress (A : Type 0) : Type 0 where
  done : SolveProblemReport → Progress A
  more : A → Progress A

unfoldable pub go_on : {W A B : Type 0} → Progress A → (A → Run W (Progress B)) → Run W (Progress B)
go_on (done report) later = pure (done report)
go_on (more a) later = later a

abbrev pub requested_paths : List ExplorationMaterial → List String
requested_paths [] = []
requested_paths (r ∷ rs) = r.requested_file_paths ++ requested_paths rs

abbrev pub is_empty {ℓ} : {A : Type ℓ} → List A → Bool
is_empty [] = true
is_empty (x ∷ xs) = false

abbrev pub disclosed_into : List DisclosedTextFile → SolveProblemContext → SolveProblemContext
disclosed_into files context = record context {
  disclosed_text_files = context.disclosed_text_files ++ files;
}

-- what `except` hands on beside a value
abbrev pub caught : {W A : Type 0} → Run W A → Run W (Raised ⊎ A)
caught first = attempt (first >>= λ a. pure (inr a)) (λ e. pure (inl e))

module _ {W : Type 0} (service : Service W) (task : SolveProblemTask) (iteration : ℕ) where
  open service use {model_agent, file_reader, writers, number_text}

  -- the report of a solve that ends before the Code Agent
  abbrev pub stopped :
      SolveProblemContext → List SolveProblemIteration → String → SolveProblemReport
  stopped context iterations error = record {
    task_id = task.task_id;
    status = SolveProblemStatus.failed;
    iteration_count = iteration - 1;
    iterations = iterations;
    final_report = none;
    revision_instructions = [];
    artifacts = [];
    archive_files = archive_files service task context;
    research_report = context.research_report;
    error = some error;
  }

  -- the second exploration, with what the reader has disclosed
  unfoldable pub explore_again :
      SolveProblemContext
      → List ExplorationMaterial
      → List String
      → List DisclosedTextFile
      → Run W (SolveProblemContext × List ExplorationMaterial)
  explore_again context exploration requested disclosed = do
    probe service task context (some iteration) "file_disclosure_complete" "Main Harness"
        "completed"
        (field "requested_paths" (array (texts_json requested)) (
          field "disclosed_paths" (array (texts_json (map (λ f. f.relative_path) disclosed))) (
            field "skipped_binary_paths"
              (array (
                texts_json (
                  select (λ p. not (contains p (map (λ f. f.relative_path) disclosed))) requested)))
              end)))
    let informed = disclosed_into disclosed context
    if is_empty disclosed
        then pure (context, exploration)
        else guarded service task informed iteration "model_explore_failed" "Model Agent"
            (field "after_disclosure" (boolean true) end)
            (model_agent.explore task informed 1 iteration)
          >>= λ again. pure (informed, again)

  unfoldable pub disclosure_failed :
      SolveProblemContext
      → List SolveProblemIteration
      → List String
      → Raised
      → Run W (Progress (SolveProblemContext × List ExplorationMaterial))
  disclosure_failed context iterations requested e = do
    probe service task context (some iteration) "file_disclosure_failed" "Main Harness" "failed" (
        field "paths" (array (texts_json requested))
          (field "error" (string (take_text 2_000 (text_of e))) end))
    context ←
        archive service task context iteration "handoff" "disclosure-failure"
          (writers.disclosure_failure task iteration requested (text_of e))
          (concat (concat "题目 " task.task_id) " 下一次 Model Agent 交接前的渐进式披露失败记录。") reference
    pure (done (stopped context iterations (concat "progressive disclosure failed: " (text_of e))))

  unfoldable pub after_disclosure :
      SolveProblemContext
      → List SolveProblemIteration
      → List ExplorationMaterial
      → List String
      → Raised ⊎ List DisclosedTextFile
      → Run W (Progress (SolveProblemContext × List ExplorationMaterial))
  after_disclosure context iterations exploration requested (inl e) =
      disclosure_failed context iterations requested e
  after_disclosure context iterations exploration requested (inr disclosed) =
      explore_again context exploration requested disclosed >>= λ explored. pure (more explored)

  unfoldable pub disclose_routes :
      SolveProblemContext
      → List SolveProblemIteration
      → List ExplorationMaterial
      → (SolveProblemContext → List String → Run W (List DisclosedTextFile))
      → Run W (Progress (SolveProblemContext × List ExplorationMaterial))
  disclose_routes context iterations exploration read = do
    let requested = unique [] (requested_paths exploration)
    probe service task context (some iteration) "file_disclosure_requested" "Model Agent" "started"
        (field "paths" (array (texts_json requested)) end)
    answer ← caught (read context requested)
    after_disclosure context iterations exploration requested answer

  unfoldable pub explore_routes :
      SolveProblemContext
      → List SolveProblemIteration
      → RevisionTarget
      → Run W (Progress (SolveProblemContext × List ExplorationMaterial))
  explore_routes context iterations target = do
    probe service task context (some iteration) "model_explore_start" "Model Agent" "started" (
        field "branch_count" (integer (pos 1))
          (field "revision_target" (string (target_text target)) end))
    exploration ←
        guarded service task context iteration "model_explore_failed" "Model Agent" end
          (model_agent.explore task context 1 iteration)
    probe service task context (some iteration) "model_explore_complete" "Model Agent" "completed" (
        field "branch_ids" (array (texts_json (map (λ r. r.branch_id) exploration)))
          (field "requested_file_paths" (array (texts_json (requested_paths exploration))) end))
    context ←
        record_context_marker service task context iteration "Model Agent"
          "探索阶段已完成；探索材料不直接交给 Code，先由 Model Agent 总结并形成初步建模报告。" "model"
    if is_empty (unique [] (requested_paths exploration))
        then pure (more (context, exploration))
        else provided file_reader (pure (more (context, exploration)))
            (disclose_routes context iterations exploration)

  unfoldable pub summarized : SolveProblemContext → ExplorationMaterial → Run W ReportPayload
  summarized context route =
      provided model_agent.summarize_exploration (pure route.report)
        (λ summarize. summarize task context (route ∷ []) iteration)

  unfoldable pub formulated :
      SolveProblemContext → ExplorationMaterial → ReportPayload → Run W PreliminaryModelingReport
  formulated context route summary =
      provided model_agent.formulate_preliminary
        (pure (record { route = route; exploration_summary = some summary }))
        (λ formulate. formulate task context (route ∷ []) summary iteration)

  -- the summary and the preliminary report of the one route
  unfoldable pub form_preliminary :
      SolveProblemContext
      → ExplorationMaterial
      → Run W (SolveProblemContext × List PreliminaryModelingReport × ModelingContract)
  form_preliminary context route = do
    probe service task context (some iteration) "model_exploration_summary_start" "Model Agent"
        "started" end
    summary ←
        guarded service task context iteration "model_exploration_summary_failed" "Model Agent" end
          (summarized context route)
    probe service task context (some iteration) "model_exploration_summary_complete" "Model Agent"
        "completed" (field "markdown_chars" (integer (pos (text_length summary.markdown))) end)
    probe service task context (some iteration) "model_preliminary_start" "Model Agent" "started"
        end
    report ←
        guarded service task context iteration "model_preliminary_failed" "Model Agent" end
          (formulated context route summary)
    probe service task context (some iteration) "model_preliminary_complete" "Model Agent"
        "completed"
        (field "branch_id" (string report.route.branch_id) (
          field "required_validations" (array (texts_json report.route.required_validations))
            (field "expected_outputs" (array (texts_json report.route.expected_outputs)) end)))
    context ←
        archive service task context iteration "modeling" "preliminary_modeling_report"
          (writers.preliminary_markdown report)
          (concat (concat (concat "题目 " task.task_id) (concat " 第 " (number_text iteration)))
            " 轮初步建模报告；统一建模尚未生成。")
          reference
    context ←
        record_context_marker service task context iteration "Model Agent"
          (concat
            (concat "初步建模已完成，已交给 Code；统一建模将在 review 后生成。候选方案："
              (take_text 1_800 report.route.candidate_scheme))
            "。")
          "model"
    pure (context, report ∷ [], preliminary_contract report)

  -- The routes must be one: another number of them ends the solve.
  unfoldable pub choose_route :
      SolveProblemContext
      → List SolveProblemIteration
      → List ExplorationMaterial
      → Run W (Progress (SolveProblemContext × List PreliminaryModelingReport × ModelingContract))
  choose_route context iterations [] =
      pure (done (stopped context iterations "Model Agent returned no exploration material"))
  choose_route context iterations (route ∷ []) =
      form_preliminary context route >>= λ formed. pure (more formed)
  choose_route context iterations (route ∷ other ∷ routes) =
      pure
        (done (stopped context iterations "Model Agent must return exactly one exploration route"))

  -- `if modeling is None: ...`, twice
  unfoldable pub model_first :
      SolveProblemContext
      → List SolveProblemIteration
      → RevisionTarget
      → List PreliminaryModelingReport
      → Option ModelingContract
      → Run W (Progress (SolveProblemContext × List PreliminaryModelingReport × ModelingContract))
  model_first context iterations target preliminary (some modeling) =
      pure (more (context, preliminary, modeling))
  model_first context iterations target preliminary none = do
    explored ← explore_routes context iterations target
    go_on explored (λ e. choose_route e.0 iterations e.1)

  unfoldable pub write_contract :
      SolveProblemContext
      → List PreliminaryModelingReport
      → ModelingContract
      → ℕ
      → Run W SolveProblemContext
  write_contract context preliminary modeling limit = do
    context ←
        archive service task context iteration "handoff" "model-to-code"
          (writers.model_to_code task context preliminary iteration limit)
          (concat (concat "题目 " task.task_id) " 的初始 Model Agent→Code Agent 建模契约。") reference
    probe service task context (some iteration) "model_to_code_handoff" "Model Agent" "completed" (
        field "handoff" (string "model-to-code.md") (
          field "required_validations" (array (texts_json (required_validations modeling)))
            (field "expected_outputs" (array (texts_json (expected_outputs modeling))) end)))
    pure context

  -- the contract for the Code Agent, once in a solve that is not resumed
  unfoldable pub hand_over :
      ℕ
      → Bool
      → SolveProblemContext
      → List PreliminaryModelingReport
      → ModelingContract
      → ℕ
      → Run W SolveProblemContext
  hand_over start resumed context preliminary modeling limit =
      if iteration == start && not resumed
      then write_contract context preliminary modeling limit
      else pure context
