-- ===== src/Solve/Code.antt =====
-- application/solve_problem.py: the later stages of a round of `_solve`: the Code Agent, the review of its report, and
-- the unified model and the final report that end the solve.
use Prim.Native.String.{◌++◌ as concat}
use mm_harness.Prelude.{
  ℕ, String, Bool, true, false, some, List, [], ◌∷◌, map, text_length, take_text, join, length,
  if◌then◌else◌,
}
use mm_harness.Json.{boolean, string, array, integer, object, pos, end, field}
use mm_harness.Reports.{
  ReportPayload, PreliminaryModelingReport, UnifiedModelingReport, CodingHarnessReport,
  ModelReviewDecision, approve, revise, reject, RevisionTarget, code, SolveProblemReview, reference,
  dependency_output,
}
use mm_harness.MainHarness.Disclosure.{SolveProblemContext, texts_json, merge_files, first_of}
use mm_harness.MainHarness.Task.{SolveProblemTask}
use mm_harness.Solve.Ports.{Run, pure, ◌>>=◌, ◌>>◌, provided, ModelingContract, Service}
use mm_harness.Solve.{probe, control_checkpoint, archive, record_context_marker, guarded}
use mm_harness.Solve.Model.{target_text, is_empty, disclosed_into}

abbrev pub approves : SolveProblemReview → Bool
approves r = elim r.decision [ approve ↦ true | revise ↦ false | reject ↦ false ]

abbrev pub decision_text : ModelReviewDecision → String
decision_text approve = "approve"
decision_text revise = "revise"
decision_text reject = "reject"

abbrev pub targets_code : SolveProblemReview → Bool
targets_code r = elim r.revision_target [ code ↦ true | _ ↦ false ]

-- every repair is the Code Agent's, whatever the provider asks for
unfoldable pub redirected : SolveProblemReview → SolveProblemReview
redirected review = if targets_code review then review else record review {
  revision_target = code;
  revision_instructions =
      if approves review
      then review.revision_instructions
      else "不要重新探索或综合建模；保留本轮统一建模契约，只按 Code→Model 证据修复并重新执行。" ∷ review.revision_instructions;
}

module _ {W : Type 0} (service : Service W) (task : SolveProblemTask) (limit iteration : ℕ) where
  open service use {model_agent, file_reader, writers, number_text}

  -- f"题目 {task.task_id} 第 {iteration_number}{purpose}"
  abbrev pub in_round : String → String
  in_round purpose =
      concat (concat (concat "题目 " task.task_id) (concat " 第 " (number_text iteration))) purpose

  -- the files that the Code Harness has made, then its report for the Model Agent
  unfoldable pub hand_back :
      SolveProblemContext → ModelingContract → CodingHarnessReport → Run W SolveProblemContext
  hand_back context modeling coding = do
    let paths = map (λ f. f.relative_path) coding.generated_files
    let informed = if is_empty coding.generated_files then context else record context {
      readonly_files = merge_files (merge_files [] context.readonly_files) coding.generated_files;
    }
    marked ←
        record_context_marker service task informed iteration "Code Agent"
          (concat (concat "Code Agent 已提交本轮 Markdown 报告；验证索引仅作定位；生成文件：" (join ", " paths)) "。")
          "code"
    handed ←
        archive service task marked iteration "handoff" "code-to-model"
          (writers.code_to_model task marked modeling coding iteration limit)
          (in_round " 轮 Code Harness→Model Agent 返修交接。") dependency_output
    indexed ←
        archive service task handed iteration "coding" "coding_report"
          (writers.pointer handed task iteration "Code→Model 报告索引" "code-to-model.md")
          (in_round " 轮 Code→Model 报告正文索引。") dependency_output
    probe service task indexed (some iteration) "code_to_model_handoff" "Code Agent" "completed" (
        field "handoff" (string "code-to-model.md") (
          field "execution_succeeded" (boolean coding.execution_succeeded)
            (field "generated_files" (array (texts_json paths)) end)))
    pure indexed

  unfoldable pub execute_code :
      SolveProblemContext
      → RevisionTarget
      → ModelingContract
      → Run W (SolveProblemContext × CodingHarnessReport)
  execute_code context target modeling = do
    probe service task context (some iteration) "code_execute_start" "Code Agent" "started"
        (field "revision_target" (string (target_text target)) end)
    started ← control_checkpoint service task context (some iteration) "code_execute_start"
    coding ←
        guarded service task started iteration "code_execute_failed" "Code Agent" end
          (service.code_harness task started modeling iteration)
    probe service task started (some iteration) "code_execute_complete" "Code Agent" "completed" (
        field "execution_succeeded" (boolean coding.execution_succeeded) (
          field "validations" (object coding.validations) (
            field "generated_files"
              (array (texts_json (map (λ f. f.relative_path) coding.generated_files)))
              (field "artifact_names"
                (array (texts_json (map (λ a. a.logical_name) coding.artifacts))) end))))
    completed ← control_checkpoint service task started (some iteration) "code_execute_complete"
    handed ← hand_back completed modeling coding
    pure (handed, coding)

  -- the review's probes, its handoff to the Code Agent, and the indexes of it
  unfoldable pub hand_review :
      SolveProblemContext
      → ModelingContract
      → CodingHarnessReport
      → RevisionTarget
      → SolveProblemReview
      → Run W SolveProblemContext
  hand_review context modeling coding original review = do
    probe service task context (some iteration) "model_code_review_complete" "Model Agent"
        "completed"
        (field "decision" (string (decision_text review.decision)) (
          field "revision_target" (string (target_text review.revision_target)) (
            field "provider_revision_target" (string (target_text original)) (
              field "revision_instruction_count"
                (integer (pos (length review.revision_instructions)))
                (field "requested_file_paths" (array (texts_json review.requested_file_paths))
                  end)))))
    probe service task context (some iteration) "model_to_code_revision_handoff" "Model Agent"
        "completed"
        (field "handoff" (string "model-to-code-revision.md") (
          field "decision" (string (decision_text review.decision)) (
            field "revision_target" (string (target_text review.revision_target)) (
              field "revision_instructions" (array (texts_json review.revision_instructions))
                end))))
    marked ←
        record_context_marker service task context iteration "Model Agent"
          (concat
            (concat (concat "审查决定：" (decision_text review.decision))
              (concat "；返修目标：" (target_text review.revision_target)))
            (concat (concat "；指令：" (join "；" (first_of 8 review.revision_instructions))) "。"))
          "model"
    handed ←
        archive service task marked iteration "handoff" "model-to-code-revision"
          (writers.model_to_code_revision task marked modeling coding review iteration limit)
          (in_round " 轮 Model Agent→Code Agent 返修交接。") reference
    indexed ←
        archive service task handed iteration "review" "review_report"
          (writers.pointer handed task iteration "Model Agent 返修意见索引" "model-to-code-revision.md")
          (in_round " 轮 Model→Code 返修交接正文索引。") reference
    if is_empty review.revision_instructions
        then pure indexed
        else archive service task indexed iteration "review" "revision_instructions"
            (writers.pointer indexed task iteration "Model Agent→Code Agent 返修指令索引"
              "model-to-code-revision.md")
            (in_round " 轮 Code 返修指令正文索引。") reference

  unfoldable pub review_code :
      SolveProblemContext
      → ModelingContract
      → CodingHarnessReport
      → Run W (SolveProblemContext × SolveProblemReview)
  review_code context modeling coding = do
    probe service task context (some iteration) "model_code_review_start" "Model Agent" "started"
        end
    started ← control_checkpoint service task context (some iteration) "model_code_review_start"
    review ←
        guarded service task started iteration "model_code_review_failed" "Model Agent" end
          (model_agent.review task started modeling coding iteration)
    handed ← hand_review started modeling coding review.revision_target (redirected review)
    pure (handed, redirected review)

  unfoldable pub unified :
      SolveProblemContext
      → List PreliminaryModelingReport
      → CodingHarnessReport
      → SolveProblemReview
      → Run W UnifiedModelingReport
  unified context preliminary coding review =
      provided model_agent.unify (model_agent.synthesize task context preliminary iteration)
        (λ unify. unify task context preliminary coding review iteration)

  unfoldable pub unify_models :
      SolveProblemContext
      → List PreliminaryModelingReport
      → CodingHarnessReport
      → SolveProblemReview
      → Run W (SolveProblemContext × UnifiedModelingReport)
  unify_models context preliminary coding review = do
    probe service task context (some iteration) "model_unify_start" "Model Agent" "started" end
    model ←
        guarded service task context iteration "model_unify_failed" "Model Agent" end
          (unified context preliminary coding review)
    probe service task context (some iteration) "model_unify_complete" "Model Agent" "completed" (
        field "selected_branch_ids" (array (texts_json model.selected_branch_ids)) (
          field "required_validations" (array (texts_json model.required_validations))
            (field "expected_outputs" (array (texts_json model.expected_outputs)) end)))
    archived ←
        archive service task context iteration "modeling" "modeling_report"
          (writers.modeling_markdown model) (in_round " 轮 review 后的最终统一建模报告。") reference
    marked ←
        record_context_marker service task archived iteration "Model Agent"
          (concat (concat "review 后统一建模已生成。主方案：" (take_text 1_800 model.main_scheme)) "。") "model"
    pure (marked, model)

  unfoldable pub compose :
      SolveProblemContext
      → UnifiedModelingReport
      → CodingHarnessReport
      → SolveProblemReview
      → Run W (SolveProblemContext × ReportPayload)
  compose context model coding review = do
    started ← control_checkpoint service task context (some iteration) "final_report_start"
    report ←
        guarded service task started iteration "final_report_failed" "Model Agent" end
          (model_agent.compose_final_report task started model coding review iteration)
    probe service task started (some iteration) "final_report_composed" "Model Agent" "completed" (
        field "title" (string report.title)
          (field "markdown_chars" (integer (pos (text_length report.markdown))) end))
    pure (started, report)

  -- the files that the review asks for
  unfoldable pub disclose_requested :
      SolveProblemContext → SolveProblemReview → Run W SolveProblemContext
  disclose_requested context review =
      if is_empty review.requested_file_paths
      then pure context
      else provided file_reader (pure context) (λ read.
        read context review.requested_file_paths >>= λ files.
        pure (if is_empty files then context else disclosed_into files context))
