-- ===== src/MainHarness/ContextSamples.antt =====
-- A dispatch of the second question, after the first one has left two files.
use mm_harness.Prelude.{
  ◌==◌, string_eq, none, some, [], ◌∷◌, Bool, true, all, ◌≡◌, refl, occurs, text_length,
}
use mm_harness.Errors.{ok}
use mm_harness.Json.{end, put, get, without, string, integer, pos}
use mm_harness.Compact.{Measures, estimate_text, estimate_json, compact_text}
use mm_harness.Reports
use mm_harness.Reports.{
  ReportPayload, ReportFileRecord, ReadOnlyFileReference, SolveProblemReport, dependency_solution,
  generated, as_readonly,
}
use mm_harness.MainHarness.{MainHarnessState, initial_state, initial_tasks}
use mm_harness.MainHarness.Samples.{first_solved}
use mm_harness.MainHarness.Context.{
  fitted_outputs, solution_of, project, project_all, compacted_instructions, context_for_dispatch,
}
use mm_harness.MainHarness.Disclosure.{
  DependencySolutionContext, SolveProblemContext, no_context, collect_ids, match_of, is_disclosed,
  outputs_of, node_dependency_outputs, pick, downstream_of, put_file, merge_files, research_of,
}
use mm_harness.MainHarness.Context.Disclosed.{context_for_dispatch-disclosed}

abbrev payload : ReportPayload
payload = record {
  title = "Yield";
  markdown = "";
  summary = "The yield is 3.";
  claims = [];
  limitations = [];
  structured = end;
  solution_report_path = none;
  solve_files = [];
}

abbrev report : SolveProblemReport
report = record {
  task_id = "q1";
  status = Reports.completed;
  iteration_count = 1;
  iterations = [];
  final_report = some payload;
  revision_instructions = [];
  artifacts = [];
  archive_files = [];
  error = none;
  research_report = none;
}

abbrev solution_file : ReportFileRecord
solution_file = record {
  relative_path = "reports/q1/solution.md";
  purpose = "solution";
  role = dependency_solution;
  task_id = "q1";
  attempt = 1;
  iteration = none;
  media_type = "text/markdown";
  sha256 = "00";
  size_bytes = 3;
}

-- a file of an attempt that was rolled back
abbrev old_file : ReportFileRecord
old_file = record solution_file { relative_path = "reports/q1/old.md"; attempt = 0 }

abbrev solved_with_files : MainHarnessState
solved_with_files = record first_solved {
  reports = report ∷ [];
  report_files = solution_file ∷ old_file ∷ [];
}

abbrev some_measures : Measures
some_measures = record { tokens_of = λ c o. 1; characters_of = λ b. b; dumps = λ j. "{}" }

abbrev is_solution_file : ReadOnlyFileReference → Bool
is_solution_file f = f.relative_path == "reports/q1/solution.md"

abbrev solution : DependencySolutionContext
solution = record {
  task_id = "q1";
  report_id = 1;
  title = "Yield";
  summary = "The yield is 3.";
  claims = [];
  limitations = [];
  downstream_outputs = end;
  solution_report_path = some "reports/q1/solution.md";
  solve_files = as_readonly solution_file ∷ [];
  estimated_tokens = 2;
}

abbrev disclosed_context : SolveProblemContext
disclosed_context = record no_context {
  dependency_report_ids = 1 ∷ [];
  accepted_report_ids = 1 ∷ [];
  dependency_solutions = solution ∷ [];
  readonly_files = as_readonly solution_file ∷ [];
  metadata =
      put "context_policy"
        (string
          "workflow state comes from MainHarnessState; stage evidence comes from allowlisted report paths")
        (put "context_model"
          (string "durable MainHarnessState plus report/handoff projections; no transcript replay")
          (put "context_owner" (string "main-harness") end));
  compression = put "estimated_dependency_tokens" (integer (pos 2)) (
      put "budget_tokens" (integer (pos 32_000))
        (put "dependency_count" (integer (pos 1)) (put "strategy" (string "compact-v1") end)));
}

second_context :
    context_for_dispatch some_measures solved_with_files "q2" ("q1" ∷ []) none
    ≡ ok disclosed_context
unfolding context_for_dispatch project_all project match_of node_dependency_outputs outputs_of
    is_disclosed solution_of fitted_outputs downstream_of pick compact_text estimate_json
    estimate_text collect_ids merge_files put_file compacted_instructions research_of initial_state
    initial_tasks as_readonly text_length get put without occurs
second_context = refl

context_for_dispatch-disclosed_example :
    all is_solution_file disclosed_context.readonly_files ≡ true
unfolding as_readonly initial_state initial_tasks
context_for_dispatch-disclosed_example =
    context_for_dispatch-disclosed is_solution_file some_measures solved_with_files "q2" ("q1" ∷ [])
      none disclosed_context refl refl refl second_context
