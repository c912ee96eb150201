-- ===== src/MainHarness/Context.antt =====
-- application/main_harness.py: `_context_for_dispatch`, what a dispatch discloses to the tool besides the task, and the
-- entries that `dispatch` adds to its metadata.
pub mod Disclosed
use mm_harness.Prelude.{
  ℕ, suc, ◌+◌, ◌-◌, ◌/◌, max, String, Bool, true, false, not, ◌&&◌, ◌||◌, Option, none, some, List,
  [], ◌∷◌, ◌++◌, map, select, find, any, contains, length, ltb, codes, occurs, join, ◌==◌, nat_eq,
  string_eq, if◌then◌else◌,
}
use mathlib.Core.List.{reverse}
use Prim.Native.String.{◌++◌ as concat}
use mm_harness.Errors.{Error, Result, ok, err, key_error, ◌>>=◌}
use mm_harness.Json.{
  Json, Items, Fields, string, integer, array, object, nil, item, pos, end, field, get, put,
  without,
}
use mm_harness.Compact.{Measures, estimate_text, estimate_json, compact_text}
use mm_harness.Dag.{DagTaskNode, DagTaskTable, node_of}
use mm_harness.Reports.{
  ReadOnlyFileRole, dependency_solution, is_solve_file, ReportFileRecord, ReadOnlyFileReference,
  as_readonly, ReportPayload, SolveProblemReport, SolveProblemStatus, completed,
}
use mm_harness.MainHarness.{MainHarnessTask, MainHarnessState, record_of}
use mm_harness.MainHarness.Disclosure.{
  DependencySolutionContext, SolveProblemContext, after, collect_ids, downstream_of, fields_or_none,
  first_of, is_completed_report, is_disclosed, is_iteration, is_solution, match_of, merge_files,
  no_context, node_dependency_outputs, outputs_of, pick, put_file, requested_of, research_of,
  slashes, solution_files, supplied_or_none, texts_json, total_tokens, value_or, zip,
}

module _ (measures : Measures) where
  -- a text or a mapping, cut to its budget
  unfoldable pub fitted_outputs : ℕ → Json → Json
  unfolding estimate_json compact_text
  fitted_outputs budget downstream =
      if ltb budget (estimate_json measures downstream)
      then object (
          field "_compacted" (string (compact_text measures (measures.dumps downstream) budget))
            end)
      else downstream

  -- the `DependencySolutionContext` of a dependency and its report
  unfoldable pub solution_of :
      String
      → ℕ
      → SolveProblemReport
      → ReportPayload
      → List ReadOnlyFileReference
      → Option String
      → ℕ
      → List String
      → DependencySolutionContext
  unfolding fitted_outputs downstream_of
  solution_of dependency report_id report payload files solution_path budget requested =
      let summary = compact_text measures payload.summary (max 500 (budget / 2)) in
      let downstream =
        fitted_outputs (max 500 (budget / 3)) (downstream_of requested payload.structured) in
      record {
        task_id = dependency;
        report_id = report_id;
        title = payload.title;
        summary = summary;
        claims = map (λ c. compact_text measures c 500) (first_of 12 payload.claims);
        limitations = map (λ c. compact_text measures c 400) (first_of 8 payload.limitations);
        downstream_outputs = fields_or_none downstream;
        solution_report_path = solution_path;
        solve_files = files;
        estimated_tokens = estimate_text measures summary + estimate_json measures downstream;
      }

  module _ (state : MainHarnessState) (task_id : String) where
    -- the files of a dependency's report, of its last attempt
    abbrev pub disclosed_files : String → ℕ → SolveProblemReport → List ReportFileRecord
    disclosed_files dependency attempts report =
        select (is_disclosed dependency attempts report) state.report_files

    abbrev pub path_of : List ReportFileRecord → Option String
    path_of files = elim (find (λ f. is_solution f.role) files) [
      | none ↦ none
      | some f ↦ some f.relative_path
    ]

    -- the body of the loop over the dependencies: nothing where no report of the dependency is accepted
    unfoldable pub project :
        List (ℕ × SolveProblemReport) → ℕ → String → Result (List DependencySolutionContext)
    project pairs budget dependency = elim (match_of dependency pairs) [
      | none ↦ ok []
      | some (report_id, (report, payload)) ↦ elim (record_of dependency state.tasks) [
        | none ↦ err key_error
        | some dependency_task ↦ do
          let files = disclosed_files dependency dependency_task.attempts report
          requested ← node_dependency_outputs state.dag task_id dependency
          ok (
              solution_of dependency report_id report payload (map as_readonly files)
                (path_of files) budget requested
              ∷ [])
      ]
    ]

    -- the loop; the dependencies with a solution are those that the supplied context names
    unfoldable pub project_all :
        List (ℕ × SolveProblemReport)
        → ℕ
        → List String
        → List DependencySolutionContext
        → List String
        → Result (List DependencySolutionContext)
    unfolding project
    project_all pairs budget supplied solutions [] = ok solutions
    project_all pairs budget supplied solutions (dependency ∷ rest) = do
      found ← if contains dependency supplied then ok [] else project pairs budget dependency
      project_all pairs budget supplied (solutions ++ found) rest

    unfoldable pub compacted_instructions : List String → List String
    unfolding compact_text
    compacted_instructions instructions =
        let older = length instructions - 10 in
        if ltb 4_000 (estimate_json measures (array (texts_json instructions)))
        then concat "Compacted earlier revision history:\n" (
            compact_text measures
              (join "\n" (map (λ i. concat "- " i) (first_of older instructions))) 2_000)
          ∷ after older instructions
        else instructions

    -- _context_for_dispatch
    unfoldable pub context_for_dispatch :
        List String → Option SolveProblemContext → Result SolveProblemContext
    unfolding project_all compacted_instructions collect_ids merge_files research_of
    context_for_dispatch dependencies supplied = do
      let context = supplied_or_none supplied
      let pairs = zip state.report_ids state.reports
      let (dependency_ids, accepted_ids) =
          collect_ids dependencies pairs
            (context.dependency_report_ids, context.accepted_report_ids)
      let budget = max 1_000 (context.context_budget_tokens / max 1 (length dependencies))
      solutions ←
          project_all (reverse pairs) budget (map (λ s. s.task_id) context.dependency_solutions)
            context.dependency_solutions dependencies
      ok (record context {
        dependency_report_ids = dependency_ids;
        accepted_report_ids = accepted_ids;
        dependency_solutions = solutions;
        readonly_files =
            merge_files (merge_files [] context.readonly_files) (solution_files solutions);
        instructions = compacted_instructions context.instructions;
        research_report = elim context.research_report [
          | none ↦ research_of task_id (map (λ p. p.1) (reverse pairs))
          | some j ↦ some j
        ];
        metadata =
            put "context_policy"
              (string
                "workflow state comes from MainHarnessState; stage evidence comes from allowlisted report paths")
              (put "context_model"
                (string
                  "durable MainHarnessState plus report/handoff projections; no transcript replay")
                (put "context_owner" (string "main-harness")
                  (without ("model_conversation" ∷ "code_conversation" ∷ []) context.metadata)));
        compression = put "estimated_dependency_tokens" (integer (pos (total_tokens solutions))) (
            put "budget_tokens" (integer (pos context.context_budget_tokens)) (
              put "dependency_count" (integer (pos (length solutions)))
                (put "strategy" (string "compact-v1") context.compression)));
      })

-- the entries that `dispatch` adds to the metadata; `id_text` is `str` of a run's id, and `value_text`
-- that of any value
unfoldable pub identified_context :
    (ℕ → String) → (Json → String) → ℕ → String → ℕ → SolveProblemContext → SolveProblemContext
identified_context id_text value_text run_id task_id attempt context =
    let kept = without ("model_conversation" ∷ "code_conversation" ∷ []) context.metadata in
    let run = id_text run_id in
    let session =
      concat (concat "m2h-main-" run)
        (concat (concat "-" task_id) (concat "-attempt-" (id_text attempt))) in
    let identified = put "task_attempt" (integer (pos attempt)) (
      put "run_id" (string run) (
        put "context_policy"
          (string
            "workflow state comes from MainHarnessState; stage evidence comes from allowlisted report paths")
          (put "context_session_id" (string session) (
            put "context_model"
              (string
                "durable MainHarnessState plus report/handoff projections; no transcript replay")
              (put "context_owner" (string "main-harness") kept))))) in
    let key = elim (get "run_path_key" identified) as (λ o. String) [
      | some j ↦ value_text j
      | none ↦ elim (get "run_name" identified) as (λ o. String) [
        | some j ↦ value_text j
        | none ↦ run
      ]
    ] in
    record context {
      metadata =
          put "context_event_log" (string (concat (concat "reports/runs/" key) "/probe.ndjson"))
            identified;
    }
