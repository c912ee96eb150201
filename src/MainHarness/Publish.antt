-- ===== src/MainHarness/Publish.antt =====
-- publish and generate_paper of application/main_harness.py
pub mod Gate
use mm_harness.Prelude.{
  ℕ, String, Bool, true, false, not, ◌&&◌, ◌||◌, Option, none, some, List, [], ◌∷◌, ◌++◌, any, ◌==◌,
  string_eq, if◌then◌else◌,
}
use mm_harness.Errors.{Result, ok, err, value_error, key_error}
use mm_harness.Dag.{DagTaskNode, DagTaskTable, node_of, is_publish}
use mm_harness.Reports.{
  ReportPayload, ProducedArtifact, ReportFileRecord, SolveProblemReport, is_latex_kind,
}
use mm_harness.Publication.{TextTables, validate_publication_artifacts}
use mm_harness.MainHarness.{
  MainHarnessTask, MainHarnessState, completed, is_completed, record_of, all_completed, replace_in,
}
use mm_harness.MainHarness.Repository.{Action, ◌>>=◌, ◌>>◌, lift, raise_if, commit}

-- next(item for item in state.dag.tasks if item.id == state.dag.terminal_task_id), which the
-- validator of the table guarantees to exist; a missing one ends in an exception
unfoldable pub terminal_node : MainHarnessState → Result DagTaskNode
terminal_node state = elim (node_of state.dag.terminal_task_id state.dag.tasks) [
  | none ↦ err key_error
  | some node ↦ ok node
]

-- any(item.status != COMPLETED for item in state.tasks if item.task_id != terminal.id)
abbrev pub unfinished : String → List MainHarnessTask → Bool
unfinished terminal_id tasks =
    any (λ t. not (t.task_id == terminal_id) && not (is_completed t.status)) tasks

-- by_id[terminal.id], completed, in the place of the terminal's record
unfoldable pub complete_terminal : String → List MainHarnessTask → Result (List MainHarnessTask)
complete_terminal id tasks = elim (record_of id tasks) [
  | none ↦ err key_error
  | some r ↦ ok (replace_in (record r { status = completed }) tasks)
]

module _ (tables : TextTables)
    (persist_publication : ReportPayload → ProducedArtifact → Result (List ReportFileRecord)) where
  -- `persist_publication` is the report store's, and answers no files where the harness has no store.
  unfoldable pub publish :
      ℕ → MainHarnessState → ReportPayload → ProducedArtifact → Action MainHarnessState
  publish now state final_report final_latex_paper = do
    terminal ← lift (terminal_node state)
    raise_if (not (is_publish terminal.kind)) value_error
    raise_if (unfinished terminal.id state.tasks) value_error
    done ← lift (all_completed state.tasks terminal.depends_on)
    raise_if (not done) value_error
    raise_if (not (is_latex_kind final_latex_paper.kind)) value_error
    lift (validate_publication_artifacts tables (final_latex_paper ∷ []))
    publication_files ← lift (persist_publication final_report final_latex_paper)
    published ← lift (complete_terminal terminal.id state.tasks)
    commit now
        (record state {
          tasks = published;
          final_report = some final_report;
          final_latex_paper = some final_latex_paper;
          report_files = state.report_files ++ publication_files;
          terminal = true;
        })
        state.version

  -- `compose` is the paper composer's, a model provider behind a port.
  unfoldable pub generate_paper :
      (String → List SolveProblemReport → Result (ReportPayload × ProducedArtifact))
      → ℕ
      → MainHarnessState
      → Action MainHarnessState
  generate_paper compose now state = do
    terminal ← lift (terminal_node state)
    raise_if (not (is_publish terminal.kind)) value_error
    raise_if (unfinished terminal.id state.tasks) value_error
    (final_report, final_latex) ← lift (compose state.problem state.reports)
    publish now state final_report final_latex
