-- ===== src/MainHarness/Samples.antt =====
-- A run of two questions and a paper, and what the operations answer on it.
use mm_harness.Prelude.{
  ℕ, ◌≤◌, String, true, false, Option, none, some, [], ◌∷◌, ◌+◌, all, contains, nat_eq, string_eq,
  ◌≡◌, ◌↔◌, refl, text_length, is_blank, is_space,
}
use mm_harness.Errors.{ok, err, conflict}
use mm_harness.Json
use mm_harness.Json.{end, Fields, end}
use mm_harness.Dag.{DagTaskNode, node_of, sort, insert, before, is_solve}
use mm_harness.Dag.Samples.{table, nodes, table_valid}
use mm_harness.Capability.{CapabilityRef, Providers, resolve, resolve_all, resolve_one}
use mm_harness.Capability
use mm_harness.Reports
use mm_harness.Reports.{
  ReportPayload, ReportPayload, ProducedArtifact, ReportFileRecord, SolveProblemReport,
  final_latex_paper, is_latex_kind, as_readonly,
}
use mm_harness.Publication.{TextTables}
use mm_harness.MainHarness.{
  MainHarnessTask, MainHarnessState, MainTaskStatus, completed, ready, blocked, is_ready, record_of,
  all_completed, ready_among, ready_tasks, replace_task, unlock_one, unlock_all, in_dag_order,
  unlock_dependents, initial_tasks, initial_state,
}
use mm_harness.MainHarness.Statuses.{completed_at}
use mm_harness.MainHarness.Closed.{IsClosed}
use mm_harness.MainHarness.Repository.{reloaded, Rows, update_rows, save_row, commit, start}
use mm_harness.MainHarness.Task.{task_of}
use mm_harness.MainHarness.Dispatch.{
  Services, answered, stored, attach_files, admit, settle, give_up, conclude, dispatch,
}
use mm_harness.MainHarness.Context.{context_for_dispatch, project_all}
use mm_harness.MainHarness.Rollback.{closure, sweep, affected_by, rolled_back, rollback}
use mm_harness.MainHarness.Readiness.{start-IsClosed, start-ready_tasks}
use mm_harness.MainHarness.Dispatch.Admission.{dispatch-admits}
use mm_harness.MainHarness.Dispatch.Keeps.{dispatch-IsClosed}
use mm_harness.MainHarness.Rollback.Affected.{Descends, affected_by-exact}
use mm_harness.MainHarness.Repository.Versions.{commit-stale}
use mm_harness.MainHarness.Runs.{dispatched, started, continued, reached-IsClosed}

-- the state in which a run of the table starts
abbrev pub fresh : MainHarnessState
fresh = initial_state "Maximise the yield." table 7 100

fresh_started : (start "Maximise the yield." table 7 100 none).0 ≡ ok fresh
unfolding start
fresh_started = refl

abbrev solve_ref : CapabilityRef
solve_ref = record { name = "tool.execute.solve-problem"; version = "1" }

abbrev answer : SolveProblemReport
answer = record {
  task_id = "q1";
  status = Reports.completed;
  iteration_count = 1;
  iterations = [];
  final_report = none;
  revision_instructions = [];
  artifacts = [];
  archive_files = [];
  error = none;
  research_report = none;
}

abbrev pub services : Services
services = record {
  required_capability = some solve_ref;
  providers = ("tool.execute.solve-problem", (solve_ref, "local")) ∷ [];
  execute = λ call. answered answer;
  persist = λ report attempt. stored [];
  report_id = 1;
  context = none;
  measures = record { tokens_of = λ c o. c + o; characters_of = λ b. b; dumps = λ j. "{}" };
  id_text = λ n. "7";
  value_text = λ j. "";
}

abbrev pub rec : String → MainTaskStatus → ℕ → Option ℕ → MainHarnessTask
rec id status attempts last_report_id = record {
  task_id = id;
  status = status;
  attempts = attempts;
  last_report_id = last_report_id;
  last_error = none;
}

-- after the dispatch of the first question, the second one is unlocked
abbrev pub first_solved : MainHarnessState
first_solved = record fresh {
  tasks =
      rec "publish-paper" blocked 0 none
      ∷ rec "q2" ready 0 none
      ∷ rec "q1" completed 1 (some 1)
      ∷ [];
  reports = answer ∷ [];
  report_ids = 1 ∷ [];
  version = 2;
  updated_at = 110;
}

first_dispatched : (dispatch services 110 fresh "q1" 3 none).0 ≡ ok first_solved
unfolding dispatch context_for_dispatch project_all admit settle give_up conclude commit save_row
    update_rows initial_state initial_tasks attach_files replace_task unlock_dependents unlock_all
    unlock_one in_dag_order all_completed resolve resolve_all resolve_one Capability.get
    Capability.put task_of is_blank is_space text_length Json.get
first_dispatched = refl

abbrev pub tables : TextTables
tables = record { lower = λ s. s; unsafe_command = λ s. false }

fresh-IsClosed : IsClosed fresh
fresh-IsClosed =
    start-IsClosed "Maximise the yield." table 7 100 none fresh table_valid fresh_started

dispatch-admits_example :
    (n : DagTaskNode) × (r : MainHarnessTask) × (node_of "q1" nodes ≡ some n)
    × (is_solve n.kind ≡ true)
    × (record_of "q1" fresh.tasks ≡ some r)
    × (is_ready r.status ≡ true)
    × (all (completed_at fresh.tasks) n.depends_on ≡ true)
    × (r.attempts ≤ 20)
unfolding initial_state
dispatch-admits_example =
    dispatch-admits services 110 fresh "q1" 3 none first_solved first_dispatched

first_solved-IsClosed : IsClosed first_solved
first_solved-IsClosed =
    dispatch-IsClosed services 110 fresh "q1" 3 none first_solved fresh-IsClosed first_dispatched

reached-IsClosed_example : IsClosed first_solved
reached-IsClosed_example = reached-IsClosed tables first_solved (
    continued fresh first_solved
      (started "Maximise the yield." table 7 100 none fresh table_valid fresh_started)
      (dispatched services 110 fresh first_solved "q1" 3 none first_dispatched))

start-ready_tasks_example : ready_tasks fresh ≡ ok ("q1" ∷ [])
start-ready_tasks_example =
    start-ready_tasks "Maximise the yield." table 7 100 none fresh table_valid fresh_started

first_listed : ready_tasks first_solved ≡ ok ("q2" ∷ [])
unfolding ready_tasks ready_among all_completed initial_state
first_listed = refl

affected_by-exact_example :
    (contains "publish-paper" (affected_by "q1" nodes) ≡ true) ↔ Descends nodes "q1" "publish-paper"
affected_by-exact_example = affected_by-exact nodes "q1" "publish-paper"

-- the first question is taken back, and with it the other two tasks
abbrev taken_back : MainHarnessState
taken_back = record first_solved {
  tasks =
      record (rec "publish-paper" blocked 0 none) { last_error = some "upstream rollback: q1" }
      ∷ record (rec "q2" blocked 0 none) { last_error = some "upstream rollback: q1" }
      ∷ record (rec "q1" ready 1 (some 1)) { last_error = some "wrong units" }
      ∷ [];
  decisions =
      record {
        kind = "rollback";
        reason = "wrong units";
        affected_task_ids = "publish-paper" ∷ "q1" ∷ "q2" ∷ [];
        created_at = 120;
      }
      ∷ [];
  version = 3;
  updated_at = 120;
}

first_taken_back : (rollback 120 first_solved "q1" "wrong units" none).0 ≡ ok taken_back
unfolding rollback rolled_back affected_by closure sweep sort insert before commit initial_state
first_taken_back = refl

-- two operations that read the run at version 1
abbrev run_rows : Rows
run_rows = record { run_id = 7; version = 1; state = fresh } ∷ []

abbrev saved_rows : Rows
saved_rows =
    record { run_id = 7; version = 2; state = record fresh { version = 2; updated_at = 130 } } ∷ []

first_saved :
    commit 130 fresh 1 (some run_rows)
    ≡ (ok (record fresh { version = 2; updated_at = 130 }), some saved_rows)
unfolding commit save_row update_rows initial_state reloaded
first_saved = refl

commit-stale_example : commit 131 first_solved 1 (some saved_rows) ≡ (err conflict, some saved_rows)
unfolding initial_state
commit-stale_example =
    commit-stale 130 131 1 fresh first_solved (record fresh { version = 2; updated_at = 130 })
      run_rows saved_rows refl refl first_saved

-- a final report with the path that a dispatch attaches
abbrev attached : ReportPayload
attached = record {
  title = "Yield";
  markdown = "3";
  summary = "The yield is 3.";
  claims = [];
  limitations = [];
  structured = end;
  solution_report_path = some "tasks/q1/final/solution_report.md";
  solve_files = [];
}

abbrev reported : MainHarnessState
reported = record fresh { final_report = some attached; version = 2; updated_at = 130 }

abbrev detached : MainHarnessState
detached = record reported { final_report = some (record attached { solution_report_path = none }) }

abbrev reported_rows : Rows
reported_rows = record { run_id = 7; version = 2; state = detached } ∷ []
