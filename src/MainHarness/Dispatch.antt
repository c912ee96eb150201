-- ===== src/MainHarness/Dispatch.antt =====
-- dispatch of application/main_harness.py. The tool's answer is an argument, so every answer that it
-- could give is covered.
pub mod Admission
pub mod Keeps
use mm_harness.Prelude.{
  ℕ, suc, ◌+◌, ◌-◌, String, Bool, true, false, not, ◌&&◌, ◌||◌, Option, none, some, List, [], ◌∷◌,
  ◌++◌, map, select, find, ltb, leb, text_length, is_blank, ends_with, ◌==◌, nat_eq, string_eq,
  if◌then◌else◌,
}
use Prim.Native.String.{◌++◌ as concat}
use mm_harness.Errors.{
  Error, Result, ok, err, value_error, key_error, runtime_error, permission_error, attribute_error,
}
use mm_harness.Json.{Json}
use mm_harness.Compact.{Measures}
use mm_harness.MainHarness.Context.{context_for_dispatch, identified_context}
use mm_harness.MainHarness.Disclosure.{SolveProblemContext}
use mm_harness.MainHarness.Task.{SolveProblemTask, SolveCall, task_of}
use mm_harness.Dag.{DagTaskNode, DagTaskTable, node_of, is_solve}
use mm_harness.Capability.{
  CapabilityRef, CapabilityRequirement, CapabilityResolution, Providers, resolve, is_complete,
}
use mm_harness.Reports
use mm_harness.Reports.{
  ReportFileRecord, ReportPayload, SolveProblemReport, SolveProblemStatus, is_solve_file,
  as_readonly,
}
use mm_harness.MainHarness.{
  MainHarnessTask, MainHarnessState, MainTaskStatus, is_ready, record_of, all_completed,
  replace_task, unlock_dependents, running,
}
use mm_harness.MainHarness.Repository.{Action, ◌>>=◌, ◌>>◌, lift, raise_if, commit}

-- What `execute` returns, and whether its output is a valid report.
pub data ToolAnswer : Type 0 where
  refused : Option String → ToolAnswer
  invalid : String → ToolAnswer
  answered : SolveProblemReport → ToolAnswer

-- What the report store answers: the files, or the text of its exception.
pub data Stored : Type 0 where
  stored : List ReportFileRecord → Stored
  not_stored : String → Stored

-- the part of the report store's files that a dependent task may open
abbrev pub solve_files_of : SolveProblemReport → ℕ → List ReportFileRecord → List ReportFileRecord
solve_files_of report attempt files =
    select (λ f. f.task_id == report.task_id && f.attempt == attempt && is_solve_file f.role) files

-- Attaches the stored files to the final report. Where no file is the solution report the code reads
-- an attribute that `ReportPayload` lacks.
unfoldable pub attach_files :
    ℕ → List ReportFileRecord → SolveProblemReport → Result SolveProblemReport
unfolding as_readonly
attach_files attempt [] report = ok report
attach_files attempt (f ∷ fs) report = elim report.final_report [
  | none ↦ ok report
  | some payload ↦
      elim (find (λ g. ends_with "/final/solution_report.md" g.relative_path) (f ∷ fs)) [
        | none ↦ err attribute_error
        | some final_file ↦ ok (record report {
          final_report = some (record payload {
            solution_report_path = some final_file.relative_path;
            solve_files = map as_readonly (solve_files_of report attempt (f ∷ fs));
          });
        })
      ]
]

-- report.error or "…"
abbrev pub error_or_text : Option String → String
error_or_text none =
    "solve_problem returned an unfinished internal revision; no outer retry is permitted"
error_or_text (some e) =
    if e == ""
    then "solve_problem returned an unfinished internal revision; no outer retry is permitted"
    else e

-- the status and the error that a report's status leaves on its task
abbrev pub status_after : SolveProblemStatus → MainTaskStatus
status_after Reports.completed = MainTaskStatus.completed
status_after Reports.blocked = MainTaskStatus.blocked
status_after _ = MainTaskStatus.failed

abbrev pub error_after : SolveProblemStatus → Option String → Option String
error_after Reports.completed e = none
error_after Reports.revision_required e = some (error_or_text e)
error_after _ e = e

-- What the harness is given: the context that the caller supplies, the registered version of the tool
-- with its capability, the providers, the tool's answer to a call, the store's files for a report, a
-- fresh report id, and Python's text of a number that is an id or an attempt and of any value.
pub record Services : Type 0 where
  pub required_capability : Option CapabilityRef
  pub providers : Providers
  pub execute : SolveCall → ToolAnswer
  pub persist : SolveProblemReport → ℕ → Stored
  pub report_id : ℕ
  pub context : Option SolveProblemContext
  pub measures : Measures
  pub id_text : ℕ → String
  pub value_text : Json → String

-- The record that the call leaves: a failure keeps its message.
abbrev pub failed_with : MainHarnessTask → Option String → MainHarnessTask
failed_with r e = record r { status = MainTaskStatus.failed; last_error = e }

module _ (services : Services) (now : ℕ) (state : MainHarnessState) where
  open services use {
    required_capability, providers, execute, persist, report_id, context, measures, id_text,
    value_text,
  }

  -- the checks before the call, and the task's record
  unfoldable pub admit : String → Result (DagTaskNode × MainHarnessTask)
  admit task_id = elim (node_of task_id state.dag.tasks) [
    | none ↦ err value_error
    | some node ↦
        if not (is_solve node.kind) then err value_error else elim (record_of task_id state.tasks) [
          | none ↦ err key_error
          | some r ↦
              if not (is_ready r.status)
              then err value_error
              else elim (all_completed state.tasks node.depends_on) [
                | err e ↦ err e
                | ok done ↦ if not done then err value_error else elim required_capability [
                  | none ↦ err runtime_error
                  | some capability ↦
                      if is_complete (resolve providers (requirement capability ∷ []))
                      then ok (node, r)
                      else err permission_error
                ]
              ]
        ]
  ]
    where
      requirement : CapabilityRef → CapabilityRequirement
      requirement capability = record {
        capability = capability;
        optional = false;
        reason = "Main Harness problem dispatch";
      }

  -- what is left to do once the tool has answered with a report whose files are stored
  unfoldable pub settle :
      MainHarnessTask → ℕ → SolveProblemReport → List ReportFileRecord → Action MainHarnessState
  settle running_record attempt report files = do
    attached ← lift (attach_files attempt files report)
    let updated = record running_record {
      status = status_after attached.status;
      last_report_id = some report_id;
      last_error = error_after attached.status attached.error;
    }
    let working = replace_task now state running_record
    let with_report = record working {
      reports = working.reports ++ attached ∷ [];
      report_ids = working.report_ids ++ report_id ∷ [];
      report_files = working.report_files ++ files;
    }
    unlocked ← lift (unlock_dependents now (replace_task now with_report updated))
    commit now unlocked state.version

  -- a call that fails, that answers with no report, or whose report cannot be stored
  unfoldable pub give_up : MainHarnessTask → Option String → Action MainHarnessState
  give_up running_record e =
      commit now
        (replace_task now (replace_task now state running_record) (failed_with running_record e))
        state.version

  unfoldable pub conclude : MainHarnessTask → ℕ → ToolAnswer → Action MainHarnessState
  conclude running_record attempt (refused message) = give_up running_record message
  conclude running_record attempt (invalid text) =
      give_up running_record (some (concat "invalid solve_problem report: " text))
  conclude running_record attempt (answered report) = elim (persist report attempt) [
    | not_stored text ↦
        give_up running_record (some (concat "durable report persistence failed: " text))
    | stored files ↦ settle running_record attempt report files
  ]

  unfoldable pub dispatch : String → ℕ → Action MainHarnessState
  dispatch task_id max_iterations = do
    (node, r) ← lift (admit task_id)
    let attempt = r.attempts + 1
    task ← lift (task_of state node attempt)
    disclosed ← lift (context_for_dispatch measures state task_id node.depends_on context)
    let running_record = record r { status = running; attempts = attempt; last_error = none }
    conclude running_record attempt (
        execute (record {
          run_id = state.run_id;
          attempt = attempt;
          task = task;
          context = identified_context id_text value_text state.run_id task_id attempt disclosed;
          max_iterations = max_iterations;
        }))
