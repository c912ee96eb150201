-- ===== src/MainHarness.antt =====
-- application/main_harness.py: the state of a run and the steps that the operations share. The
-- other operations are in the modules below, and so are their proofs. A method reads the clock once,
-- as `now`; a run lives in the repository of infrastructure/db/main_harness.py, if there is one.
pub mod Repository
pub mod Rollback
pub mod View
pub mod Publish
pub mod Replan
pub mod Disclosure
pub mod Context
pub mod Solved
pub mod SolvedSamples
pub mod Task
pub mod Dispatch
pub mod Statuses
pub mod Closed
pub mod Readiness
pub mod Runs
pub mod Samples
pub mod ContextSamples
pub mod PlanSamples
use mm_harness.Prelude.{
  ℕ, suc, ◌+◌, String, Bool, true, false, not, ◌&&◌, Option, none, some, List, [], ◌∷◌, map, find,
  ◌==◌, nat_eq, string_eq, if◌then◌else◌, length,
}
use mm_harness.Errors.{Error, Result, ok, err, key_error, conflict, not_found, ◌>>=◌}
use mm_harness.Dag.{DagTaskNode, DagTaskTable}
use mm_harness.Reports.{ReportFileRecord, ReportPayload, ProducedArtifact, SolveProblemReport}

pub data MainTaskStatus : Type 0 where
  blocked ready running completed revision_required failed : MainTaskStatus

abbrev pub is_ready : MainTaskStatus → Bool
is_ready ready = true
is_ready _ = false

abbrev pub is_completed : MainTaskStatus → Bool
is_completed completed = true
is_completed _ = false

abbrev pub is_blocked : MainTaskStatus → Bool
is_blocked blocked = true
is_blocked _ = false

pub record MainHarnessTask : Type 0 where
  pub task_id : String
  pub status : MainTaskStatus
  pub attempts : ℕ
  pub last_report_id : Option ℕ
  pub last_error : Option String

pub record MainHarnessDecision : Type 0 where
  pub kind : String
  pub reason : String
  pub affected_task_ids : List String
  pub created_at : ℕ

pub record MainHarnessState : Type 0 where
  pub run_id : ℕ
  pub problem : String
  pub dag : DagTaskTable
  pub tasks : List MainHarnessTask
  pub report_ids : List ℕ
  pub reports : List SolveProblemReport
  pub report_files : List ReportFileRecord
  pub decisions : List MainHarnessDecision
  pub final_report : Option ReportPayload
  pub final_latex_paper : Option ProducedArtifact
  pub terminal : Bool
  pub version : ℕ
  pub created_at : ℕ
  pub updated_at : ℕ

-- `by_id[task_id]`, for `by_id = {item.task_id: item for item in state.tasks}`
abbrev pub record_of : String → List MainHarnessTask → Option MainHarnessTask
record_of id tasks = find (λ t. t.task_id == id) tasks

-- all(by_id[dependency].status == COMPLETED for dependency in depends_on); a `KeyError` if one that
-- is looked at has no record
pub all_completed : List MainHarnessTask → List String → Result Bool
all_completed tasks [] = ok true
all_completed tasks (d ∷ ds) =
    let later = all_completed tasks ds in
    elim (record_of d tasks) [
      | none ↦ err key_error
      | some r ↦ if is_completed r.status then later else ok false
    ]

-- ready_tasks
pub ready_among : List MainHarnessTask → List DagTaskNode → Result (List String)
unfolding all_completed
ready_among tasks [] = ok []
ready_among tasks (node ∷ nodes) =
    let later = ready_among tasks nodes in
    elim (record_of node.id tasks) [
      | none ↦ err key_error
      | some r ↦
          if is_ready r.status
          then (do
            done ← all_completed tasks node.depends_on
            rest ← later
            ok (if done then node.id ∷ rest else rest))
          else later
    ]

pub ready_tasks : MainHarnessState → Result (List String)
unfolding ready_among
ready_tasks state = ready_among state.tasks state.dag.tasks

-- _replace_task
abbrev pub replace_in : MainHarnessTask → List MainHarnessTask → List MainHarnessTask
replace_in task tasks = map (λ item. if item.task_id == task.task_id then task else item) tasks

pub replace_task : ℕ → MainHarnessState → MainHarnessTask → MainHarnessState
replace_task now state task = record state { tasks = replace_in task state.tasks; updated_at = now }

-- the body of the loop of `_unlock_dependents`, on the values of `by_id` and `changed`
pub unlock_one : DagTaskNode → List MainHarnessTask × Bool → Result (List MainHarnessTask × Bool)
unfolding all_completed
unlock_one node (tasks, changed) = elim (record_of node.id tasks) [
  | none ↦ err key_error
  | some current ↦
      if is_blocked current.status
      then (do
        done ← all_completed tasks node.depends_on
        ok (
            if done
            then (replace_in (record current { status = ready }) tasks, true)
            else (tasks, changed)))
      else ok (tasks, changed)
]

pub unlock_all :
    List DagTaskNode → List MainHarnessTask × Bool → Result (List MainHarnessTask × Bool)
unfolding unlock_one
unlock_all [] s = ok s
unlock_all (node ∷ nodes) s = do s' ← unlock_one node s; unlock_all nodes s'

-- tuple(by_id[item.id] for item in state.dag.tasks)
pub in_dag_order : List MainHarnessTask → List DagTaskNode → Result (List MainHarnessTask)
in_dag_order tasks [] = ok []
in_dag_order tasks (node ∷ nodes) =
    let later = in_dag_order tasks nodes in
    elim (record_of node.id tasks) [
      | none ↦ err key_error
      | some r ↦ (do rest ← later; ok (r ∷ rest))
    ]

pub unlock_dependents : ℕ → MainHarnessState → Result MainHarnessState
unlock_dependents now state = do
  (tasks, changed) ← unlock_all state.dag.tasks (state.tasks, false)
  if changed
      then (do
        ordered ← in_dag_order tasks state.dag.tasks
        ok (record state { tasks = ordered; updated_at = now }))
      else ok state

-- start, without the write to the repository
pub initial_tasks : List DagTaskNode → List MainHarnessTask
initial_tasks [] = []
initial_tasks (node ∷ nodes) =
    record {
      task_id = node.id;
      status = if length node.depends_on == 0 then ready else blocked;
      attempts = 0;
      last_report_id = none;
      last_error = none;
    }
    ∷ initial_tasks nodes

pub initial_state : String → DagTaskTable → ℕ → ℕ → MainHarnessState
unfolding initial_tasks
initial_state problem dag run_id now = record {
  run_id = run_id;
  problem = problem;
  dag = dag;
  tasks = initial_tasks dag.tasks;
  report_ids = [];
  reports = [];
  report_files = [];
  decisions = [];
  final_report = none;
  final_latex_paper = none;
  terminal = false;
  version = 1;
  created_at = now;
  updated_at = now;
}
