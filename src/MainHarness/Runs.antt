-- ===== src/MainHarness/Runs.antt =====
-- The runs that `start`, `dispatch`, `rollback` and `publish` lead to, in any order, with any answers
-- of the tool and of the stores.
use mm_harness.Prelude.{ℕ, String, Option, List, ◌≡◌}
use mm_harness.Errors.{Result, ok}
use mm_harness.Dag.{DagTaskTable, validate}
use mm_harness.Reports.{ReportFileRecord, ReportPayload, ProducedArtifact}
use mm_harness.Publication.{TextTables}
use mm_harness.MainHarness.{MainHarnessState}
use mm_harness.MainHarness.Repository.{Rows, start}
use mm_harness.MainHarness.Dispatch.{Services, dispatch}
use mm_harness.MainHarness.Rollback.{rollback}
use mm_harness.MainHarness.Publish.{publish}
use mm_harness.MainHarness.Closed.{IsClosed}
use mm_harness.MainHarness.Readiness.{start-IsClosed}
use mm_harness.MainHarness.Dispatch.Keeps.{dispatch-IsClosed}
use mm_harness.MainHarness.Rollback.Keeps.{rollback-IsClosed}
use mm_harness.MainHarness.Publish.Gate.{publish-IsClosed}

-- an operation that returned; one that raised has no step, since the caller keeps its state
pub data Step (tables : TextTables) : MainHarnessState → MainHarnessState → Type 0 where
  dispatched :
      (services : Services) (now : ℕ) (state after : MainHarnessState) (task_id : String)
      (max_iterations : ℕ) (repository : Option Rows)
      → (dispatch services now state task_id max_iterations repository).0 ≡ ok after
      → Step tables state after
  rolled_back :
      (now : ℕ) (state after : MainHarnessState) (task_id reason : String)
      (repository : Option Rows)
      → (rollback now state task_id reason repository).0 ≡ ok after
      → Step tables state after
  published :
      (persist : ReportPayload → ProducedArtifact → Result (List ReportFileRecord)) (now : ℕ)
      (state after : MainHarnessState) (report : ReportPayload) (paper : ProducedArtifact)
      (repository : Option Rows)
      → (publish tables persist now state report paper repository).0 ≡ ok after
      → Step tables state after

pub data Reached (tables : TextTables) : MainHarnessState → Type 0 where
  started :
      (problem : String) (dag : DagTaskTable) (run_id now : ℕ) (repository : Option Rows)
      (state : MainHarnessState)
      → validate dag ≡ ok dag
      → (start problem dag run_id now repository).0 ≡ ok state
      → Reached tables state
  continued :
      (state after : MainHarnessState)
      → Reached tables state
      → Step tables state after
      → Reached tables after

step-IsClosed :
    (tables : TextTables) (state after : MainHarnessState)
    → Step tables state after
    → IsClosed state
    → IsClosed after
step-IsClosed tables _ _ (dispatched services now state after task_id n repository h) inv =
    dispatch-IsClosed services now state task_id n repository after inv h
step-IsClosed tables _ _ (rolled_back now state after task_id reason repository h) inv =
    rollback-IsClosed now state after task_id reason repository inv h
step-IsClosed tables _ _ (published persist now state after report paper repository h) inv =
    publish-IsClosed tables persist now state report paper repository after inv h

-- In every state that a run on a valid table reaches by `start`, `dispatch`, `rollback` and `publish`,
-- each COMPLETED task has only COMPLETED dependencies. No run with a `replan` is meant.
pub reached-IsClosed :
    (tables : TextTables) (state : MainHarnessState) → Reached tables state → IsClosed state
reached-IsClosed tables _ (started problem dag run_id now repository state valid h) =
    start-IsClosed problem dag run_id now repository state valid h
reached-IsClosed tables _ (continued state after before step) =
    step-IsClosed tables state after step (reached-IsClosed tables state before)
