-- ===== src/MainHarness/Rollback.antt =====
-- rollback of application/main_harness.py
pub mod Closure
pub mod Affected
pub mod Keeps
use mm_harness.Prelude.{
  ℕ, zero, suc, ◌+◌, String, Bool, true, false, not, ◌&&◌, Option, none, some, List, [], ◌∷◌, ◌++◌,
  map, find, any, contains, length, ◌==◌, nat_eq, string_eq, if◌then◌else◌,
}
use Prim.Native.String.{◌++◌ as concat}
use mm_harness.Errors.{value_error}
use mm_harness.Dag.{DagTaskNode, DagTaskTable, ids, sort}
use mm_harness.MainHarness.{MainHarnessTask, MainHarnessState, ready, blocked}
use mm_harness.MainHarness.Repository.{Action, ◌>>=◌, ◌>>◌, raise_if, commit}

-- one run of the `for` loop: the affected ids, and `changed`
unfoldable pub sweep : List DagTaskNode → List String × Bool → List String × Bool
sweep [] s = s
sweep (node ∷ nodes) (affected, changed) = sweep nodes (
    if not (contains node.id affected) && any (λ d. contains d affected) node.depends_on
    then (node.id ∷ affected, true)
    else (affected, changed))

-- the `while changed` loop; every run but the last adds an id, so the fuel that `affected_by` gives
-- is enough
unfoldable pub closure : ℕ → List DagTaskNode → List String → List String
unfolding sweep
closure zero nodes affected = affected
closure (suc fuel) nodes affected =
    let (grown, changed) = sweep nodes (affected, false) in
    let again = closure fuel nodes grown in if changed then again else grown

unfoldable pub affected_by : String → List DagTaskNode → List String
unfolding closure
affected_by task_id nodes = closure (suc (length nodes)) nodes (task_id ∷ [])

unfoldable pub rolled_back :
    String → String → String → List String → MainHarnessTask → MainHarnessTask
rolled_back task_id reason upstream affected item =
    if not (contains item.task_id affected)
    then item
    else if item.task_id == task_id
    then record item { status = ready; last_error = some reason }
    else record item { status = blocked; last_error = some upstream }

-- the new state, before the commit
abbrev pub rolled_state : ℕ → MainHarnessState → String → String → MainHarnessState
rolled_state now state task_id reason =
    let affected = affected_by task_id state.dag.tasks in
    record state {
      tasks =
          map (rolled_back task_id reason (concat "upstream rollback: " task_id) affected)
            state.tasks;
      decisions =
          state.decisions
          ++ record {
            kind = "rollback";
            reason = reason;
            affected_task_ids = sort affected;
            created_at = now;
          }
            ∷ [];
      final_report = none;
      final_latex_paper = none;
      terminal = false;
    }

unfoldable pub rollback : ℕ → MainHarnessState → String → String → Action MainHarnessState
rollback now state task_id reason = do
  raise_if state.terminal value_error
  raise_if (not (contains task_id (ids state.dag.tasks))) value_error
  commit now (rolled_state now state task_id reason) state.version
