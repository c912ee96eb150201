-- ===== src/MainHarness/Replan.antt =====
-- replan of application/main_harness.py
pub mod Keeping
use mm_harness.Prelude.{
  ℕ, String, Bool, true, false, not, ◌&&◌, ◌||◌, Option, none, some, List, [], ◌∷◌, ◌++◌, select,
  all, contains, ◌==◌, string_eq, if◌then◌else◌,
}
use mm_harness.Errors.{value_error}
use mm_harness.Dag.{DagTaskNode, DagTaskTable, ids, node_of, sort}
use mm_harness.MainHarness.{
  MainHarnessTask, MainHarnessState, MainTaskStatus, ready, blocked, is_completed, record_of,
}
use mm_harness.MainHarness.Repository.{Action, ◌>>=◌, ◌>>◌, raise_if, commit}

-- the ids without repetition, as `set` has them
abbrev pub unique : List String → List String
unique [] = []
unique (x ∷ xs) = let rest = unique xs in if contains x rest then rest else x ∷ rest

-- `same_node` is pydantic's `==` on two nodes.
module _ (same_node : DagTaskNode → DagTaskNode → Bool) where
  -- old_nodes.get(node.id) == node
  abbrev pub unchanged : List DagTaskNode → DagTaskNode → Bool
  unchanged old node = elim (node_of node.id old) [
    | none ↦ false
    | some previous ↦ same_node previous node
  ]

  abbrev pub completed_before : List MainHarnessTask → DagTaskNode → Bool
  completed_before tasks node = elim (record_of node.id tasks) [
    | none ↦ false
    | some r ↦ is_completed r.status
  ]

  -- `completed`
  unfoldable pub kept : List DagTaskNode → List MainHarnessTask → List DagTaskNode → List String
  kept old tasks new = ids (select (λ n. unchanged old n && completed_before tasks n) new)

  abbrev pub fresh_task : List String → DagTaskNode → MainHarnessTask
  fresh_task completed node = record {
    task_id = node.id;
    status = if all (λ d. contains d completed) node.depends_on then ready else blocked;
    attempts = 0;
    last_report_id = none;
    last_error = none;
  }

  abbrev pub replanned_task : List MainHarnessTask → List String → DagTaskNode → MainHarnessTask
  replanned_task old completed node = elim (record_of node.id old) [
    | none ↦ fresh_task completed node
    | some previous ↦ if contains node.id completed then previous else fresh_task completed node
  ]

  unfoldable pub replanned_tasks :
      List MainHarnessTask → List String → List DagTaskNode → List MainHarnessTask
  replanned_tasks old completed [] = []
  replanned_tasks old completed (node ∷ nodes) =
      replanned_task old completed node ∷ replanned_tasks old completed nodes

  -- sorted(set(old_nodes) ^ new_ids | {node.id for node in dag.tasks if old_nodes.get(node.id) != node})
  unfoldable pub changed_ids : List DagTaskNode → List DagTaskNode → List String
  changed_ids old new = sort (
      unique (
        select (λ id. not (contains id (ids new))) (ids old)
        ++ (select (λ id. not (contains id (ids old))) (ids new)
            ++ ids (select (λ n. not (unchanged old n)) new))))

  unfoldable pub replan : ℕ → MainHarnessState → DagTaskTable → String → Action MainHarnessState
  replan now state dag reason = do
    raise_if state.terminal value_error
    let completed = kept state.dag.tasks state.tasks dag.tasks
    commit now
        (record state {
          dag = dag;
          tasks = replanned_tasks state.tasks completed dag.tasks;
          decisions =
              state.decisions
              ++ record {
                kind = "replan";
                reason = reason;
                affected_task_ids = changed_ids state.dag.tasks dag.tasks;
                created_at = now;
              }
                ∷ [];
          final_report = none;
          final_latex_paper = none;
          terminal = false;
        })
        state.version
