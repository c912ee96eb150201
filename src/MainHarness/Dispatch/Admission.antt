-- ===== src/MainHarness/Dispatch/Admission.antt =====
-- Which tasks a dispatch accepts.
use mm_harness.Prelude.{
  ℕ, ◌+◌, ◌≤◌, String, true, Option, none, some, all, ◌≡◌, arith, inl, inr, string_eq,
}
use mm_harness.Errors.{ok, Result-cases}
use mm_harness.Dag.{DagTaskNode, node_of, is_solve}
use mm_harness.MainHarness.{
  MainHarnessTask, MainHarnessState, is_ready, record_of, all_completed, running,
}
use mm_harness.MainHarness.Statuses.{completed_at, all_completed_sound}
use mm_harness.MainHarness.Context.{context_for_dispatch, identified_context}
use mm_harness.MainHarness.Disclosure.{SolveProblemContext}
use mm_harness.MainHarness.Task.{SolveProblemTask, SolveCall, task_of}
use mm_harness.MainHarness.Repository.{Rows}
use mm_harness.MainHarness.Dispatch.{Services, admit, conclude, dispatch}

-- what `dispatch` asks of a task
pub record IsAdmitted (state : MainHarnessState) (task_id : String) (node : DagTaskNode)
    (r : MainHarnessTask) : Type 0 where
  pub node_known : node_of task_id state.dag.tasks ≡ some node
  pub node_solves : is_solve node.kind ≡ true
  pub record_known : record_of task_id state.tasks ≡ some r
  pub record_ready : is_ready r.status ≡ true
  pub deps_checked : all_completed state.tasks node.depends_on ≡ ok true

attempts-le :
    (state : MainHarnessState) (node : DagTaskNode) (attempts : ℕ) (task : SolveProblemTask)
    → task_of state node (attempts + 1) ≡ ok task
    → attempts ≤ 20
unfolding task_of
attempts-le state node attempts task h = ground arith

module _ (services : Services) (now : ℕ) (state : MainHarnessState) where
  admit-ok :
      (task_id : String) (node : DagTaskNode) (r : MainHarnessTask)
      → admit services now state task_id ≡ ok (node, r)
      → IsAdmitted state task_id node r
  unfolding admit
  admit-ok task_id node r h = ground arith

  abbrev pub running_record : MainHarnessTask → MainHarnessTask
  running_record r = record r { status = running; attempts = r.attempts + 1; last_error = none }

  abbrev pub call_of :
      String → MainHarnessTask → SolveProblemTask → SolveProblemContext → ℕ → SolveCall
  call_of task_id r task disclosed max_iterations = record {
    run_id = state.run_id;
    attempt = r.attempts + 1;
    task = task;
    context =
        identified_context services.id_text services.value_text state.run_id task_id
          (r.attempts + 1) disclosed;
    max_iterations = max_iterations;
  }

  -- what a dispatch that returns has found, and how it went on
  pub dispatch-ok :
      (task_id : String) (max_iterations : ℕ) (repository : Option Rows) (after : MainHarnessState)
      → (dispatch services now state task_id max_iterations repository).0 ≡ ok after
      → (node : DagTaskNode) × (r : MainHarnessTask) × (task : SolveProblemTask)
        × (disclosed : SolveProblemContext) × IsAdmitted state task_id node r
        × (task_of state node (r.attempts + 1) ≡ ok task)
        × (context_for_dispatch services.measures state task_id node.depends_on services.context
            ≡ ok disclosed)
        × ((conclude services now state
              (running_record r)
              (r.attempts + 1)
              (services.execute (call_of task_id r task disclosed max_iterations))
              repository).0
            ≡ ok after)
  unfolding dispatch
  dispatch-ok task_id max_iterations repository after h =
      elim (Result-cases (admit services now state task_id)) [
        | inl (e, f) ↦ absurd (ground (arith, f, h))
        | inr ((node, r), f) ↦ elim (Result-cases (task_of state node (r.attempts + 1))) [
          | inl (e, g) ↦ absurd (ground (arith, f, g, h))
          | inr (task, g) ↦
              elim (Result-cases (
                context_for_dispatch services.measures state task_id node.depends_on
                  services.context)) [
                    | inl (e, k) ↦ absurd (ground (arith, f, g, k, h))
                    | inr (disclosed, k) ↦ (
                      node,
                      r,
                      task,
                      disclosed,
                      admit-ok task_id node r f,
                      g,
                      k,
                      ground (arith, f, g, k, h),
                    )
                  ]
        ]
      ]

  -- A dispatch returns only if the id names a `solve_problem` node of the graph whose task is READY
  -- and whose dependencies are all COMPLETED, and, since a revision is at most 20, if the task has had
  -- at most 20 attempts before.
  pub dispatch-admits :
      (task_id : String) (max_iterations : ℕ) (repository : Option Rows) (after : MainHarnessState)
      → (dispatch services now state task_id max_iterations repository).0 ≡ ok after
      → (node : DagTaskNode) × (r : MainHarnessTask) × (node_of task_id state.dag.tasks ≡ some node)
        × (is_solve node.kind ≡ true)
        × (record_of task_id state.tasks ≡ some r)
        × (is_ready r.status ≡ true)
        × (all (completed_at state.tasks) node.depends_on ≡ true)
        × (r.attempts ≤ 20)
  dispatch-admits task_id max_iterations repository after h =
      let (node, r, task, disclosed, found, built, shown, rest) =
        dispatch-ok task_id max_iterations repository after h in
      (
        node,
        r,
        found.node_known,
        found.node_solves,
        found.record_known,
        found.record_ready,
        all_completed_sound state.tasks node.depends_on found.deps_checked,
        attempts-le state node r.attempts task built,
      )
