-- ===== src/MainHarness/Closed.antt =====
-- The invariant of a run that no replan has touched: a completed task has completed dependencies.
-- Here are its definition and the effect of the steps that `dispatch` and `publish` are made of.
use mm_harness.Prelude.{
  ℕ, String, Bool, true, false, ◌&&◌, List, [], ◌∷◌, all, contains, ◌≡◌, refl, sym, ◌∙◌, ap, arith,
  subst, fun_ext, &&-right, ◌⊎◌, inl, inr, string_eq,
}
use mm_harness.Errors.{ok, Result-cases}
use mm_harness.Dag.{DagTaskNode, ids, subset}
use mm_harness.Dag.Counting.{deps_of}
use mm_harness.MainHarness.{
  MainHarnessTask, MainHarnessState, is_completed, replace_in, replace_task, unlock_all,
  in_dag_order, unlock_dependents,
}
use mm_harness.MainHarness.Statuses.{
  completed_at, completed_at-replace, completed_at-replaced, unlock_all-completed,
  in_dag_order-record,
}

pub record IsClosed (state : MainHarnessState) : Type 0 where
  pub known : (id : String) → subset (deps_of id state.dag.tasks) (ids state.dag.tasks) ≡ true
  pub closed :
      (id : String)
      → completed_at state.tasks id ≡ true
      → all (completed_at state.tasks) (deps_of id state.dag.tasks) ≡ true

all_mono :
    (p q : String → Bool) (ds : List String)
    → ((d : String) → p d ≡ true → q d ≡ true)
    → all p ds ≡ true
    → all q ds ≡ true
all_mono p q [] keep h = refl
all_mono p q (d ∷ ds) keep h = ground (arith, keep d, all_mono p q ds keep)

-- One task is replaced: by a record that is not completed, where it was not; or by a completed one,
-- where its dependencies are completed.
module _ (now : ℕ) (state : MainHarnessState) (task : MainHarnessTask)
    (keep : completed_at state.tasks task.task_id ≡ true → is_completed task.status ≡ true) where
  pub replace_mono :
      (ds : List String)
      → all (completed_at state.tasks) ds ≡ true
      → all (completed_at (replace_task now state task).tasks) ds ≡ true
  unfolding replace_task
  replace_mono ds =
      all_mono (completed_at state.tasks) (completed_at (replace_in task state.tasks)) ds
        (λ d. completed_at-replace d task state.tasks keep)

  pub replace-IsClosed :
      (is_completed task.status ≡ true
        → all (completed_at state.tasks) (deps_of task.task_id state.dag.tasks) ≡ true)
      → IsClosed state
      → IsClosed (replace_task now state task)
  unfolding replace_task
  replace-IsClosed done inv = record {
    known = inv.known;
    closed = λ id h.
        replace_mono (deps_of id state.dag.tasks)
          (elim (completed_at-replaced id task state.tasks h) [
            | inl before ↦ inv.closed id before
            | inr (same, now_done) ↦
                subst (λ j. all (completed_at state.tasks) (deps_of j state.dag.tasks) ≡ true) same
                  (done now_done)
          ]);
  }

ordered_completed :
    (id : String) (tasks : List MainHarnessTask) (nodes : List DagTaskNode)
    (l : List MainHarnessTask)
    → in_dag_order tasks nodes ≡ ok l
    → completed_at l id ≡ (contains id (ids nodes) && completed_at tasks id)
ordered_completed id tasks nodes l h = ground (arith, in_dag_order-record id tasks nodes l h)

all-within :
    (p : String → Bool) (known ds : List String)
    → subset ds known ≡ true
    → all p ds ≡ true
    → all (λ d. contains d known && p d) ds ≡ true
all-within p known [] s h = refl
all-within p known (d ∷ ds) s h = ground (arith, all-within p known ds)

-- What `_unlock_dependents` returns: the state itself, or its tasks unlocked and in the graph's order.
unlock_cases :
    (now : ℕ) (state after : MainHarnessState)
    → unlock_dependents now state ≡ ok after
    → (after ≡ state)
      ⊎ ((mid ordered : List MainHarnessTask) × (unlock_all state.dag.tasks (state.tasks, false)
            ≡ ok (mid, true))
          × (in_dag_order mid state.dag.tasks ≡ ok ordered)
          × (after ≡ record state { tasks = ordered; updated_at = now }))
unfolding unlock_dependents
unlock_cases now state after h =
    elim (Result-cases (unlock_all state.dag.tasks (state.tasks, false))) [
      | inl (e, f) ↦ absurd (ground (arith, f, h))
      | inr ((mid, false), f) ↦ inl (ground (arith, f, h))
      | inr ((mid, true), f) ↦ elim (Result-cases (in_dag_order mid state.dag.tasks)) [
        | inl (e, g) ↦ absurd (ground (arith, f, g, h))
        | inr (ordered, g) ↦ inr (mid, ordered, f, g, ground (arith, f, g, h))
      ]
    ]

closed_within :
    (state : MainHarnessState) (tasks : List MainHarnessTask)
    → IsClosed state
    → ((id : String)
        → completed_at tasks id
          ≡ (contains id (ids state.dag.tasks) && completed_at state.tasks id))
    → (id : String) → completed_at tasks id ≡ true
    → all (completed_at tasks) (deps_of id state.dag.tasks) ≡ true
closed_within state tasks inv same id h =
    let known = ids state.dag.tasks in
    rw (fun_ext same) (
      all-within (completed_at state.tasks) known (deps_of id state.dag.tasks) (inv.known id) (
        inv.closed id
          (&&-right (contains id known) (completed_at state.tasks id) (sym (same id) ∙ h))))

-- unlocking keeps the invariant
pub unlock-IsClosed :
    (now : ℕ) (state after : MainHarnessState)
    → IsClosed state
    → unlock_dependents now state ≡ ok after
    → IsClosed after
unlock-IsClosed now state after inv h = elim (unlock_cases now state after h) [
  | inl same ↦ subst IsClosed (sym same) inv
  | inr (mid, ordered, unlocked, listed, same) ↦ subst IsClosed (sym same) (record {
    known = inv.known;
    closed = closed_within state ordered inv (λ id.
        ordered_completed id mid state.dag.tasks ordered listed
        ∙ ap (λ b. contains id (ids state.dag.tasks) && b)
            (unlock_all-completed id state.dag.tasks (state.tasks, false) (mid, true) unlocked));
  })
]
