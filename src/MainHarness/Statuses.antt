-- ===== src/MainHarness/Statuses.antt =====
-- Which tasks are completed, as the steps of the operations change the tasks' records.
use mm_harness.Prelude.{
  String, Bool, true, false, none, some, List, [], ◌∷◌, all, contains, ◌≡◌, refl, ◌∙◌, arith,
  Option-cases, ◌⊎◌, inl, inr, eq_iff, ◌==◌, string_eq, if◌then◌else◌,
}
use mm_harness.Errors.{ok, >>=-eq-ok, Result-cases}
use mm_harness.Dag.{DagTaskNode, ids}
use mm_harness.MainHarness.{
  MainHarnessTask, ready, is_completed, record_of, all_completed, replace_in, unlock_one,
  unlock_all, in_dag_order,
}

abbrev pub completed_at : List MainHarnessTask → String → Bool
completed_at tasks id = elim (record_of id tasks) [ none ↦ false | some r ↦ is_completed r.status ]

-- The test that `dispatch`, `ready_tasks` and `publish` make returns true just on this.
pub all_completed_sound :
    (tasks : List MainHarnessTask) (ds : List String)
    → all_completed tasks ds ≡ ok true
    → all (completed_at tasks) ds ≡ true
unfolding all_completed
all_completed_sound tasks [] h = refl
all_completed_sound tasks (d ∷ ds) h = ground (arith, all_completed_sound tasks ds)

pub record_of-replace :
    (id : String) (task : MainHarnessTask) (tasks : List MainHarnessTask)
    → record_of id (replace_in task tasks) ≡ elim (record_of id tasks) [
      | none ↦ none
      | some r ↦ if task.task_id == id then some task else some r
    ]
record_of-replace id task [] = refl
record_of-replace id task (t ∷ tasks) = ground (
  arith,
  record_of-replace id task tasks,
  eq_iff t.task_id id,
  eq_iff t.task_id task.task_id,
  eq_iff task.task_id id,
)

pub completed_at-replace :
    (id : String) (task : MainHarnessTask) (tasks : List MainHarnessTask)
    → (completed_at tasks task.task_id ≡ true → is_completed task.status ≡ true)
    → completed_at tasks id ≡ true
    → completed_at (replace_in task tasks) id ≡ true
completed_at-replace id task tasks keep h =
    ground (arith, record_of-replace id task tasks, eq_iff task.task_id id, keep)

-- a task that becomes completed is the one that was replaced
pub completed_at-replaced :
    (id : String) (task : MainHarnessTask) (tasks : List MainHarnessTask)
    → completed_at (replace_in task tasks) id ≡ true
    → (completed_at tasks id ≡ true) ⊎ ((task.task_id ≡ id) × (is_completed task.status ≡ true))
completed_at-replaced id task tasks h =
    ground (arith, record_of-replace id task tasks, eq_iff task.task_id id)

pub record_of-id :
    (id : String) (tasks : List MainHarnessTask) (r : MainHarnessTask)
    → record_of id tasks ≡ some r
    → r.task_id ≡ id
record_of-id id [] r h = cc
record_of-id id (t ∷ tasks) r h = ground (arith, record_of-id id tasks r, eq_iff t.task_id id)

-- Unlocking completes nothing and undoes no completion.
unlock_one-completed :
    (id : String) (node : DagTaskNode) (tasks : List MainHarnessTask) (b : Bool)
    (s' : List MainHarnessTask × Bool)
    → unlock_one node (tasks, b) ≡ ok s'
    → completed_at s'.0 id ≡ completed_at tasks id
unfolding unlock_one
unlock_one-completed id node tasks b s' h = elim (Option-cases (record_of node.id tasks)) [
  | inl e ↦ ground arith
  | inr (r, e) ↦ ground (
    arith,
    record_of-replace id (record r { status = ready }) tasks,
    record_of-id node.id tasks r e,
    eq_iff r.task_id id,
  )
]

pub unlock_all-completed :
    (id : String) (nodes : List DagTaskNode) (s s' : List MainHarnessTask × Bool)
    → unlock_all nodes s ≡ ok s'
    → completed_at s'.0 id ≡ completed_at s.0 id
unfolding unlock_all
unlock_all-completed id [] s s' h = ground arith
unlock_all-completed id (node ∷ nodes) (tasks, b) s' h =
    let (mid, first, rest) = >>=-eq-ok (unlock_one node (tasks, b)) (unlock_all nodes) h in
    unlock_all-completed id nodes mid s' rest ∙ unlock_one-completed id node tasks b mid first

in_dag_order-cons :
    (tasks : List MainHarnessTask) (node : DagTaskNode) (nodes : List DagTaskNode)
    (l : List MainHarnessTask)
    → in_dag_order tasks (node ∷ nodes) ≡ ok l
    → (r : MainHarnessTask) × (rest : List MainHarnessTask) × (record_of node.id tasks ≡ some r)
      × (in_dag_order tasks nodes ≡ ok rest)
      × (l ≡ r ∷ rest)
unfolding in_dag_order
in_dag_order-cons tasks node nodes l h = elim (Option-cases (record_of node.id tasks)) [
  | inl e ↦ absurd (ground (arith, e, h))
  | inr (r, e) ↦ elim (Result-cases (in_dag_order tasks nodes)) [
    | inl (x, f) ↦ absurd (ground (arith, e, f, h))
    | inr (rest, f) ↦ (r, rest, e, f, ground (arith, e, f, h))
  ]
]

pub in_dag_order-record :
    (id : String) (tasks : List MainHarnessTask) (nodes : List DagTaskNode)
    (l : List MainHarnessTask)
    → in_dag_order tasks nodes ≡ ok l
    → record_of id l ≡ (if contains id (ids nodes) then record_of id tasks else none)
in_dag_order-record id tasks [] l h = unfold in_dag_order in ground arith
in_dag_order-record id tasks (node ∷ nodes) l h =
    let (r, rest, found, later, split) = in_dag_order-cons tasks node nodes l h in
    ground (
      arith,
      in_dag_order-record id tasks nodes rest later,
      record_of-id node.id tasks r found,
      eq_iff node.id id,
      eq_iff id node.id,
    )
