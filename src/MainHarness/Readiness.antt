-- ===== src/MainHarness/Readiness.antt =====
-- What `start` and `ready_tasks` make executable.
use mm_harness.Prelude.{
  ℕ, String, Bool, true, false, Option, none, some, List, [], ◌∷◌, all, contains, select, nat_eq,
  ◌≡◌, refl, sym, subst, arith, Bool-cases, Option-cases, List-cases, inl, inr, eq_iff, string_eq,
  if◌then◌else◌, distinct, ◌∙◌,
}
use mm_harness.Errors.{ok, Result-cases}
use mm_harness.Dag.{DagTaskNode, DagTaskTable, is_root, ids, node_of, validate}
use mm_harness.Dag.Counting.{deps_of}
use mm_harness.Dag.Validity.{validate-ok}
use mm_harness.MainHarness.{
  MainHarnessTask, MainHarnessState, is_ready, record_of, all_completed, ready_among, ready_tasks,
  initial_tasks, initial_state,
}
use mm_harness.MainHarness.Statuses.{completed_at, all_completed_sound}
use mm_harness.MainHarness.Closed.{IsClosed}
use mm_harness.MainHarness.Repository.{Rows, row_of, create_row, start}

initial-not_completed :
    (id : String) (nodes : List DagTaskNode) → completed_at (initial_tasks nodes) id ≡ false
unfolding initial_tasks
initial-not_completed id [] = refl
initial-not_completed id (n ∷ ns) = ground (arith, initial-not_completed id ns)

create_row-ok :
    (state after : MainHarnessState) (rows : Rows)
    → (create_row state rows).0 ≡ ok after
    → after ≡ state
unfolding create_row
create_row-ok state after rows h = elim (Option-cases (row_of state.run_id rows)) [
  | inl e ↦ ground (arith, e, h)
  | inr (r, e) ↦ absurd (ground (arith, e, h))
]

start-state :
    (problem : String) (dag : DagTaskTable) (run_id now : ℕ) (repository : Option Rows)
    (state : MainHarnessState)
    → (start problem dag run_id now repository).0 ≡ ok state
    → state ≡ initial_state problem dag run_id now
unfolding start
start-state problem dag run_id now none state h = ground arith
start-state problem dag run_id now (some rows) state h =
    create_row-ok (initial_state problem dag run_id now) state rows h

initial-ready :
    (id : String) (nodes : List DagTaskNode)
    → elim (record_of id (initial_tasks nodes)) [ none ↦ none | some r ↦ some (is_ready r.status) ]
      ≡ elim (node_of id nodes) [ none ↦ none | some n ↦ some (is_root n) ]
unfolding initial_tasks
initial-ready id [] = refl
initial-ready id (n ∷ ns) = ground (arith, initial-ready id ns)

initial-IsClosed :
    (problem : String) (dag : DagTaskTable) (run_id now : ℕ)
    → validate dag ≡ ok dag
    → IsClosed (initial_state problem dag run_id now)
unfolding initial_state
initial-IsClosed problem dag run_id now valid =
    let (same, order, v) = validate-ok dag dag valid in
    record {
      known = v.known;
      closed = λ id h. absurd (ground (arith, initial-not_completed id dag.tasks, h));
    }

-- A run starts closed: none of its tasks is completed, on a graph that `validate` accepts.
pub start-IsClosed :
    (problem : String) (dag : DagTaskTable) (run_id now : ℕ) (repository : Option Rows)
    (state : MainHarnessState)
    → validate dag ≡ ok dag
    → (start problem dag run_id now repository).0 ≡ ok state
    → IsClosed state
start-IsClosed problem dag run_id now repository state valid h =
    subst IsClosed (sym (start-state problem dag run_id now repository state h))
      (initial-IsClosed problem dag run_id now valid)

abbrev pub ready_at : List MainHarnessTask → String → Bool
ready_at tasks id = elim (record_of id tasks) [ none ↦ false | some r ↦ is_ready r.status ]

ready_among_sound :
    (tasks : List MainHarnessTask) (nodes : List DagTaskNode) (listed : List String) (id : String)
    → distinct (ids nodes) ≡ true
    → ready_among tasks nodes ≡ ok listed
    → contains id listed ≡ true
    → (contains id (ids nodes) ≡ true)
      × (ready_at tasks id ≡ true)
      × (all (completed_at tasks) (deps_of id nodes) ≡ true)
unfolding ready_among
ready_among_sound tasks [] listed id once h m = absurd (ground (arith, h, m))
ready_among_sound tasks (n ∷ ns) listed id once h m = elim (Option-cases (record_of n.id tasks)) [
  | inl e ↦ absurd (ground (arith, e, h))
  | inr (r, e) ↦ elim (Result-cases (all_completed tasks n.depends_on)) [
    | inl (x, f) ↦ elim (Result-cases (ready_among tasks ns)) [
      | inl (y, g) ↦ absurd (ground (arith, e, f, g, h))
      | inr (rest, g) ↦ ground (
        arith,
        ready_among_sound tasks ns rest id,
        all_completed_sound tasks n.depends_on,
        e,
        f,
        g,
        h,
        m,
        eq_iff n.id id,
        eq_iff id n.id,
      )
    ]
    | inr (b, f) ↦ elim (Result-cases (ready_among tasks ns)) [
      | inl (y, g) ↦ absurd (ground (arith, e, f, g, h))
      | inr (rest, g) ↦ ground (
        arith,
        ready_among_sound tasks ns rest id,
        all_completed_sound tasks n.depends_on,
        e,
        f,
        g,
        h,
        m,
        eq_iff n.id id,
        eq_iff id n.id,
      )
    ]
  ]
]

-- Every id that `ready_tasks` lists is that of a READY task whose dependencies are completed.
pub ready_tasks_sound :
    (state : MainHarnessState) (listed : List String)
    → distinct (ids state.dag.tasks) ≡ true
    → ready_tasks state ≡ ok listed
    → (id : String) → contains id listed ≡ true
    → (contains id (ids state.dag.tasks) ≡ true)
      × (ready_at state.tasks id ≡ true)
      × (all (completed_at state.tasks) (deps_of id state.dag.tasks) ≡ true)
unfolding ready_tasks
ready_tasks_sound state listed once h id =
    ready_among_sound state.tasks state.dag.tasks listed id once h

own_node :
    (n : DagTaskNode) (ns : List DagTaskNode)
    → distinct (ids (n ∷ ns)) ≡ true
    → (node_of n.id (n ∷ ns) ≡ some n)
      × ((id : String) → contains id (ids ns) ≡ true → node_of id (n ∷ ns) ≡ node_of id ns)
own_node n ns once = (
  ground (arith, eq_iff n.id n.id),
  λ id m. ground (arith, once, m, eq_iff n.id id, eq_iff id n.id),
)

ready_among-step :
    (tasks : List MainHarnessTask) (n : DagTaskNode) (ns : List DagTaskNode) (rest : List String)
    (r : MainHarnessTask)
    → record_of n.id tasks ≡ some r
    → is_ready r.status ≡ is_root n
    → ready_among tasks ns ≡ ok rest
    → ready_among tasks (n ∷ ns) ≡ ok (if is_root n then n.id ∷ rest else rest)
unfolding ready_among all_completed
ready_among-step tasks n ns rest r e same later = elim (List-cases n.depends_on) [
  | inl none_left ↦ ground (arith, e, same, later, none_left)
  | inr (d, ds, more) ↦ ground (arith, e, same, later, more)
]

-- on a fresh run, the records say which tasks are roots
initial-ready_among :
    (all_nodes nodes : List DagTaskNode)
    → distinct (ids nodes) ≡ true
    → ((id : String) → contains id (ids nodes) ≡ true → node_of id all_nodes ≡ node_of id nodes)
    → ready_among (initial_tasks all_nodes) nodes ≡ ok (ids (select is_root nodes))
initial-ready_among all_nodes [] once here = unfold ready_among in refl
initial-ready_among all_nodes (n ∷ ns) once here =
    let (kept, moved) = own_node n ns once in
    let own = here n.id (ground (arith, eq_iff n.id n.id)) ∙ kept in
    let mark = initial-ready n.id all_nodes in
    let later =
      initial-ready_among all_nodes ns (ground (arith, once))
        (λ id m. here id (ground (arith, m)) ∙ moved id m) in
    elim (Option-cases (record_of n.id (initial_tasks all_nodes))) [
      | inl e ↦ absurd (ground (arith, own, mark, e))
      | inr (r, e) ↦
          ready_among-step (initial_tasks all_nodes) n ns _ r e (ground (arith, own, mark, e)) later
          ∙ elim (Bool-cases (is_root n)) [
            | inl root ↦ ground (arith, root)
            | inr inner ↦ ground (arith, inner)
          ]
    ]

initial-ready_tasks :
    (problem : String) (dag : DagTaskTable) (run_id now : ℕ)
    → distinct (ids dag.tasks) ≡ true
    → ready_tasks (initial_state problem dag run_id now) ≡ ok (ids (select is_root dag.tasks))
unfolding ready_tasks initial_state
initial-ready_tasks problem dag run_id now once =
    initial-ready_among dag.tasks dag.tasks once (λ id m. refl)

-- On a graph that `validate` accepts, a run starts with exactly the tasks without dependencies
-- executable: `ready_tasks` lists their ids, in the order of the table.
pub start-ready_tasks :
    (problem : String) (dag : DagTaskTable) (run_id now : ℕ) (repository : Option Rows)
    (state : MainHarnessState)
    → validate dag ≡ ok dag
    → (start problem dag run_id now repository).0 ≡ ok state
    → ready_tasks state ≡ ok (ids (select is_root dag.tasks))
start-ready_tasks problem dag run_id now repository state valid h =
    let (same, order, v) = validate-ok dag dag valid in
    subst (λ s. ready_tasks s ≡ ok (ids (select is_root dag.tasks)))
      (sym (start-state problem dag run_id now repository state h))
      (initial-ready_tasks problem dag run_id now v.unique)
