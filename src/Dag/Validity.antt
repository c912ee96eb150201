-- ===== src/Dag/Validity.antt =====
-- What the validator of a task table has established when it accepts one.
use mm_harness.Prelude.{
  ◌≤◌, String, true, false, List, [], ◌∷◌, contains, count, distinct, length, ◌≡◌, refl, arith, inl,
  inr, eq_iff, nat_eq, string_eq,
}
use mm_harness.Errors.{ok, Result-cases}
use mm_harness.Dag.{
  DagTaskNode, DagTaskTable, ids, subset, topological_order, is_last, check_dependencies,
  check_terminal, reachable_from_roots, validate,
}
use mm_harness.Dag.Counting.{deps_of}
use mm_harness.Dag.Order.{IsOrdered, topological_order_sound}

check_dependencies-known :
    (known : List String) (tasks : List DagTaskNode) (id : String)
    → check_dependencies known tasks ≡ ok tt
    → (subset (deps_of id tasks) known ≡ true) × (contains id (deps_of id tasks) ≡ false)
unfolding check_dependencies
check_dependencies-known known [] id h = (refl, refl)
check_dependencies-known known (t ∷ ts) id h =
    ground (arith, check_dependencies-known known ts id, eq_iff t.id id)

-- the last id of the order is the terminal; no other task is marked terminal, and none depends on it
pub record IsValid (dag : DagTaskTable) (order : List String) : Type 0 where
  pub unique : distinct (ids dag.tasks) ≡ true
  pub known : (id : String) → subset (deps_of id dag.tasks) (ids dag.tasks) ≡ true
  pub no_loop : (id : String) → contains id (deps_of id dag.tasks) ≡ false
  pub terminal_checked : check_terminal dag.tasks dag.terminal_task_id ≡ ok tt
  pub ordered : topological_order dag.tasks ≡ ok order
  pub ends : is_last dag.terminal_task_id order ≡ true
  pub reachable : subset (ids dag.tasks) (reachable_from_roots dag.tasks) ≡ true
  pub size : length dag.tasks ≤ 100

pub validate-ok :
    (dag checked : DagTaskTable)
    → validate dag ≡ ok checked
    → (checked ≡ dag) × (order : List String) × IsValid dag order
unfolding validate
validate-ok dag checked h = elim (Result-cases (check_dependencies (ids dag.tasks) dag.tasks)) [
  | inl (e, f) ↦ absurd (ground (arith, f, h))
  | inr (tt, f) ↦ elim (Result-cases (check_terminal dag.tasks dag.terminal_task_id)) [
    | inl (e, g) ↦ absurd (ground (arith, f, g, h))
    | inr (tt, g) ↦ elim (Result-cases (topological_order dag.tasks)) [
      | inl (e, k) ↦ absurd (ground (arith, f, g, k, h))
      | inr (order, k) ↦ (
        ground (arith, f, g, k, h),
        order,
        record {
          unique = ground (arith, f, g, k, h);
          known = λ id. (check_dependencies-known (ids dag.tasks) dag.tasks id f).0;
          no_loop = λ id. (check_dependencies-known (ids dag.tasks) dag.tasks id f).1;
          terminal_checked = g;
          ordered = k;
          ends = ground (arith, f, g, k, h);
          reachable = ground (arith, f, g, k, h);
          size = ground (arith, f, g, k, h);
        },
      )
    ]
  ]
]

-- A table that the validator accepts is returned as it is. It has at most 100 tasks with distinct
-- ids; no task depends on itself or on an unknown id; `topological_order` returns an order of it that
-- holds each id as often as the table does, so once, with every id behind the ids its task depends
-- on; and that order ends with the publication terminal.
pub validate_sound :
    (dag checked : DagTaskTable)
    → validate dag ≡ ok checked
    → (checked ≡ dag)
      × (length dag.tasks ≤ 100)
      × (distinct (ids dag.tasks) ≡ true)
      × ((id : String)
          → (subset (deps_of id dag.tasks) (ids dag.tasks) ≡ true)
            × (contains id (deps_of id dag.tasks) ≡ false))
      × ((order : List String) × (topological_order dag.tasks ≡ ok order)
          × ((id : String) → count id order ≡ count id (ids dag.tasks))
          × IsOrdered dag.tasks [] order
          × (is_last dag.terminal_task_id order ≡ true))
validate_sound dag checked h =
    let (same, order, v) = validate-ok dag checked h in
    let (counts, behind) = topological_order_sound dag.tasks v.unique order v.ordered in
    (
      same,
      v.size,
      v.unique,
      λ id. (v.known id, v.no_loop id),
      (order, v.ordered, counts, behind, v.ends),
    )
