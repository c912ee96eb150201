-- ===== src/Dag/Counting.antt =====
-- How often an id stands in the lists of the topological sort.
use mm_harness.Prelude.{
  ℕ, ◌+◌, String, true, false, none, some, List, [], ◌∷◌, ◌++◌, ◌≡◌, refl, arith, count,
  count-append, contains, distinct, length, eq_iff, ◌==◌, string_eq, if◌then◌else◌,
}
use mm_harness.Dag.{DagTaskNode, ids, node_of, insert, sort, repeats, children}

-- the dependencies of the task with that id
abbrev pub deps_of : String → List DagTaskNode → List String
deps_of id tasks = elim (node_of id tasks) [ none ↦ [] | some t ↦ t.depends_on ]

-- the dependencies that are not ordered yet
abbrev pub pending : List String → List String → ℕ
pending order [] = 0
pending order (d ∷ ds) = (if contains d order then 0 else 1) + pending order ds

count-insert : (id s : String) (ts : List String) → count id (insert s ts) ≡ count id (s ∷ ts)
unfolding insert
count-insert id s [] = refl
count-insert id s (t ∷ ts) = ground (arith, count-insert id s ts)

pub count-sort : (id : String) (ts : List String) → count id (sort ts) ≡ count id ts
unfolding sort
count-sort id [] = refl
count-sort id (t ∷ ts) = omega (arith, count-insert id t (sort ts), count-sort id ts)

count-repeats :
    (id j d : String) (ds : List String)
    → count id (repeats j d ds) ≡ (if j == id then count d ds else 0)
unfolding repeats
count-repeats id j d [] = ground arith
count-repeats id j d (x ∷ ds) = ground (arith, count-repeats id j d ds)

node_of-none :
    (id : String) (tasks : List DagTaskNode)
    → contains id (ids tasks) ≡ false
    → node_of id tasks ≡ none
node_of-none id [] h = refl
node_of-none id (t ∷ ts) h = ground (arith, node_of-none id ts, eq_iff t.id id, eq_iff id t.id)

count-children_absent :
    (id d : String) (tasks : List DagTaskNode)
    → contains id (ids tasks) ≡ false
    → count id (children d tasks) ≡ 0
unfolding children
count-children_absent id d [] h = refl
count-children_absent id d (t ∷ ts) h = ground (
  arith,
  count-append id (repeats t.id d t.depends_on) (children d ts),
  count-repeats id t.id d t.depends_on,
  count-children_absent id d ts,
  eq_iff t.id id,
  eq_iff id t.id,
)

-- An id is a child of `d` once for each time that its task names `d`.
pub count-children :
    (id d : String) (tasks : List DagTaskNode)
    → distinct (ids tasks) ≡ true
    → count id (children d tasks) ≡ count d (deps_of id tasks)
unfolding children
count-children id d [] h = refl
count-children id d (t ∷ ts) h = ground (
  arith,
  count-append id (repeats t.id d t.depends_on) (children d ts),
  count-repeats id t.id d t.depends_on,
  count-children id d ts,
  count-children_absent t.id d ts,
  eq_iff t.id id,
)

contains-append_one :
    (x c : String) (order : List String)
    → contains x (order ++ c ∷ []) ≡ (if x == c then true else contains x order)
contains-append_one x c [] = ground arith
contains-append_one x c (y ∷ order) = ground (arith, contains-append_one x c order)

-- Ordering one more id settles the dependencies that name it.
pub pending-append :
    (c : String) (order ds : List String)
    → contains c order ≡ false
    → pending order ds ≡ pending (order ++ c ∷ []) ds + count c ds
pending-append c order [] h = omega arith
pending-append c order (d ∷ ds) h =
    ground (arith, pending-append c order ds h, contains-append_one d c order, eq_iff d c)

pub pending-nil : (ds : List String) → pending [] ds ≡ length ds
pending-nil [] = refl
pending-nil (d ∷ ds) = omega (arith, pending-nil ds)
