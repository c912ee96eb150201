-- ===== src/Dag.antt =====
-- domain/dag.py: the task table that the planner hands to the Main Harness, its validation and its
-- topological order. The fields' own constraints (lengths, the pattern of an id) are pydantic's.
pub mod Counting
pub mod Release
pub mod Rounds
pub mod Order
pub mod Validity
pub mod Canonical
pub mod Samples
use Prim.Native.Nat.{Ordering}
use Prim.Native.String.{compare}
use mm_harness.Prelude.{
  ℕ, zero, suc, ◌+◌, ◌-◌, String, Bool, true, false, not, ◌&&◌, ◌||◌, Option, none, some, List, [],
  ◌∷◌, ◌++◌, map, length, any, all, select, find, contains, distinct, ltb, ◌==◌, nat_eq, string_eq,
  if◌then◌else◌, ◌≡◌, ◌↔◌, arith, refl,
}
use mathlib.Core.List.{reverse}
use mm_harness.Errors.{Error, value_error, Result, ok, err, raise_if, ◌>>=◌, ◌>>◌}
use mm_harness.Json.{Fields}

pub data DagTaskKind : Type 0 where
  ingest solve_problem model code review publish_latex : DagTaskKind

pub record DagTaskNode : Type 0 where
  pub id : String
  pub title : String
  pub kind : DagTaskKind
  pub depends_on : List String
  pub dependency_outputs : List (String × List String)
  pub required_capabilities : List String
  pub output_contract : String
  pub terminal : Bool
  pub metadata : Fields

pub record DagTaskTable : Type 0 where
  pub tasks : List DagTaskNode
  pub terminal_task_id : String

abbrev pub is_publish : DagTaskKind → Bool
is_publish publish_latex = true
is_publish _ = false

abbrev pub is_solve : DagTaskKind → Bool
is_solve solve_problem = true
is_solve _ = false

abbrev pub ids : List DagTaskNode → List String
ids tasks = map (λ t. t.id) tasks

-- next((item for item in tasks if item.id == task_id), None), and `nodes[task_id]`
abbrev pub node_of : String → List DagTaskNode → Option DagTaskNode
node_of id tasks = find (λ t. t.id == id) tasks

-- sorted(texts): Python orders texts by code points, and so does `compare`
unfoldable pub before : String → String → Bool
before s t = elim (compare s t) [ Ordering.gt ↦ false | _ ↦ true ]

unfoldable pub insert : String → List String → List String
unfolding before
insert s [] = s ∷ []
insert s (t ∷ ts) = let rest = insert s ts in if before s t then s ∷ t ∷ ts else t ∷ rest

unfoldable pub sort : List String → List String
unfolding insert
sort [] = []
sort (s ∷ ts) = insert s (sort ts)

-- indegree[key] = value
abbrev pub assign : String → ℕ → (String → ℕ) → String → ℕ
assign key value degrees id = if key == id then value else degrees id

-- {task.id: len(task.depends_on) for task in self.tasks}
pub initial_degrees : List DagTaskNode → String → ℕ
initial_degrees tasks id = elim (node_of id tasks) [ none ↦ 0 | some t ↦ length t.depends_on ]

-- children[dependency]: one entry for each time that a task names the dependency
pub repeats : String → String → List String → List String
repeats id dependency [] = []
repeats id dependency (d ∷ ds) =
    let rest = repeats id dependency ds in if d == dependency then id ∷ rest else rest

pub children : String → List DagTaskNode → List String
unfolding repeats
children dependency [] = []
children dependency (t ∷ ts) = repeats t.id dependency t.depends_on ++ children dependency ts

pub record Kahn : Type 0 where
  pub degrees : String → ℕ
  pub ready : List String
  pub order : List String

-- the body of the inner `for` loop
pub release : String → Kahn → Kahn
unfolding sort
release child k =
    let degrees = assign child (k.degrees child - 1) k.degrees in
    record k {
      degrees = degrees;
      ready = if degrees child == 0 then sort (k.ready ++ child ∷ []) else k.ready;
    }

pub release_all : List String → Kahn → Kahn
unfolding release
release_all [] k = k
release_all (child ∷ rest) k = release_all rest (release child k)

-- the body of the `while` loop, after `current = ready.pop(0)`
pub advance : List DagTaskNode → String → List String → Kahn → Kahn
unfolding release_all children
advance tasks current ready k =
    release_all (sort (children current tasks))
      (record k { ready = ready; order = k.order ++ current ∷ [] })

-- `while ready`. Each round orders one more task; that the fuel of `topological_order` lets the
-- loop end by its own test is proved in Dag/Rounds.
pub while_ready : ℕ → List DagTaskNode → Kahn → Kahn
unfolding advance
while_ready zero tasks k = k
while_ready (suc fuel) tasks k = elim k.ready [
  | [] ↦ k
  | current ∷ ready ↦ while_ready fuel tasks (advance tasks current ready k)
]

pub start : List DagTaskNode → Kahn
unfolding initial_degrees sort
start tasks = record {
  degrees = initial_degrees tasks;
  ready = sort (select (λ id. initial_degrees tasks id == 0) (ids tasks));
  order = [];
}

pub final : List DagTaskNode → Kahn
unfolding while_ready start
final tasks = while_ready (suc (length tasks)) tasks (start tasks)

pub topological_order : List DagTaskNode → Result (List String)
unfolding final
topological_order tasks =
    let k = final tasks in if length k.order == length tasks then ok k.order else err value_error

-- the `while stack` loop of `_reachable_from_roots`, the top of the stack first
pub reach : ℕ → List DagTaskNode → List String → List String → List String
unfolding children
reach zero tasks seen stack = seen
reach (suc fuel) tasks seen [] = seen
reach (suc fuel) tasks seen (current ∷ stack) =
    let skipped = reach fuel tasks seen stack in
    let visited = reach fuel tasks (current ∷ seen) (reverse (children current tasks) ++ stack) in
    if contains current seen then skipped else visited

abbrev pub edges : List DagTaskNode → ℕ
edges [] = 0
edges (t ∷ ts) = length t.depends_on + edges ts

abbrev pub is_root : DagTaskNode → Bool
is_root t = length t.depends_on == 0

-- every round pops one id, and an id is pushed as a root or for an edge
pub reachable_from_roots : List DagTaskNode → List String
unfolding reach
reachable_from_roots tasks =
    reach (suc (length tasks + edges tasks)) tasks [] (reverse (ids (select is_root tasks)))

abbrev pub subset : List String → List String → Bool
subset xs ys = all (λ x. contains x ys) xs

-- the `for task in self.tasks` loop of the validator
pub check_dependencies : List String → List DagTaskNode → Result (Unit {0})
check_dependencies known [] = ok tt
check_dependencies known (t ∷ ts) = do
  raise_if (not (subset t.depends_on known)) value_error
  raise_if (contains t.id t.depends_on) value_error
  raise_if (not (subset (map (λ o. o.0) t.dependency_outputs) t.depends_on)) value_error
  check_dependencies known ts

pub check_terminal : List DagTaskNode → String → Result (Unit {0})
check_terminal tasks terminal_id = elim (node_of terminal_id tasks) [
  | none ↦ err value_error
  | some terminal ↦ do
    raise_if (not (is_publish terminal.kind) || not terminal.terminal) value_error
    raise_if (any (λ t. contains terminal_id t.depends_on) tasks) value_error
    let marked = ids (select (λ t. t.terminal) tasks)
    raise_if (not (subset marked (terminal_id ∷ []) && contains terminal_id marked)) value_error
]

abbrev pub last_of : List String → Option String
last_of [] = none
last_of (x ∷ []) = some x
last_of (x ∷ y ∷ ys) = last_of (y ∷ ys)

abbrev pub is_last : String → List String → Bool
is_last id order = elim (last_of order) [ none ↦ false | some x ↦ x == id ]

-- validate_graph_and_publication_terminal, with the bounds on the number of tasks
pub validate : DagTaskTable → Result DagTaskTable
validate dag = do
  raise_if (length dag.tasks == 0 || ltb 100 (length dag.tasks)) value_error
  raise_if (not (distinct (ids dag.tasks))) value_error
  check_dependencies (ids dag.tasks) dag.tasks
  check_terminal dag.tasks dag.terminal_task_id
  order ← topological_order dag.tasks
  raise_if (not (is_last dag.terminal_task_id order)) value_error
  raise_if (not (subset (ids dag.tasks) (reachable_from_roots dag.tasks))) value_error
  ok dag
