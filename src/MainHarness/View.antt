-- ===== src/MainHarness/View.antt =====
-- application/main_harness.py: `todo_view`, what an operator is shown of a run.
use mm_harness.Prelude.{
  ℕ, String, Bool, Option, none, some, List, [], ◌∷◌, contains, length, string_eq, ◌≡◌, map, arith,
  Option-cases, inl, inr,
}
use mm_harness.Errors.{Result, ok, err, key_error, ◌>>=◌, Result-cases}
use mm_harness.Json.{Json, get}
use mm_harness.Dag.{DagTaskKind, DagTaskNode}
use mm_harness.MainHarness.{
  MainTaskStatus, MainHarnessTask, MainHarnessState, record_of, ready_tasks,
}

pub record TodoEntry : Type 0 where
  pub task_id : String
  pub title : String
  pub kind : DagTaskKind
  pub status : MainTaskStatus
  pub depends_on : List String
  pub scope : Option Json
  pub ready : Bool

pub record TodoView : Type 0 where
  pub run_id : ℕ
  pub todo : List TodoEntry
  pub next_ready : List String
  pub report_file_count : ℕ
  pub terminal : Bool
  pub version : ℕ

abbrev pub entry_of : List String → DagTaskNode → MainHarnessTask → TodoEntry
entry_of executable node r = record {
  task_id = node.id;
  title = node.title;
  kind = node.kind;
  status = r.status;
  depends_on = node.depends_on;
  scope = get "scope" node.metadata;
  ready = contains node.id executable;
}

unfoldable pub todo_entries :
    List String → List MainHarnessTask → List DagTaskNode → Result (List TodoEntry)
todo_entries executable tasks [] = ok []
todo_entries executable tasks (node ∷ nodes) =
    let later = todo_entries executable tasks nodes in
    elim (record_of node.id tasks) [
      | none ↦ err key_error
      | some r ↦ (later >>= (λ rest. ok (entry_of executable node r ∷ rest)))
    ]

unfoldable pub todo_view : MainHarnessState → Result TodoView
todo_view state = do
  executable ← ready_tasks state
  entries ← todo_entries executable state.tasks state.dag.tasks
  ok (record {
    run_id = state.run_id;
    todo = entries;
    next_ready = executable;
    report_file_count = length state.report_files;
    terminal = state.terminal;
    version = state.version;
  })

-- an entry for each node, in the order of the table
todo_entries-ids :
    (executable : List String) (tasks : List MainHarnessTask) (nodes : List DagTaskNode)
    (entries : List TodoEntry)
    → todo_entries executable tasks nodes ≡ ok entries
    → map (λ e. e.task_id) entries ≡ map (λ n. n.id) nodes
unfolding todo_entries
todo_entries-ids executable tasks [] entries h = ground (arith, h)
todo_entries-ids executable tasks (node ∷ nodes) entries h =
    elim (Option-cases (record_of node.id tasks)) [
      | inl e ↦ absurd (ground (arith, e, h))
      | inr (r, e) ↦ elim (Result-cases (todo_entries executable tasks nodes)) [
        | inl (x, f) ↦ absurd (ground (arith, e, f, h))
        | inr (rest, f) ↦ ground (arith, e, f, h, todo_entries-ids executable tasks nodes rest f)
      ]
    ]
