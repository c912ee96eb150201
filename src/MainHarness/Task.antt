-- ===== src/MainHarness/Task.antt =====
-- The `SolveProblemTask` that dispatch of application/main_harness.py builds from a node.
use mm_harness.Prelude.{
  ℕ, ◌-◌, String, ◌&&◌, ◌||◌, Option, some, List, [], ◌∷◌, ltb, leb, text_length, is_blank, ◌==◌,
  string_eq, if◌then◌else◌,
}
use mm_harness.Errors.{Result, ok, err, value_error, ◌>>=◌, ◌>>◌, raise_if}
use mm_harness.Json.{Json, ℤ, pos, negsuc, boolean, integer, string, Fields, get}
use mm_harness.Dag.{DagTaskNode}
use mm_harness.MainHarness.{MainHarnessState}
use mm_harness.MainHarness.Disclosure.{SolveProblemContext}

pub data ExplorationMode : Type 0 where
  auto single multi : ExplorationMode

pub record SolveProblemTask : Type 0 where
  pub task_id : String
  pub title : String
  pub problem : String
  pub dependencies : List String
  pub requested_outputs : List String
  pub difficulty : ℕ
  pub exploration_mode : ExplorationMode
  pub max_branches : ℕ
  pub revision : ℕ
  pub metadata : Fields

-- The idempotency key, f"main-harness:{run_id}:{task_id}:attempt-{attempt}", by its parts.
pub record SolveCall : Type 0 where
  pub run_id : ℕ
  pub attempt : ℕ
  pub task : SolveProblemTask
  pub context : SolveProblemContext
  pub max_iterations : ℕ

-- int(metadata.get(key, default)) if it is an `int`, which a `bool` is too
abbrev pub number_or : ℤ → Option Json → ℤ
number_or default (some (integer n)) = n
number_or default (some (boolean b)) = if b then pos 1 else pos 0
number_or default _ = default

-- a field of type `int` with bounds that are not negative
abbrev pub bounded : ℕ → ℕ → ℤ → Result ℕ
bounded low high (pos n) = if leb low n && leb n high then ok n else err value_error
bounded low high (negsuc n) = err value_error

abbrev pub mode_or_auto : Option Json → Result ExplorationMode
mode_or_auto (some (string s)) =
    if s == "auto"
    then ok auto
    else if s == "single"
    then ok single
    else if s == "multi"
    then ok multi
    else err value_error
mode_or_auto _ = ok auto

abbrev pub problem_of : Option Json → String → String
problem_of (some (string s)) problem = if is_blank s then problem else s
problem_of _ problem = problem

-- the `SolveProblemTask` of a node, with the bounds of its fields; an attempt past the 21st has a
-- revision out of bounds
unfoldable pub task_of : MainHarnessState → DagTaskNode → ℕ → Result SolveProblemTask
unfolding get is_blank
task_of state node attempt = do
  let problem = problem_of (get "problem" node.metadata) state.problem
  difficulty ← bounded 1 10 (number_or (pos 1) (get "difficulty" node.metadata))
  mode ← mode_or_auto (get "exploration_mode" node.metadata)
  branches ← bounded 1 16 (number_or (pos 3) (get "max_branches" node.metadata))
  revision ← bounded 0 20 (pos (attempt - 1))
  raise_if (ltb 120 (text_length node.id) || ltb 200_000 (text_length problem)) value_error
  ok (record {
    task_id = node.id;
    title = node.title;
    problem = problem;
    dependencies = node.depends_on;
    requested_outputs = node.output_contract ∷ [];
    difficulty = difficulty;
    exploration_mode = mode;
    max_branches = branches;
    revision = revision;
    metadata = node.metadata;
  })
