-- ===== src/Solve.antt =====
-- application/solve_problem.py: `SolveProblemService`. Here the steps that its loop is made of; Solve/Rounds has the loop.
pub mod Ports
pub mod Model
pub mod Code
pub mod Start
pub mod Rounds
pub mod Reader
pub mod Tool
pub mod Does
pub mod Steps
pub mod Counts
pub mod History
pub mod Ending
pub mod Samples
pub mod ReaderSamples
use Prim.Native.String.{◌++◌ as concat}
use mm_harness.Prelude.{
  ℕ, zero, suc, ◌+◌, ◌-◌, max, min, String, Bool, true, false, not, ◌&&◌, ◌||◌, Option, none, some,
  List, [], ◌∷◌, ◌++◌, map, select, find, codes, occurs, text_length, take_text, ◌==◌, string_eq,
  if◌then◌else◌,
}
use mm_harness.Errors.{value_error, type_error, overflow_error}
use mm_harness.Json.{
  Json, null, boolean, integer, real, string, array, object, pos, negsuc, nil, item, Fields, end,
  field, get, put, without,
}
use mm_harness.Reports.{
  ReadOnlyFileRole, problem_file, input_file, dependency_solution, dependency_output, generated,
  reference, ReadOnlyFileReference,
}
use mm_harness.MainHarness.Disclosure.{
  SolveProblemContext, no_context, supplied_or_none, slashes, put_file, merge_files, texts_json,
}
use mm_harness.MainHarness.Task.{SolveProblemTask}
use mm_harness.Solve.Ports.{
  HumanInterrupt, Raised, error, interrupt, text_of, Outcome, returned, raised, Run, pure, raise,
  continue_with, ◌>>=◌, ◌>>◌, handled, attempt, provided, ControlKind, suggestion,
  interrupt_command, Truncated, whole, infinite, not_a_number, HumanCommand, HumanControl,
  ArchivePort, ProbePort, Service,
}

-- MAX_REVISION_ROUNDS
abbrev pub max_revision_rounds : ℕ
max_revision_rounds = 2

-- bool(value), where a float is the text of its `repr`
abbrev pub is_true : Json → Bool
is_true null = false
is_true (boolean b) = b
is_true (integer (pos zero)) = false
is_true (integer _) = true
is_true (real s) = not (s == "0.0" || s == "-0.0")
is_true (string s) = not (s == "")
is_true (array nil) = false
is_true (array (item j js)) = true
is_true (object end) = false
is_true (object (field k j fs)) = true

-- metadata.get("run_id"), if it is true
abbrev pub run_id_of : SolveProblemContext → Option Json
run_id_of context = elim (get "run_id" context.metadata) [
  | none ↦ none
  | some v ↦ if is_true v then some v else none
]

-- `cursor_value`, where a bool is an `int`
abbrev pub cursor_of : Option Json → ℕ
cursor_of (some (integer (pos n))) = n
cursor_of (some (boolean true)) = 1
cursor_of _ = 0

abbrev pub role_text : ReadOnlyFileRole → String
role_text problem_file = "problem"
role_text input_file = "input"
role_text dependency_solution = "dependency_solution"
role_text dependency_output = "dependency_output"
role_text generated = "generated"
role_text reference = "reference"

abbrev pub is_interrupt : HumanCommand → Bool
is_interrupt c = elim c.kind [ interrupt_command ↦ true | suggestion ↦ false ]

-- the greatest of the cursor and the commands' sequence numbers
unfoldable pub next_cursor : ℕ → List HumanCommand → ℕ
next_cursor cursor [] = cursor
next_cursor cursor (c ∷ cs) = next_cursor (max cursor c.sequence) cs

-- the instructions, and behind them the suggestions
unfoldable pub suggested : String → List String → List HumanCommand → List String
suggested stage instructions [] = instructions
suggested stage instructions (c ∷ cs) =
    suggested stage
      (if is_interrupt c
        then instructions
        else instructions
          ++ concat (concat "[Human operator suggestion at " stage) (concat "] " c.message) ∷ [])
      cs

abbrev pub updated : String → ℕ → List HumanCommand → SolveProblemContext → SolveProblemContext
updated stage cursor commands context = record context {
  instructions = suggested stage context.instructions commands;
  metadata =
      put "human_control_cursor" (integer (pos (next_cursor cursor commands))) context.metadata;
}

module _ {W : Type 0} (service : Service W) (task : SolveProblemTask) where
  open service use {
    archive_writer, probe_writer, human_control, number_text, value_text, uuid_of, int_text,
    truncated,
  }

  -- UUID(text)
  abbrev pub parsed : String → Run W ℕ
  parsed text =
      provided (uuid_of text) (raise (error value_error "badly formed hexadecimal UUID string"))
        pure

  unfoldable pub publish : String → Option ℕ → String → String → String → Fields → Run W (Unit {0})
  publish run iteration event actor status details = provided human_control (pure tt) (λ control.
      control.publish_status run task.task_id (task.revision + 1) iteration event actor status
        details)

  unfoldable pub record_probe :
      String → Option ℕ → String → String → String → Fields → Run W (Unit {0})
  record_probe run iteration event actor status details = provided probe_writer (pure tt) (λ write.
      parsed run >>= λ id.
      write id task.task_id (task.revision + 1) iteration event actor status details)

  -- _probe
  unfoldable pub probe :
      SolveProblemContext → Option ℕ → String → String → String → Fields → Run W (Unit {0})
  probe context iteration event actor status details =
      provided (run_id_of context) (pure tt) (λ raw.
        publish (value_text raw) iteration event actor status details
        >> record_probe (value_text raw) iteration event actor status details)

  -- the probes of the loop over the commands
  unfoldable pub probe_commands :
      SolveProblemContext → Option ℕ → String → List HumanCommand → Run W (Unit {0})
  probe_commands context iteration stage [] = pure tt
  probe_commands context iteration stage (c ∷ cs) =
      (if is_interrupt c
        then probe context iteration "human_interrupt_requested" "Human Operator" "received" (
            field "stage" (string stage)
              (field "sequence" (integer (pos c.sequence)) (field "reason" (string c.message) end)))
        else probe context iteration "human_suggestion" "Human Operator" "received" (
            field "stage" (string stage) (
              field "sequence" (integer (pos c.sequence))
                (field "message" (string c.message) end))))
      >> probe_commands context iteration stage cs

  -- from `commands = ...` on
  unfoldable pub consume :
      HumanControl W
      → SolveProblemContext
      → Option ℕ
      → String
      → String
      → List HumanCommand
      → Run W SolveProblemContext
  consume control context iteration stage run [] = control.is_interrupted run >>= λ stopped.
      if stopped
      then raise (
          interrupt (record {
            iteration = iteration;
            reason = "operator requested interrupt";
            context = some context;
          }))
      else pure context
  consume control context iteration stage run (c ∷ cs) =
      let after =
        updated stage (cursor_of (get "human_control_cursor" context.metadata)) (c ∷ cs) context in
      probe_commands context iteration stage (c ∷ cs)
      >> provided (find is_interrupt (c ∷ cs)) (pure after) (λ i.
        raise
          (interrupt (record { iteration = iteration; reason = i.message; context = some after })))

  -- _control_checkpoint
  unfoldable pub control_checkpoint :
      SolveProblemContext → Option ℕ → String → Run W SolveProblemContext
  control_checkpoint context iteration stage = provided human_control (pure context) (λ control.
      provided (run_id_of context) (pure context) (λ raw.
        control.pending (value_text raw) (cursor_of (get "human_control_cursor" context.metadata))
        >>= consume control context iteration stage (value_text raw)))

  -- _archive
  unfoldable pub archive :
      SolveProblemContext
      → ℕ
      → String
      → String
      → String
      → String
      → ReadOnlyFileRole
      → Run W SolveProblemContext
  archive context iteration stage name markdown purpose role =
      provided archive_writer (pure context) (λ write.
        provided (run_id_of context) (pure context) (λ raw. do
          id ← parsed (value_text raw)
          file ←
              write id task.task_id (task.revision + 1) iteration stage name markdown purpose role
          probe context (some iteration) "context_projection_updated" "Main Harness" "recorded" (
              field "stage" (string stage) (
                field "path" (string file.relative_path)
                  (field "role" (string (role_text file.role)) end)))
          pure (record context {
            readonly_files = put_file file (merge_files [] context.readonly_files);
          })))

  -- _record_context_marker, on its two channels
  unfoldable pub record_context_marker :
      SolveProblemContext → ℕ → String → String → String → Run W SolveProblemContext
  record_context_marker context iteration actor message channel =
      probe context (some iteration) "context_marker" actor "recorded" (
        field "channel" (string channel) (
          field "message_chars" (integer (pos (text_length message)))
            (field "source_of_truth" (string "handoff-artifact-and-probe-stream") end)))
      >> pure context

  abbrev pub float_int : Truncated → Run W String
  float_int (whole t) = pure t
  float_int infinite = raise (error overflow_error "cannot convert float infinity to integer")
  float_int not_a_number = raise (error value_error "cannot convert float NaN to integer")

  -- int(metadata.get("task_attempt", task.revision + 1)), as the text that it is written with
  unfoldable pub attempt_text : Option Json → Run W String
  attempt_text none = pure (number_text (task.revision + 1))
  attempt_text (some (integer n)) = pure (value_text (integer n))
  attempt_text (some (boolean true)) = pure (number_text 1)
  attempt_text (some (boolean false)) = pure (number_text 0)
  attempt_text (some (string s)) =
      provided (int_text s) (raise (error value_error "invalid literal for int() with base 10"))
        pure
  attempt_text (some (real s)) = float_int (truncated s)
  attempt_text (some _) =
      raise
        (error type_error "int() argument must be a string, a bytes-like object or a real number")

  -- metadata.update, for a run and an attempt
  abbrev pub bound_to : SolveProblemContext → Fields → String → String → SolveProblemContext
  bound_to context metadata run attempt =
      let name = elim (get "run_name" metadata) as (λ o. String) [
        | none ↦ run
        | some j ↦ value_text j
      ] in
      let session =
        concat (concat "m2h-main-" run)
          (concat (concat "-" task.task_id) (concat "-attempt-" attempt)) in
      record context {
        metadata =
            put "context_policy"
              (string
                "read current typed fields and allowlisted exchange paths; do not expect conversation history in metadata")
              (put "context_event_log"
                (string (concat (concat "reports/runs/" name) "/probe.ndjson"))
                (put "context_session_id" (string session) (
                  put "context_model"
                    (string
                      "durable probes and handoff artifacts; typed projection, not transcript replay")
                    (put "context_owner" (string "main-harness") metadata))));
      }

  -- _prepare_context
  unfoldable pub prepare_context : SolveProblemContext → Run W SolveProblemContext
  unfolding attempt_text
  prepare_context context =
      let metadata = without ("model_conversation" ∷ "code_conversation" ∷ []) context.metadata in
      let cleared = record context { metadata = metadata } in
      provided (run_id_of cleared) (pure cleared) (λ raw.
        attempt_text (get "task_attempt" metadata) >>= λ attempt.
        pure (bound_to context metadata (value_text raw) attempt))

  -- _archive_files
  unfoldable pub archive_files : SolveProblemContext → List ReadOnlyFileReference
  archive_files context =
      select
        (λ f.
          occurs (codes (concat (concat "/tasks/" task.task_id) "/"))
            (codes "/" ++ slashes (codes f.relative_path))
          && occurs (codes "/exchanges/") (slashes (codes f.relative_path)))
        context.readonly_files

  -- try: first, except Exception: _probe(..., "failed", ...), raise
  unfoldable pub guarded :
      {A : Type 0} → SolveProblemContext → ℕ → String → String → Fields → Run W A → Run W A
  guarded context iteration event actor details first = attempt first (λ e.
      probe context (some iteration) event actor "failed"
        (field "error" (string (take_text 2_000 (text_of e))) details)
      >> raise e)
