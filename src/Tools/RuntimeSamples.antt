-- ===== src/Tools/RuntimeSamples.antt =====
-- A tool that is called twice with one key.
use mm_harness.Tools.Runtime.Kept.{Later}
use mm_harness.Prelude.{ℕ, true, false, none, some, List, [], ◌∷◌, ◌≡◌, refl}
use mm_harness.Errors.{ok}
use mm_harness.Json.{object, end, get}
use mm_harness.Capability.{CapabilityResolution}
use mm_harness.Tools.{
  ToolResult, ToolCall, ToolDefinition, deny, workspace_write, no_secrets, sandboxed_write,
}
use mm_harness.Tools.Reservations.{ToolRun, lookup, reserve, complete, close}
use mm_harness.Tools.Registry.{is_granted}
use mm_harness.Tools.Registry
use mm_harness.Tools.Schema.{validate_schema, validate_value}
use mm_harness.Tools.Runtime.{
  Runtime, RuntimeState, run_handler, handled, all_after, conclude_call, reserve_call,
  is_unrestricted, execute,
}
use mm_harness.Tools.Runtime.Once.{execute-once}
use mm_harness.Tools.Runtime.Authorized.{execute-authorized}
use mm_harness.Tools.Runtime.Stored.{tool_runs}

abbrev solver : ToolDefinition
solver = record {
  name = "solve_problem";
  version = "1";
  description = "Solves one problem.";
  input_schema = end;
  output_schema = end;
  required_capability = record { name = "problem.solve"; version = "1" };
  side_effect = sandboxed_write;
  idempotency_required = true;
  timeout_seconds = none;
  output_limit_bytes = 1_000_000;
  policy = record { network = deny; filesystem = workspace_write; secrets = no_secrets };
}

abbrev grants : CapabilityResolution
grants = record {
  requested = [];
  granted = record { name = "problem.solve"; version = "1" } ∷ [];
  missing = [];
  provider_ids = [];
}

abbrev call : ToolCall
call = record {
  call_id = "c1";
  tool_name = "solve_problem";
  tool_version = "1";
  activity_id = "v";
  session_id = "s";
  idempotency_key = "k";
  arguments = end;
  requested_at = 1;
}

abbrev runtime : Runtime (List ToolRun) ℕ
runtime = record {
  definitions = solver ∷ [];
  handler = λ d arguments. ok (object end);
  max_result_bytes = 100;
  middlewares = [];
  execution_store = none;
  audit_sink = none;
  idempotency_lease_seconds = 60;
  equal = λ x y. true;
  less = λ x y. false;
  encoded_length = λ fields. 2;
  message_of = λ e. "";
}

-- the same tool, over the durable store
abbrev durable : Runtime (List ToolRun) ℕ
durable = record runtime { execution_store = some (tool_runs 5) }

abbrev idle : RuntimeState (List ToolRun) ℕ
idle = record { completed = []; running = []; store = []; audit = 0 }

durable_answers : (execute durable 5 "t" call grants idle).0.ok ≡ true
unfolding execute reserve_call conclude_call handled all_after run_handler validate_schema
    validate_value get Registry.get lookup reserve complete close
durable_answers = refl

-- the first call, one with another key, and the first again
abbrev other_call : ToolCall
other_call = record call { idempotency_key = "other" }

abbrev first_answer : ToolResult × RuntimeState (List ToolRun) ℕ
first_answer = execute runtime 5 "t" call grants idle

abbrev between : RuntimeState (List ToolRun) ℕ
between = (execute runtime 7 "v" other_call grants first_answer.1).1

execute-once_example : (execute runtime 9 "u" call grants between).0 ≡ first_answer.0
unfolding Registry.get
execute-once_example =
    execute-once runtime runtime 5 9 "t" "u" call call grants grants solver idle between refl refl
      refl refl refl refl refl refl refl
      (Later.called runtime 7 "v" other_call grants (Later.here first_answer.1))

execute-authorized_example :
    (d : ToolDefinition) × (Registry.get "solve_problem" (some "1") (solver ∷ []) ≡ some d)
    × (is_granted grants d ≡ true)
    × (is_unrestricted d ≡ false)
execute-authorized_example = execute-authorized durable 5 "t" call grants idle durable_answers
