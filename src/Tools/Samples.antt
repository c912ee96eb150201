-- ===== src/Tools/Samples.antt =====
-- Two workers and one key, and an audit log of one call.
use mathlib.Core.List.{Memᴰ}
use mm_harness.Prelude.{
  String, true, false, none, some, List, [], ◌∷◌, map, ◌≡◌, refl, sym, ap, ◌∙◌, string_eq,
}
use mm_harness.Errors.{ok}
use mm_harness.Json.{Json, object, end, Fields, field, string, integer, pos}
use mm_harness.Tools.{
  ToolCall, ToolResult, ToolDefinition, deny, workspace_write, no_secrets, sandboxed_write,
}
use mm_harness.Tools.Reservations.{ToolRun, reservation, reserve, take_over, complete, close}
use mm_harness.Tools.Audit.{AuditRow, zero_hash, append, new_row, check_chain, verify, row_body}
use mm_harness.Tools.Redaction.{
  redact, redact_after, hides_fields, redact_after-hides, budget_after,
}
use mm_harness.Tools.Registry.{Definitions, register}
use mm_harness.Capability.{CapabilityResolution}
use mm_harness.Tools.Audit.Chain.{said, verify-fixed}

abbrev held : List ToolRun
held = reservation "key" 1_000 "first" ∷ []

-- after the lease, the second worker takes the key over
abbrev taken : List ToolRun
taken = reservation "key" 60_001_001 "second" ∷ []

second_held : reserve "key" 60 "second" 60_001_001 held ≡ (true, taken)
unfolding reserve take_over
second_held = refl

result : ToolResult
result = record {
  call_id = "call";
  tool_name = "solve_problem";
  ok = true;
  output = none;
  error_code = none;
  error_message = none;
  artifact_ids = [];
  completed_at = 60_001_002;
  redacted = false;
}

abbrev settled : List ToolRun
settled = close "key" (some "second") result 60_001_010 taken

second_completed : complete "key" result (some "second") 60_001_010 taken ≡ (ok tt, settled)
unfolding complete
second_completed = refl

-- a digest without collisions, a writer and a reader of one payload
abbrev written : Json → String
written j = "{}"

abbrev read : String → Json
read s = object end

abbrev call : ToolCall
call = record {
  call_id = "call";
  tool_name = "solve_problem";
  tool_version = "1";
  activity_id = "activity";
  session_id = "session";
  idempotency_key = "key";
  arguments = end;
  requested_at = 1_000;
}

abbrev logged : List AuditRow
logged =
    new_row (λ s. s) written read "tool.called.v1" call (object end) "event" "2026-01-01T00:00:00"
      zero_hash
    ∷ []

first_logged :
    append (λ s. s) written read "tool.called.v1" call (object end) "event" "2026-01-01T00:00:00" []
    ≡ (ok tt, logged)
unfolding append
first_logged = refl

empty_verified : verify (λ s. s) written read [] ≡ ok 0
unfolding verify check_chain
empty_verified = refl

-- the same event, with its payload written with a space
abbrev respelled : List AuditRow
respelled =
    record (new_row (λ s. s) written read "tool.called.v1" call (object end) "event"
      "2026-01-01T00:00:00" zero_hash) { payload = "{ }" }
    ∷ []

logged_verified : verify (λ s. s) written read logged ≡ ok 1
unfolding verify check_chain
logged_verified = refl

respelled_verified : verify (λ s. s) written read respelled ≡ ok 1
unfolding verify check_chain
respelled_verified = refl

same_body :
    (r s : AuditRow)
    → Memᴰ r logged
    → Memᴰ s respelled
    → written (row_body (λ x. x) written read r) ≡ written (row_body (λ x. x) written read s)
    → row_body (λ x. x) written read r ≡ row_body (λ x. x) written read s
same_body r s (Memᴰ.head e) (Memᴰ.head f) same =
    ap (row_body (λ x. x) written read) e ∙ sym (ap (row_body (λ x. x) written read) f)
same_body r s (Memᴰ.tail m) n same = elim m [ ]
same_body r s (Memᴰ.head e) (Memᴰ.tail n) same = elim n [ ]

verify-fixed_example :
    map (said (λ x. x) written read) logged ≡ map (said (λ x. x) written read) respelled
verify-fixed_example =
    verify-fixed (λ s. s) written read logged respelled 1 1 (λ r s m n e. e) same_body
      logged_verified respelled_verified refl

-- an answer that holds a token two levels down
abbrev answer : Fields
answer =
    field "session" (object (field "token" (string "t-1") (field "id" (integer (pos 7)) end))) end

abbrev redacted_answer : Fields
redacted_answer =
    field "session"
      (object (field "token" (string "[REDACTED]") (field "id" (integer (pos 7)) end))) end

abbrev answered : ToolResult
answered = record {
  call_id = "call";
  tool_name = "solve_problem";
  ok = true;
  output = some answer;
  error_code = none;
  error_message = none;
  artifact_ids = [];
  completed_at = 60_001_002;
  redacted = false;
}

answer_redacted :
    (redact_after ("token" ∷ []) (λ x y. false) answered).output ≡ some redacted_answer
unfolding redact_after redact
answer_redacted = refl

answer_ok : (redact_after ("token" ∷ []) (λ x y. false) answered).ok ≡ true
unfolding redact_after
answer_ok = refl

redact_after-hides_example : hides_fields ("token" ∷ []) redacted_answer ≡ true
redact_after-hides_example =
    redact_after-hides ("token" ∷ []) (λ x y. false) answered redacted_answer answer_ok
      answer_redacted

budget_kept : budget_after (λ f. 40) 100 answered ≡ answered
unfolding budget_after
budget_kept = refl

abbrev solver : String → ToolDefinition
solver version = record {
  name = "solve_problem";
  version = version;
  description = "Solves one problem.";
  input_schema = end;
  output_schema = end;
  required_capability = record { name = "problem.solve"; version = "1" };
  side_effect = sandboxed_write;
  idempotency_required = true;
  timeout_seconds = none;
  output_limit_bytes = 1_000_000;
  policy = record { network = deny; filesystem = workspace_write; secrets = no_secrets };
}

abbrev one_tool : Definitions
one_tool = solver "1" ∷ []

second_registered : register one_tool (solver "2") ≡ ok (solver "1" ∷ solver "2" ∷ [])
unfolding register
second_registered = refl

abbrev resolution : CapabilityResolution
resolution = record {
  requested = [];
  granted = record { name = "problem.solve"; version = "1" } ∷ [];
  missing = [];
  provider_ids = [];
}
