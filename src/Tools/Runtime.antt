-- ===== src/Tools/Runtime.antt =====
-- application/tools.py: `ToolRuntime.execute`. The handlers, the middlewares, the durable store of idempotency keys and
-- the audit sink are interfaces, as in the code; what a sink raises is swallowed, so a sink answers its next state.
pub mod Kept
pub mod Once
pub mod Authorized
pub mod Stored
use Prim.Native.String.{◌++◌ as concat}
use mathlib.Core.List.{reverse}
use mm_harness.Prelude.{
  ℕ, min, String, Bool, true, false, not, ◌&&◌, ◌||◌, Option, none, some, List, [], ◌∷◌, ◌++◌, find,
  any, select, contains, ltb, take_text, ◌==◌, string_eq, if◌then◌else◌,
}
use mm_harness.Errors.{Error, Result, ok, err, value_error, raise_if, ◌>>=◌, ◌>>◌}
use mm_harness.Json.{Json, Fields, object}
use mm_harness.Capability.{CapabilityResolution}
use mm_harness.Tools.{ToolCall, ToolResult, ToolDefinition, NetworkPolicy}
use mm_harness.Tools.Registry.{Definitions, is_granted}
use mm_harness.Tools.Registry
use mm_harness.Tools.Schema.{validate_schema}

-- ToolMiddleware
pub record ToolMiddleware : Type 0 where
  pub before : ToolCall → ToolDefinition → CapabilityResolution → Result (Unit {0})
  pub after : ToolCall → ToolDefinition → ToolResult → Result ToolResult

-- ToolExecutionStore
pub record ToolExecutionStore (S : Type 0) : Type 0 where
  pub lookup : String → S → Result (Option ToolResult)
  pub reserve : String → ℕ → String → S → Result Bool × S
  pub complete : String → ToolResult → String → S → Result (Unit {0}) × S

-- ToolAuditSink
pub record ToolAuditSink (A : Type 0) : Type 0 where
  pub append_called : ToolCall → ToolDefinition → A → A
  pub append_completed : ToolCall → ToolResult → A → A

-- the fields of `ToolRuntime` that a call does not change, and what Python and its libraries answer
pub record Runtime (S A : Type 0) : Type 0 where
  pub definitions : Definitions
  pub handler : ToolDefinition → Fields → Result Json
  pub max_result_bytes : ℕ
  pub middlewares : List ToolMiddleware
  pub execution_store : Option (ToolExecutionStore S)
  pub audit_sink : Option (ToolAuditSink A)
  pub idempotency_lease_seconds : ℕ
  pub equal : Json → Json → Bool
  pub less : Json → Json → Bool
  pub encoded_length : Fields → ℕ
  pub message_of : Error → String

pub record RuntimeState (S A : Type 0) : Type 0 where
  pub completed : List (String × ToolResult)
  pub running : List String
  pub store : S
  pub audit : A

-- _error
abbrev pub error_result : ℕ → ToolCall → String → String → ToolResult
error_result now call code message = record {
  call_id = call.call_id;
  tool_name = call.tool_name;
  ok = false;
  output = none;
  error_code = some code;
  error_message = some message;
  artifact_ids = [];
  completed_at = now;
  redacted = false;
}

abbrev pub cached : String → List (String × ToolResult) → Option ToolResult
cached key [] = none
cached key ((k, r) ∷ rest) = let later = cached key rest in if k == key then some r else later

-- self._completed.pop(key, None)
abbrev pub popped : String → List (String × ToolResult) → List (String × ToolResult)
popped key rows = select (λ p. not (p.0 == key)) rows

abbrev pub durable_key : ToolDefinition → ToolCall → String
durable_key d call = concat d.name (concat "@" (concat d.version (concat ":" call.idempotency_key)))

abbrev pub is_unrestricted : ToolDefinition → Bool
is_unrestricted d = elim d.policy.network [ NetworkPolicy.unrestricted ↦ true | _ ↦ false ]

module _ {S A : Type 0} (runtime : Runtime S A) (now : ℕ) (token : String) (call : ToolCall)
    (resolution : CapabilityResolution) where
  open runtime use {
    definitions, handler, max_result_bytes, middlewares, execution_store, audit_sink,
    idempotency_lease_seconds, equal, less, encoded_length, message_of,
  }

  abbrev pub audit_called : ToolDefinition → RuntimeState S A → RuntimeState S A
  audit_called d state = elim audit_sink [
    | none ↦ state
    | some sink ↦ record state { audit = sink.append_called call d state.audit }
  ]

  -- _audit_completed, and the result that `execute` then returns
  abbrev pub answer : ToolResult → RuntimeState S A → ToolResult × RuntimeState S A
  answer result state = elim audit_sink [
    | none ↦ (result, state)
    | some sink ↦ (result, record state { audit = sink.append_completed call result state.audit })
  ]

  abbrev pub refuse : String → String → RuntimeState S A → ToolResult × RuntimeState S A
  refuse code message state = answer (error_result now call code message) state

  abbrev pub all_before : ToolDefinition → List ToolMiddleware → Result (Unit {0})
  all_before d [] = ok tt
  all_before d (m ∷ ms) = m.before call d resolution >>= λ u. all_before d ms

  abbrev pub object_of : Json → Result Fields
  object_of (object fields) = ok fields
  object_of _ = err value_error

  -- the body of the `try`
  unfoldable pub run_handler : ToolDefinition → Result Fields
  run_handler d = do
    all_before d middlewares
    validate_schema equal less d.input_schema (object call.arguments)
    value ← handler d call.arguments
    output ← object_of value
    validate_schema equal less d.output_schema (object output)
    raise_if (ltb (min d.output_limit_bytes max_result_bytes) (encoded_length output)) value_error
    ok output

  unfoldable pub handled : ToolDefinition → ToolResult
  handled d = elim (run_handler d) [
    | err e ↦ error_result now call "tool_execution_error" (take_text 2_000 (message_of e))
    | ok output ↦ record {
      call_id = call.call_id;
      tool_name = call.tool_name;
      ok = true;
      output = some output;
      error_code = none;
      error_message = none;
      artifact_ids = [];
      completed_at = now;
      redacted = false;
    }
  ]

  -- the middlewares' `after`, in the order that is given
  unfoldable pub all_after : ToolDefinition → List ToolMiddleware → ToolResult → ToolResult
  all_after d [] result = result
  all_after d (m ∷ ms) result = all_after d ms (elim (m.after call d result) [
    | ok r ↦ r
    | err e ↦ error_result now call "tool_middleware_error" (take_text 2_000 (message_of e))
  ])

  -- from the `try` on
  unfoldable pub conclude_call :
      ToolDefinition → Bool → RuntimeState S A → ToolResult × RuntimeState S A
  conclude_call d reserved state =
      let result = all_after d (reverse middlewares) (handled d) in
      let key = durable_key d call in
      let kept = record state {
        completed = (key, result) ∷ state.completed;
        running = select (λ k. not (k == key)) state.running;
      } in
      if not d.idempotency_required then answer result state else elim execution_store [
        | none ↦ answer result kept
        | some ops ↦
            if not reserved
            then answer result kept
            else let (done, store) = ops.complete key result token kept.store in
              elim done as (λ x. ToolResult × RuntimeState S A) [
                | ok u ↦ answer result (record kept { store = store })
                | err e ↦
                    refuse "idempotency_lease_lost" (take_text 2_000 (message_of e))
                      (record kept { store = store; completed = popped key kept.completed })
              ]
      ]

  -- the reservation of the key, where the tool asks for it
  unfoldable pub reserve_call : ToolDefinition → RuntimeState S A → ToolResult × RuntimeState S A
  reserve_call d state =
      let key = durable_key d call in
      elim (cached key state.completed) [
        | some result ↦ (result, state)
        | none ↦ elim execution_store [
          | none ↦
              if contains key state.running
              then refuse "idempotency_in_progress" "another call owns this idempotency key" state
              else conclude_call d false (record state { running = key ∷ state.running })
          | some ops ↦ elim (ops.lookup key state.store) [
            | err e ↦ refuse "idempotency_store_error" (take_text 2_000 (message_of e)) state
            | ok (some result) ↦ (result, state)
            | ok none ↦
                let (reserved, store) =
                  ops.reserve key idempotency_lease_seconds token state.store in
                elim reserved as (λ x. ToolResult × RuntimeState S A) [
                  | err e ↦
                      refuse "idempotency_store_error" (take_text 2_000 (message_of e))
                        (record state { store = store })
                  | ok true ↦ conclude_call d true (record state { store = store })
                  | ok false ↦
                      refuse "idempotency_in_progress" "another worker owns this idempotency key"
                        (record state { store = store })
                ]
          ]
        ]
      ]

  -- execute
  unfoldable pub execute : RuntimeState S A → ToolResult × RuntimeState S A
  execute state = elim (Registry.get call.tool_name (some call.tool_version) definitions) [
    | none ↦ (error_result now call "tool_not_found" "tool is not registered", state)
    | some d ↦
        let called = audit_called d state in
        if not (is_granted resolution d)
        then refuse "capability_denied" "activity has no grant for this tool" called
        else if is_unrestricted d
        then refuse "policy_denied" "unrestricted network tools are not executable" called
        else if d.idempotency_required
        then reserve_call d called
        else conclude_call d false called
  ]
