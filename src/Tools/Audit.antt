-- ===== src/Tools/Audit.antt =====
-- infrastructure/db/tool_runs.py: the hash-chained audit of tool calls. The digest and the JSON library
-- are parameters; the event's id and its time are given with each event. The rows stand in the order
-- of their sequence numbers.
pub mod Chain
use Prim.Native.String.{◌++◌ as concat}
use mm_harness.Prelude.{
  ℕ, ◌+◌, String, Bool, true, false, not, ◌&&◌, ◌||◌, Option, none, some, List, [], ◌∷◌, ◌++◌, any,
  select, length, ◌==◌, string_eq, if◌then◌else◌,
}
use mm_harness.Errors.{Error, Result, ok, err, value_error, integrity_error, ◌>>=◌, ◌>>◌, raise_if}
use mm_harness.Json.{
  Json, Items, Fields, object, field, end, string, boolean, null, array, nil, item,
}
use mm_harness.Dag.{sort}
use mm_harness.Tools.{ToolCall, ToolResult}

-- a row of m2_tool_audit
pub record AuditRow : Type 0 where
  pub event_id : String
  pub event_type : String
  pub idempotency_key : String
  pub call_id : String
  pub tool_name : String
  pub occurred_at : String
  pub payload : String
  pub previous_hash : String
  pub event_hash : String

-- "0" * 64
abbrev pub zero_hash : String
zero_hash = "0000000000000000000000000000000000000000000000000000000000000000"

-- the hash of the last row
abbrev pub last_hash : String → List AuditRow → String
last_hash previous [] = previous
last_hash previous (r ∷ rows) = last_hash r.event_hash rows

-- the dictionary whose digest is taken
abbrev pub event_body : String → String → String → String → String → String → Json → String → Json
event_body event_id event_type key call_id tool_name occurred_at payload previous = object (
    field "event_id" (string event_id) (
      field "event_type" (string event_type) (
        field "idempotency_key" (string key) (
          field "call_id" (string call_id) (
            field "tool_name" (string tool_name) (
              field "occurred_at" (string occurred_at)
                (field "payload" payload (field "previous_hash" (string previous) end))))))))

abbrev pub text_or_null : Option String → Json
text_or_null none = null
text_or_null (some s) = string s

abbrev pub items_of : List String → Items
items_of [] = nil
items_of (s ∷ ss) = item (string s) (items_of ss)

abbrev pub keys : Fields → List String
keys end = []
keys (field key value rest) = key ∷ keys rest

module _ (sha256 : String → String) (canonical : Json → String) (loads : String → Json) where
  abbrev pub row_body : AuditRow → Json
  row_body r =
      event_body r.event_id r.event_type r.idempotency_key r.call_id r.tool_name r.occurred_at
        (loads r.payload) r.previous_hash

  -- the row of an event behind the hash `previous`
  abbrev pub new_row : String → ToolCall → Json → String → String → String → AuditRow
  new_row event_type call payload event_id occurred_at previous = record {
    event_id = event_id;
    event_type = event_type;
    idempotency_key = call.idempotency_key;
    call_id = call.call_id;
    tool_name = call.tool_name;
    occurred_at = occurred_at;
    payload = canonical payload;
    previous_hash = previous;
    event_hash = sha256 (
        concat previous (
          canonical (
            event_body event_id event_type call.idempotency_key call.call_id call.tool_name
              occurred_at payload previous)));
  }

  -- _append: both the event's id and its hash are unique in the table
  unfoldable pub append :
      String → ToolCall → Json → String → String → List AuditRow → Result (Unit {0}) × List AuditRow
  append event_type call payload event_id occurred_at rows =
      let added = new_row event_type call payload event_id occurred_at (last_hash zero_hash rows) in
      if any (λ r. r.event_id == event_id || r.event_hash == added.event_hash) rows
      then (err integrity_error, rows)
      else (ok tt, rows ++ added ∷ [])

  unfoldable pub append_called :
      ToolCall → String → String → String → List AuditRow → Result (Unit {0}) × List AuditRow
  append_called call version event_id occurred_at =
      append "tool.called.v1" call
        (object (
          field "tool_version" (string version) (
            field "activity_id" (string call.activity_id) (
              field "session_id" (string call.session_id) (
                field "argument_keys" (array (items_of (sort (keys call.arguments)))) (
                  field "arguments_sha256" (string (sha256 (canonical (object call.arguments))))
                    end))))))
        event_id occurred_at

  unfoldable pub append_completed :
      ToolCall → ToolResult → String → String → List AuditRow → Result (Unit {0}) × List AuditRow
  append_completed call result event_id occurred_at =
      append "tool.completed.v1" call
        (object (
          field "ok" (boolean result.ok) (
            field "error_code" (text_or_null result.error_code) (
              field "artifact_ids" (array (items_of result.artifact_ids))
                (field "redacted" (boolean result.redacted) end)))))
        event_id occurred_at

  -- the loop of `verify`
  unfoldable pub check_chain : String → List AuditRow → Result (Unit {0})
  check_chain previous [] = ok tt
  check_chain previous (r ∷ rows) =
      let expected = sha256 (concat previous (canonical (row_body r))) in
      let later = check_chain r.event_hash rows in
      if not (r.previous_hash == previous) || not (r.event_hash == expected)
      then err value_error
      else later

  unfoldable pub verify : List AuditRow → Result ℕ
  unfolding check_chain
  verify rows = do check_chain zero_hash rows; ok (length rows)
