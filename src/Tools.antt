-- ===== src/Tools.antt =====
-- domain/tool.py: the calls of tools and their results, and the stores of infrastructure/db/tool_runs.py.
pub mod Reservations
pub mod Audit
pub mod Redaction
pub mod Registry
pub mod Schema
pub mod Runtime
pub mod Samples
pub mod RuntimeSamples
use mm_harness.Prelude.{ℕ, String, Bool, Option, List}
use mm_harness.Json.{Fields}
use mm_harness.Capability.{CapabilityRef}

pub record ToolCall : Type 0 where
  pub call_id : String
  pub tool_name : String
  pub tool_version : String
  pub activity_id : String
  pub session_id : String
  pub idempotency_key : String
  pub arguments : Fields
  pub requested_at : ℕ

pub record ToolResult : Type 0 where
  pub call_id : String
  pub tool_name : String
  pub ok : Bool
  pub output : Option Fields
  pub error_code : Option String
  pub error_message : Option String
  pub artifact_ids : List String
  pub completed_at : ℕ
  pub redacted : Bool

-- the literals of a policy and of a side effect
pub data NetworkPolicy : Type 0 where
  deny allowlisted unrestricted : NetworkPolicy

pub data FilesystemPolicy : Type 0 where
  no_files workspace_read workspace_write : FilesystemPolicy

pub data SecretsPolicy : Type 0 where
  no_secrets scoped : SecretsPolicy

pub data SideEffect : Type 0 where
  no_effect sandboxed_write external_write : SideEffect

pub record ToolPolicy : Type 0 where
  pub network : NetworkPolicy
  pub filesystem : FilesystemPolicy
  pub secrets : SecretsPolicy

pub record ToolDefinition : Type 0 where
  pub name : String
  pub version : String
  pub description : String
  pub input_schema : Fields
  pub output_schema : Fields
  pub required_capability : CapabilityRef
  pub side_effect : SideEffect
  pub idempotency_required : Bool
  pub timeout_seconds : Option ℕ
  pub output_limit_bytes : ℕ
  pub policy : ToolPolicy
