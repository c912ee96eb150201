-- ===== src/Tools/Runtime/Once.antt =====
-- A key is answered once: what a call in this process has answered, every later call with the key answers too.
use mm_harness.Prelude.{
  ℕ, String, true, false, none, some, ◌∷◌, contains, string_eq, ◌≡◌, ap, ◌∙◌, Option-cases, inl,
  inr,
}
use mm_harness.Capability.{CapabilityResolution}
use mm_harness.Tools.{ToolCall, ToolResult, ToolDefinition}
use mm_harness.Tools.Registry.{is_granted}
use mm_harness.Tools.Registry
use mm_harness.Tools.Runtime.{
  Runtime, RuntimeState, cached, durable_key, audit_called, reserve_call, is_unrestricted, execute,
}
use mm_harness.Tools.Runtime.Kept.{
  admitted, reserve_call-cached, conclude_call-kept, audit_called-completed, audit_called-running,
  Later, Later-keeps,
}

module _ {S A : Type 0} where
  module _ (runtime : Runtime S A) (now : ℕ) (token : String) (call : ToolCall)
      (resolution : CapabilityResolution) (d : ToolDefinition) where
    -- what a call has answered stands under its key, where no durable store keeps the keys
    reserve_call-kept :
        (state : RuntimeState S A)
        → runtime.execution_store ≡ none
        → d.idempotency_required ≡ true
        → contains (durable_key d call) state.running ≡ false
        → cached
            (durable_key d call)
            (reserve_call runtime now token call resolution d state).1.completed
          ≡ some (reserve_call runtime now token call resolution d state).0
    unfolding reserve_call
    reserve_call-kept state store needed free =
        elim (Option-cases (cached (durable_key d call) state.completed)) [
          | inr (r, e) ↦ rw (reserve_call-cached runtime now token call resolution d state r e) e
          | inl e ↦
              rw (e, store, free, reserve_call)
                (conclude_call-kept runtime now token call resolution d
                  (record state { running = durable_key d call ∷ state.running }) store needed)
        ]

  -- A tool that needs a key answers it once in a process without a durable store: whatever the first call with the key
  -- has answered, a later call of the tool with that key is answered the same, however many other calls have been
  -- concluded between the two, of this tool or of others, whoever makes it, and whatever a handler or a middleware would
  -- then answer.
  pub execute-once :
      (runtime later : Runtime S A) (now now2 : ℕ) (token token2 : String) (call again : ToolCall)
      (resolution resolution2 : CapabilityResolution) (d : ToolDefinition)
      (state after : RuntimeState S A)
      → Registry.get call.tool_name (some call.tool_version) runtime.definitions ≡ some d
      → Registry.get again.tool_name (some again.tool_version) later.definitions ≡ some d
      → again.idempotency_key ≡ call.idempotency_key
      → is_granted resolution d ≡ true
      → is_granted resolution2 d ≡ true
      → is_unrestricted d ≡ false
      → d.idempotency_required ≡ true
      → runtime.execution_store ≡ none
      → contains (durable_key d call) state.running ≡ false
      → Later (execute runtime now token call resolution state).1 after
      → (execute later now2 token2 again resolution2 after).0
        ≡ (execute runtime now token call resolution state).0
  execute-once runtime later now now2 token token2 call again resolution resolution2 d state after
        found found2 same granted granted2 restricted needed store free between =
      let called = audit_called runtime now token call resolution d state in
      let first =
        admitted runtime now token call resolution d state found granted restricted needed in
      let result = (execute runtime now token call resolution state).0 in
      let stored : cached (durable_key d call)
            (reserve_call runtime now token call resolution d called).1.completed
          ≡ some (reserve_call runtime now token call resolution d called).0 =
        reserve_call-kept runtime now token call resolution d called store needed
          (rw (audit_called-running runtime now token call resolution d state) free) in
      let kept : cached (durable_key d call) after.completed ≡ some result =
        Later-keeps (durable_key d call) result _ after between (rw first stored) in
      let second =
        admitted later now2 token2 again resolution2 d after found2 granted2 restricted needed in
      let hit : cached (durable_key d again)
            (audit_called later now2 token2 again resolution2 d after).completed
          ≡ some result =
        rw (audit_called-completed later now2 token2 again resolution2 d after, same) kept in
      ap (λ (p : ToolResult × RuntimeState S A). p.0)
        (second
          ∙ reserve_call-cached later now2 token2 again resolution2 d
              (audit_called later now2 token2 again resolution2 d after) result hit)
