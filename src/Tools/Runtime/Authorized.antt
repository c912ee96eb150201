-- ===== src/Tools/Runtime/Authorized.antt =====
-- What a call that succeeds has passed.
use mm_harness.Prelude.{
  ℕ, String, true, false, some, ◌≡◌, refl, arith, Bool-cases, Option-cases, inl, inr,
}
use mm_harness.Capability.{CapabilityResolution}
use mm_harness.Tools.{ToolCall, ToolDefinition}
use mm_harness.Tools.Registry.{is_granted}
use mm_harness.Tools.Registry
use mm_harness.Tools.Runtime.{Runtime, RuntimeState, refuse, is_unrestricted, execute}

module _ {S A : Type 0} (runtime : Runtime S A) (now : ℕ) (token : String) (call : ToolCall)
    (resolution : CapabilityResolution) where
  refuse-fails :
      (code message : String) (state : RuntimeState S A)
      → (refuse runtime now token call resolution code message state).0.ok ≡ false
  refuse-fails code message state = elim (Option-cases runtime.audit_sink) [
    | inl e ↦ rw (e, refuse) refl
    | inr (sink, e) ↦ rw (e, refuse) refl
  ]

  -- A call whose result is a success named a registered tool, whose capability the activity was granted, and whose policy
  -- does not ask for the open network, whatever the state, the handlers, the middlewares and the stores.
  pub execute-authorized :
      (state : RuntimeState S A)
      → (execute runtime now token call resolution state).0.ok ≡ true
      → (d : ToolDefinition) × (Registry.get call.tool_name
            (some call.tool_version)
            runtime.definitions
          ≡ some d)
        × (is_granted resolution d ≡ true)
        × (is_unrestricted d ≡ false)
  unfolding execute
  execute-authorized state h =
      elim (Option-cases
        (Registry.get call.tool_name (some call.tool_version) runtime.definitions)) [
          | inl e ↦ absurd (ground (arith, rw (e, execute) at h))
          | inr (d, e) ↦ elim (Bool-cases (is_granted resolution d)) [
            | inr denied ↦ absurd (
                ground (
                  arith,
                  rw (e, denied, execute) at h,
                  refuse-fails "capability_denied" "activity has no grant for this tool" _,
                ))
            | inl granted ↦ elim (Bool-cases (is_unrestricted d)) [
              | inl open_net ↦ absurd (
                  ground (
                    arith,
                    rw (e, granted, open_net, execute) at h,
                    refuse-fails "policy_denied" "unrestricted network tools are not executable" _,
                  ))
              | inr restricted ↦ (d, e, granted, restricted)
            ]
          ]
        ]
