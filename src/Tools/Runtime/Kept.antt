-- ===== src/Tools/Runtime/Kept.antt =====
-- What a key has answered stays, whatever is called after it.
use mathlib.Core.List.{reverse}
use mm_harness.Errors.{Result-cases}
use mm_harness.Prelude.{
  ℕ, String, List, [], Bool, ◌==◌, eq_iff, Bool-cases, true, false, none, some, ◌∷◌, contains,
  string_eq, ◌≡◌, refl, ◌∙◌, arith, ==_self, Option-cases, inl, inr,
}
use mm_harness.Capability.{CapabilityResolution}
use mm_harness.Tools.{ToolCall, ToolResult, ToolDefinition}
use mm_harness.Tools.Registry.{is_granted}
use mm_harness.Tools.Registry
use mm_harness.Tools.Runtime.{
  Runtime, RuntimeState, cached, durable_key, popped, answer, all_after, handled,
  ToolExecutionStore, audit_called, conclude_call, reserve_call, is_unrestricted, execute,
}

cached-popped :
    (key other : String) (rows : List (String × ToolResult))
    → (other == key) ≡ false
    → cached key (popped other rows) ≡ cached key rows
cached-popped key other [] apart = refl
cached-popped key other ((k, r) ∷ rows) apart =
    ground
      (arith, apart, cached-popped key other rows, eq_iff k other, eq_iff k key, eq_iff other key)

module _ {S A : Type 0} where
  module _ (runtime : Runtime S A) (now : ℕ) (token : String) (call : ToolCall)
      (resolution : CapabilityResolution) (d : ToolDefinition) (state : RuntimeState S A) where
    -- a call for a registered tool that is granted, and that needs its key
    pub admitted :
        Registry.get call.tool_name (some call.tool_version) runtime.definitions ≡ some d
        → is_granted resolution d ≡ true
        → is_unrestricted d ≡ false
        → d.idempotency_required ≡ true
        → execute runtime now token call resolution state
          ≡ reserve_call runtime now token call resolution d
              (audit_called runtime now token call resolution d state)
    unfolding execute
    admitted found granted restricted needed = rw (found, granted, restricted, needed, execute) refl

    -- and one that needs none
    admitted_plain :
        Registry.get call.tool_name (some call.tool_version) runtime.definitions ≡ some d
        → is_granted resolution d ≡ true
        → is_unrestricted d ≡ false
        → d.idempotency_required ≡ false
        → execute runtime now token call resolution state
          ≡ conclude_call runtime now token call resolution d false
              (audit_called runtime now token call resolution d state)
    unfolding execute
    admitted_plain found granted restricted plain =
        rw (found, granted, restricted, plain, execute) refl

    -- a key that is answered is answered as it was
    pub reserve_call-cached :
        (r : ToolResult)
        → cached (durable_key d call) state.completed ≡ some r
        → reserve_call runtime now token call resolution d state ≡ (r, state)
    unfolding reserve_call
    reserve_call-cached r h = rw (h, reserve_call) refl

    pub conclude_call-kept :
        runtime.execution_store ≡ none
        → d.idempotency_required ≡ true
        → cached
            (durable_key d call)
            (conclude_call runtime now token call resolution d false state).1.completed
          ≡ some (conclude_call runtime now token call resolution d false state).0
    unfolding conclude_call
    conclude_call-kept store needed = elim (Option-cases runtime.audit_sink) [
      | inl e ↦ rw (needed, store, e, conclude_call) (ground (arith, ==_self (durable_key d call)))
      | inr (sink, e) ↦
          rw (needed, store, e, conclude_call) (ground (arith, ==_self (durable_key d call)))
    ]

    pub audit_called-completed :
        (audit_called runtime now token call resolution d state).completed ≡ state.completed
    audit_called-completed = elim (Option-cases runtime.audit_sink) [
      | inl e ↦ rw (e, audit_called) refl
      | inr (sink, e) ↦ rw (e, audit_called) refl
    ]

    pub audit_called-running :
        (audit_called runtime now token call resolution d state).running ≡ state.running
    audit_called-running = elim (Option-cases runtime.audit_sink) [
      | inl e ↦ rw (e, audit_called) refl
      | inr (sink, e) ↦ rw (e, audit_called) refl
    ]

  -- the states that further calls lead to, one after another, of any tools and in any runtimes
  pub data Later : RuntimeState S A → RuntimeState S A → Type 0 where
    here : (state : RuntimeState S A) → Later state state
    called :
        {state between : RuntimeState S A} (runtime : Runtime S A) (now : ℕ) (token : String)
        (call : ToolCall) (resolution : CapabilityResolution)
        → Later state between
        → Later state (execute runtime now token call resolution between).1

  module _ (runtime : Runtime S A) (now : ℕ) (token : String) (call : ToolCall)
      (resolution : CapabilityResolution) (key : String) (r : ToolResult) where
    answer-completed :
        (result : ToolResult) (state : RuntimeState S A)
        → (answer runtime now token call resolution result state).1.completed ≡ state.completed
    answer-completed result state = elim (Option-cases runtime.audit_sink) [
      | inl e ↦ rw (e, answer) refl
      | inr (sink, e) ↦ rw (e, answer) refl
    ]

    conclude_call-plain :
        (d : ToolDefinition) (reserved : Bool) (state : RuntimeState S A)
        → d.idempotency_required ≡ false
        → (conclude_call runtime now token call resolution d reserved state).1.completed
          ≡ state.completed
    unfolding conclude_call
    conclude_call-plain d reserved state e = rw (e, conclude_call, answer-completed) refl

    conclude_call-keeps :
        (d : ToolDefinition) (reserved : Bool) (state : RuntimeState S A)
        → (durable_key d call == key) ≡ false
        → cached key state.completed ≡ some r
        → cached key (conclude_call runtime now token call resolution d reserved state).1.completed
          ≡ some r
    unfolding conclude_call
    conclude_call-keeps d reserved state apart h = elim (Bool-cases d.idempotency_required) [
      | inr e ↦ rw (conclude_call-plain d reserved state e) h
      | inl e ↦ elim (Option-cases runtime.execution_store) [
        | inl f ↦ rw (e, f, conclude_call, answer-completed) (ground (arith, apart, h))
        | inr (ops, f) ↦ elim (Bool-cases reserved) [
          | inr g ↦ rw (e, f, g, conclude_call, answer-completed) (ground (arith, apart, h))
          | inl g ↦
              let key2 = durable_key d call in
              let result =
                all_after runtime now token call resolution d (reverse runtime.middlewares)
                  (handled runtime now token call resolution d) in
              elim (Result-cases (ops.complete key2 result token state.store).0) [
                | inr (u, k) ↦
                    rw (e, f, g, k, conclude_call, answer-completed) (ground (arith, apart, h))
                | inl (x, k) ↦
                    rw (e, f, g, k, conclude_call, answer-completed)
                      (cached-popped key key2 ((key2, result) ∷ state.completed) apart
                        ∙ ground (arith, apart, h))
              ]
        ]
      ]
    ]

    other_key :
        (d : ToolDefinition) (state : RuntimeState S A)
        → cached (durable_key d call) state.completed ≡ none
        → cached key state.completed ≡ some r
        → (durable_key d call == key) ≡ false
    other_key d state free h = elim (Bool-cases (durable_key d call == key)) [
      | inr e ↦ e
      | inl e ↦
          let same : durable_key d call ≡ key = (eq_iff (durable_key d call) key).0 e in
          absurd (ground (arith, rw same at free, h))
    ]

    reserve_call-durable :
        (d : ToolDefinition) (state : RuntimeState S A) (ops : ToolExecutionStore S)
        → cached (durable_key d call) state.completed ≡ none
        → runtime.execution_store ≡ some ops
        → cached key state.completed ≡ some r
        → cached key (reserve_call runtime now token call resolution d state).1.completed ≡ some r
    unfolding reserve_call
    reserve_call-durable d state ops e f h =
        let key2 = durable_key d call in
        let apart = other_key d state e h in
        let asked = ops.reserve key2 runtime.idempotency_lease_seconds token state.store in
        elim (Result-cases (ops.lookup key2 state.store)) [
          | inl (x, g) ↦ rw (e, f, g, reserve_call, answer-completed) h
          | inr (o, g) ↦ elim (Option-cases o) [
            | inr (x, k) ↦ rw (e, f, g, k, reserve_call) h
            | inl k ↦ elim (Result-cases asked.0) [
              | inl (x, l) ↦ rw (e, f, g, k, l, reserve_call, answer-completed) h
              | inr (b, l) ↦ elim (Bool-cases b) [
                | inl m ↦ rw (e, f, g, k, l, m, reserve_call) (conclude_call-keeps d true _ apart h)
                | inr m ↦ rw (e, f, g, k, l, m, reserve_call, answer-completed) h
              ]
            ]
          ]
        ]

    reserve_call-keeps :
        (d : ToolDefinition) (state : RuntimeState S A)
        → cached key state.completed ≡ some r
        → cached key (reserve_call runtime now token call resolution d state).1.completed ≡ some r
    unfolding reserve_call
    reserve_call-keeps d state h =
        let key2 = durable_key d call in
        elim (Option-cases (cached key2 state.completed)) [
          | inr (x, e) ↦ rw (e, reserve_call) h
          | inl e ↦ elim (Option-cases runtime.execution_store) [
            | inl f ↦ elim (Bool-cases (contains key2 state.running)) [
              | inl g ↦ rw (e, f, g, reserve_call, answer-completed) h
              | inr g ↦
                  rw (e, f, g, reserve_call)
                    (conclude_call-keeps d false _ (other_key d state e h) h)
            ]
            | inr (ops, f) ↦ reserve_call-durable d state ops e f h
          ]
        ]

    audited :
        (d : ToolDefinition) (state : RuntimeState S A)
        → cached key state.completed ≡ some r
        → cached key (audit_called runtime now token call resolution d state).completed ≡ some r
    audited d state h = rw (audit_called-completed runtime now token call resolution d state) h

    -- what a key has answered stays, whatever else is called
    execute-keeps :
        (state : RuntimeState S A)
        → cached key state.completed ≡ some r
        → cached key (execute runtime now token call resolution state).1.completed ≡ some r
    unfolding execute
    execute-keeps state h =
        elim (Option-cases
          (Registry.get call.tool_name (some call.tool_version) runtime.definitions)) [
            | inl e ↦ rw (e, execute) h
            | inr (d, e) ↦ elim (Bool-cases (is_granted resolution d)) [
              | inr f ↦ rw (e, f, execute, answer-completed) (audited d state h)
              | inl f ↦ elim (Bool-cases (is_unrestricted d)) [
                | inl g ↦ rw (e, f, g, execute, answer-completed) (audited d state h)
                | inr g ↦ elim (Bool-cases d.idempotency_required) [
                  | inl k ↦
                      rw (admitted runtime now token call resolution d state e f g k)
                        (reserve_call-keeps d _ (audited d state h))
                  | inr k ↦
                      rw
                        (
                          admitted_plain runtime now token call resolution d state e f g k,
                          conclude_call-plain d false
                              (audit_called runtime now token call resolution d state) k,
                        )
                        (audited d state h)
                ]
              ]
            ]
          ]

  pub Later-keeps :
      (key : String) (r : ToolResult) (state after : RuntimeState S A)
      → Later state after
      → cached key state.completed ≡ some r
      → cached key after.completed ≡ some r
  Later-keeps key r state _ (Later.here _) h = h
  Later-keeps key r state _ (Later.called {between} runtime now token call resolution before) h =
      execute-keeps runtime now token call resolution key r between
        (Later-keeps key r state between before h)
