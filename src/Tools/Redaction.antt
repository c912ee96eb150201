-- ===== src/Tools/Redaction.antt =====
-- application/tools.py: `ResultBudgetMiddleware` and `ResultRedactionMiddleware`, which stand between a
-- tool and the session that sees its result. Python's `!=` on the outputs and the length of the
-- encoded output are parameters.
use mm_harness.Prelude.{
  ℕ, ◌≤◌, String, Bool, true, false, not, ◌&&◌, none, some, List, contains, ltb, ◌==◌, string_eq,
  if◌then◌else◌, ◌≡◌, refl, arith, Option-cases, inl, inr,
}
use mm_harness.Json.{
  Json, Items, Fields, null, boolean, integer, real, string, array, object, nil, item, end, field,
}
use mm_harness.Tools.{ToolResult}

module _ (keys : List String) where
  -- redact
  unfoldable mutual
    pub redact : Json → Json
    redact (object fields) = object (redact_fields fields)
    redact (array items) = array (redact_items items)
    redact null = null
    redact (boolean b) = boolean b
    redact (integer n) = integer n
    redact (real x) = real x
    redact (string s) = string s

    pub redact_items : Items → Items
    redact_items nil = nil
    redact_items (item j rest) = item (redact j) (redact_items rest)

    pub redact_fields : Fields → Fields
    redact_fields end = end
    redact_fields (field key value rest) =
        let hidden = redact value in
        field key (if contains key keys then string "[REDACTED]" else hidden) (redact_fields rest)

  -- the value that stands for a hidden one
  abbrev pub is_mark : Json → Bool
  is_mark (string s) = s == "[REDACTED]"
  is_mark _ = false

  -- no value under one of the keys is left, at any depth
  mutual
    pub hides : Json → Bool
    hides (object fields) = hides_fields fields
    hides (array items) = hides_items items
    hides null = true
    hides (boolean b) = true
    hides (integer n) = true
    hides (real x) = true
    hides (string s) = true

    pub hides_items : Items → Bool
    hides_items nil = true
    hides_items (item j rest) = hides j && hides_items rest

    pub hides_fields : Fields → Bool
    hides_fields end = true
    hides_fields (field key value rest) =
        (if contains key keys then is_mark value else hides value) && hides_fields rest

  -- ResultRedactionMiddleware.after
  unfoldable pub redact_after : (Fields → Fields → Bool) → ToolResult → ToolResult
  redact_after same result = elim result.output [
    | none ↦ result
    | some output ↦ if not result.ok then result else record result {
      output = some (redact_fields output);
      redacted = not (same (redact_fields output) output);
    }
  ]

  mutual
    unfolding redact hides

    redact-hides : (j : Json) → hides (redact j) ≡ true
    redact-hides (object fields) = redact_fields-hides fields
    redact-hides (array items) = redact_items-hides items
    redact-hides null = refl
    redact-hides (boolean b) = refl
    redact-hides (integer n) = refl
    redact-hides (real x) = refl
    redact-hides (string s) = refl

    redact_items-hides : (items : Items) → hides_items (redact_items items) ≡ true
    redact_items-hides nil = refl
    redact_items-hides (item j rest) = ground (arith, redact-hides j, redact_items-hides rest)

    redact_fields-hides : (fields : Fields) → hides_fields (redact_fields fields) ≡ true
    redact_fields-hides end = refl
    redact_fields-hides (field key value rest) =
        ground (arith, redact-hides value, redact_fields-hides rest)

  -- A successful result that the redaction passes on holds no value under one of its keys, at any depth
  -- of its output: each has been replaced by the mark.
  pub redact_after-hides :
      (same : Fields → Fields → Bool) (result : ToolResult) (output : Fields)
      → (redact_after same result).ok ≡ true
      → (redact_after same result).output ≡ some output
      → hides_fields output ≡ true
  unfolding redact_after
  redact_after-hides same result output good shown = elim (Option-cases result.output) [
    | inl e ↦ absurd (ground (arith, e, shown))
    | inr (f, e) ↦ ground (arith, e, good, shown, redact_fields-hides f)
  ]

-- ResultBudgetMiddleware.after
unfoldable pub budget_after : (Fields → ℕ) → ℕ → ToolResult → ToolResult
budget_after encoded_size max_bytes result = elim result.output [
  | none ↦ result
  | some output ↦
      if result.ok && ltb max_bytes (encoded_size output)
      then record {
        call_id = result.call_id;
        tool_name = result.tool_name;
        ok = false;
        output = none;
        error_code = some "result_budget_exceeded";
        error_message = some "tool result exceeds middleware budget";
        artifact_ids = List.[];
        completed_at = result.completed_at;
        redacted = false;
      }
      else result
]

-- A successful result that the budget passes on has an output of at most `max_bytes` bytes.
pub budget_after-le :
    (encoded_size : Fields → ℕ) (max_bytes : ℕ) (result : ToolResult) (output : Fields)
    → (budget_after encoded_size max_bytes result).ok ≡ true
    → (budget_after encoded_size max_bytes result).output ≡ some output
    → encoded_size output ≤ max_bytes
unfolding budget_after
budget_after-le encoded_size max_bytes result output good shown =
    elim (Option-cases result.output) [
      | inl e ↦ absurd (ground (arith, e, shown))
      | inr (f, e) ↦ ground (arith, e, good, shown)
    ]
