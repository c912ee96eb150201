-- ===== src/Compact.antt =====
-- application/compact.py: the estimate of tokens and the compaction of a text to a budget. The results
-- of its floating-point arithmetic, and the JSON library's text of a value, are parameters.
use mm_harness.Prelude.{
  ℕ, ◌-◌, ◌/◌, max, String, Bool, ◌&&◌, select, length, leb, codes, text_length, strip_start,
  strip_end, take_text, drop_text, ◌==◌, string_eq, if◌then◌else◌,
}
use Prim.Native.String.{◌++◌ as concat}
use mm_harness.Json.{Json}

-- `tokens_of` is int(chinese / 1.6 + other / 3.6), and `characters_of` int(budget_tokens * 3.2).
pub record Measures : Type 0 where
  pub tokens_of : ℕ → ℕ → ℕ
  pub characters_of : ℕ → ℕ
  pub dumps : Json → String

-- [\u3400-\u9fff]
abbrev pub is_chinese : ℕ → Bool
is_chinese c = leb 13_312 c && leb c 40_959

module _ (measures : Measures) where
  open measures use {tokens_of, characters_of, dumps}

  -- estimate_tokens of a text
  unfoldable pub estimate_text : String → ℕ
  estimate_text text =
      let chinese = length (select is_chinese (codes text)) in
      if text == "" then 0 else max 1 (tokens_of chinese (text_length text - chinese))

  -- estimate_tokens of any other value
  unfoldable pub estimate_json : Json → ℕ
  unfolding estimate_text
  estimate_json value = estimate_text (dumps value)

  unfoldable pub compact_text : String → ℕ → String
  unfolding estimate_text
  compact_text text budget_tokens =
      let half = max 1_000 (characters_of budget_tokens) / 2 in
      if leb (estimate_text text) budget_tokens
      then text
      else concat (concat (strip_end (take_text half text)) "\n\n... [compacted] ...\n\n")
          (strip_start (drop_text (text_length text - half) text))
