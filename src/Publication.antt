-- ===== src/Publication.antt =====
-- publication.py: the checks on the final LaTeX paper. A source is read as its code points; the
-- regular expressions are matchers written out.
use mm_harness.Prelude.{
  ℕ, ◌+◌, ◌-◌, String, Bool, true, false, not, ◌&&◌, ◌||◌, Option, none, some, List, [], ◌∷◌,
  select, contains, codes, is_blank, is_space, ends_with, begins, ◌==◌, nat_eq, string_eq,
  if◌then◌else◌,
}
use mm_harness.Errors.{Result, ok, err, value_error, ◌>>=◌, raise_if}
use mm_harness.Reports.{ProducedArtifact, is_latex_kind}

abbrev pub Source : Type 0
Source = List ℕ

-- "\\"  "{"  "}"  "["  "]"
abbrev backslash : ℕ
backslash = 92

abbrev open_brace : ℕ
open_brace = 123

abbrev close_brace : ℕ
close_brace = 125

-- the scan of the braces: `none` at a closing brace that nothing opens, which breaks the loop
pub scan : Bool → ℕ → Source → Option ℕ
scan escaped depth [] = some depth
scan true depth (c ∷ cs) = scan false depth cs
scan false depth (c ∷ cs) =
    let escape = scan true depth cs in
    let deeper = scan false (depth + 1) cs in
    let outer = scan false (depth - 1) cs in
    let next = scan false depth cs in
    if c == backslash
    then escape
    else if c == open_brace
    then deeper
    else if c == close_brace
    then (if depth == 0 then none else outer)
    else next

-- the loop adds no error
pub braces_balanced : Source → Bool
unfolding scan
braces_balanced source = elim (scan false 0 source) [ none ↦ false | some depth ↦ depth == 0 ]

-- `text in source`, and `re.search` for a matcher at a position
pub search_for : (Source → Bool) → Source → Bool
search_for here [] = here []
search_for here (c ∷ cs) = here (c ∷ cs) || search_for here cs

pub holds : String → Source → Bool
unfolding search_for
holds text source = search_for (begins (codes text)) source

-- text.lstrip()
abbrev lstrip : Source → Source
lstrip [] = []
lstrip (c ∷ cs) = let rest = lstrip cs in if is_space c then rest else c ∷ cs

abbrev is_some {ℓ} : {A : Type ℓ} → Option A → Bool
is_some none = false
is_some (some a) = true

-- candidate.text or ""
abbrev pub text_or_empty : Option String → String
text_or_empty none = ""
text_or_empty (some t) = t

-- what stands behind a prefix
abbrev behind : List ℕ → Source → Option Source
behind [] cs = some cs
behind (p ∷ ps) [] = none
behind (p ∷ ps) (c ∷ cs) = let rest = behind ps cs in if p == c then rest else none

-- \s*\{
spaces_brace : Source → Bool
spaces_brace [] = false
spaces_brace (c ∷ cs) = c == open_brace || is_space c && spaces_brace cs

-- \\title\s*\{
title_here : Source → Bool
unfolding spaces_brace
title_here cs = elim (behind (codes "\\title") cs) [ none ↦ false | some rest ↦ spaces_brace rest ]

abbrev after_first : Source → Source
after_first [] = []
after_first (c ∷ cs) = cs

-- \\section\*?\s*\{
section_here : Source → Bool
unfolding spaces_brace
section_here cs = elim (behind (codes "\\section") cs) [
  | none ↦ false
  | some rest ↦ spaces_brace rest || begins (codes "*") rest && spaces_brace (after_first rest)
]

-- [^{}]*\}
rest_of_group : Source → Bool
rest_of_group [] = false
rest_of_group (c ∷ cs) =
    let later = rest_of_group cs in
    if c == close_brace then true else if c == open_brace then false else later

-- \{[^{}]+\}
group_here : Source → Bool
unfolding rest_of_group
group_here [] = false
group_here (c ∷ []) = false
group_here (c ∷ d ∷ cs) = c == open_brace && not (d == close_brace) && rest_of_group (d ∷ cs)

-- what stands behind the first "]"
after_bracket : Source → Source
after_bracket [] = []
after_bracket (c ∷ cs) = let later = after_bracket cs in if c == 93 then cs else later

-- \\documentclass(?:\[[^]]*\])?\{[^{}]+\}
document_class_here : Source → Bool
unfolding group_here after_bracket
document_class_here cs = elim (behind (codes "\\documentclass") cs) [
  | none ↦ false
  | some rest ↦ if begins (codes "[") rest then group_here (after_bracket rest) else group_here rest
]

-- Python's `str.lower`, and the search for an unsafe command, whose expression ignores case and asks
-- for a word boundary: both go by Unicode's tables.
pub record TextTables : Type 0 where
  pub lower : String → String
  pub unsafe_command : String → Bool

module _ (tables : TextTables) where
  open tables use {lower, unsafe_command}

  -- validate_latex_source: whether the list of errors is empty
  unfoldable pub latex_source_valid : String → Bool
  unfolding holds search_for title_here section_here document_class_here braces_balanced
  latex_source_valid source =
      let cs = codes source in
      not (is_blank source)
      && not (begins (codes "```") (lstrip cs))
      && search_for document_class_here cs
      && holds "\\begin{document}" cs
      && holds "\\end{document}" cs
      && search_for title_here cs
      && holds "\\begin{abstract}" cs
      && holds "\\end{abstract}" cs
      && search_for section_here cs
      && not (unsafe_command source)
      && braces_balanced cs

  unfoldable pub is_latex_artifact : ProducedArtifact → Bool
  is_latex_artifact artifact =
      let name = lower artifact.logical_name in
      is_latex_kind artifact.kind
      && (ends_with ".tex" name || ends_with ".ltx" name)
      && contains (lower artifact.media_type)
          ("text/x-tex" ∷ "application/x-tex" ∷ "text/latex" ∷ [])
      && is_some artifact.text

  -- find_latex_artifact
  unfoldable pub find_latex_artifact : List ProducedArtifact → Result (Option ProducedArtifact)
  unfolding is_latex_artifact
  find_latex_artifact artifacts = elim (select (λ a. is_latex_kind a.kind) artifacts) [
    | [] ↦ ok none
    | a ∷ [] ↦ if is_latex_artifact a then ok (some a) else err value_error
    | a ∷ b ∷ rest ↦ err value_error
  ]

  unfoldable pub validate_publication_artifacts : List ProducedArtifact → Result (Unit {0})
  unfolding find_latex_artifact latex_source_valid
  validate_publication_artifacts artifacts = do
    candidate ← find_latex_artifact artifacts
    elim candidate [
      | none ↦ err value_error
      | some a ↦ raise_if (not (latex_source_valid (text_or_empty a.text))) value_error
    ]
