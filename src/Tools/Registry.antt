-- ===== src/Tools/Registry.antt =====
-- application/tools.py: `ToolRegistry`. The dictionary of definitions is a list in the order of
-- registration; the handlers are registered under the same keys.
use mm_harness.Prelude.{
  String, Bool, false, ◌&&◌, ◌||◌, Option, none, some, List, [], ◌∷◌, ◌++◌, any, select, find, ◌==◌,
  string_eq, if◌then◌else◌, ◌≡◌, refl, ◌∙◌, arith, eq_iff, Bool-cases, inl, inr,
}
use mm_harness.Errors.{Result, ok, err, value_error}
use mm_harness.Dag.{before}
use mm_harness.Capability.{CapabilityRef, CapabilityResolution}
use mm_harness.Tools.{ToolDefinition}

abbrev pub Definitions : Type 0
Definitions = List ToolDefinition

-- key == (definition.name, definition.version)
abbrev pub is_at : String → String → ToolDefinition → Bool
is_at name version d = d.name == name && d.version == version

-- register
unfoldable pub register : Definitions → ToolDefinition → Result Definitions
register definitions d =
    if any (is_at d.name d.version) definitions then err value_error else ok (definitions ++ d ∷ [])

-- sorted(matches, key=lambda item: item.version)[-1] of the definitions with a name
pub latest : String → Definitions → Option ToolDefinition
unfolding before
latest name [] = none
latest name (d ∷ ds) =
    let later = latest name ds in
    if d.name == name
    then elim later [
      | none ↦ some d
      | some e ↦ if before d.version e.version then some e else some d
    ]
    else later

-- get
unfoldable pub get : String → Option String → Definitions → Option ToolDefinition
unfolding latest
get name none definitions = latest name definitions
get name (some version) definitions =
    if version == "" then latest name definitions else find (is_at name version) definitions

-- the order by (name, version)
abbrev pub in_order : ToolDefinition → ToolDefinition → Bool
in_order d e = if d.name == e.name then before d.version e.version else before d.name e.name

pub insert_definition : ToolDefinition → Definitions → Definitions
insert_definition d [] = d ∷ []
insert_definition d (e ∷ es) =
    let rest = insert_definition d es in if in_order d e then d ∷ e ∷ es else e ∷ rest

pub sort_definitions : Definitions → Definitions
unfolding insert_definition
sort_definitions [] = []
sort_definitions (d ∷ ds) = insert_definition d (sort_definitions ds)

abbrev pub is_granted : CapabilityResolution → ToolDefinition → Bool
is_granted resolution d =
    any
      (λ (c : CapabilityRef).
        c.name == d.required_capability.name && c.version == d.required_capability.version)
      resolution.granted

-- list, and catalog for no resolution
pub list : Option CapabilityResolution → Definitions → Definitions
unfolding sort_definitions
list none definitions = sort_definitions definitions
list (some resolution) definitions = sort_definitions (select (is_granted resolution) definitions)

find-append :
    (name version : String) (definitions : Definitions) (d : ToolDefinition)
    → find (is_at name version) (definitions ++ d ∷ [])
      ≡ elim (find (is_at name version) definitions) [
        | none ↦ if is_at name version d then some d else none
        | some e ↦ some e
      ]
find-append name version [] d = refl
find-append name version (e ∷ ds) d = ground (arith, find-append name version ds d)

find-absent :
    (name version : String) (definitions : Definitions)
    → any (is_at name version) definitions ≡ false
    → find (is_at name version) definitions ≡ none
find-absent name version [] h = refl
find-absent name version (e ∷ ds) h = ground (arith, find-absent name version ds)

-- A registration that returns makes the definition the answer for its name and version, and changes
-- the answer for no other name and version.
pub get-register :
    (definitions after : Definitions) (d : ToolDefinition) (name version : String)
    → register definitions d ≡ ok after
    → (version == "") ≡ false
    → get name (some version) after
      ≡ (if is_at name version d then some d else get name (some version) definitions)
unfolding register get
get-register definitions after d name version h named =
    elim (Bool-cases (any (is_at d.name d.version) definitions)) [
      | inl taken ↦ absurd (ground (arith, taken, h))
      | inr free ↦
          let gone = find-absent d.name d.version definitions free in
          ground (
            arith,
            h,
            free,
            gone,
            find-append name version definitions d,
            eq_iff d.name name,
            eq_iff d.version version,
          )
    ]

insert_definition-any :
    (p : ToolDefinition → Bool) (d : ToolDefinition) (ds : Definitions)
    → any p (insert_definition d ds) ≡ (p d || any p ds)
unfolding insert_definition
insert_definition-any p d [] = refl
insert_definition-any p d (e ∷ es) = ground (arith, insert_definition-any p d es)

sort_definitions-any :
    (p : ToolDefinition → Bool) (ds : Definitions) → any p (sort_definitions ds) ≡ any p ds
unfolding sort_definitions
sort_definitions-any p [] = refl
sort_definitions-any p (d ∷ ds) =
    ground (arith, insert_definition-any p d (sort_definitions ds), sort_definitions-any p ds)

select-any :
    (p q : ToolDefinition → Bool) (ds : Definitions)
    → any p (select q ds) ≡ any (λ d. q d && p d) ds
select-any p q [] = refl
select-any p q (d ∷ ds) = ground (arith, select-any p q ds)

-- The catalog for a resolution has a definition of some property just if a registered tool whose
-- capability the resolution grants has it: it shows all of these tools, and no others.
pub list-granted :
    (p : ToolDefinition → Bool) (resolution : CapabilityResolution) (definitions : Definitions)
    → any p (list (some resolution) definitions)
      ≡ any (λ d. is_granted resolution d && p d) definitions
unfolding list
list-granted p resolution definitions =
    sort_definitions-any p (select (is_granted resolution) definitions)
    ∙ select-any p (is_granted resolution) definitions
