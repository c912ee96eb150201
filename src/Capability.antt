-- ===== src/Capability.antt =====
-- domain/capability.py and application/capabilities.py: capability requirements and their resolution
-- against the registered providers.
pub mod Complete
pub mod Samples
use mm_harness.Prelude.{
  String, Bool, true, false, Option, none, some, List, [], ◌∷◌, ◌++◌, ◌==◌, string_eq,
  if◌then◌else◌,
}
use mm_harness.Errors.{Result, ok, err, value_error}

pub record CapabilityRef : Type 0 where
  pub name : String
  pub version : String

pub record CapabilityRequirement : Type 0 where
  pub capability : CapabilityRef
  pub optional : Bool
  pub reason : String

pub record CapabilityResolution : Type 0 where
  pub requested : List CapabilityRequirement
  pub granted : List CapabilityRef
  pub missing : List CapabilityRequirement
  pub provider_ids : List (String × String)

-- complete
abbrev pub is_complete : CapabilityResolution → Bool
is_complete r = elim r.missing [ [] ↦ true | m ∷ ms ↦ false ]

-- `_providers`: a dict by the capability's name
abbrev pub Providers : Type 0
Providers = List (String × (CapabilityRef × String))

-- d.get(name), d[name] = value
unfoldable pub get {ℓ} : {V : Type ℓ} → String → List (String × V) → Option V
get name [] = none
get name ((key, v) ∷ rest) = let later = get name rest in if key == name then some v else later

unfoldable pub put {ℓ} : {V : Type ℓ} → String → V → List (String × V) → List (String × V)
put name v [] = (name, v) ∷ []
put name v ((key, w) ∷ rest) =
    let later = put name v rest in if key == name then (key, v) ∷ rest else (key, w) ∷ later

unfoldable pub register : Providers → CapabilityRef → String → Result Providers
unfolding put get
register providers capability provider_id = elim (get capability.name providers) [
  | none ↦ ok (put capability.name (capability, provider_id) providers)
  | some (current, _) ↦
      if current.version == capability.version
      then ok (put capability.name (capability, provider_id) providers)
      else err value_error
]

-- the body of the loop of `resolve`
unfoldable pub resolve_one :
    Providers → CapabilityRequirement → CapabilityResolution → CapabilityResolution
unfolding get put
resolve_one providers requirement acc = elim (get requirement.capability.name providers) [
  | none ↦
      if requirement.optional then acc else record acc { missing = acc.missing ++ requirement ∷ [] }
  | some (ref, provider_id) ↦
      if ref.version == requirement.capability.version
      then record acc {
        granted = acc.granted ++ ref ∷ [];
        provider_ids = put ref.name provider_id acc.provider_ids;
      }
      else if requirement.optional
      then acc
      else record acc { missing = acc.missing ++ requirement ∷ [] }
]

unfoldable pub resolve_all :
    Providers → List CapabilityRequirement → CapabilityResolution → CapabilityResolution
unfolding resolve_one
resolve_all providers [] acc = acc
resolve_all providers (r ∷ rs) acc = resolve_all providers rs (resolve_one providers r acc)

unfoldable pub resolve : Providers → List CapabilityRequirement → CapabilityResolution
unfolding resolve_all
resolve providers requirements =
    resolve_all providers requirements
      (record { requested = requirements; granted = []; missing = []; provider_ids = [] })
