-- ===== src/Capability/Complete.antt =====
-- When the resolution of some requirements is complete.
use mm_harness.Prelude.{
  String, Bool, true, false, ◌&&◌, ◌||◌, none, some, List, [], ◌∷◌, ◌++◌, all, ◌==◌, string_eq,
  if◌then◌else◌, ◌≡◌, refl, arith, eq_iff, Option-cases, List-cases, inl, inr,
}
use mm_harness.Capability.{
  CapabilityRef, CapabilityRequirement, CapabilityResolution, Providers, is_complete, get,
  resolve_one, resolve_all, resolve, put, register,
}
use mm_harness.Errors.{ok}

-- a provider of the capability is registered, in the version that is asked for
abbrev pub is_provided : Providers → CapabilityRef → Bool
is_provided providers capability = elim (get capability.name providers) [
  | none ↦ false
  | some (current, provider_id) ↦ current.version == capability.version
]

abbrev pub is_met : Providers → CapabilityRequirement → Bool
is_met providers r = r.optional || is_provided providers r.capability

missing-append :
    (acc : CapabilityResolution) (r : CapabilityRequirement)
    → is_complete (record acc { missing = acc.missing ++ r ∷ [] }) ≡ false
missing-append acc r = elim (List-cases acc.missing) [
  | inl e ↦ ground (arith, e)
  | inr (x, xs, e) ↦ ground (arith, e)
]

resolve_one_complete :
    (providers : Providers) (r : CapabilityRequirement) (acc : CapabilityResolution)
    → is_complete (resolve_one providers r acc) ≡ (is_complete acc && is_met providers r)
unfolding resolve_one
resolve_one_complete providers r acc = elim (Option-cases (get r.capability.name providers)) [
  | inl e ↦ ground (arith, e, missing-append acc r)
  | inr ((current, provider_id), e) ↦ ground (arith, e, missing-append acc r)
]

resolve_all_complete :
    (providers : Providers) (rs : List CapabilityRequirement) (acc : CapabilityResolution)
    → is_complete (resolve_all providers rs acc) ≡ (is_complete acc && all (is_met providers) rs)
unfolding resolve_all
resolve_all_complete providers [] acc = ground arith
resolve_all_complete providers (r ∷ rs) acc = ground (
  arith,
  resolve_all_complete providers rs (resolve_one providers r acc),
  resolve_one_complete providers r acc,
)

-- A resolution is complete just if each requirement that is not optional has a provider registered in
-- the version it asks for.
pub resolve_complete :
    (providers : Providers) (requirements : List CapabilityRequirement)
    → is_complete (resolve providers requirements) ≡ all (is_met providers) requirements
unfolding resolve
resolve_complete providers requirements =
    resolve_all_complete providers requirements
      (record { requested = requirements; granted = []; missing = []; provider_ids = [] })

get-put {ℓ} :
    {V : Type ℓ} (name other : String) (v : V) (l : List (String × V))
    → get other (put name v l) ≡ (if name == other then some v else get other l)
unfolding get put
get-put name other v [] = refl
get-put name other v ((key, w) ∷ rest) =
    ground (arith, get-put name other v rest, eq_iff key name, eq_iff key other, eq_iff name other)

-- A registration that returns provides the capability in its version, and takes no provider away from
-- any capability that had one.
pub register-provided :
    (providers after : Providers) (capability other : CapabilityRef) (provider_id : String)
    → register providers capability provider_id ≡ ok after
    → is_provided providers other ≡ true
    → (is_provided after capability ≡ true) × (is_provided after other ≡ true)
unfolding register
register-provided providers after capability other provider_id h had =
    let entry : CapabilityRef × String = (capability, provider_id) in
    let own = get-put capability.name capability.name entry providers in
    let elsewhere = get-put capability.name other.name entry providers in
    elim (Option-cases (get capability.name providers)) [
      | inl e ↦ ground (
        arith,
        e,
        h,
        own,
        elsewhere,
        eq_iff capability.name capability.name,
        eq_iff capability.name other.name,
        eq_iff capability.version capability.version,
      )
      | inr ((current, held), e) ↦ ground (
        arith,
        e,
        h,
        had,
        own,
        elsewhere,
        eq_iff capability.name capability.name,
        eq_iff capability.name other.name,
        eq_iff capability.version capability.version,
        eq_iff current.version capability.version,
        eq_iff current.version other.version,
        eq_iff capability.version other.version,
      )
    ]
