-- ===== src/Capability/Samples.antt =====
-- Two registered capabilities, and a resolution that asks for both.
use mm_harness.Prelude.{true, false, List, [], ◌∷◌, ◌≡◌, refl}
use mm_harness.Errors.{ok}
use mm_harness.Capability.{
  CapabilityRef, CapabilityRequirement, Providers, is_complete, get, put, register, resolve,
}
use mm_harness.Capability.Complete.{is_provided, resolve_complete}

abbrev solve : CapabilityRef
solve = record { name = "problem.solve"; version = "1" }

abbrev report : CapabilityRef
report = record { name = "report.publish"; version = "2" }

abbrev one_provider : Providers
one_provider = ("problem.solve", (solve, "local")) ∷ []

abbrev two_providers : Providers
two_providers = ("problem.solve", (solve, "local")) ∷ ("report.publish", (report, "local")) ∷ []

abbrev both : List CapabilityRequirement
both =
    record { capability = solve; optional = false; reason = "" }
    ∷ record { capability = report; optional = false; reason = "" }
    ∷ []

second_provided : register one_provider report "local" ≡ ok two_providers
unfolding register get put
second_provided = refl

first_provided : is_provided one_provider solve ≡ true
unfolding get
first_provided = refl

resolve_complete_example : is_complete (resolve two_providers both) ≡ true
unfolding get
resolve_complete_example = resolve_complete two_providers both
