-- ===== src/Events/Versions.antt =====
-- Optimistic concurrency of the event log: versions of an aggregate, and writers that read one version.
use mm_harness.Prelude.{
  ℕ, ◌+◌, String, false, Option, none, some, List, [], ◌∷◌, ◌++◌, any, ltb, ◌==◌, nat_eq, string_eq,
  if◌then◌else◌, ◌≡◌, ◌<◌, ap, subst, sym, ◌∙◌, arith, eq_iff, Bool-cases, inl, inr,
}
use mm_harness.Errors.{ok, err, conflict}
use mm_harness.Json.{Json}
use mm_harness.Events.{
  DomainEvent, EventEnvelope, EventStore, later_of, last, version_of, hash_of, clashes, envelope,
  append_domain,
}

later_of-version :
    (e : EventEnvelope) (r : Option EventEnvelope)
    → version_of (some (later_of e r))
      ≡ (if ltb e.aggregate_version (version_of r) then version_of r else e.aggregate_version)
later_of-version e none = ground arith
later_of-version e (some f) = ground arith

last-cons :
    (id : String) (f : EventEnvelope) (events : List EventEnvelope)
    → version_of (last id (f ∷ events)) ≡ (
        if f.aggregate_id == id
        then (if ltb f.aggregate_version (version_of (last id events))
            then version_of (last id events)
            else f.aggregate_version)
        else version_of (last id events))
unfolding last
last-cons id f events = ground (arith, later_of-version f (last id events))

last-append :
    (id : String) (events : List EventEnvelope) (e : EventEnvelope)
    → version_of (last e.aggregate_id events) < e.aggregate_version
    → version_of (last id (events ++ e ∷ []))
      ≡ (if e.aggregate_id == id then e.aggregate_version else version_of (last id events))
last-append id [] e h = unfold last in ground (arith, eq_iff e.aggregate_id id)
last-append id (f ∷ events) e h = ground (
  arith,
  last-append id events e,
  last-cons id f (events ++ e ∷ []),
  last-cons id f events,
  last-cons e.aggregate_id f events,
  eq_iff e.aggregate_id id,
  eq_iff f.aggregate_id id,
  eq_iff f.aggregate_id e.aggregate_id,
)

module _ (sha256 : String → String) (canonical : Json → String) (aggregate_id : String)
    (expected_version : ℕ) (event : DomainEvent) (aggregate_type event_id occurred_at : String)
    (store after : EventStore) (e : EventEnvelope)
    (appended : append_domain sha256 canonical aggregate_id expected_version event aggregate_type
        event_id occurred_at store
      ≡ (ok e, after)) where
  append_domain-ok :
      (version_of (last aggregate_id store.events) ≡ expected_version)
      × (e.aggregate_id ≡ aggregate_id)
      × (e.aggregate_version ≡ expected_version + 1)
      × (e.previous_hash ≡ hash_of (last aggregate_id store.events))
      × (after.events ≡ store.events ++ e ∷ [])
  unfolding append_domain
  append_domain-ok =
      let row = last aggregate_id store.events in
      let made =
        envelope sha256 canonical aggregate_id event aggregate_type event_id occurred_at row in
      elim (Bool-cases (version_of row == expected_version)) [
        | inr stale ↦ absurd (ground (arith, stale, appended))
        | inl current ↦ elim (Bool-cases (any (clashes made) store.events)) [
          | inl taken ↦ absurd (ground (arith, current, taken, appended))
          | inr free ↦
              let same : e ≡ made = ground (arith, current, free, appended) in
              let grown : after.events ≡ store.events ++ made ∷ [] =
                ground (arith, current, free, appended) in
              let counted : version_of row ≡ expected_version = ground (arith, current) in
              (
                counted,
                ap (λ x. x.aggregate_id) same,
                ap (λ x. x.aggregate_version) same ∙ ap (λ n. n + 1) counted,
                ap (λ x. x.previous_hash) same,
                subst (λ x. after.events ≡ store.events ++ x ∷ []) (sym same) grown,
              )
        ]
      ]

  -- An event that is appended is the aggregate's next one, links to the hash of the one before, and
  -- leaves the versions of all other aggregates as they were.
  pub append_domain-version :
      (id : String)
      → (e.aggregate_version ≡ expected_version + 1)
        × (e.previous_hash ≡ hash_of (last aggregate_id store.events))
        × (version_of (last id after.events) ≡ (
            if aggregate_id == id then expected_version + 1 else version_of (last id store.events)))
  append_domain-version id =
      let (current, named, next, link, grown) = append_domain-ok in
      let before : version_of (last e.aggregate_id store.events) < e.aggregate_version =
        rw named (omega (arith, current, next)) in
      (next, link, ground (arith, last-append id store.events e before, grown, named, next))

  -- Two writers that read an aggregate at one version cannot both append: once the first has, the
  -- second ends in a conflict and leaves the log and the outbox as they are.
  pub append_domain-stale :
      (other : DomainEvent) (other_type other_id later : String)
      → append_domain sha256 canonical aggregate_id expected_version other other_type other_id later
          after
        ≡ (err conflict, after)
  unfolding append_domain
  append_domain-stale other other_type other_id later =
      let moved = (append_domain-version aggregate_id).2 in
      let far : (version_of (last aggregate_id after.events) == expected_version) ≡ false =
        ground (arith, moved, eq_iff aggregate_id aggregate_id) in
      ground (arith, far)
