-- ===== src/Events/Runs.antt =====
-- The logs that writers and a publisher lead to.
use mathlib.Core.List.{map-append}
use mm_harness.Prelude.{
  ℕ, String, false, List, [], ◌∷◌, ◌++◌, map, any, length, ◌==◌, string_eq, nat_eq, ◌≡◌, ◌≢◌, ◌⊎◌,
  refl, ap, sym, subst, ◌∙◌, arith, Bool-cases, inl, inr,
}
use mm_harness.Errors.{Result, ok}
use mm_harness.Json.{Json, Fields, object}
use mm_harness.Events.{
  DomainEvent, EventEnvelope, OutboxRow, EventStore, last, version_of, clashes, envelope,
  event_data, append_domain, publish_row, mark_published, check_chain, verify,
}
use mm_harness.Events.Chain.{verify-append_domain}

-- an append, whatever it is called with and however it ends, and a mark
pub data Reached (sha256 : String → String) (canonical : Json → String) : EventStore → Type 0 where
  created : Reached sha256 canonical (record { events = []; outbox = [] })
  appended :
      {store : EventStore} (aggregate_id : String) (expected_version : ℕ) (event : DomainEvent)
      (aggregate_type event_id occurred_at : String)
      → Reached sha256 canonical store
      → Reached sha256 canonical
          (append_domain sha256 canonical aggregate_id expected_version event aggregate_type
            event_id occurred_at store).1
  marked :
      {store : EventStore} (event_id : String)
      → Reached sha256 canonical store
      → Reached sha256 canonical (mark_published event_id store)

-- the outbox has one row for each event, in the order of the log
pub IsPaired : EventStore → Type 0
IsPaired store = map (λ o. o.event_id) store.outbox ≡ map (λ e. e.event_id) store.events

mark-ids :
    (id : String) (os : List OutboxRow)
    → map (λ o. o.event_id) (map (publish_row id) os) ≡ map (λ o. o.event_id) os
mark-ids id [] = refl
mark-ids id (o ∷ os) = ground (arith, mark-ids id os)

module _ (sha256 : String → String) (canonical : Json → String) where
  -- Every log that is reached passes its verification, which counts all its events, if the JSON library writes an event
  -- alike with its payload and with what it reads of the payload's text.
  pub reached-verify :
      (loads : String → Json)
      → ((e : EventEnvelope) (fields : Fields)
          → canonical (event_data e (loads (canonical (object fields))))
            ≡ canonical (event_data e (object fields)))
      → (store : EventStore) → Reached sha256 canonical store
      → verify sha256 canonical loads store.events ≡ ok (length store.events)
  reached-verify loads reads _ created = unfold verify check_chain in refl
  reached-verify loads reads _ (appended {store} id version event type event_id time run) =
      verify-append_domain sha256 canonical loads id version event type event_id time store _
        (λ e. reads e event.payload) (reached-verify loads reads store run)
  reached-verify loads reads _ (marked {store} event_id run) = reached-verify loads reads store run

  module _ (aggregate_id : String) (expected_version : ℕ) (event : DomainEvent)
      (aggregate_type event_id occurred_at : String) (store : EventStore) where
    abbrev pub attempted : Result EventEnvelope × EventStore
    attempted =
        append_domain sha256 canonical aggregate_id expected_version event aggregate_type event_id
          occurred_at store

    abbrev pub made : EventEnvelope
    made =
        envelope sha256 canonical aggregate_id event aggregate_type event_id occurred_at
          (last aggregate_id store.events)

    abbrev pub grown : EventStore
    grown = record {
      events = store.events ++ made ∷ [];
      outbox =
          store.outbox
          ++ record { event_id = event_id; topic = event.event_type; published = false } ∷ [];
    }

    pub attempted-cases :
        ((attempted.1 ≡ store) × ((e : EventEnvelope) → attempted.0 ≢ ok e))
        ⊎ ((attempted ≡ (ok made, grown)) × (any (clashes made) store.events ≡ false))
    unfolding append_domain
    attempted-cases =
        elim (Bool-cases (version_of (last aggregate_id store.events) == expected_version)) [
          | inr stale ↦ inl (ground (arith, stale), λ e h. ground (arith, stale, h))
          | inl current ↦ elim (Bool-cases (any (clashes made) store.events)) [
            | inl taken ↦
                inl (ground (arith, current, taken), λ e h. ground (arith, current, taken, h))
            | inr free ↦ inr (ground (arith, current, free), free)
          ]
        ]

    attempted-IsPaired : IsPaired store → IsPaired attempted.1
    unfolding IsPaired
    attempted-IsPaired paired = elim attempted-cases [
      | inl (same, failed) ↦ subst IsPaired (sym same) paired
      | inr (e, free) ↦
          subst (λ x. IsPaired x.1) (sym e)
            (map-append _ store.outbox _
              ∙ ap (λ ids. ids ++ event_id ∷ []) paired
              ∙ sym (map-append _ store.events _))
    ]

  pub reached-IsPaired : (store : EventStore) → Reached sha256 canonical store → IsPaired store
  unfolding IsPaired
  reached-IsPaired _ created = refl
  reached-IsPaired _ (appended {store} id version event type event_id time run) =
      attempted-IsPaired id version event type event_id time store (reached-IsPaired store run)
  reached-IsPaired _ (marked {store} event_id run) =
      mark-ids event_id store.outbox ∙ reached-IsPaired store run
