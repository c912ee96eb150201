-- ===== src/Events/Samples.antt =====
-- Two writers that read an aggregate before its first event.
use mm_harness.Events.{event_data}
use mm_harness.Prelude.{ap, String, false, none, [], ◌∷◌, nat_eq, string_eq, ◌≡◌, refl}
use mm_harness.Errors.{ok, err, conflict}
use mm_harness.Json.{Json, end}
use mm_harness.Prelude.{map, length, select, not, ◌==◌, ◌++◌}
use mm_harness.Json.{object}
use mm_harness.Store.Texts.{text_of, value_of, value_of-text_of}
use mm_harness.Events.Runs.{created, appended, marked, reached-verify}
use mm_harness.Events.Outbox.{append_domain-pending}
use mm_harness.Events.{
  verify, list_events, insert_version, take, pending, unpublished, mark_published, DomainEvent,
  EventEnvelope, EventStore, last, envelope, append_domain,
}
use mm_harness.Events.Versions.{append_domain-stale}

abbrev event : DomainEvent
event = record {
  event_type = "activity.planned.v1";
  payload = end;
  causation_id = none;
  actor_type = "system";
  actor_id = "workflow";
}

abbrev written : Json → String
written j = "{}"

abbrev empty : EventStore
empty = record { events = []; outbox = [] }

abbrev first : EventEnvelope
first = envelope (λ s. s) written "run" event "workflow" "event-1" "2026-01-01T00:00:00" none

abbrev one_event : EventStore
one_event = record {
  events = first ∷ [];
  outbox = record { event_id = "event-1"; topic = "activity.planned.v1"; published = false } ∷ [];
}

-- a log with one append, one that is stale, and a mark
abbrev logged : EventStore
logged =
    mark_published "event-1"
      (append_domain (λ s. s) text_of "run" 0 event "workflow" "event-2" "2026-01-01T00:00:01"
        (append_domain (λ s. s) text_of "run" 0 event "workflow" "event-1" "2026-01-01T00:00:00"
          empty).1).1

-- it has the one event
logged_length : length logged.events ≡ 1
unfolding append_domain last
logged_length = refl

-- once it is marked, nothing is left to publish
logged_published : unpublished 100 logged ≡ []
unfolding append_domain last take
logged_published = refl

-- the events of an aggregate are listed by their versions
listed :
    map
      (λ e. e.aggregate_version)
      (list_events "run" (record first { aggregate_version = 2 } ∷ first ∷ []))
    ≡ 1 ∷ 2 ∷ []
unfolding list_events insert_version
listed = refl

first_appended :
    append_domain (λ s. s) written "run" 0 event "workflow" "event-1" "2026-01-01T00:00:00" empty
    ≡ (ok first, one_event)
unfolding append_domain last
first_appended = refl

append_domain-stale_example :
    append_domain
      (λ s. s)
      written
      "run"
      0
      event
      "workflow"
      "event-2"
      "2026-01-01T00:00:01"
      one_event
    ≡ (err conflict, one_event)
append_domain-stale_example =
    append_domain-stale (λ s. s) written "run" 0 event "workflow" "event-1" "2026-01-01T00:00:00"
      empty one_event first first_appended event "workflow" "event-2" "2026-01-01T00:00:01"

reached-verify_example : verify (λ s. s) text_of value_of logged.events ≡ ok (length logged.events)
reached-verify_example =
    reached-verify (λ s. s) text_of value_of
      (λ e fields. ap (λ (p : Json). text_of (event_data e p)) (value_of-text_of (object fields)))
      logged
      (marked "event-1" (
        appended "run" 0 event "workflow" "event-2" "2026-01-01T00:00:01"
          (appended "run" 0 event "workflow" "event-1" "2026-01-01T00:00:00" created)))

append_domain-pending_example :
    (pending one_event ≡ pending empty ++ first ∷ [])
    × (pending (mark_published "event-1" one_event)
        ≡ select (λ x. not (x.event_id == "event-1")) (pending one_event))
append_domain-pending_example =
    append_domain-pending (λ s. s) written "run" 0 event "workflow" "event-1" "2026-01-01T00:00:00"
      empty one_event first "event-1" first_appended
