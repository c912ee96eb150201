-- ===== src/Events.antt =====
-- domain/events.py and infrastructure/db/sqlite_events.py: the log of domain events, with a version per
-- aggregate, and its outbox. The digest and the JSON writer are parameters; an event's id and its
-- time are given with it. Rows stand in the order of their sequence numbers.
pub mod Versions
pub mod Chain
pub mod Runs
pub mod Outbox
pub mod Samples
use Prim.Native.String.{◌++◌ as concat}
use mm_harness.Prelude.{
  ℕ, zero, suc, ◌+◌, String, Bool, true, false, not, ◌&&◌, ◌||◌, Option, none, some, List, [], ◌∷◌,
  ◌++◌, any, select, map, length, ltb, ◌==◌, nat_eq, string_eq, if◌then◌else◌,
}
use mm_harness.Errors.{Error, Result, ok, err, conflict, integrity_error, ◌>>=◌}
use mm_harness.Json.{Json, Fields, object, field, end, string, integer, pos}
use mm_harness.Tools.Audit.{zero_hash, text_or_null}

pub record DomainEvent : Type 0 where
  pub event_type : String
  pub payload : Fields
  pub causation_id : Option String
  pub actor_type : String
  pub actor_id : String

pub record EventEnvelope : Type 0 where
  pub event_id : String
  pub event_type : String
  pub aggregate_type : String
  pub aggregate_id : String
  pub aggregate_version : ℕ
  pub correlation_id : String
  pub causation_id : Option String
  pub actor_type : String
  pub actor_id : String
  pub occurred_at : String
  pub payload : Fields
  pub payload_schema : String
  pub previous_hash : String
  pub event_hash : String

-- a row of m2_outbox; its body is the event's row
pub record OutboxRow : Type 0 where
  pub event_id : String
  pub topic : String
  pub published : Bool

pub record EventStore : Type 0 where
  pub events : List EventEnvelope
  pub outbox : List OutboxRow

-- _last: the row of the aggregate with the highest version
abbrev pub later_of : EventEnvelope → Option EventEnvelope → EventEnvelope
later_of e none = e
later_of e (some f) = if ltb e.aggregate_version f.aggregate_version then f else e

unfoldable pub last : String → List EventEnvelope → Option EventEnvelope
last aggregate_id [] = none
last aggregate_id (e ∷ es) =
    let rest = last aggregate_id es in
    if e.aggregate_id == aggregate_id then some (later_of e rest) else rest

abbrev pub version_of : Option EventEnvelope → ℕ
version_of none = 0
version_of (some e) = e.aggregate_version

abbrev pub hash_of : Option EventEnvelope → String
hash_of none = zero_hash
hash_of (some e) = e.event_hash

-- the dictionary whose digest is taken, for a payload
abbrev pub event_data : EventEnvelope → Json → Json
event_data e payload = object (
    field "event_id" (string e.event_id) (
      field "event_type" (string e.event_type) (
        field "aggregate_type" (string e.aggregate_type) (
          field "aggregate_id" (string e.aggregate_id) (
            field "aggregate_version" (integer (pos e.aggregate_version)) (
              field "correlation_id" (string e.correlation_id) (
                field "causation_id" (text_or_null e.causation_id) (
                  field "actor_type" (string e.actor_type) (
                    field "actor_id" (string e.actor_id) (
                      field "occurred_at" (string e.occurred_at) (
                        field "payload" payload (
                          field "payload_schema" (string e.payload_schema)
                            (field "previous_hash" (string e.previous_hash) end)))))))))))))

abbrev pub envelope_data : EventEnvelope → Json
envelope_data e = event_data e (object e.payload)

-- the rows that the table's unique columns do not admit beside `e`
abbrev pub clashes : EventEnvelope → EventEnvelope → Bool
clashes e r =
    r.event_id == e.event_id
    || r.event_hash == e.event_hash
    || r.aggregate_id == e.aggregate_id && r.aggregate_version == e.aggregate_version

-- `d[key] = value`
abbrev pub set : {A : Type 0} → String → A → (String → A) → String → A
set key value d k = if k == key then value else d k

-- list: the rows of an aggregate by their version, rows of one version in the order of the table
unfoldable pub insert_version : EventEnvelope → List EventEnvelope → List EventEnvelope
insert_version e [] = e ∷ []
insert_version e (f ∷ fs) =
    let rest = insert_version e fs in
    if ltb f.aggregate_version e.aggregate_version then f ∷ rest else e ∷ f ∷ fs

unfoldable pub list_events : String → List EventEnvelope → List EventEnvelope
list_events aggregate_id [] = []
list_events aggregate_id (e ∷ es) =
    let rest = list_events aggregate_id es in
    if e.aggregate_id == aggregate_id then insert_version e rest else rest

-- the join with the outbox, whose event ids are unique
abbrev pub is_pending : List OutboxRow → EventEnvelope → Bool
is_pending outbox e = any (λ o. o.event_id == e.event_id && not o.published) outbox

abbrev pub pending : EventStore → List EventEnvelope
pending store = select (is_pending store.outbox) store.events

-- LIMIT
unfoldable pub take : {A : Type 0} → ℕ → List A → List A
take zero xs = []
take (suc n) [] = []
take (suc n) (x ∷ xs) = x ∷ take n xs

abbrev pub unpublished : ℕ → EventStore → List EventEnvelope
unpublished limit store = take limit (pending store)

-- mark_published
abbrev pub publish_row : String → OutboxRow → OutboxRow
publish_row event_id o = if o.event_id == event_id then record o { published = true } else o

abbrev pub mark_published : String → EventStore → EventStore
mark_published event_id store = record store { outbox = map (publish_row event_id) store.outbox }

module _ (sha256 : String → String) (canonical : Json → String) where
  -- verify: the rows in their order, with the last hash and the last version of each aggregate. A payload is stored as
  -- its JSON text and read back.
  module _ (loads : String → Json) where
    abbrev pub expected_hash : String → EventEnvelope → String
    expected_hash previous e =
        sha256 (concat previous (canonical (event_data e (loads (canonical (object e.payload))))))

    unfoldable pub check_chain :
        (String → String) → (String → ℕ) → List EventEnvelope → Result (Unit {0})
    check_chain previous_by version_by [] = ok tt
    check_chain previous_by version_by (e ∷ es) =
        let previous = previous_by e.aggregate_id in
        let rest =
          check_chain (set e.aggregate_id e.event_hash previous_by)
            (set e.aggregate_id e.aggregate_version version_by) es in
        if not (e.aggregate_version == version_by e.aggregate_id + 1)
        then err conflict
        else if not (e.previous_hash == previous) || not (e.event_hash == expected_hash previous e)
        then err conflict
        else rest

    unfoldable pub verify : List EventEnvelope → Result ℕ
    verify rows = check_chain (λ i. zero_hash) (λ i. 0) rows >>= (λ u. ok (length rows))

  -- the envelope behind the aggregate's last row
  abbrev pub envelope :
      String → DomainEvent → String → String → String → Option EventEnvelope → EventEnvelope
  envelope aggregate_id event aggregate_type event_id occurred_at previous_row =
      let unsigned : EventEnvelope = record {
        event_id = event_id;
        event_type = event.event_type;
        aggregate_type = aggregate_type;
        aggregate_id = aggregate_id;
        aggregate_version = version_of previous_row + 1;
        correlation_id = aggregate_id;
        causation_id = event.causation_id;
        actor_type = event.actor_type;
        actor_id = event.actor_id;
        occurred_at = occurred_at;
        payload = event.payload;
        payload_schema = "m2harness/domain-event/v1";
        previous_hash = hash_of previous_row;
        event_hash = "";
      } in
      record unsigned {
        event_hash = sha256 (concat (hash_of previous_row) (canonical (envelope_data unsigned)));
      }

  -- append_domain, with the correlation id and the schema that it defaults to. The table's ids and
  -- hashes are unique, and so are an aggregate's versions.
  unfoldable pub append_domain :
      String
      → ℕ
      → DomainEvent
      → String
      → String
      → String
      → EventStore
      → Result EventEnvelope × EventStore
  append_domain aggregate_id expected_version event aggregate_type event_id occurred_at store =
      let previous_row = last aggregate_id store.events in
      let e = envelope aggregate_id event aggregate_type event_id occurred_at previous_row in
      if not (version_of previous_row == expected_version)
      then (err conflict, store)
      else if any (clashes e) store.events
      then (err integrity_error, store)
      else (
        ok e,
        record {
          events = store.events ++ e ∷ [];
          outbox =
              store.outbox
              ++ record { event_id = event_id; topic = event.event_type; published = false } ∷ [];
        },
      )
