-- ===== src/Events/Outbox.antt =====
-- The outbox: an event is pending from its append until it is marked.
use mm_harness.Prelude.{
  ℕ, String, true, false, not, ◌&&◌, List, [], ◌∷◌, ◌++◌, map, any, select, select-append, ◌==◌,
  string_eq, nat_eq, ◌≡◌, refl, ap, sym, subst, ◌∙◌, arith, eq_iff, inl, inr,
}
use mm_harness.Errors.{ok}
use mm_harness.Json.{Json}
use mm_harness.Events.{
  DomainEvent, EventEnvelope, OutboxRow, EventStore, clashes, append_domain, is_pending, pending,
  publish_row, mark_published,
}
use mm_harness.Events.Runs.{made, grown, attempted-cases}

-- a row for another event changes nothing
is_pending-other :
    (os : List OutboxRow) (r : OutboxRow) (e : EventEnvelope)
    → (e.event_id == r.event_id) ≡ false
    → is_pending (os ++ r ∷ []) e ≡ is_pending os e
is_pending-other [] r e other =
    ground (arith, other, eq_iff e.event_id r.event_id, eq_iff r.event_id e.event_id)
is_pending-other (o ∷ os) r e other = ground (arith, is_pending-other os r e other)

select-other :
    (os : List OutboxRow) (r : OutboxRow) (es : List EventEnvelope)
    → any (λ e. e.event_id == r.event_id) es ≡ false
    → select (is_pending (os ++ r ∷ [])) es ≡ select (is_pending os) es
select-other os r [] other = refl
select-other os r (e ∷ es) other =
    ground (arith, other, is_pending-other os r e, select-other os r es)

is_pending-new :
    (os : List OutboxRow) (r : OutboxRow) (e : EventEnvelope)
    → r.event_id ≡ e.event_id
    → r.published ≡ false
    → is_pending (os ++ r ∷ []) e ≡ true
is_pending-new [] r e same new = ground (arith, same, new, eq_iff r.event_id e.event_id)
is_pending-new (o ∷ os) r e same new = ground (arith, is_pending-new os r e same new)

is_pending-mark :
    (os : List OutboxRow) (id : String) (e : EventEnvelope)
    → is_pending (map (publish_row id) os) e ≡ (not (e.event_id == id) && is_pending os e)
is_pending-mark [] id e = ground arith
is_pending-mark (o ∷ os) id e = ground (
  arith,
  is_pending-mark os id e,
  eq_iff o.event_id id,
  eq_iff o.event_id e.event_id,
  eq_iff e.event_id id,
)

select-mark :
    (os : List OutboxRow) (id : String) (es : List EventEnvelope)
    → select (is_pending (map (publish_row id) os)) es
      ≡ select (λ e. not (e.event_id == id)) (select (is_pending os) es)
select-mark os id [] = refl
select-mark os id (e ∷ es) = ground (arith, is_pending-mark os id e, select-mark os id es)

clashes-id :
    (e : EventEnvelope) (es : List EventEnvelope)
    → any (clashes e) es ≡ false
    → any (λ x. x.event_id == e.event_id) es ≡ false
clashes-id e [] h = refl
clashes-id e (x ∷ es) h = ground (arith, h, clashes-id e es)

module _ (sha256 : String → String) (canonical : Json → String) where
  -- An event that is appended becomes the last of those that are not published, and the ones before
  -- it stay; marking an event takes just that event out of them.
  pub append_domain-pending :
      (aggregate_id : String) (expected_version : ℕ) (event : DomainEvent)
      (aggregate_type event_id occurred_at : String) (store after : EventStore) (e : EventEnvelope)
      (id : String)
      → append_domain sha256 canonical aggregate_id expected_version event aggregate_type event_id
          occurred_at store
        ≡ (ok e, after)
      → (pending after ≡ pending store ++ e ∷ [])
        × (pending (mark_published id after) ≡ select (λ x. not (x.event_id == id)) (pending after))
  append_domain-pending aggregate_id expected_version event aggregate_type event_id occurred_at
        store after e id h =
      elim (attempted-cases sha256 canonical aggregate_id expected_version event aggregate_type
        event_id occurred_at store) [
          | inl (same, failed) ↦ absurd (failed e (ap (λ r. r.0) h))
          | inr (ended, free) ↦
              let row : OutboxRow = record {
                event_id = event_id;
                topic = event.event_type;
                published = false;
              } in
              let new =
                made sha256 canonical aggregate_id expected_version event aggregate_type event_id
                  occurred_at store in
              let reached = sym ended ∙ h in
              let same : new ≡ e = ground (arith, reached) in
              let moved : grown sha256 canonical aggregate_id expected_version event aggregate_type
                    event_id occurred_at store
                  ≡ after =
                ap (λ r. r.1) reached in
              let old =
                select-other store.outbox row store.events (clashes-id new store.events free) in
              let added = is_pending-new store.outbox row new refl refl in
              let listed : select (is_pending (store.outbox ++ row ∷ [])) (store.events ++ new ∷ [])
                  ≡ pending store ++ new ∷ [] =
                ground (
                  arith,
                  select-append (is_pending (store.outbox ++ row ∷ [])) store.events (new ∷ []),
                  old,
                  added,
                ) in
              (
                subst (λ x. pending x ≡ pending store ++ e ∷ []) moved
                    (listed ∙ ap (λ x. pending store ++ x ∷ []) same),
                select-mark after.outbox id after.events,
              )
        ]
