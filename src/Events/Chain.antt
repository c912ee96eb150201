-- ===== src/Events/Chain.antt =====
-- The chains of the event log: an append keeps them verified.
use Prim.Native.String.{◌++◌ as concat}
use mm_harness.Prelude.{
  ℕ, ◌+◌, String, Option, none, some, List, [], ◌∷◌, ◌++◌, any, length, ◌==◌, nat_eq, string_eq,
  ◌≡◌, ◌<◌, refl, sym, ap, ◌∙◌, arith, eq_iff, Bool-cases, Option-cases, inl, inr,
}
use mm_harness.Errors.{ok, Result-cases}
use mm_harness.Json.{Json, object}
use mm_harness.Tools.Audit.{zero_hash}
use mm_harness.Events.{
  DomainEvent, EventEnvelope, EventStore, last, version_of, hash_of, clashes, envelope,
  append_domain, set, expected_hash, check_chain, verify, event_data,
}

-- what the dictionaries of `verify` hold behind rows whose highest version is known
abbrev version_or : ℕ → Option EventEnvelope → ℕ
version_or n none = n
version_or n (some e) = e.aggregate_version

abbrev hash_or : String → Option EventEnvelope → String
hash_or h none = h
hash_or h (some e) = e.event_hash

module _ (sha256 : String → String) (canonical : Json → String) (loads : String → Json) where
  check_chain-cons :
      (p : String → String) (v : String → ℕ) (e : EventEnvelope) (es : List EventEnvelope)
      → check_chain sha256 canonical loads p v (e ∷ es) ≡ ok tt
      → (e.aggregate_version ≡ v e.aggregate_id + 1)
        × (check_chain sha256 canonical loads
              (set e.aggregate_id e.event_hash p)
              (set e.aggregate_id e.aggregate_version v)
              es
            ≡ ok tt)
  unfolding check_chain
  check_chain-cons p v e es h = ground arith

  -- the rows of a verified log have versions above those that were seen before
  check_chain-grows :
      (es : List EventEnvelope) (p : String → String) (v : String → ℕ)
      → check_chain sha256 canonical loads p v es ≡ ok tt
      → (id : String) (f : EventEnvelope) → last id es ≡ some f
      → v id < f.aggregate_version
  unfolding last
  check_chain-grows [] p v h id f found = ground (arith, found)
  check_chain-grows (e ∷ es) p v h id f found =
      let (next, rest) = check_chain-cons p v e es h in
      let grows =
        check_chain-grows es (set e.aggregate_id e.event_hash p)
          (set e.aggregate_id e.aggregate_version v) rest id in
      elim (Option-cases (last id es)) [
        | inl g ↦ ground (arith, g, found, next, eq_iff e.aggregate_id id)
        | inr (l, g) ↦
            ground
              (arith, g, found, next, grows l g, eq_iff e.aggregate_id id, eq_iff id e.aggregate_id)
      ]

  -- so the row with the highest version is the last one
  last-set :
      (p : String → String) (v : String → ℕ) (e : EventEnvelope) (es : List EventEnvelope)
      → check_chain sha256 canonical loads p v (e ∷ es) ≡ ok tt
      → (id : String)
      → (version_or (set e.aggregate_id e.aggregate_version v id) (last id es)
          ≡ version_or (v id) (last id (e ∷ es)))
        × (hash_or (set e.aggregate_id e.event_hash p id) (last id es)
            ≡ hash_or (p id) (last id (e ∷ es)))
  unfolding last
  last-set p v e es h id =
      let (next, rest) = check_chain-cons p v e es h in
      let grows =
        check_chain-grows es (set e.aggregate_id e.event_hash p)
          (set e.aggregate_id e.aggregate_version v) rest id in
      elim (Option-cases (last id es)) [
        | inl g ↦ ground (arith, g, eq_iff e.aggregate_id id, eq_iff id e.aggregate_id)
        | inr (l, g) ↦
            ground (arith, g, grows l g, eq_iff e.aggregate_id id, eq_iff id e.aggregate_id)
      ]

  check_chain-append :
      (es : List EventEnvelope) (p : String → String) (v : String → ℕ) (e : EventEnvelope)
      → check_chain sha256 canonical loads p v es ≡ ok tt
      → e.aggregate_version ≡ version_or (v e.aggregate_id) (last e.aggregate_id es) + 1
      → e.previous_hash ≡ hash_or (p e.aggregate_id) (last e.aggregate_id es)
      → e.event_hash ≡ expected_hash sha256 canonical loads e.previous_hash e
      → check_chain sha256 canonical loads p v (es ++ e ∷ []) ≡ ok tt
  unfolding check_chain
  check_chain-append [] p v e h version link hash =
      unfold last in
      let moved : e.event_hash ≡ expected_hash sha256 canonical loads (p e.aggregate_id) e =
        hash ∙ ap (λ x. expected_hash sha256 canonical loads x e) link in
      ground (
        arith,
        version,
        eq_iff e.previous_hash (p e.aggregate_id),
        link,
        moved,
        eq_iff e.event_hash (expected_hash sha256 canonical loads (p e.aggregate_id) e),
      )
  check_chain-append (f ∷ es) p v e h version link hash =
      let (next, rest) = check_chain-cons p v f es h in
      let (versions, hashes) = last-set p v f es h e.aggregate_id in
      let kept =
        check_chain-append es (set f.aggregate_id f.event_hash p)
          (set f.aggregate_id f.aggregate_version v) e rest
          (version ∙ ap (λ n. n + 1) (sym versions)) (link ∙ sym hashes) hash in
      ground (arith, h, rest, kept)

  version_of-or : (o : Option EventEnvelope) → version_of o ≡ version_or 0 o
  version_of-or none = refl
  version_of-or (some e) = refl

  hash_of-or : (o : Option EventEnvelope) → hash_of o ≡ hash_or zero_hash o
  hash_of-or none = refl
  hash_of-or (some e) = refl

  verify-ok :
      (rows : List EventEnvelope) (n : ℕ)
      → verify sha256 canonical loads rows ≡ ok n
      → (check_chain sha256 canonical loads (λ i. zero_hash) (λ i. 0) rows ≡ ok tt)
        × (n ≡ length rows)
  unfolding verify
  verify-ok rows n h =
      elim (Result-cases (check_chain sha256 canonical loads (λ i. zero_hash) (λ i. 0) rows)) [
        | inl (e, f) ↦ absurd (ground (arith, f, h))
        | inr (u, f) ↦ (f, ground (arith, f, h))
      ]

  -- However an append ends, a log that passes verification passes it afterwards, and the verification counts all its
  -- rows: in each aggregate the versions have no gap and each event links to the one before. The JSON library is taken
  -- to write an event alike with its payload and
  -- with what it reads of the payload's text.
  pub verify-append_domain :
      (aggregate_id : String) (expected_version : ℕ) (event : DomainEvent)
      (aggregate_type event_id occurred_at : String) (store : EventStore) (n : ℕ)
      → ((e : EventEnvelope)
          → canonical (event_data e (loads (canonical (object event.payload))))
            ≡ canonical (event_data e (object event.payload)))
      → verify sha256 canonical loads store.events ≡ ok n
      → let after =
          (append_domain sha256 canonical aggregate_id expected_version event aggregate_type
            event_id occurred_at store).1.events in
        verify sha256 canonical loads after ≡ ok (length after)
  unfolding append_domain verify
  verify-append_domain aggregate_id expected_version event aggregate_type event_id occurred_at store
        n reads h =
      let row = last aggregate_id store.events in
      let made =
        envelope sha256 canonical aggregate_id event aggregate_type event_id occurred_at row in
      let (chained, counted) = verify-ok store.events n h in
      let kept =
        check_chain-append store.events (λ i. zero_hash) (λ i. 0) made chained
          (ap (λ n. n + 1) (version_of-or row)) (hash_of-or row)
          (ap (λ t. sha256 (concat (hash_of row) t)) (sym (reads made))) in
      elim (Bool-cases (version_of row == expected_version)) [
        | inr stale ↦ ground (arith, stale, chained)
        | inl current ↦ elim (Bool-cases (any (clashes made) store.events)) [
          | inl taken ↦ ground (arith, current, taken, chained)
          | inr free ↦ ground (arith, current, free, kept)
        ]
      ]
