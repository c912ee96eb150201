-- ===== src/Store/Chain.antt =====
-- The chain of the store's events: every change keeps it verified.
use Prim.Native.String.{◌++◌ as concat}
use mm_harness.Prelude.{
  ℕ, String, Bool, true, false, ◌||◌, Option, none, some, List, [], ◌∷◌, ◌++◌, any, ◌==◌, string_eq,
  ◌≡◌, refl, sym, ap, arith, eq_iff, Bool-cases, inl, inr, suc, map, ◌∙◌, is_blank, if◌then◌else◌,
}
use mm_harness.Errors.{ok}
use mm_harness.Json.{Json, Items, nil, item, string}
use mm_harness.Tools.Audit.{zero_hash}
use mm_harness.Store.Models.{EventRow, ArtifactRecord, Activity, Claim, Database, Library, Stamp}
use mm_harness.Store.Events.{
  bind-eq-ok, append_event, event_row, envelope_of, envelope_of_row, last_hash, check_events,
}
use mm_harness.Store.Questions.{insert_artifact}
use mm_harness.Store.Evidence.{insert_artifacts, insert_claim, insert_each, insert_claims}
use mm_harness.Store.Keeps.{IsKept}

module _ (lib : Library) where
  -- An event is written alike with its payload and with what the library reads of the payload's text. Keys are sorted
  -- where a dictionary is written, so what is read need only be the same up to the order of its keys.
  abbrev pub Rereads : Type 0
  Rereads =
      (event_id project : String) (question activity : Option String) (event_type : String)
      (payload : Json) (at previous : String)
      → lib.json_text (
          envelope_of event_id project question activity event_type
            (lib.loads (lib.json_text payload)) at previous)
        ≡ lib.json_text
            (envelope_of event_id project question activity event_type payload at previous)

  abbrev pub IsChained : Database → Type 0
  IsChained db = check_events lib zero_hash db.events ≡ ok tt

  check_events-append :
      (previous : String) (rows : List EventRow) (r : EventRow)
      → check_events lib previous rows ≡ ok tt
      → r.previous_hash ≡ last_hash previous rows
      → r.event_hash
        ≡ lib.digest (concat (last_hash previous rows) (lib.json_text (envelope_of_row lib r)))
      → check_events lib previous (rows ++ r ∷ []) ≡ ok tt
  unfolding check_events
  check_events-append previous [] r h link hash = ground (
    arith,
    eq_iff r.previous_hash previous,
    eq_iff r.event_hash (lib.digest (concat previous (lib.json_text (envelope_of_row lib r)))),
  )
  check_events-append previous (x ∷ rows) r h link hash =
      ground (arith, check_events-append x.event_hash rows r)

  module _ (reads : Rereads) where
    pub append_event-IsChained :
        (stamp : Stamp) (project : String) (question activity : Option String) (event_type : String)
        (payload : Json) (db after : Database)
        → append_event lib stamp project question activity event_type payload db ≡ ok after
        → IsChained db
        → IsChained after
    unfolding append_event
    append_event-IsChained stamp project question activity event_type payload db after added h =
        let previous = last_hash zero_hash db.events in
        let r = event_row lib stamp project question activity event_type payload previous in
        let hashed =
          ap (λ t. lib.digest (concat previous t))
            (sym (
              reads stamp.event_id project question activity event_type payload
                (lib.iso stamp.occurred_at) previous)) in
        elim (Bool-cases (
          any (λ (x : EventRow). x.event_id == r.event_id || x.event_hash == r.event_hash)
            db.events)) [
              | inl taken ↦ absurd (ground (arith, taken, added))
              | inr free ↦
                  ground
                    (arith, free, added, check_events-append zero_hash db.events r h refl hashed)
            ]

  insert_artifact-events :
      (a : ArtifactRecord) (db after : Database)
      → insert_artifact lib a db ≡ ok after
      → after.events ≡ db.events
  unfolding insert_artifact
  insert_artifact-events a db after h = ground (arith, h)

  insert_artifacts-events :
      (id question : String) (added : List ArtifactRecord) (db after : Database)
      → insert_artifacts lib id question added db ≡ ok after
      → after.events ≡ db.events
  unfolding insert_artifacts
  insert_artifacts-events id question [] db after h = ground (arith, h)
  insert_artifacts-events id question (a ∷ added) db after h =
      let (u, owned, rest) = bind-eq-ok _ _ h in
      let (mid, inserted, later) = bind-eq-ok _ _ rest in
      insert_artifacts-events id question added mid after later
      ∙ insert_artifact-events a db mid inserted

  insert_claim-events :
      (c : Claim String) (db after : Database)
      → insert_claim lib c db ≡ ok after
      → after.events ≡ db.events
  unfolding insert_claim
  insert_claim-events c db after h = ground (arith, h)

  said-events :
      (blank : Bool) (c : Claim String) (db after : Database)
      → (if blank then ok db else insert_claim lib c db) ≡ ok after
      → after.events ≡ db.events
  said-events true c db after h = ground (arith, h)
  said-events false c db after h = insert_claim-events c db after h

  insert_each-events :
      (now : ℕ) (claim_ids : ℕ → String) (a : Activity String) (evidence : List String) (index : ℕ)
      (claims : Items) (db after : Database)
      → insert_each lib now claim_ids a evidence index claims db ≡ ok after
      → after.events ≡ db.events
  unfolding insert_each
  insert_each-events now claim_ids a evidence index nil db after h = ground (arith, h)
  insert_each-events now claim_ids a evidence index (item (string claim) claims) db after h =
      let (mid, inserted, later) = bind-eq-ok _ _ h in
      insert_each-events now claim_ids a evidence (suc index) claims mid after later
      ∙ said-events (is_blank claim) _ db mid inserted
  insert_each-events now claim_ids a evidence index (item other claims) db after h =
      insert_each-events now claim_ids a evidence (suc index) claims db after h

  insert_claims-events :
      (now : ℕ) (claim_ids : ℕ → String) (a : Activity String) (added : List String)
      (claims : Option Items) (db after : Database)
      → insert_claims lib now claim_ids a added claims db ≡ ok after
      → after.events ≡ db.events
  unfolding insert_claims
  insert_claims-events now claim_ids a added none db after h = ground (arith, h)
  insert_claims-events now claim_ids a added (some claims) db after h =
      insert_each-events now claim_ids a _ 0 claims db after h

  module _ (reads : Rereads) where
    pub IsChained-IsKept : IsKept lib IsChained
    IsChained-IsKept = record {
      events = append_event-IsChained reads;
      projects = λ ps db h. h;
      questions = λ qs db h. h;
      activities = λ rows db h. h;
      artifacts = λ a db after e h. rw (insert_artifact-events a db after e) h;
      evidence = λ now claim_ids a id added claims db mid after e f h.
          rw (insert_claims-events now claim_ids a (map (λ r. r.id) added) claims mid after f)
            (rw (insert_artifacts-events id a.question_id added db mid e) h);
    }
