-- ===== src/Store/CitedRuns.antt =====
-- The evidence of the claims passes its verification after every run of the store's operations.
use mm_harness.Prelude.{
  ℕ, suc, String, Bool, true, false, Option, none, some, List, [], ◌∷◌, all, all-append, map,
  select, length, ◌==◌, string_eq, ◌≡◌, refl, sym, subst, ◌∙◌, arith, eq_iff, Bool-cases, inl, inr,
  is_blank, strip, if◌then◌else◌,
}
use mm_harness.Errors.{ok, Result-cases}
use mm_harness.Json.{Json, Items, nil, item, string, array}
use mm_harness.Tools.Audit.{items_of}
use mm_harness.Store.Models.{
  ArtifactRecord, Activity, Claim, ClaimEvidenceRecord, Database, Library, Stamp,
}
use mm_harness.Store.Events.{◌>>=◌, bind-eq-ok, append_event}
use mm_harness.Store.Questions.{is_text, insert_artifact, row_of_artifact, get_artifact}
use mm_harness.Store.Evidence.{
  evidence_ids, insert_artifacts, insert_claim, insert_each, insert_claims, ids_in, load_claim,
  load_claims, list_claim_evidence, check_evidence, check_claims, verify_claim_evidence,
}
use mm_harness.Store.Keeps.{IsKept}
use mm_harness.Store.Runs.{IsReached, empty, reached-keeps}
use mm_harness.Store.Cited.{
  owned, is_cited, IsCited, owned-new, all-owned-append, evidence_ids-owned, texts_of-items_of,
  insert_artifact-ok, insert_artifact-IsCited,
}

module _ (lib : Library) where
  insert_artifact-owned :
      (a : ArtifactRecord) (db after : Database) (question : String) (ids : List String)
      → insert_artifact lib a db ≡ ok after
      → all (owned db.artifacts question) ids ≡ true
      → all (owned after.artifacts question) ids ≡ true
  insert_artifact-owned a db after question ids h c =
      let (free, e) = insert_artifact-ok lib a db after h in
      rw e (all-owned-append lib db.artifacts (row_of_artifact lib a) question ids c)

  -- the artifacts that end an activity are its question's, and found
  insert_artifacts-IsCited :
      (id question : String) (added : List ArtifactRecord) (seen : List String)
      (db after : Database)
      → insert_artifacts lib id question added db ≡ ok after
      → IsCited lib db
      → all (owned db.artifacts question) seen ≡ true
      → IsCited lib after
        × (all (owned after.artifacts question) seen ≡ true)
        × (all (owned after.artifacts question) (map (λ r. r.id) added) ≡ true)
  unfolding insert_artifacts
  insert_artifacts-IsCited id question [] seen db after h c s =
      let e : db ≡ after = ground (arith, h) in (subst (IsCited lib) e c, rw (sym e) s, refl)
  insert_artifacts-IsCited id question (a ∷ added) seen db after h c s =
      let (u, checked, rest) = bind-eq-ok _ _ h in
      let (mid, inserted, later) = bind-eq-ok _ _ rest in
      let (free, e) = insert_artifact-ok lib a db mid inserted in
      let own : is_text question a.question_id ≡ true = ground (arith, checked) in
      let new : owned mid.artifacts question a.id ≡ true =
        rw e (owned-new db.artifacts (row_of_artifact lib a) question free own) in
      let (c2, s2, t2) =
        insert_artifacts-IsCited id question added (a.id ∷ seen) mid after later
          (insert_artifact-IsCited lib a db mid inserted c)
          (ground (arith, new, insert_artifact-owned a db mid question seen inserted s)) in
      (c2, ground (arith, s2), ground (arith, s2, t2))

  insert_claim-cited :
      (c : Claim String) (db after : Database)
      → insert_claim lib c db ≡ ok after
      → is_cited lib db.artifacts c ≡ true
      → all (is_cited lib db.artifacts) db.claims ≡ true
      → (after.artifacts ≡ db.artifacts) × (all (is_cited lib after.artifacts) after.claims ≡ true)
  unfolding insert_claim
  insert_claim-cited c db after h k i =
      ground (arith, h, k, i, all-append (is_cited lib db.artifacts) db.claims (c ∷ []))

  -- the row of a claim, where it is not blank
  said-cited :
      (blank : Bool) (c : Claim String) (db after : Database)
      → (if blank then ok db else insert_claim lib c db) ≡ ok after
      → is_cited lib db.artifacts c ≡ true
      → all (is_cited lib db.artifacts) db.claims ≡ true
      → (after.artifacts ≡ db.artifacts) × (all (is_cited lib after.artifacts) after.claims ≡ true)
  said-cited true c db after h k i = ground (arith, h, i)
  said-cited false c db after h k i = insert_claim-cited c db after h k i

  module _
      (reads : (ids : List String)
        → lib.loads (lib.json_text (array (items_of ids))) ≡ array (items_of ids))
      (now : ℕ) (claim_ids : ℕ → String) (a : Activity String) (evidence : List String) where
    insert_each-cited :
        (index : ℕ) (claims : Items) (db after : Database)
        → insert_each lib now claim_ids a evidence index claims db ≡ ok after
        → all (owned db.artifacts a.question_id) evidence ≡ true
        → all (is_cited lib db.artifacts) db.claims ≡ true
        → (after.artifacts ≡ db.artifacts)
          × (all (is_cited lib after.artifacts) after.claims ≡ true)
    unfolding insert_each
    insert_each-cited index nil db after h k i = ground (arith, h, i)
    insert_each-cited index (item (string claim) claims) db after h k i =
        let (mid, inserted, later) = bind-eq-ok _ _ h in
        let row : Claim String = record {
          id = claim_ids index;
          project_id = a.project_id;
          question_id = a.question_id;
          activity_id = a.id;
          revision = a.revision;
          claim_index = index;
          claim = strip claim;
          evidence_artifact_ids = lib.json_text (array (items_of evidence));
          created_at = now;
        } in
        let cites : is_cited lib db.artifacts row ≡ true =
          ground (arith, reads evidence, texts_of-items_of lib evidence, k) in
        let (same, cited) = said-cited (is_blank claim) row db mid inserted cites i in
        let (rest, all_cited) =
          insert_each-cited (suc index) claims mid after later (rw same k) cited in
        (rest ∙ same, all_cited)
    insert_each-cited index (item other claims) db after h k i =
        insert_each-cited (suc index) claims db after h k i

  insert_claims-IsCited :
      (reads : (ids : List String)
        → lib.loads (lib.json_text (array (items_of ids))) ≡ array (items_of ids))
      (now : ℕ) (claim_ids : ℕ → String) (a : Activity String) (added : List String)
      (claims : Option Items) (db after : Database)
      → insert_claims lib now claim_ids a added claims db ≡ ok after
      → IsCited lib db
      → all (owned db.artifacts a.question_id) added ≡ true
      → IsCited lib after
  unfolding insert_claims
  insert_claims-IsCited reads now claim_ids a added none db after h c k =
      subst (IsCited lib) (ground (arith, h)) c
  insert_claims-IsCited reads now claim_ids a added (some claims) db after h c k =
      let (same, cited) =
        insert_each-cited reads now claim_ids a (evidence_ids a.question_id added db) 0 claims db
          after h (evidence_ids-owned a.question_id added db (c.found a.question_id) k) c.cited in
      record { found = λ question. rw same (c.found question); cited = cited }

  append_event-IsCited :
      (stamp : Stamp) (project : String) (question activity : Option String) (event_type : String)
      (payload : Json) (db after : Database)
      → append_event lib stamp project question activity event_type payload db ≡ ok after
      → IsCited lib db
      → IsCited lib after
  unfolding append_event
  append_event-IsCited stamp project question activity event_type payload db after h c =
      let (e, f) : (after.artifacts ≡ db.artifacts) × (after.claims ≡ db.claims) =
        ground (arith, h) in
      record { found = λ q. rw e (c.found q); cited = rw (e, f) c.cited }

  pub IsCited-IsKept :
      ((ids : List String)
        → lib.loads (lib.json_text (array (items_of ids))) ≡ array (items_of ids))
      → IsKept lib (IsCited lib)
  IsCited-IsKept reads = record {
    events = append_event-IsCited;
    projects = λ ps db c. record { found = c.found; cited = c.cited };
    questions = λ qs db c. record { found = c.found; cited = c.cited };
    activities = λ rows db c. record { found = c.found; cited = c.cited };
    artifacts = insert_artifact-IsCited lib;
    evidence = λ now claim_ids a id added claims db mid after e f c.
        let (d, seen, new) = insert_artifacts-IsCited id a.question_id added [] db mid e c refl in
        insert_claims-IsCited reads now claim_ids a (map (λ r. r.id) added) claims mid after f d
          new;
  }

  check_evidence-owned :
      (question : String) (ids : List String) (db : Database)
      → all (owned db.artifacts question) ids ≡ true
      → check_evidence lib question ids db ≡ ok tt
  unfolding check_evidence get_artifact ◌>>=◌
  check_evidence-owned question [] db h = refl
  check_evidence-owned question (id ∷ ids) db h =
      ground (arith, h, check_evidence-owned question ids db)

  check_claims-cited :
      (question : String) (claims : List (Claim String)) (db : Database)
      → all (is_cited lib db.artifacts) claims ≡ true
      → (found : List ClaimEvidenceRecord) × (load_claims lib
            (select (λ c. c.question_id == question) claims)
          ≡ ok found)
        × (check_claims lib question found db ≡ ok tt)
  unfolding check_claims load_claims ◌>>=◌
  check_claims-cited question [] db h = ([], refl, refl)
  check_claims-cited question (c ∷ claims) db h =
      let (found, loaded, checked) = check_claims-cited question claims db (ground (arith, h)) in
      elim (Bool-cases (c.question_id == question)) [
        | inr other ↦ (found, ground (arith, other, loaded), checked)
        | inl same ↦ elim (Result-cases (ids_in lib (lib.loads c.evidence_artifact_ids))) [
          | inl (e, f) ↦ absurd (ground (arith, f, h))
          | inr (ids, f) ↦
              let own : all (owned db.artifacts question) ids ≡ true =
                subst (λ q. all (owned db.artifacts q) ids ≡ true)
                  ((eq_iff c.question_id question).0 same) (ground (arith, f, h)) in
              (
                load_claim lib c ids ∷ found,
                ground (arith, same, f, loaded),
                ground (arith, check_evidence-owned question ids db own, checked),
              )
        ]
      ]

  -- After any run of the store's operations, whatever they are called with and whether they succeed or
  -- raise, the claim evidence of each question passes its verification: every artifact that a stored claim
  -- cites is stored, and belongs to the claim's question. The JSON library is taken to read a list of ids
  -- back as it wrote it.
  pub reached-cited :
      (question : String) (db : Database)
      → ((ids : List String)
          → lib.loads (lib.json_text (array (items_of ids))) ≡ array (items_of ids))
      → IsReached lib db
      → (n : ℕ) × (verify_claim_evidence lib question db ≡ ok n)
  unfolding verify_claim_evidence list_claim_evidence ◌>>=◌
  reached-cited question db reads r =
      let first : IsCited lib empty = record { found = λ q. refl; cited = refl } in
      let c = reached-keeps lib (IsCited lib) (IsCited-IsKept reads) first db r in
      let (found, loaded, checked) = check_claims-cited question db.claims db c.cited in
      (length found, ground (arith, loaded, checked))
