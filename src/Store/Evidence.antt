-- ===== src/Store/Evidence.antt =====
-- store.py: the artifacts that end an activity, and the evidence of its claims.
use mm_harness.Prelude.{
  ℕ, suc, String, Bool, not, ◌||◌, ◌&&◌, Option, none, some, List, [], ◌∷◌, ◌++◌, any, map, select,
  length, ltb, contains, ◌==◌, nat_eq, string_eq, if◌then◌else◌, strip, is_blank,
}
use mm_harness.Errors.{Result, ok, err, value_error, conflict, integrity_error, raise_if}
use mm_harness.Json.{Json, Items, Fields, nil, item, string, object, array, get}
use mm_harness.Dag.{before}
use mm_harness.Tools.Audit.{items_of}
use mm_harness.Store.Models.{
  Artifact, ArtifactRecord, Activity, Claim, ClaimEvidenceRecord, Database, Library,
}
use mm_harness.Store.Events.{◌>>=◌}
use mm_harness.Store.Questions.{
  is_text, is_some, project_of, question_of, insert_artifact, get_artifact,
}

-- value.get(key) if isinstance(value, dict) else None
abbrev pub get_in : String → Option Json → Option Json
get_in key (some (object fields)) = get key fields
get_in key _ = none

-- the claims of a result, where they are a list
abbrev pub items_in : Option Json → Option Items
items_in (some (array items)) = some items
items_in _ = none

unfoldable pub claims_of : Fields → Option Items
claims_of result =
    items_in (get_in "claims" (get_in "report" (get_in "output" (some (object result)))))

-- ORDER BY created_at,id
abbrev pub is_earlier : Artifact String → Artifact String → Bool
is_earlier a b = ltb a.created_at b.created_at || (a.created_at == b.created_at && before a.id b.id)

unfoldable pub insert_by_age : Artifact String → List (Artifact String) → List (Artifact String)
insert_by_age a [] = a ∷ []
insert_by_age a (b ∷ bs) =
    let rest = insert_by_age a bs in if is_earlier a b then a ∷ b ∷ bs else b ∷ rest

unfoldable pub by_age : List (Artifact String) → List (Artifact String)
unfolding insert_by_age
by_age [] = []
by_age (a ∷ later) = insert_by_age a (by_age later)

-- list(dict.fromkeys(ids)): `seen` are the ids before
unfoldable pub unique : List String → List String → List String
unique seen [] = []
unique seen (id ∷ ids) =
    let rest = unique (id ∷ seen) ids in
    let skipped = unique seen ids in if contains id seen then skipped else id ∷ rest

-- the artifacts of a question, and those that end the activity
unfoldable pub evidence_ids : String → List String → Database → List String
unfolding by_age unique
evidence_ids question added db =
    unique [] (
      map (λ a. a.id) (by_age (select (λ a. is_text question a.question_id) db.artifacts)) ++ added)

module _ (lib : Library) where
  open lib use {json_text, loads}

  -- the loop over the artifacts
  unfoldable pub insert_artifacts :
      String → String → List ArtifactRecord → Database → Result Database
  unfolding insert_artifact
  insert_artifacts id question [] db = ok db
  insert_artifacts id question (a ∷ artifacts) db = do
    _ ←
        raise_if (not (is_text id a.activity_id) || not (is_text question a.question_id))
          value_error
    later ← insert_artifact lib a db
    insert_artifacts id question artifacts later

  -- INSERT OR IGNORE INTO claim_evidence: a row with the id, or with the activity and the index, stands.
  -- The rows that the claim refers to are checked all the same.
  unfoldable pub insert_claim : Claim String → Database → Result Database
  insert_claim c db =
      if any
        (λ r. r.id == c.id || (r.activity_id == c.activity_id && r.claim_index == c.claim_index))
        db.claims
      then ok db
      else if not (is_some (project_of c.project_id db))
          || (not (is_some (question_of c.question_id db))
              || not (any (λ a. a.id == c.activity_id) db.activities))
      then err integrity_error
      else ok (record db { claims = db.claims ++ c ∷ [] })

  -- the loop over the claims, from `index` on; what is no text, or blank, is left out
  unfoldable pub insert_each :
      ℕ → (ℕ → String) → Activity String → List String → ℕ → Items → Database → Result Database
  unfolding insert_claim
  insert_each now claim_ids a evidence index nil db = ok db
  insert_each now claim_ids a evidence index (item (string claim) claims) db = do
    later ←
        if is_blank claim
        then ok db
        else insert_claim
            (record {
              id = claim_ids index;
              project_id = a.project_id;
              question_id = a.question_id;
              activity_id = a.id;
              revision = a.revision;
              claim_index = index;
              claim = strip claim;
              evidence_artifact_ids = json_text (array (items_of evidence));
              created_at = now;
            })
            db
    insert_each now claim_ids a evidence (suc index) claims later
  insert_each now claim_ids a evidence index (item other claims) db =
      insert_each now claim_ids a evidence (suc index) claims db

  unfoldable pub insert_claims :
      ℕ → (ℕ → String) → Activity String → List String → Option Items → Database → Result Database
  unfolding insert_each evidence_ids
  insert_claims now claim_ids a added none db = ok db
  insert_claims now claim_ids a added (some claims) db =
      insert_each now claim_ids a (evidence_ids a.question_id added db) 0 claims db

  -- tuple(UUID(item) for item in json.loads(text)), of a list of texts
  abbrev pub texts_of : Items → Result (List String)
  texts_of nil = ok []
  texts_of (item (string s) items) = texts_of items >>= λ ids. ok (s ∷ ids)
  texts_of (item other items) = err value_error

  abbrev pub ids_in : Json → Result (List String)
  ids_in (array items) = texts_of items
  ids_in _ = err value_error

  -- the record of a row whose ids are read
  abbrev pub load_claim : Claim String → List String → ClaimEvidenceRecord
  load_claim c ids = record {
    id = c.id;
    project_id = c.project_id;
    question_id = c.question_id;
    activity_id = c.activity_id;
    revision = c.revision;
    claim_index = c.claim_index;
    claim = c.claim;
    evidence_artifact_ids = ids;
    created_at = c.created_at;
  }

  unfoldable pub load_claims : List (Claim String) → Result (List ClaimEvidenceRecord)
  load_claims [] = ok []
  load_claims (c ∷ claims) = do
    ids ← ids_in (loads c.evidence_artifact_ids)
    later ← load_claims claims
    ok (load_claim c ids ∷ later)

  -- in the order of insertion
  unfoldable pub list_claim_evidence : String → Database → Result (List ClaimEvidenceRecord)
  unfolding load_claims
  list_claim_evidence question db = load_claims (select (λ c. c.question_id == question) db.claims)

  -- the inner loop of verify_claim_evidence
  unfoldable pub check_evidence : String → List String → Database → Result (Unit {0})
  unfolding get_artifact
  check_evidence question [] db = ok tt
  check_evidence question (id ∷ ids) db = do
    a ← get_artifact lib id db
    _ ← raise_if (not (is_text question a.question_id)) conflict
    check_evidence question ids db

  unfoldable pub check_claims : String → List ClaimEvidenceRecord → Database → Result (Unit {0})
  unfolding check_evidence
  check_claims question [] db = ok tt
  check_claims question (c ∷ claims) db = do
    _ ← check_evidence question c.evidence_artifact_ids db
    check_claims question claims db

  unfoldable pub verify_claim_evidence : String → Database → Result ℕ
  unfolding check_claims list_claim_evidence
  verify_claim_evidence question db = do
    claims ← list_claim_evidence question db
    _ ← check_claims question claims db
    ok (length claims)
