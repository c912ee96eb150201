-- ===== src/Store/Cited.antt =====
-- The evidence of the claims that the store keeps: artifacts of the claim's own question.
use mm_harness.Prelude.{
  String, Bool, true, false, not, ◌&&◌, ◌||◌, none, some, List, [], ◌∷◌, ◌++◌, any, all, all-append,
  map, select, ◌==◌, string_eq, ◌≡◌, refl, sym, subst, arith, ==_self, inl, inr,
}
use mm_harness.Errors.{ok, err, Result-cases}
use mm_harness.Tools.Audit.{items_of}
use mm_harness.Store.Models.{Artifact, ArtifactRecord, Claim, Database, Library}
use mm_harness.Store.Events.{◌>>=◌, by_id}
use mm_harness.Store.Questions.{is_text, insert_artifact, row_of_artifact}
use mm_harness.Store.Evidence.{by_age, insert_by_age, unique, evidence_ids, texts_of, ids_in}

-- the artifact with an id is a question's
abbrev pub owned : List (Artifact String) → String → String → Bool
owned rows question id = elim (by_id (λ a. a.id) id rows) [
  | none ↦ false
  | some a ↦ is_text question a.question_id
]

-- each artifact is found by its id
abbrev pub are_found : List (Artifact String) → List (Artifact String) → String → Bool
are_found rows listed question =
    all (λ a. not (is_text question a.question_id) || owned rows question a.id) listed

pub owned-append :
    (rows : List (Artifact String)) (a : Artifact String) (question id : String)
    → owned rows question id ≡ true
    → owned (rows ++ a ∷ []) question id ≡ true
owned-append [] a question id h = ground (arith, h)
owned-append (r ∷ rows) a question id h = ground (arith, h, owned-append rows a question id)

pub owned-new :
    (rows : List (Artifact String)) (a : Artifact String) (question : String)
    → any (λ r. r.id == a.id) rows ≡ false
    → is_text question a.question_id ≡ true
    → owned (rows ++ a ∷ []) question a.id ≡ true
owned-new [] a question free h = ground (arith, h, ==_self a.id)
owned-new (r ∷ rows) a question free h = ground (arith, h, owned-new rows a question)

are_found-append :
    (rows listed : List (Artifact String)) (a : Artifact String) (question : String)
    → are_found rows listed question ≡ true
    → are_found (rows ++ a ∷ []) listed question ≡ true
are_found-append rows [] a question h = refl
are_found-append rows (b ∷ listed) a question h =
    ground (arith, h, owned-append rows a question b.id, are_found-append rows listed a question)

are_found-new :
    (rows listed : List (Artifact String)) (a : Artifact String) (question : String)
    → any (λ r. r.id == a.id) rows ≡ false
    → are_found rows listed question ≡ true
    → are_found (rows ++ a ∷ []) (listed ++ a ∷ []) question ≡ true
are_found-new rows [] a question free h = ground (arith, owned-new rows a question free)
are_found-new rows (b ∷ listed) a question free h =
    ground (arith, h, owned-append rows a question b.id, are_found-new rows listed a question free)

all-map :
    (p : String → Bool) (rows : List (Artifact String))
    → all p (map (λ a. a.id) rows) ≡ all (λ a. p a.id) rows
all-map p [] = refl
all-map p (a ∷ rows) = ground (arith, all-map p rows)

pub all-ids :
    (p : String → Bool) (rows : List ArtifactRecord)
    → all p (map (λ a. a.id) rows) ≡ all (λ a. p a.id) rows
all-ids p [] = refl
all-ids p (a ∷ rows) = ground (arith, all-ids p rows)

all-select :
    (p : String → Bool) (t : Artifact String → Bool) (rows : List (Artifact String))
    → all (λ a. not (t a) || p a.id) rows ≡ true
    → all (λ a. p a.id) (select t rows) ≡ true
all-select p t [] h = refl
all-select p t (a ∷ rows) h = ground (arith, h, all-select p t rows)

insert_by_age-all :
    (p : String → Bool) (a : Artifact String) (rows : List (Artifact String))
    → all (λ a. p a.id) (insert_by_age a rows) ≡ (p a.id && all (λ a. p a.id) rows)
unfolding insert_by_age
insert_by_age-all p a [] = refl
insert_by_age-all p a (b ∷ rows) = ground (arith, insert_by_age-all p a rows)

by_age-all :
    (p : String → Bool) (rows : List (Artifact String))
    → all (λ a. p a.id) (by_age rows) ≡ all (λ a. p a.id) rows
unfolding by_age
by_age-all p [] = refl
by_age-all p (a ∷ rows) = ground (arith, insert_by_age-all p a (by_age rows), by_age-all p rows)

unique-all :
    (p : String → Bool) (seen ids : List String) → all p ids ≡ true → all p (unique seen ids) ≡ true
unfolding unique
unique-all p seen [] h = refl
unique-all p seen (id ∷ ids) h =
    ground (arith, h, unique-all p seen ids, unique-all p (id ∷ seen) ids)

pub evidence_ids-owned :
    (question : String) (added : List String) (db : Database)
    → are_found db.artifacts db.artifacts question ≡ true
    → all (owned db.artifacts question) added ≡ true
    → all (owned db.artifacts question) (evidence_ids question added db) ≡ true
unfolding evidence_ids
evidence_ids-owned question added db found h =
    let p = owned db.artifacts question in
    let chosen = select (λ a. is_text question a.question_id) db.artifacts in
    unique-all p [] (map (λ a. a.id) (by_age chosen) ++ added) (
      ground (
        arith,
        all-append p (map (λ a. a.id) (by_age chosen)) added,
        all-map p (by_age chosen),
        by_age-all p chosen,
        all-select p (λ a. is_text question a.question_id) db.artifacts found,
        h,
      ))

module _ (lib : Library) where
  pub texts_of-items_of : (ids : List String) → texts_of lib (items_of ids) ≡ ok ids
  unfolding ◌>>=◌
  texts_of-items_of [] = refl
  texts_of-items_of (id ∷ ids) = ground (arith, texts_of-items_of ids)

  -- the evidence of a claim is of its question
  abbrev pub is_cited : List (Artifact String) → Claim String → Bool
  is_cited rows c = elim (ids_in lib (lib.loads c.evidence_artifact_ids)) [
    | err e ↦ false
    | ok ids ↦ all (owned rows c.question_id) ids
  ]

  pub record IsCited (db : Database) : Type 0 where
    pub found : (question : String) → are_found db.artifacts db.artifacts question ≡ true
    pub cited : all (is_cited db.artifacts) db.claims ≡ true

  pub all-owned-append :
      (rows : List (Artifact String)) (a : Artifact String) (question : String) (ids : List String)
      → all (owned rows question) ids ≡ true
      → all (owned (rows ++ a ∷ []) question) ids ≡ true
  all-owned-append rows a question [] h = refl
  all-owned-append rows a question (id ∷ ids) h =
      ground (arith, h, owned-append rows a question id, all-owned-append rows a question ids)

  cited-append :
      (rows : List (Artifact String)) (a : Artifact String) (claims : List (Claim String))
      → all (is_cited rows) claims ≡ true
      → all (is_cited (rows ++ a ∷ [])) claims ≡ true
  cited-append rows a [] h = refl
  cited-append rows a (c ∷ claims) h =
      elim (Result-cases (ids_in lib (lib.loads c.evidence_artifact_ids))) [
        | inl (e, f) ↦ absurd (ground (arith, f, h))
        | inr (ids, f) ↦
            ground
              (arith, f, h, all-owned-append rows a c.question_id ids, cited-append rows a claims)
      ]

  pub insert_artifact-ok :
      (a : ArtifactRecord) (db after : Database)
      → insert_artifact lib a db ≡ ok after
      → (any (λ r. r.id == a.id) db.artifacts ≡ false)
        × (after ≡ record db { artifacts = db.artifacts ++ row_of_artifact lib a ∷ [] })
  unfolding insert_artifact
  insert_artifact-ok a db after h = ground (arith, h)

  pub insert_artifact-IsCited :
      (a : ArtifactRecord) (db after : Database)
      → insert_artifact lib a db ≡ ok after
      → IsCited db
      → IsCited after
  insert_artifact-IsCited a db after h c =
      let (free, e) = insert_artifact-ok a db after h in
      subst IsCited (sym e) (record {
        found = λ question.
            are_found-new db.artifacts db.artifacts (row_of_artifact lib a) question free
              (c.found question);
        cited = cited-append db.artifacts (row_of_artifact lib a) db.claims c.cited;
      })
