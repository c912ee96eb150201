-- ===== src/Store/Questions.antt =====
-- store.py: projects, questions and their leases, and the registration of artifacts. An operation takes
-- the clock's readings, the fresh ids and the stamp of its event; `again` is the second reading of the clock,
-- from which a lease is counted.
use mm_harness.Prelude.{
  ℕ, ◌+◌, ◌*◌, String, Bool, true, false, not, ◌||◌, ◌&&◌, Option, none, some, List, [], ◌∷◌, ◌++◌,
  any, select, map, ltb, leb, ◌==◌, nat_eq, string_eq, if◌then◌else◌, strip, is_blank,
}
use mm_harness.Errors.{Result, ok, err, value_error, integrity_error, not_found, raise_if}
use mm_harness.Json.{field, end, string, integer, pos, object}
use mm_harness.Store.Models.{
  QuestionState, kind_text, ProjectRecord, QuestionRecord, Artifact, ArtifactRecord, Database,
  Library, Stamp,
}
use mm_harness.Store.Events.{◌>>=◌, transaction, by_id, append_event}

-- a lease's end, `seconds` after a reading of the clock
abbrev pub expiry : ℕ → ℕ → ℕ
expiry again seconds = again + 1_000_000 * seconds

-- lease_expires_at > now, and lease_expires_at >= now
abbrev pub ends_after : ℕ → Option ℕ → Bool
ends_after now none = false
ends_after now (some e) = ltb now e

abbrev pub is_live : ℕ → Option ℕ → Bool
is_live now none = false
is_live now (some e) = leb now e

-- a column that may be NULL equals a text
abbrev pub is_text : String → Option String → Bool
is_text s none = false
is_text s (some t) = t == s

abbrev pub project_of : String → Database → Option ProjectRecord
project_of id db = by_id (λ p. p.id) id db.projects

abbrev pub question_of : String → Database → Option QuestionRecord
question_of id db = by_id (λ q. q.id) id db.questions

abbrev pub artifact_of : String → Database → Option (Artifact String)
artifact_of id db = by_id (λ a. a.id) id db.artifacts

abbrev pub is_some {ℓ} : {A : Type ℓ} → Option A → Bool
is_some none = false
is_some (some a) = true

-- _load_model of a row of projects and of questions: the names are stripped
abbrev pub load_project : ProjectRecord → ProjectRecord
load_project p = record p { name = strip p.name }

abbrev pub load_question : QuestionRecord → QuestionRecord
load_question q = record q { key = strip q.key; title = strip q.title }

unfoldable pub get_project : String → Database → Result ProjectRecord
get_project id db = elim (project_of id db) [ none ↦ err not_found | some p ↦ ok (load_project p) ]

unfoldable pub get_question : String → Database → Result QuestionRecord
get_question id db = elim (question_of id db) [
  | none ↦ err not_found
  | some q ↦ ok (load_question q)
]

unfoldable pub list_questions : String → Database → List QuestionRecord
list_questions project db = map load_question (select (λ q. q.project_id == project) db.questions)

module _ (lib : Library) where
  open lib use {json_text, loads, iso}

  -- a row of artifacts
  abbrev pub row_of_artifact : ArtifactRecord → Artifact String
  row_of_artifact a = record {
    id = a.id;
    project_id = a.project_id;
    question_id = a.question_id;
    activity_id = a.activity_id;
    kind = a.kind;
    logical_name = a.logical_name;
    media_type = a.media_type;
    sha256 = a.sha256;
    size_bytes = a.size_bytes;
    relative_path = a.relative_path;
    metadata = json_text a.metadata;
    created_at = a.created_at;
  }

  abbrev pub artifact_of_row : Artifact String → ArtifactRecord
  artifact_of_row a = record {
    id = a.id;
    project_id = a.project_id;
    question_id = a.question_id;
    activity_id = a.activity_id;
    kind = a.kind;
    logical_name = a.logical_name;
    media_type = a.media_type;
    sha256 = a.sha256;
    size_bytes = a.size_bytes;
    relative_path = a.relative_path;
    metadata = loads a.metadata;
    created_at = a.created_at;
  }

  -- _insert_artifact: the id is a primary key, and the project a foreign one
  unfoldable pub insert_artifact : ArtifactRecord → Database → Result Database
  insert_artifact a db =
      if any (λ r. r.id == a.id) db.artifacts || not (is_some (project_of a.project_id db))
      then err integrity_error
      else ok (record db { artifacts = db.artifacts ++ row_of_artifact a ∷ [] })

  unfoldable pub get_artifact : String → Database → Result ArtifactRecord
  get_artifact id db = elim (artifact_of id db) [
    | none ↦ err not_found
    | some a ↦ ok (artifact_of_row a)
  ]

  unfoldable pub create_project :
      ℕ → Stamp → String → String → Database → Result ProjectRecord × Database
  create_project now stamp id name db =
      let project : ProjectRecord = record {
        id = id;
        name = strip name;
        created_at = now;
        updated_at = now;
        version = 1;
      } in
      if is_blank name
      then (err value_error, db)
      else transaction
          (λ db. do
            _ ← raise_if (any (λ p. p.id == id) db.projects) integrity_error
            after ←
                append_event lib stamp id none none "project.created"
                  (object (field "name" (string name) end))
                  (record db { projects = db.projects ++ project ∷ [] })
            ok (project, after))
          db

  -- the row's constraints: its id, its key in the project, the project and the problem's artifact
  unfoldable pub insert_question : QuestionRecord → Database → Result Database
  insert_question q db =
      if any (λ r. r.id == q.id || (r.project_id == q.project_id && r.key == q.key)) db.questions
        || (not (is_some (project_of q.project_id db))
            || not (is_some (artifact_of q.problem_artifact_id db)))
      then err integrity_error
      else ok (record db { questions = db.questions ++ q ∷ [] })

  unfoldable pub create_question :
      ℕ
      → Stamp
      → String
      → String
      → String
      → String
      → ArtifactRecord
      → Database
      → Result QuestionRecord × Database
  create_question now stamp id project_id key title problem db =
      let question : QuestionRecord = record {
        id = id;
        project_id = project_id;
        key = key;
        title = title;
        state = QuestionState.pending;
        problem_artifact_id = problem.id;
        revision = 0;
        failure_reason = none;
        created_at = now;
        updated_at = now;
        version = 1;
        lease_owner = none;
        lease_expires_at = none;
      } in
      if not (problem.project_id == project_id)
        || (not (kind_text problem.kind == "problem") || (is_blank key || is_blank title))
      then (err value_error, db)
      else transaction
          (λ db. do
            with_problem ← insert_artifact (record problem { question_id = some id }) db
            with_question ← insert_question question with_problem
            after ←
                append_event lib stamp project_id (some id) none "question.created"
                  (object (
                    field "key" (string key) (
                      field "title" (string title)
                        (field "problem_artifact_id" (string problem.id) end))))
                  with_question
            ok (load_question question, after))
          db

  unfoldable pub register_artifact :
      Stamp → ArtifactRecord → Database → Result ArtifactRecord × Database
  register_artifact stamp a db = elim a.question_id [
    | none ↦ (err value_error, db)
    | some question_id ↦
        transaction
          (λ db. elim (question_of question_id db) [
            | none ↦ err not_found
            | some q ↦ do
              _ ← raise_if (not (q.project_id == a.project_id)) value_error
              with_artifact ← insert_artifact a db
              after ←
                  append_event lib stamp a.project_id (some question_id) a.activity_id
                    "artifact.registered"
                    (object (
                      field "artifact_id" (string a.id) (
                        field "kind" (string (kind_text a.kind)) (
                          field "media_type" (string a.media_type) (
                            field "sha256" (string a.sha256)
                              (field "size_bytes" (integer (pos a.size_bytes)) end))))))
                    with_artifact
              ok (a, after)
          ])
          db
  ]
