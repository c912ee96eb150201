-- ===== src/Store/Keeps.antt =====
-- What the operations of the store keep: a property of the database that survives each change of a table
-- survives every operation.
pub mod Activities
use mm_harness.Prelude.{
  ℕ, String, not, Option, List, [], ◌∷◌, ◌++◌, map, find, ◌≡◌, subst, arith, ◌||◌, ◌==◌, string_eq,
  is_blank, Bool-cases, Option-cases, inl, inr,
}
use mm_harness.Errors.{Error, Result, ok, err, Result-cases}
use mm_harness.Json.{Json, Items, Fields}
use mm_harness.Store.Models.{
  kind_text, ProjectRecord, QuestionState, QuestionRecord, ArtifactRecord, StageKind, Activity,
  Database, Library, Stamp,
}
use mm_harness.Store.Events.{◌>>=◌, bind-eq-ok, transaction, append_event}
use mm_harness.Store.Questions.{
  is_text, question_of, insert_artifact, insert_question, create_project, create_question,
  register_artifact,
}
use mm_harness.Store.Leases.{
  then_question, acquire_question_lease, renew_question_lease, release_question_lease,
  write_transition, transition,
}
use mm_harness.Store.Evidence.{insert_artifacts, insert_claims}
use mm_harness.Store.Activities.{
  activity_of, is_for, is_succeeded, written, insert_activity, get_or_create_activity,
  claim_activity, renew_activity_lease, complete_activity, fail_activity,
}

-- what holds after a body that returns
pub record Leaves {ℓ κ} {A : Type ℓ} (P : Database → Type κ) (r : Result (A × Database))
    : Type (ℓ ⊔ κ) where
  pub left : (a : A) (after : Database) → r ≡ ok (a, after) → P after

pub Leaves-ok {ℓ κ} :
    {A : Type ℓ} {P : Database → Type κ} {a : A} {db : Database} → P db → Leaves P (ok (a, db))
Leaves-ok {P} {a} {db} h = record { left = λ b after e. subst P (ground (arith, e)) h }

pub Leaves-err {ℓ κ} : {A : Type ℓ} {P : Database → Type κ} {e : Error} → Leaves {A = A} P (err e)
Leaves-err = record { left = λ b after e. absurd (ground (arith, e)) }

pub Leaves-bind {ℓ κ μ} :
    {A : Type ℓ} {B : Type μ} {P : Database → Type κ} {first : Result A}
    {later : A → Result (B × Database)}
    → ((a : A) → first ≡ ok a → Leaves P (later a))
    → Leaves P (first >>= later)
Leaves-bind {first} {later} h = record {
  left = λ b after e. let (a, f, g) = bind-eq-ok first later e in (h a f).left b after g;
}

pub transaction-keeps {ℓ κ} :
    {A : Type ℓ} (P : Database → Type κ) (body : Database → Result (A × Database)) (db : Database)
    → P db
    → Leaves P (body db)
    → P (transaction body db).1
unfolding transaction
transaction-keeps P body db before after = elim (Result-cases (body db)) [
  | inl (e, h) ↦ rw (h, transaction) before
  | inr ((a, d), h) ↦ rw (h, transaction) (after.left a d h)
]

pub then_question-keeps {κ} :
    (P : Database → Type κ) (id : String) (r : Result (Unit {0}) × Database)
    → P r.1
    → P (then_question id r).1
unfolding then_question
then_question-keeps P id (err e, db) h = h
then_question-keeps P id (ok u, db) h = h

-- A property that survives each change of a table. Questions and activities may change in any way.
pub record IsKept (lib : Library) (P : Database → Type 0) : Type 0 where
  pub events :
      (stamp : Stamp) (project : String) (question activity : Option String) (event_type : String)
      (payload : Json) (db after : Database)
      → append_event lib stamp project question activity event_type payload db ≡ ok after
      → P db
      → P after
  pub projects : (ps : List ProjectRecord) (db : Database) → P db → P (record db { projects = ps })
  pub questions :
      (qs : List QuestionRecord) (db : Database) → P db → P (record db { questions = qs })
  pub activities :
      (rows : List (Activity String)) (db : Database) → P db → P (record db { activities = rows })
  pub artifacts :
      (a : ArtifactRecord) (db after : Database)
      → insert_artifact lib a db ≡ ok after
      → P db
      → P after
  pub evidence :
      (now : ℕ) (claim_ids : ℕ → String) (a : Activity String) (id : String)
      (added : List ArtifactRecord) (claims : Option Items) (db mid after : Database)
      → insert_artifacts lib id a.question_id added db ≡ ok mid
      → insert_claims lib now claim_ids a (map (λ r. r.id) added) claims mid ≡ ok after
      → P db
      → P after

module _ (lib : Library) (P : Database → Type 0) (kept : IsKept lib P) where
  pub acquire_question_lease-keeps :
      (now again : ℕ) (stamp : Stamp) (id worker : String) (seconds : ℕ) (db : Database)
      → P db
      → P (acquire_question_lease lib now again stamp id worker seconds db).1
  unfolding acquire_question_lease
  acquire_question_lease-keeps now again stamp id worker seconds db h = then_question-keeps P id _ (
      transaction-keeps P _ db h (elim (Option-cases (question_of id db)) [
        | inl e ↦ rw e Leaves-err
        | inr (q, e) ↦ rw e (
            Leaves-bind (λ u free. Leaves-bind (λ after added.
              Leaves-ok (kept.events _ _ _ _ _ _ _ after added (kept.questions _ db h)))))
      ]))

  pub renew_question_lease-keeps :
      (now again : ℕ) (id worker : String) (seconds : ℕ) (db : Database)
      → P db
      → P (renew_question_lease lib now again id worker seconds db).1
  unfolding renew_question_lease
  renew_question_lease-keeps now again id worker seconds db h =
      transaction-keeps P _ db h (elim (Option-cases (question_of id db)) [
        | inl e ↦ rw e Leaves-err
        | inr (q, e) ↦ rw e (Leaves-bind (λ u owned. Leaves-ok (kept.questions _ db h)))
      ])

  pub release_question_lease-keeps :
      (stamp : Stamp) (id worker : String) (db : Database)
      → P db
      → P (release_question_lease lib stamp id worker db).1
  unfolding release_question_lease
  release_question_lease-keeps stamp id worker db h =
      transaction-keeps P _ db h (elim (Option-cases (question_of id db)) [
        | inl e ↦ rw e (Leaves-ok h)
        | inr (q, e) ↦ rw e (elim (Bool-cases (is_text worker q.lease_owner)) [
          | inr other ↦ rw other (Leaves-ok h)
          | inl own ↦ rw own (
              Leaves-bind (λ after added.
                Leaves-ok (kept.events _ _ _ _ _ _ _ after added (kept.questions _ db h))))
        ])
      ])

  pub transition-keeps :
      (now : ℕ) (stamp : Stamp) (id worker : String) (expected : List QuestionState)
      (new_state : QuestionState) (revision : Option ℕ) (failure_reason : Option String)
      (db : Database)
      → P db
      → P (transition lib now stamp id worker expected new_state revision failure_reason db).1
  unfolding transition write_transition
  transition-keeps now stamp id worker expected new_state revision failure_reason db h =
      then_question-keeps P id _ (
        transaction-keeps P _ db h (elim (Option-cases (question_of id db)) [
          | inl e ↦ rw (e, write_transition) Leaves-err
          | inr (q, e) ↦
              rw (e, write_transition)
                (Leaves-bind (λ u owned. Leaves-bind (λ v allowed. Leaves-bind (λ after added.
                  Leaves-ok (kept.events _ _ _ _ _ _ _ after added (kept.questions _ db h))))))
        ]))

  pub create_project-keeps :
      (now : ℕ) (stamp : Stamp) (id name : String) (db : Database)
      → P db
      → P (create_project lib now stamp id name db).1
  unfolding create_project
  create_project-keeps now stamp id name db h = elim (Bool-cases (is_blank name)) [
    | inl blank ↦ rw blank h
    | inr named ↦ rw named (
        transaction-keeps P _ db h (
          Leaves-bind (λ u free. Leaves-bind (λ after added.
            Leaves-ok (kept.events _ _ _ _ _ _ _ after added (kept.projects _ db h))))))
  ]

  insert_question-keeps :
      (q : QuestionRecord) (db after : Database)
      → insert_question lib q db ≡ ok after
      → P db
      → P after
  unfolding insert_question
  insert_question-keeps q db after added h =
      subst P (ground (arith, added)) (kept.questions (db.questions ++ q ∷ []) db h)

  pub create_question-keeps :
      (now : ℕ) (stamp : Stamp) (id project_id key title : String) (problem : ArtifactRecord)
      (db : Database)
      → P db
      → P (create_question lib now stamp id project_id key title problem db).1
  unfolding create_question
  create_question-keeps now stamp id project_id key title problem db h =
      elim (Bool-cases (
        not (problem.project_id == project_id)
        || (not (kind_text problem.kind == "problem") || (is_blank key || is_blank title)))) [
          | inl wrong ↦ rw wrong h
          | inr right ↦ rw right (
              transaction-keeps P _ db h (
                Leaves-bind (λ with_problem a. Leaves-bind (λ with_question b.
                  Leaves-bind (λ after added. Leaves-ok (
                    kept.events _ _ _ _ _ _ _ after added (
                      insert_question-keeps _ _ with_question b
                        (kept.artifacts _ _ with_problem a h))))))))
        ]

  pub register_artifact-keeps :
      (stamp : Stamp) (a : ArtifactRecord) (db : Database)
      → P db
      → P (register_artifact lib stamp a db).1
  unfolding register_artifact
  register_artifact-keeps stamp a db h = elim (Option-cases a.question_id) [
    | inl e ↦ rw e h
    | inr (id, e) ↦ rw e (
        transaction-keeps P _ db h (elim (Option-cases (question_of id db)) [
          | inl f ↦ rw f Leaves-err
          | inr (q, f) ↦ rw f (
              Leaves-bind (λ u same. Leaves-bind (λ with_artifact b. Leaves-bind (λ after added.
                Leaves-ok
                  (kept.events _ _ _ _ _ _ _ after added (kept.artifacts _ _ with_artifact b h))))))
        ]))
  ]
