-- ===== src/Store/Rows.antt =====
-- What a transaction that returns has done to the rows of a question and of an activity.
use mm_harness.Prelude.{
  String, Option, none, some, List, [], ◌∷◌, ◌==◌, string_eq, ◌≡◌, refl, arith, Bool-cases,
  Option-cases, ◌⊎◌, inl, inr,
}
use mm_harness.Errors.{Error, Result, ok, err, integrity_error, Result-cases}
use mm_harness.Json.{Json}
use mm_harness.Store.Models.{QuestionRecord, Activity, ActivityRecord, Database, Library, Stamp}
use mm_harness.Store.Events.{transaction, by_id, update_by_id, append_event}
use mm_harness.Store.Questions.{get_question, question_of}
use mm_harness.Store.Leases.{then_question}
use mm_harness.Store.Activities.{activity_of, written, load_activity}

pub transaction-ok {ℓ} :
    {A : Type ℓ} (body : Database → Result (A × Database)) (db : Database) {a : A}
    {after : Database}
    → transaction body db ≡ (ok a, after)
    → body db ≡ ok (a, after)
unfolding transaction
transaction-ok body db h = elim (Result-cases (body db)) [
  | inl (e, f) ↦ absurd (ground (arith, f, h))
  | inr ((a, d), f) ↦ ground (arith, f, h)
]

-- a transaction that raises leaves the database as it was
pub transaction-err {ℓ} :
    {A : Type ℓ} (body : Database → Result (A × Database)) (db : Database) (e : Error)
    → body db ≡ err e
    → transaction body db ≡ (err e, db)
unfolding transaction
transaction-err body db e h = rw (h, transaction) refl

pub transaction-returns {ℓ} :
    {A : Type ℓ} (body : Database → Result (A × Database)) (db : Database) (a : A)
    (after : Database)
    → body db ≡ ok (a, after)
    → transaction body db ≡ (ok a, after)
unfolding transaction
transaction-returns body db a after h = rw (h, transaction) refl

pub then_question-ok :
    (id : String) (r : Result (Unit {0}) × Database) {q : QuestionRecord} {after : Database}
    → then_question id r ≡ (ok q, after)
    → (r ≡ (ok tt, after)) × (get_question id after ≡ ok q)
unfolding then_question
then_question-ok id (err e, db) h = absurd (ground (arith, h))
then_question-ok id (ok u, db) h = ground (arith, h)

pub by_id-update_by_id {ℓ} :
    {A : Type ℓ} (id_of : A → String) (id : String) (change : A → A) (rows : List A) (a : A)
    → by_id id_of id rows ≡ some a
    → id_of (change a) ≡ id_of a
    → by_id id_of id (update_by_id id_of id change rows) ≡ some (change a)
unfolding update_by_id
by_id-update_by_id id_of id change [] a h same = absurd (ground (arith, h))
by_id-update_by_id id_of id change (r ∷ rows) a h same =
    ground (arith, h, same, by_id-update_by_id id_of id change rows a)

pub append_event-rows :
    (lib : Library) (stamp : Stamp) (project : String) (question activity : Option String)
    (event_type : String) (payload : Json) (db after : Database)
    → append_event lib stamp project question activity event_type payload db ≡ ok after
    → (after.questions ≡ db.questions) × (after.activities ≡ db.activities)
unfolding append_event
append_event-rows lib stamp project question activity event_type payload db after h =
    ground (arith, h)

pub append_event-err :
    (lib : Library) (stamp : Stamp) (project : String) (question activity : Option String)
    (event_type : String) (payload : Json) (db : Database) (e : Error)
    → append_event lib stamp project question activity event_type payload db ≡ err e
    → e ≡ integrity_error
unfolding append_event
append_event-err lib stamp project question activity event_type payload db e h = ground (arith, h)

pub then_question-err :
    (id : String) (body : Database → Result ((Unit {0}) × Database)) (db : Database) (e : Error)
    → body db ≡ err e
    → then_question id (transaction body db) ≡ (err e, db)
unfolding then_question
then_question-err id body db e h = rw (transaction-err body db e h) refl

pub transaction-eq-err {ℓ} :
    {A : Type ℓ} (body : Database → Result (A × Database)) (db : Database) {e : Error}
    {after : Database}
    → transaction body db ≡ (err e, after)
    → (body db ≡ err e) × (after ≡ db)
unfolding transaction
transaction-eq-err body db h = elim (Result-cases (body db)) [
  | inl (e, f) ↦ ground (arith, f, h)
  | inr ((a, d), f) ↦ absurd (ground (arith, f, h))
]

pub then_question-eq-err :
    (id : String) (r : Result (Unit {0}) × Database) {e : Error} {after : Database}
    → then_question id r ≡ (err e, after)
    → (r ≡ (err e, after)) ⊎ ((r ≡ (ok tt, after)) × (question_of id after ≡ none))
unfolding then_question get_question
then_question-eq-err id (err e, db) h = inl (ground (arith, h))
then_question-eq-err id (ok u, db) h = elim (Option-cases (question_of id db)) [
  | inl f ↦ inr (ground (arith, f, h))
  | inr (q, f) ↦ absurd (ground (arith, f, h))
]

pub update_by_id-by_id {ℓ} :
    {A : Type ℓ} (id_of : A → String) (id : String) (change : A → A) (rows : List A) (a : A)
    → ((r : A) → id_of (change r) ≡ id_of r)
    → by_id id_of id (update_by_id id_of id change rows) ≡ some a
    → (b : A) × (by_id id_of id rows ≡ some b) × (a ≡ change b)
unfolding update_by_id
update_by_id-by_id id_of id change [] a same h = absurd (ground (arith, h))
update_by_id-by_id id_of id change (r ∷ rows) a same h = elim (Bool-cases (id_of r == id)) [
  | inl own ↦ (r, ground (arith, own), ground (arith, own, same r, h))
  | inr other ↦
      let (b, found, changed) =
        update_by_id-by_id id_of id change rows a same (ground (arith, other, h)) in
      (b, ground (arith, other, found), changed)
]

pub written-ok :
    (lib : Library) (id : String) (db : Database) (a : Activity String) {r : ActivityRecord}
    {after : Database}
    → written lib id db ≡ ok (r, after)
    → activity_of id db ≡ some a
    → (activity_of id after ≡ some a) × (r ≡ load_activity lib a)
written-ok lib id db a {r} {after} h e =
    let k : (r ≡ load_activity lib a) × (after ≡ db) = ground (arith, rw (e, written) at h) in
    (rw k.1 e, k.0)

pub written-some :
    (lib : Library) (id : String) (db : Database) {r : ActivityRecord} {after : Database}
    → written lib id db ≡ ok (r, after)
    → (a : Activity String) × (activity_of id db ≡ some a)
written-some lib id db h = elim (Option-cases (activity_of id db)) [
  | inl e ↦ absurd (ground (arith, rw (e, written) at h))
  | inr (a, e) ↦ (a, e)
]
