-- ===== src/Store/Events.antt =====
-- store.py: transactions, and the hash-chained events that each change leaves.
use Prim.Native.String.{◌++◌ as concat}
use mm_harness.Prelude.{
  ℕ, String, not, ◌||◌, Option, List, [], ◌∷◌, ◌++◌, any, find, length, ◌==◌, string_eq,
  if◌then◌else◌, ◌≡◌, refl, ◌⊎◌, inl, inr, arith,
}
use mm_harness.Errors.{Error, Result, ok, err, conflict, integrity_error}
use mm_harness.Json.{Json, field, end, string, object}
use mm_harness.Tools.Audit.{zero_hash, text_or_null}
use mm_harness.Store.Models.{Library, Stamp, EventRow, Database}

-- one statement after another, shut in proofs
infixl 5 ◌>>=◌
unfoldable pub ◌>>=◌ {ℓ κ} : {A : Type ℓ} {B : Type κ} → Result A → (A → Result B) → Result B
err e >>= later = err e
ok a >>= later = later a

pub bind-eq-ok {ℓ κ} :
    {A : Type ℓ} {B : Type κ} (first : Result A) (later : A → Result B) {b : B}
    → (first >>= later) ≡ ok b
    → (a : A) × (first ≡ ok a) × (later a ≡ ok b)
unfolding ◌>>=◌
bind-eq-ok (err e) later returned = cc
bind-eq-ok (ok a) later returned = (a, refl, returned)

pub bind-eq-err {ℓ κ} :
    {A : Type ℓ} {B : Type κ} (first : Result A) (later : A → Result B) {e : Error}
    → (first >>= later) ≡ err e
    → (first ≡ err e) ⊎ ((a : A) × (first ≡ ok a) × (later a ≡ err e))
unfolding ◌>>=◌
bind-eq-err (err e) later raised = inl (ground (arith, raised))
bind-eq-err (ok a) later raised = inr (a, refl, raised)

-- `with self._transaction()`: an exception rolls the database back.
unfoldable pub transaction {ℓ} :
    {A : Type ℓ} → (Database → Result (A × Database)) → Database → Result A × Database
transaction body db = elim (body db) [ err e ↦ (err e, db) | ok (a, after) ↦ (ok a, after) ]

-- the row with an id
abbrev pub by_id {ℓ} : {A : Type ℓ} → (A → String) → String → List A → Option A
by_id id_of id rows = find (λ r. id_of r == id) rows

-- UPDATE … WHERE id=?
unfoldable pub update_by_id {ℓ} : {A : Type ℓ} → (A → String) → String → (A → A) → List A → List A
update_by_id id_of id change [] = []
update_by_id id_of id change (r ∷ rows) =
    let rest = update_by_id id_of id change rows in
    if id_of r == id then change r ∷ rest else r ∷ rest

-- the hash of the last row
abbrev pub last_hash : String → List EventRow → String
last_hash previous [] = previous
last_hash previous (r ∷ rows) = last_hash r.event_hash rows

-- the dictionary whose digest is taken
abbrev pub envelope_of :
    String → String → Option String → Option String → String → Json → String → String → Json
envelope_of event_id project question activity event_type payload occurred_at previous = object (
    field "event_id" (string event_id) (
      field "project_id" (string project) (
        field "question_id" (text_or_null question) (
          field "activity_id" (text_or_null activity) (
            field "event_type" (string event_type) (
              field "payload" payload (
                field "occurred_at" (string occurred_at)
                  (field "previous_hash" (string previous) end))))))))

module _ (lib : Library) where
  open lib use {digest, json_text, loads, iso}

  -- the event that a change leaves behind the hash `previous`
  abbrev pub event_row :
      Stamp → String → Option String → Option String → String → Json → String → EventRow
  event_row stamp project question activity event_type payload previous = record {
    event_id = stamp.event_id;
    project_id = project;
    question_id = question;
    activity_id = activity;
    event_type = event_type;
    payload = json_text payload;
    occurred_at = iso stamp.occurred_at;
    previous_hash = previous;
    event_hash = digest (
        concat previous (
          json_text (
            envelope_of stamp.event_id project question activity event_type payload
              (iso stamp.occurred_at) previous)));
  }

  -- _append_event: an event's id and its hash are unique
  unfoldable pub append_event :
      Stamp → String → Option String → Option String → String → Json → Database → Result Database
  append_event stamp project question activity event_type payload db =
      let added =
        event_row stamp project question activity event_type payload
          (last_hash zero_hash db.events) in
      if any (λ r. r.event_id == added.event_id || r.event_hash == added.event_hash) db.events
      then err integrity_error
      else ok (record db { events = db.events ++ added ∷ [] })

  abbrev pub envelope_of_row : EventRow → Json
  envelope_of_row r =
      envelope_of r.event_id r.project_id r.question_id r.activity_id r.event_type (loads r.payload)
        r.occurred_at r.previous_hash

  -- the loop of verify_event_chain
  unfoldable pub check_events : String → List EventRow → Result (Unit {0})
  check_events previous [] = ok tt
  check_events previous (r ∷ rows) =
      let expected = digest (concat previous (json_text (envelope_of_row r))) in
      let later = check_events r.event_hash rows in
      if not (r.previous_hash == previous) || not (r.event_hash == expected)
      then err conflict
      else later

  unfoldable pub verify_event_chain : Database → Result ℕ
  unfolding check_events ◌>>=◌
  verify_event_chain db = do _ ← check_events zero_hash db.events; ok (length db.events)
