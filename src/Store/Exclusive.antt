-- ===== src/Store/Exclusive.antt =====
-- The leases of questions: one worker at a time, and transitions by the owner only.
use mm_harness.Prelude.{
  ℕ, ◌<◌, String, true, false, Option, some, List, ltb, ◌==◌, string_eq, ◌≡◌, ◌≢◌, refl, sym, arith,
  eq_iff, Option-cases, inl, inr,
}
use mm_harness.Errors.{ok, err, leased_by, lease_lost}
use mm_harness.Store.Models.{QuestionState, QuestionRecord, Database, Library, Stamp}
use mm_harness.Store.Events.{◌>>=◌, bind-eq-ok}
use mm_harness.Store.Questions.{expiry, question_of}
use mm_harness.Store.Leases.{
  is_leased, owns, acquire_question_lease, renew_question_lease, write_transition, transition,
}
use mm_harness.Store.Rows.{
  transaction-ok, transaction-err, then_question-ok, then_question-err, by_id-update_by_id,
  append_event-rows,
}

module _ (lib : Library) where
  -- a lease that is acquired was free, or the worker's own, and is the worker's now
  acquire_question_lease-ok :
      (now again : ℕ) (stamp : Stamp) (id worker : String) (seconds : ℕ) (db after : Database)
      (q : QuestionRecord)
      → acquire_question_lease lib now again stamp id worker seconds db ≡ (ok q, after)
      → (old : QuestionRecord) × (question_of id db ≡ some old)
        × (is_leased worker now old ≡ false)
        × (question_of id after
            ≡ some (record old {
              lease_owner = some worker;
              lease_expires_at = some (expiry again seconds);
            }))
  unfolding acquire_question_lease
  acquire_question_lease-ok now again stamp id worker seconds db after q h =
      let (t, g) = then_question-ok id _ h in
      let b = transaction-ok _ db t in
      elim (Option-cases (question_of id db)) [
        | inl e ↦ absurd (ground (arith, rw e at b))
        | inr (old, e) ↦
            let (u, free, b1) = bind-eq-ok _ _ (rw e at b) in
            let (d, added, b2) = bind-eq-ok _ _ b1 in
            let (same, others) = append_event-rows lib _ _ _ _ _ _ _ d added in
            let last : d ≡ after = ground (arith, b2) in
            (
              old,
              e,
              ground (arith, free),
              rw (sym last, same) (by_id-update_by_id _ id _ db.questions old e refl),
            )
      ]

  module _ (t : ℕ) (stamp : Stamp) (id other : String) (db : Database) (r : QuestionRecord)
      (found : question_of id db ≡ some r) where
    acquire-refused :
        (again seconds : ℕ)
        → is_leased other t r ≡ true
        → acquire_question_lease lib t again stamp id other seconds db ≡ (err leased_by, db)
    unfolding acquire_question_lease ◌>>=◌
    acquire-refused again seconds h = then_question-err id _ db leased_by (rw (found, h) refl)

    renew-refused :
        (again seconds : ℕ)
        → owns other t r ≡ false
        → renew_question_lease lib t again id other seconds db ≡ (err lease_lost, db)
    unfolding renew_question_lease ◌>>=◌
    renew-refused again seconds h = transaction-err _ db lease_lost (rw (found, h) refl)

    transition-refused :
        (expected : List QuestionState) (new_state : QuestionState) (revision : Option ℕ)
        (reason : Option String)
        → owns other t r ≡ false
        → transition lib t stamp id other expected new_state revision reason db
          ≡ (err lease_lost, db)
    unfolding transition write_transition ◌>>=◌
    transition-refused expected new_state revision reason h =
        then_question-err id _ db lease_lost (rw (found, h, write_transition) refl)

  -- While the lease that a worker has acquired is not over, no other worker acquires it, renews it, or makes
  -- a transition with it: each of these is refused, and leaves the database as it was.
  pub acquire_question_lease-exclusive :
      (now again : ℕ) (stamp : Stamp) (id worker : String) (seconds : ℕ) (db after : Database)
      (q : QuestionRecord) (t : ℕ) (stamp2 : Stamp) (other : String) (again2 seconds2 : ℕ)
      (expected : List QuestionState) (new_state : QuestionState) (revision : Option ℕ)
      (reason : Option String)
      → acquire_question_lease lib now again stamp id worker seconds db ≡ (ok q, after)
      → worker ≢ other
      → t < expiry again seconds
      → (acquire_question_lease lib t again2 stamp2 id other seconds2 after
          ≡ (err leased_by, after))
        × (renew_question_lease lib t again2 id other seconds2 after ≡ (err lease_lost, after))
        × (transition lib t stamp2 id other expected new_state revision reason after
            ≡ (err lease_lost, after))
  acquire_question_lease-exclusive now again stamp id worker seconds db after q t stamp2 other
        again2 seconds2 expected new_state revision reason h differ early =
      let (old, e, free, found) =
        acquire_question_lease-ok now again stamp id worker seconds db after q h in
      let r : QuestionRecord = record old {
        lease_owner = some worker;
        lease_expires_at = some (expiry again seconds);
      } in
      let mine : (worker == other) ≡ false = ground (arith, differ, eq_iff worker other) in
      let soon : ltb t (expiry again seconds) ≡ true = ground (arith, early) in
      (
        acquire-refused t stamp2 id other after r found again2 seconds2
            (ground (arith, mine, soon)),
        renew-refused t stamp2 id other after r found again2 seconds2 (ground (arith, mine)),
        transition-refused t stamp2 id other after r found expected new_state revision reason
            (ground (arith, mine)),
      )
