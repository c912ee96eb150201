-- ===== src/Store/Claims.antt =====
-- The claims of activities: bounded attempts, one worker at a time, and results that stay.
use mm_harness.Prelude.{
  ℕ, suc, ◌≤◌, String, true, false, ◌&&◌, Option, none, some, List, ◌==◌, string_eq, nat_eq, ◌≡◌,
  ◌≢◌, refl, arith, eq_iff, Bool-cases, Option-cases, ◌⊎◌, inl, inr,
}
use mm_harness.Errors.{ok, err, lease_lost, leased_by}
use mm_harness.Json.{Json, Fields}
use mm_harness.Store.Models.{
  ActivityStatus, ArtifactRecord, Activity, ActivityRecord, Database, Library, Stamp,
}
use mm_harness.Store.Events.{◌>>=◌, bind-eq-ok}
use mm_harness.Store.Questions.{expiry, is_live}
use mm_harness.Store.Activities.{
  activity_of, is_running, is_succeeded, holds, load_activity, claim_activity, complete_activity,
  fail_activity,
}
use mm_harness.Store.Rows.{
  transaction-ok, transaction-err, by_id-update_by_id, written-ok, append_event-rows,
}

module _ (lib : Library) where
  module _ (now again : ℕ) (stamp : Stamp) (id worker : String) (seconds max_attempts : ℕ)
      (request : Json) (db after : Database) (r : ActivityRecord) where
    -- the row that a claim writes
    abbrev pub claimed : Activity String → Activity String
    claimed old = record old {
      status = ActivityStatus.running;
      attempt_count = suc old.attempt_count;
      request_json = some (lib.json_text request);
      error = none;
      worker_id = some worker;
      lease_expires_at = some (expiry again seconds);
      updated_at = now;
    }

    -- A claim that returns finds the activity. One that has succeeded is answered as it is, and nothing is written.
    -- Any other was not running under a lease that is not over, and had attempts left: it counts one more, within
    -- the bound, and the worker holds it until the lease is over.
    pub claim_activity-claims :
        claim_activity lib now again stamp id worker seconds max_attempts request db ≡ (ok r, after)
        → (old : Activity String) × (activity_of id db ≡ some old)
          × (((is_succeeded old ≡ true) × (after ≡ db) × (r ≡ load_activity lib old))
              ⊎ ((is_succeeded old ≡ false)
                  × ((is_running old && is_live now old.lease_expires_at) ≡ false)
                  × (suc old.attempt_count ≤ max_attempts)
                  × (activity_of id after ≡ some (claimed old))
                  × (r ≡ load_activity lib (claimed old))))
    unfolding claim_activity
    claim_activity-claims h =
        let b = transaction-ok _ db h in
        elim (Option-cases (activity_of id db)) [
          | inl e ↦ absurd (ground (arith, rw e at b))
          | inr (old, e) ↦ elim (Bool-cases (is_succeeded old)) [
            | inl done ↦
                let k : (r ≡ load_activity lib old) × (after ≡ db) =
                  ground (arith, rw (e, done) at b) in
                (old, e, inl (done, k.1, k.0))
            | inr live ↦
                let (u, free, b1) = bind-eq-ok _ _ (rw (e, live) at b) in
                let (v, left, b2) = bind-eq-ok _ _ b1 in
                let (d, added, b3) = bind-eq-ok _ _ b2 in
                let (others, same) = append_event-rows lib _ _ _ _ _ _ _ d added in
                let set : activity_of id d ≡ some (claimed old) =
                  rw same (by_id-update_by_id _ id _ db.activities old e refl) in
                let (found, loaded) = written-ok lib id d (claimed old) b3 set in
                (old, e, inr (live, ground (arith, free), ground (arith, left), found, loaded))
          ]
        ]

  module _ (t : ℕ) (stamp : Stamp) (id : String) (db : Database) (a : Activity String)
      (found : activity_of id db ≡ some a) where
    claim-refused :
        (again : ℕ) (other : String) (seconds max_attempts : ℕ) (request : Json)
        → is_succeeded a ≡ false
        → (is_running a && is_live t a.lease_expires_at) ≡ true
        → claim_activity lib t again stamp id other seconds max_attempts request db
          ≡ (err leased_by, db)
    unfolding claim_activity ◌>>=◌
    claim-refused again other seconds max_attempts request live held =
        transaction-err _ db leased_by (rw (found, live, held) refl)

    complete-refused :
        (claim_ids : ℕ → String) (other : String) (result : Fields) (added : List ArtifactRecord)
        (attempt : Option ℕ)
        → is_succeeded a ≡ false
        → holds other attempt t a ≡ false
        → complete_activity lib t stamp claim_ids id other result added attempt db
          ≡ (err lease_lost, db)
    unfolding complete_activity ◌>>=◌
    complete-refused claim_ids other result added attempt live free =
        transaction-err _ db lease_lost (rw (found, live, free) refl)

    fail-refused :
        (other error : String) (attempt : Option ℕ)
        → holds other attempt t a ≡ false
        → fail_activity lib t stamp id other error attempt db ≡ (err lease_lost, db)
    unfolding fail_activity ◌>>=◌
    fail-refused other error attempt free = transaction-err _ db lease_lost (rw (found, free) refl)

  -- While the lease of a worker that has claimed an activity is not over, no worker claims it again, and no
  -- other worker completes it or fails it: each of these is refused, and leaves the database as it was.
  pub claim_activity-exclusive :
      (now again : ℕ) (stamp : Stamp) (id worker : String) (seconds max_attempts : ℕ)
      (request : Json) (db after : Database) (r : ActivityRecord) (old : Activity String) (t : ℕ)
      (stamp2 : Stamp) (again2 : ℕ) (any_worker other : String) (seconds2 max_attempts2 : ℕ)
      (request2 : Json) (claim_ids : ℕ → String) (result : Fields) (added : List ArtifactRecord)
      (error : String) (attempt : Option ℕ)
      → claim_activity lib now again stamp id worker seconds max_attempts request db ≡ (ok r, after)
      → activity_of id db ≡ some old
      → is_succeeded old ≡ false
      → worker ≢ other
      → t ≤ expiry again seconds
      → (claim_activity lib t again2 stamp2 id any_worker seconds2 max_attempts2 request2 after
          ≡ (err leased_by, after))
        × (complete_activity lib t stamp2 claim_ids id other result added attempt after
            ≡ (err lease_lost, after))
        × (fail_activity lib t stamp2 id other error attempt after ≡ (err lease_lost, after))
  claim_activity-exclusive now again stamp id worker seconds max_attempts request db after r old t
        stamp2 again2 any_worker other seconds2 max_attempts2 request2 claim_ids result added error
        attempt h e live differ early =
      let a = claimed now again stamp id worker seconds max_attempts request db after r old in
      let (o, f, cases) =
        claim_activity-claims now again stamp id worker seconds max_attempts request db after r h in
      let same : o ≡ old = ground (arith, e, f) in
      let found : activity_of id after ≡ some a = elim cases [
        | inl (done, k, x) ↦ absurd (ground (arith, done, live, same))
        | inr (u, v, w, set, x) ↦ ground (arith, set, same)
      ] in
      let mine : (worker == other) ≡ false = ground (arith, differ, eq_iff worker other) in
      let held : is_live t a.lease_expires_at ≡ true = ground (arith, early) in
      (
        claim-refused t stamp2 id after a found again2 any_worker seconds2 max_attempts2 request2
            refl held,
        complete-refused t stamp2 id after a found claim_ids other result added attempt refl
            (ground (arith, mine)),
        fail-refused t stamp2 id after a found other error attempt (ground (arith, mine)),
      )
