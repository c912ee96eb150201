-- ===== src/Store/Keeps/Activities.antt =====
-- What the operations on activities keep.
use mm_harness.Prelude.{
  ℕ, String, Option, List, [], ◌∷◌, ◌++◌, find, ◌≡◌, subst, arith, string_eq, Bool-cases,
  Option-cases, inl, inr,
}
use mm_harness.Errors.{ok}
use mm_harness.Json.{Json, Fields}
use mm_harness.Store.Models.{
  QuestionRecord, ArtifactRecord, StageKind, Activity, Database, Library, Stamp,
}
use mm_harness.Store.Activities.{
  activity_of, is_for, is_succeeded, written, insert_activity, get_or_create_activity,
  claim_activity, renew_activity_lease, complete_activity, fail_activity,
}
use mm_harness.Store.Keeps.{Leaves, Leaves-ok, Leaves-err, Leaves-bind, transaction-keeps, IsKept}

module _ (lib : Library) (P : Database → Type 0) (kept : IsKept lib P) where
  written-keeps : (id : String) (db : Database) → P db → Leaves P (written lib id db)
  written-keeps id db h = elim (Option-cases (activity_of id db)) [
    | inl e ↦ rw (e, written) Leaves-err
    | inr (a, e) ↦ rw (e, written) (Leaves-ok h)
  ]

  insert_activity-keeps :
      (a : Activity String) (db after : Database)
      → insert_activity lib a db ≡ ok after
      → P db
      → P after
  unfolding insert_activity
  insert_activity-keeps a db after added h =
      subst P (ground (arith, added)) (kept.activities (db.activities ++ a ∷ []) db h)

  pub get_or_create_activity-keeps :
      (now : ℕ) (stamp : Stamp) (id : String) (q : QuestionRecord) (stage : StageKind)
      (db : Database)
      → P db
      → P (get_or_create_activity lib now stamp id q stage db).1
  unfolding get_or_create_activity
  get_or_create_activity-keeps now stamp id q stage db h =
      transaction-keeps P _ db h
        (elim (Option-cases (find (is_for q.id stage q.revision) db.activities)) [
          | inr (a, e) ↦ rw e (Leaves-ok h)
          | inl e ↦ rw e (
              Leaves-bind (λ with_activity b. Leaves-bind (λ after added. written-keeps id after (
                kept.events _ _ _ _ _ _ _ after added
                  (insert_activity-keeps _ _ with_activity b h)))))
        ])

  pub claim_activity-keeps :
      (now again : ℕ) (stamp : Stamp) (id worker : String) (seconds max_attempts : ℕ)
      (request : Json) (db : Database)
      → P db
      → P (claim_activity lib now again stamp id worker seconds max_attempts request db).1
  unfolding claim_activity
  claim_activity-keeps now again stamp id worker seconds max_attempts request db h =
      transaction-keeps P _ db h (elim (Option-cases (activity_of id db)) [
        | inl e ↦ rw e Leaves-err
        | inr (a, e) ↦ rw e (elim (Bool-cases (is_succeeded a)) [
          | inl done ↦ rw done (Leaves-ok h)
          | inr live ↦ rw live (
              Leaves-bind (λ u free. Leaves-bind (λ v left. Leaves-bind (λ after added.
                written-keeps id after
                  (kept.events _ _ _ _ _ _ _ after added (kept.activities _ db h))))))
        ])
      ])

  pub renew_activity_lease-keeps :
      (now again : ℕ) (id worker : String) (seconds : ℕ) (attempt : Option ℕ) (db : Database)
      → P db
      → P (renew_activity_lease lib now again id worker seconds attempt db).1
  unfolding renew_activity_lease
  renew_activity_lease-keeps now again id worker seconds attempt db h =
      transaction-keeps P _ db h (elim (Option-cases (activity_of id db)) [
        | inl e ↦ rw e Leaves-err
        | inr (a, e) ↦ rw e (Leaves-bind (λ u held. Leaves-ok (kept.activities _ db h)))
      ])

  pub complete_activity-keeps :
      (now : ℕ) (stamp : Stamp) (claim_ids : ℕ → String) (id worker : String) (result : Fields)
      (added : List ArtifactRecord) (attempt : Option ℕ) (db : Database)
      → P db
      → P (complete_activity lib now stamp claim_ids id worker result added attempt db).1
  unfolding complete_activity
  complete_activity-keeps now stamp claim_ids id worker result added attempt db h =
      transaction-keeps P _ db h (elim (Option-cases (activity_of id db)) [
        | inl e ↦ rw e Leaves-err
        | inr (a, e) ↦ rw e (elim (Bool-cases (is_succeeded a)) [
          | inl done ↦ rw done (Leaves-ok h)
          | inr live ↦ rw live (
              Leaves-bind (λ u held. Leaves-bind (λ mid inserted.
                Leaves-bind (λ with_claims claimed. Leaves-bind (λ after recorded.
                  written-keeps id after (
                    kept.events _ _ _ _ _ _ _ after recorded (
                      kept.activities _ with_claims
                        (kept.evidence _ _ _ _ _ _ db mid with_claims inserted claimed h))))))))
        ])
      ])

  pub fail_activity-keeps :
      (now : ℕ) (stamp : Stamp) (id worker error : String) (attempt : Option ℕ) (db : Database)
      → P db
      → P (fail_activity lib now stamp id worker error attempt db).1
  unfolding fail_activity
  fail_activity-keeps now stamp id worker error attempt db h =
      transaction-keeps P _ db h (elim (Option-cases (activity_of id db)) [
        | inl e ↦ rw e Leaves-err
        | inr (a, e) ↦ rw e (
            Leaves-bind (λ u held. Leaves-bind (λ after added.
              written-keeps id after
                (kept.events _ _ _ _ _ _ _ after added (kept.activities _ db h)))))
      ])
