-- ===== src/MainHarness/Repository/Versions.antt =====
-- Optimistic concurrency: what a write returns and keeps, and that a stale write changes nothing.
use mm_harness.Prelude.{
  ℕ, ◌+◌, true, false, Option, none, some, [], ◌∷◌, map, any, distinct, contains, ◌≡◌, ◌≢◌, refl,
  arith, Bool-cases, inl, inr, nat_eq,
}
use mm_harness.Errors.{ok, err, conflict}
use mm_harness.MainHarness.{MainHarnessState}
use mm_harness.MainHarness.Repository.{RunRow, Rows, is_target, update_rows, commit}

-- A commit that returns gives back the state at the next version.
pub commit-ok :
    (now : ℕ) (state after : MainHarnessState) (expected : ℕ) (repository : Option Rows)
    → (commit now state expected repository).0 ≡ ok after
    → after ≡ record state { version = expected + 1; updated_at = now }
unfolding commit
commit-ok now state after expected none h = ground arith
commit-ok now state after expected (some rows) h =
    elim (Bool-cases (any (is_target state.run_id expected) rows)) [
      | inl found ↦ ground (arith, found, h)
      | inr lost ↦ absurd (ground (arith, lost, h))
    ]

abbrev pub IsKeyed : Rows → Type 0
IsKeyed rows = distinct (map (λ r. r.run_id) rows) ≡ true

update_rows-any :
    (state : MainHarnessState) (expected v : ℕ) (rows : Rows)
    → contains state.run_id (map (λ (r : RunRow). r.run_id) rows) ≡ false
    → any (is_target state.run_id v) (update_rows state expected rows) ≡ false
unfolding update_rows
update_rows-any state expected v [] h = refl
update_rows-any state expected v (r ∷ rows) h =
    ground (arith, update_rows-any state expected v rows)

-- After a write from version `expected`, no row of the run is at that version any more.
update_rows-stale :
    (state : MainHarnessState) (expected : ℕ) (rows : Rows)
    → IsKeyed rows
    → state.version ≢ expected
    → any (is_target state.run_id expected) rows ≡ true
    → any (is_target state.run_id expected) (update_rows state expected rows) ≡ false
unfolding update_rows
update_rows-stale state expected [] keyed moved h = cc
update_rows-stale state expected (r ∷ rows) keyed moved h = ground (
  arith,
  moved,
  update_rows-stale state expected rows,
  update_rows-any state expected expected rows,
)

-- Two operations that read a run at the same version cannot both be saved: once the first is
-- committed, the second raises a conflict and leaves the table as the first one wrote it. The run
-- id is the table's primary key.
pub commit-stale :
    (now later expected : ℕ) (first second after : MainHarnessState) (rows rows' : Rows)
    → IsKeyed rows
    → first.run_id ≡ second.run_id
    → commit now first expected (some rows) ≡ (ok after, some rows')
    → commit later second expected (some rows') ≡ (err conflict, some rows')
unfolding commit
commit-stale now later expected first second after rows rows' keyed same h =
    elim (Bool-cases (any (is_target first.run_id expected) rows)) [
      | inl found ↦
          let written = record first { version = expected + 1; updated_at = now } in
          let stale = update_rows-stale written expected rows keyed (λ e. omega (arith, e)) found in
          ground (arith, found, h, same, stale)
      | inr lost ↦ absurd (ground (arith, lost, h))
    ]
