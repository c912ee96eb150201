-- ===== src/MainHarness/Rollback/Keeps.antt =====
-- A rollback keeps the invariant: what stays completed rests on completed tasks.
use mathlib.Core.List.{Memᴰ}
use mm_harness.Prelude.{
  ℕ, ◌+◌, String, Bool, true, false, not, ◌&&◌, Option, some, List, [], ◌∷◌, map, all, contains,
  ◌≡◌, refl, sym, fun_ext, arith, subst, Bool-cases, Option-cases, inl, inr, eq_iff, ◌==◌,
  string_eq, ==_self, &&-right,
}
use Prim.Native.String.{◌++◌ as concat}
use mm_harness.Errors.{ok}
use mm_harness.Dag.{DagTaskNode, ids, node_of}
use mm_harness.Dag.Counting.{deps_of}
use mm_harness.MainHarness.{MainHarnessTask, MainHarnessState}
use mm_harness.MainHarness.Statuses.{completed_at}
use mm_harness.MainHarness.Closed.{IsClosed}
use mm_harness.MainHarness.Repository.{Rows}
use mm_harness.MainHarness.Repository.Versions.{commit-ok}
use mm_harness.MainHarness.Rollback.{affected_by, rolled_back, rolled_state, rollback}
use mm_harness.MainHarness.Rollback.Affected.{below, affected_by-exact}

-- a task is completed after a rollback just if it was and is not affected
completed_at-rolled :
    (id task_id reason upstream : String) (affected : List String) (tasks : List MainHarnessTask)
    → completed_at (map (rolled_back task_id reason upstream affected) tasks) id
      ≡ (not (contains id affected) && completed_at tasks id)
unfolding rolled_back
completed_at-rolled id task_id reason upstream affected [] = ground arith
completed_at-rolled id task_id reason upstream affected (t ∷ tasks) = ground (
  arith,
  completed_at-rolled id task_id reason upstream affected tasks,
  eq_iff t.task_id id,
  eq_iff t.task_id task_id,
)

node_of-mem :
    (id : String) (nodes : List DagTaskNode) (n : DagTaskNode)
    → node_of id nodes ≡ some n
    → Memᴰ n nodes × (n.id ≡ id)
node_of-mem id [] n h = absurd (ground (arith, h))
node_of-mem id (m ∷ ms) n h = elim (Bool-cases (m.id == id)) [
  | inl here ↦ (Memᴰ.head (ground (arith, here, h)), ground (arith, here, h, eq_iff m.id id))
  | inr later ↦ let (k, e) = node_of-mem id ms n (ground (arith, later, h)) in (Memᴰ.tail k, e)
]

-- an affected dependency makes its dependent affected
affected-up :
    (nodes : List DagTaskNode) (root id d : String)
    → contains d (deps_of id nodes) ≡ true
    → contains d (affected_by root nodes) ≡ true
    → contains id (affected_by root nodes) ≡ true
affected-up nodes root id d named hit = elim (Option-cases (node_of id nodes)) [
  | inl e ↦ absurd (ground (arith, e, named))
  | inr (n, e) ↦
      let (m, same) = node_of-mem id nodes n e in
      (affected_by-exact nodes root id).1
        (below d n m same (ground (arith, e, named)) ((affected_by-exact nodes root d).0 hit))
]

all-unaffected :
    (p : String → Bool) (affected ds : List String)
    → all p ds ≡ true
    → ((d : String) → contains d ds ≡ true → contains d affected ≡ false)
    → all (λ d. not (contains d affected) && p d) ds ≡ true
all-unaffected p affected [] h free = refl
all-unaffected p affected (d ∷ ds) h free = ground (
  arith,
  free d,
  ==_self d,
  all-unaffected p affected ds (ground (arith, h)) (λ x m. free x (ground (arith, m))),
)

closed_after :
    (state : MainHarnessState) (root : String)
    → IsClosed state
    → (id : String)
    → (not (contains id (affected_by root state.dag.tasks)) && completed_at state.tasks id) ≡ true
    → all
        (λ d. not (contains d (affected_by root state.dag.tasks)) && completed_at state.tasks d)
        (deps_of id state.dag.tasks)
      ≡ true
closed_after state root inv id h =
    let affected = affected_by root state.dag.tasks in
    all-unaffected (completed_at state.tasks) affected (deps_of id state.dag.tasks)
      (inv.closed id (&&-right (not (contains id affected)) (completed_at state.tasks id) h))
      (λ d m. elim (Bool-cases (contains d affected)) [
        | inl hit ↦ absurd (ground (arith, affected-up state.dag.tasks root id d m hit, h))
        | inr free ↦ free
      ])

-- what a rollback that returns was given, and what it returns
pub rollback-ok :
    (now : ℕ) (state after : MainHarnessState) (task_id reason : String) (repository : Option Rows)
    → (rollback now state task_id reason repository).0 ≡ ok after
    → (state.terminal ≡ false)
      × (contains task_id (ids state.dag.tasks) ≡ true)
      × (after ≡ record (rolled_state now state task_id reason) {
        version = state.version + 1;
        updated_at = now;
      })
unfolding rollback
rollback-ok now state after task_id reason repository h = elim (Bool-cases state.terminal) [
  | inl closed ↦ absurd (ground (arith, closed, h))
  | inr live ↦ elim (Bool-cases (contains task_id (ids state.dag.tasks))) [
    | inl known ↦ (
      live,
      known,
      commit-ok now (rolled_state now state task_id reason) after state.version repository
          (ground (arith, live, known, h)),
    )
    | inr unknown ↦ absurd (ground (arith, live, unknown, h))
  ]
]

-- A rollback that returns keeps the invariant that completed tasks have completed dependencies: no
-- task stays completed on the output of one that the rollback has taken back.
pub rollback-IsClosed :
    (now : ℕ) (state after : MainHarnessState) (task_id reason : String) (repository : Option Rows)
    → IsClosed state
    → (rollback now state task_id reason repository).0 ≡ ok after
    → IsClosed after
rollback-IsClosed now state after task_id reason repository inv h =
    let (live, known, same) = rollback-ok now state after task_id reason repository h in
    let affected = affected_by task_id state.dag.tasks in
    let upstream = concat "upstream rollback: " task_id in
    subst IsClosed (sym same) (record {
      known = inv.known;
      closed =
          subst
            (λ (p : String → Bool).
              (id : String) → p id ≡ true → all p (deps_of id state.dag.tasks) ≡ true)
            (sym
              (fun_ext (λ x. completed_at-rolled x task_id reason upstream affected state.tasks)))
            (closed_after state task_id inv);
    })
