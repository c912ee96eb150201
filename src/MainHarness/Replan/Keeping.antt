-- ===== src/MainHarness/Replan/Keeping.antt =====
-- Which work a replan keeps, and what it makes ready.
use mm_harness.Prelude.{
  ℕ, ◌+◌, String, Bool, true, false, ◌&&◌, Option, none, some, List, [], ◌∷◌, select, all, contains,
  ◌≡◌, refl, sym, ap, arith, Bool-cases, Option-cases, inl, inr, eq_iff, ==_self, ◌==◌, string_eq,
  if◌then◌else◌, distinct, ◌∙◌,
}
use mm_harness.Errors.{value_error, ok}
use mm_harness.Dag.{DagTaskNode, DagTaskTable, ids, node_of}
use mm_harness.MainHarness.{
  MainHarnessTask, MainHarnessState, ready, blocked, is_completed, is_ready, record_of,
}
use mm_harness.MainHarness.Statuses.{completed_at, record_of-id}
use mm_harness.MainHarness.Repository.{Rows, raise_if-ok}
use mm_harness.MainHarness.Repository.Versions.{commit-ok}
use mm_harness.MainHarness.Replan.{
  unchanged, completed_before, kept, fresh_task, replanned_task, replanned_tasks, replan,
}

unknown-id :
    (id : String) (nodes : List DagTaskNode)
    → node_of id nodes ≡ none
    → contains id (ids nodes) ≡ false
unknown-id id [] h = refl
unknown-id id (m ∷ ms) h = ground (arith, unknown-id id ms, eq_iff id m.id, eq_iff m.id id)

node_of-id :
    (id : String) (nodes : List DagTaskNode) (n : DagTaskNode)
    → node_of id nodes ≡ some n
    → n.id ≡ id
node_of-id id [] n h = cc
node_of-id id (m ∷ ms) n h = ground (arith, node_of-id id ms n, eq_iff m.id id)

module _ (p : DagTaskNode → Bool) where
  selected-absent :
      (nodes : List DagTaskNode) (id : String)
      → contains id (ids nodes) ≡ false
      → contains id (ids (select p nodes)) ≡ false
  selected-absent [] id h = refl
  selected-absent (m ∷ ms) id h = ground (arith, selected-absent ms id)

  selected-contains :
      (nodes : List DagTaskNode) (id : String) (n : DagTaskNode)
      → distinct (ids nodes) ≡ true
      → node_of id nodes ≡ some n
      → contains id (ids (select p nodes)) ≡ p n
  selected-contains [] id n u h = cc
  selected-contains (m ∷ ms) id n u h = elim (Bool-cases (m.id == id)) [
    | inl here ↦
        let same : m ≡ n = ground (arith, here, h) in
        let named = (eq_iff m.id id).0 here in
        rw (← same) (ground (arith, named, ==_self id, u, selected-absent ms id))
    | inr there ↦
        ground (arith, there, h, u, eq_iff id m.id, eq_iff m.id id, selected-contains ms id n)
  ]

module _ (same_node : DagTaskNode → DagTaskNode → Bool) where
  replanned-id :
      (old : List MainHarnessTask) (completed : List String) (node : DagTaskNode)
      → (replanned_task same_node old completed node).task_id ≡ node.id
  replanned-id old completed node = elim (Option-cases (record_of node.id old)) [
    | inl e ↦ ground (arith, e)
    | inr (r, e) ↦ ground (arith, e, record_of-id node.id old r e)
  ]

  replanned-record :
      (old : List MainHarnessTask) (completed : List String) (nodes : List DagTaskNode)
      (id : String)
      → record_of id (replanned_tasks same_node old completed nodes) ≡ elim (node_of id nodes) [
        | none ↦ none
        | some n ↦ some (replanned_task same_node old completed n)
      ]
  unfolding replanned_tasks
  replanned-record old completed [] id = refl
  replanned-record old completed (n ∷ ns) id =
      ground (arith, replanned-record old completed ns id, replanned-id old completed n)

  -- `completed` holds a node of a table with distinct ids just if it is unchanged and was completed
  kept-contains :
      (old : List DagTaskNode) (tasks : List MainHarnessTask) (new : List DagTaskNode) (id : String)
      (n : DagTaskNode)
      → distinct (ids new) ≡ true
      → node_of id new ≡ some n
      → contains id (kept same_node old tasks new)
        ≡ (unchanged same_node old n && completed_before same_node tasks n)
  unfolding kept
  kept-contains old tasks new id n =
      selected-contains (λ m. unchanged same_node old m && completed_before same_node tasks m) new
        id n

  module _ (now : ℕ) (state after : MainHarnessState) (dag : DagTaskTable) (reason : String)
      (repository : Option Rows) (unique : distinct (ids dag.tasks) ≡ true)
      (returned : (replan same_node now state dag reason repository).0 ≡ ok after) where
    abbrev completed_kept : List String
    completed_kept = kept same_node state.dag.tasks state.tasks dag.tasks

    replan-ok :
        (state.terminal ≡ false)
        × (after.tasks ≡ replanned_tasks same_node state.tasks completed_kept dag.tasks)
        × (after.dag ≡ dag)
        × (after.version ≡ state.version + 1)
        × (after.terminal ≡ false)
    unfolding replan
    replan-ok =
        let (live, h) = raise_if-ok state.terminal value_error _ repository returned in
        let same = commit-ok now _ after state.version repository h in
        (
          live,
          ap (λ s. s.tasks) same,
          ap (λ s. s.dag) same,
          ap (λ s. s.version) same,
          ap (λ s. s.terminal) same,
        )

    -- the record of a node of the new table
    after-record :
        (id : String) (n : DagTaskNode)
        → node_of id dag.tasks ≡ some n
        → record_of id after.tasks ≡ some (replanned_task same_node state.tasks completed_kept n)
    after-record id n h =
        rw replan-ok.1
          (replanned-record state.tasks completed_kept dag.tasks id ∙ ground (arith, h))

    kept-value :
        (id : String) (n : DagTaskNode)
        → node_of id dag.tasks ≡ some n
        → contains id completed_kept
          ≡ (unchanged same_node state.dag.tasks n && completed_before same_node state.tasks n)
    kept-value id n = kept-contains state.dag.tasks state.tasks dag.tasks id n unique

    named : (id : String) (n : DagTaskNode) → node_of id dag.tasks ≡ some n → n.id ≡ id
    named id n h = node_of-id id dag.tasks n h

    kept_record :
        (id : String) (n : DagTaskNode)
        → n.id ≡ id
        → (unchanged same_node state.dag.tasks n && completed_before same_node state.tasks n) ≡ true
        → (r : MainHarnessTask) × (record_of id state.tasks ≡ some r)
          × (is_completed r.status ≡ true)
    kept_record id n e keep = elim (Option-cases (record_of id state.tasks)) [
      | inl f ↦ absurd (ground (arith, e, f, keep))
      | inr (r, f) ↦ (r, f, ground (arith, e, f, keep))
    ]

    kept-unknown : (d : String) → node_of d dag.tasks ≡ none → contains d completed_kept ≡ false
    unfolding kept
    kept-unknown d e =
        selected-absent
          (λ n. unchanged same_node state.dag.tasks n && completed_before same_node state.tasks n)
          dag.tasks d (unknown-id d dag.tasks e)

    -- the record of a node that is kept, and of one that is not
    record_cases :
        (id : String) (n : DagTaskNode)
        → node_of id dag.tasks ≡ some n
        → ((unchanged same_node state.dag.tasks n && completed_before same_node state.tasks n)
              ≡ true
            → record_of id after.tasks ≡ record_of id state.tasks)
          × ((unchanged same_node state.dag.tasks n && completed_before same_node state.tasks n)
                ≡ false
              → record_of id after.tasks ≡ some (fresh_task same_node completed_kept n))
    record_cases id n h =
        let e = named id n h in
        (
          λ keep.
              rw (after-record id n h)
                (ground (arith, e, keep, kept-value id n h, kept_record id n e keep)),
          λ drop. rw (after-record id n h) (ground (arith, e, drop, kept-value id n h)),
        )

    -- a node of the new table that the old one has too, with a COMPLETED task
    abbrev stays : DagTaskNode → Bool
    stays n =
        (elim (node_of n.id state.dag.tasks) [ none ↦ false | some old ↦ same_node old n ])
        && completed_at state.tasks n.id

    abbrev stays_at : String → Bool
    stays_at d = elim (node_of d dag.tasks) [ none ↦ false | some n ↦ stays n ]

    all_kept-stays : (ds : List String) → all (λ d. contains d completed_kept) ds ≡ all stays_at ds
    all_kept-stays [] = refl
    all_kept-stays (d ∷ ds) = elim (Option-cases (node_of d dag.tasks)) [
      | inl e ↦ ground (arith, e, kept-unknown d e, all_kept-stays ds)
      | inr (n, e) ↦ ground (arith, e, kept-value d n e, all_kept-stays ds)
    ]

    -- A replan that returns keeps the record of a node that the new table has unchanged and that was COMPLETED, its
    -- attempts and report included. The task of every other node of the new table starts anew with no attempt, report or
    -- error; it is READY if each of its dependencies is such a node, and BLOCKED if not.
    pub replan-records :
        (id : String) (n : DagTaskNode)
        → node_of id dag.tasks ≡ some n
        → record_of id after.tasks ≡ (
            if stays n
            then record_of id state.tasks
            else some (record {
              task_id = id;
              status = if all stays_at n.depends_on then ready else blocked;
              attempts = 0;
              last_report_id = none;
              last_error = none;
            }))
    replan-records id n h =
        ground (arith, record_cases id n h, all_kept-stays n.depends_on, named id n h)

    kept_completed :
        (d : String) → contains d completed_kept ≡ true → completed_at after.tasks d ≡ true
    kept_completed d c = elim (Option-cases (node_of d dag.tasks)) [
      | inl e ↦ absurd (ground (arith, c, kept-unknown d e))
      | inr (n, e) ↦
          let keep = sym (kept-value d n e) ∙ c in
          let same = (record_cases d n e).0 keep in ground (arith, same, keep, named d n e)
    ]

    all_kept :
        (ds : List String)
        → all (λ d. contains d completed_kept) ds ≡ true
        → all (completed_at after.tasks) ds ≡ true
    all_kept [] h = refl
    all_kept (d ∷ ds) h = ground (arith, kept_completed d, all_kept ds)

    -- A task that a replan starts anew as READY has only COMPLETED dependencies.
    pub replan-ready :
        (id : String) (n : DagTaskNode)
        → node_of id dag.tasks ≡ some n
        → (unchanged same_node state.dag.tasks n && completed_before same_node state.tasks n)
          ≡ false
        → is_ready (fresh_task same_node completed_kept n).status ≡ true
        → (record_of id after.tasks ≡ some (fresh_task same_node completed_kept n))
          × (all (completed_at after.tasks) n.depends_on ≡ true)
    replan-ready id n h anew r =
        ((record_cases id n h).1 anew, all_kept n.depends_on (ground (arith, r)))

    -- A replan does not take back what was computed from a node that it replaces. If the new table has a
    -- node unchanged whose task was COMPLETED, and changes a node that it depends on, then afterwards
    -- the first is still COMPLETED while its dependency is not.
    pub replan-stale :
        (id d : String) (n m : DagTaskNode)
        → node_of id dag.tasks ≡ some n
        → node_of d dag.tasks ≡ some m
        → contains d n.depends_on ≡ true
        → (unchanged same_node state.dag.tasks n && completed_before same_node state.tasks n) ≡ true
        → unchanged same_node state.dag.tasks m ≡ false
        → (completed_at after.tasks id ≡ true) × (completed_at after.tasks d ≡ false)
    replan-stale id d n m h k dep keep changed = (
      kept_completed id (kept-value id n h ∙ keep),
      let anew = (record_cases d m k).1 (ground (arith, changed)) in ground (arith, anew),
    )
