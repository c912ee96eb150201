-- ===== src/MainHarness/Publish/Gate.antt =====
-- What a publication has passed, and that it keeps the invariant.
use mm_harness.Prelude.{
  ℕ, ◌+◌, String, true, false, not, Option, some, List, [], ◌∷◌, ◌++◌, all, ◌≡◌, refl, sym, ap,
  subst, arith, Option-cases, inl, inr, eq_iff, string_eq,
}
use mm_harness.Errors.{value_error, Result, ok}
use mm_harness.Dag.{DagTaskNode, node_of, is_publish}
use mm_harness.Reports.{ReportPayload, ProducedArtifact, ReportFileRecord, is_latex_kind}
use mm_harness.Publication.{TextTables, validate_publication_artifacts}
use mm_harness.MainHarness.{
  MainHarnessTask, MainHarnessState, completed, is_completed, record_of, all_completed, replace_in,
  replace_task,
}
use mm_harness.MainHarness.Statuses.{completed_at, all_completed_sound, record_of-id}
use mm_harness.MainHarness.Closed.{IsClosed, replace-IsClosed}
use mm_harness.MainHarness.Repository.{Rows, bind_lift-ok, raise_if-ok}
use mm_harness.MainHarness.Repository.Versions.{commit-ok}
use mm_harness.MainHarness.Publish.{terminal_node, unfinished, complete_terminal, publish}

node_of-id :
    (id : String) (nodes : List DagTaskNode) (n : DagTaskNode)
    → node_of id nodes ≡ some n
    → n.id ≡ id
node_of-id id [] n h = cc
node_of-id id (m ∷ ms) n h = ground (arith, node_of-id id ms n, eq_iff m.id id)

module _ (tables : TextTables)
    (persist : ReportPayload → ProducedArtifact → Result (List ReportFileRecord)) (now : ℕ)
    (state : MainHarnessState) (report : ReportPayload) (paper : ProducedArtifact) where
  abbrev published_state : List MainHarnessTask → List ReportFileRecord → MainHarnessState
  published_state tasks files = record state {
    tasks = tasks;
    final_report = some report;
    final_latex_paper = some paper;
    report_files = state.report_files ++ files;
    terminal = true;
  }

  -- what a publication that returns has checked
  pub record Passed (after : MainHarnessState) : Type 0 where
    pub terminal : DagTaskNode
    pub r : MainHarnessTask
    pub files : List ReportFileRecord
    pub node_known : node_of state.dag.terminal_task_id state.dag.tasks ≡ some terminal
    pub publishes : is_publish terminal.kind ≡ true
    pub finished : unfinished terminal.id state.tasks ≡ false
    pub deps_checked : all_completed state.tasks terminal.depends_on ≡ ok true
    pub is_paper : is_latex_kind paper.kind ≡ true
    pub paper_valid : validate_publication_artifacts tables (paper ∷ []) ≡ ok tt
    pub record_known : record_of terminal.id state.tasks ≡ some r
    pub same :
        after
        ≡ record (published_state
            (replace_in (record r { status = completed }) state.tasks)
            files) { version = state.version + 1; updated_at = now }

  terminal_node-ok :
      (terminal : DagTaskNode)
      → terminal_node state ≡ ok terminal
      → node_of state.dag.terminal_task_id state.dag.tasks ≡ some terminal
  unfolding terminal_node
  terminal_node-ok terminal h = ground arith

  complete_terminal-ok :
      (id : String) (tasks : List MainHarnessTask)
      → complete_terminal id state.tasks ≡ ok tasks
      → (r : MainHarnessTask) × (record_of id state.tasks ≡ some r)
        × (tasks ≡ replace_in (record r { status = completed }) state.tasks)
  unfolding complete_terminal
  complete_terminal-ok id tasks h = elim (Option-cases (record_of id state.tasks)) [
    | inl e ↦ absurd (ground (arith, e, h))
    | inr (r, e) ↦ (r, e, ground (arith, e, h))
  ]

  pub publish-Passed :
      (repository : Option Rows) (after : MainHarnessState)
      → (publish tables persist now state report paper repository).0 ≡ ok after
      → Passed after
  unfolding publish
  publish-Passed repository after h =
      let (terminal, e, h₁) = bind_lift-ok (terminal_node state) _ repository h in
      let (publishes, h₂) =
        raise_if-ok (not (is_publish terminal.kind)) value_error _ repository h₁ in
      let (finished, h₃) =
        raise_if-ok (unfinished terminal.id state.tasks) value_error _ repository h₂ in
      let (done, f, h₄) =
        bind_lift-ok (all_completed state.tasks terminal.depends_on) _ repository h₃ in
      let (checked, h₅) = raise_if-ok (not done) value_error _ repository h₄ in
      let (is_paper, h₆) =
        raise_if-ok (not (is_latex_kind paper.kind)) value_error _ repository h₅ in
      let (_, g, h₇) =
        bind_lift-ok (validate_publication_artifacts tables (paper ∷ [])) _ repository h₆ in
      let (files, k, h₈) = bind_lift-ok (persist report paper) _ repository h₇ in
      let (tasks, m, h₉) =
        bind_lift-ok (complete_terminal terminal.id state.tasks) _ repository h₈ in
      let (r, found, replaced) = complete_terminal-ok terminal.id tasks m in
      record {
        terminal = terminal;
        r = r;
        files = files;
        node_known = terminal_node-ok terminal e;
        publishes = ground (arith, publishes);
        finished = finished;
        deps_checked = ground (arith, f, checked);
        is_paper = ground (arith, is_paper);
        paper_valid = ground (arith, g);
        record_known = found;
        same =
            subst
              (λ l. after ≡ record (published_state l files) {
                version = state.version + 1;
                updated_at = now;
              })
              replaced
              (commit-ok now (published_state tasks files) after state.version repository h₉);
      }

  all-finished :
      (id : String) (done : MainHarnessTask) (tasks : List MainHarnessTask)
      → done.task_id ≡ id
      → is_completed done.status ≡ true
      → unfinished id tasks ≡ false
      → all (λ t. is_completed t.status) (replace_in done tasks) ≡ true
  all-finished id done [] named fin h = refl
  all-finished id done (t ∷ tasks) named fin h = ground (
    arith,
    all-finished id done tasks named fin,
    eq_iff t.task_id done.task_id,
    eq_iff t.task_id id,
  )

  -- A publication that returns was given a paper of the kind `final_latex_paper` that passes every
  -- check of publication.py, and a run in which each task but the terminal was COMPLETED; afterwards
  -- every task is COMPLETED, the run is terminal and one version further, and holds that paper and
  -- that report.
  pub publish_complete :
      (repository : Option Rows) (after : MainHarnessState)
      → (publish tables persist now state report paper repository).0 ≡ ok after
      → (is_latex_kind paper.kind ≡ true)
        × (validate_publication_artifacts tables (paper ∷ []) ≡ ok tt)
        × (unfinished state.dag.terminal_task_id state.tasks ≡ false)
        × (all (λ t. is_completed t.status) after.tasks ≡ true)
        × (after.terminal ≡ true)
        × (after.version ≡ state.version + 1)
        × (after.final_report ≡ some report)
        × (after.final_latex_paper ≡ some paper)
  publish_complete repository after h =
      let p = publish-Passed repository after h in
      let named = node_of-id state.dag.terminal_task_id state.dag.tasks p.terminal p.node_known in
      (
        p.is_paper,
        p.paper_valid,
        rw (← named) p.finished,
        subst (λ s. all (λ t. is_completed t.status) s.tasks ≡ true) (sym p.same)
            (all-finished p.terminal.id (record p.r { status = completed }) state.tasks
              (record_of-id p.terminal.id state.tasks p.r p.record_known) refl p.finished),
        ap (λ s. s.terminal) p.same,
        ap (λ s. s.version) p.same,
        ap (λ s. s.final_report) p.same,
        ap (λ s. s.final_latex_paper) p.same,
      )

  -- A publication that returns keeps the invariant that completed tasks have completed dependencies.
  pub publish-IsClosed :
      (repository : Option Rows) (after : MainHarnessState)
      → IsClosed state
      → (publish tables persist now state report paper repository).0 ≡ ok after
      → IsClosed after
  unfolding replace_task
  publish-IsClosed repository after inv h =
      let p = publish-Passed repository after h in
      let r_named = record_of-id p.terminal.id state.tasks p.r p.record_known in
      let named = node_of-id state.dag.terminal_task_id state.dag.tasks p.terminal p.node_known in
      let replaced =
        replace-IsClosed now state (record p.r { status = completed }) (λ c. refl)
          (λ c. rw r_named (
            rw named (
              subst (λ ds. all (completed_at state.tasks) ds ≡ true) (ground (arith, p.node_known))
                (all_completed_sound state.tasks p.terminal.depends_on p.deps_checked))))
          inv in
      subst IsClosed (sym p.same) (record { known = inv.known; closed = replaced.closed })
