-- ===== src/MainHarness/Dispatch/Keeps.antt =====
-- A dispatch keeps the invariant, whatever the tool and the report store answer.
use mm_harness.Prelude.{
  ℕ, ◌+◌, String, true, false, Option, some, List, [], ◌∷◌, ◌++◌, ==_self, all, ◌≡◌, refl, sym,
  subst, arith, inl, inr, string_eq,
}
use Prim.Native.String.{◌++◌ as concat}
use mm_harness.Errors.{ok, Result-cases}
use mm_harness.Dag.{DagTaskNode}
use mm_harness.Dag.Counting.{deps_of}
use mm_harness.Reports.{ReportFileRecord, SolveProblemReport}
use mm_harness.MainHarness.{MainHarnessTask, MainHarnessState, replace_task, unlock_dependents}
use mm_harness.MainHarness.Statuses.{
  completed_at, record_of-replace, all_completed_sound, record_of-id,
}
use mm_harness.MainHarness.Closed.{IsClosed, replace-IsClosed, replace_mono, unlock-IsClosed}
use mm_harness.MainHarness.Repository.{Rows}
use mm_harness.MainHarness.Repository.Versions.{commit-ok}
use mm_harness.MainHarness.Dispatch.{
  Services, ToolAnswer, Stored, refused, invalid, answered, stored, not_stored, failed_with,
  status_after, error_after, attach_files, settle, give_up, conclude, dispatch,
}
use mm_harness.MainHarness.Dispatch.Admission.{IsAdmitted, running_record, dispatch-ok}

module _ (services : Services) (now : ℕ) (state : MainHarnessState) (task_id : String)
    (node : DagTaskNode) (r : MainHarnessTask) (found : IsAdmitted state task_id node r)
    (inv : IsClosed state) where
  abbrev started : MainHarnessTask
  started = running_record services now state r

  named : r.task_id ≡ task_id
  named = record_of-id task_id state.tasks r found.record_known

  not_completed : completed_at state.tasks r.task_id ≡ false
  not_completed = rw named (ground (arith, found.record_known, found.record_ready))

  deps_completed : all (completed_at state.tasks) (deps_of r.task_id state.dag.tasks) ≡ true
  deps_completed = rw named (
      subst (λ ds. all (completed_at state.tasks) ds ≡ true) deps
        (all_completed_sound state.tasks node.depends_on found.deps_checked))
    where
      deps : node.depends_on ≡ deps_of task_id state.dag.tasks
      deps = ground (arith, found.node_known)

  working : MainHarnessState
  working = replace_task now state started

  working-IsClosed : IsClosed working
  unfolding working
  working-IsClosed = replace-IsClosed now state started (λ h. cc (h, not_completed)) (λ h. cc h) inv

  still_not_completed : completed_at working.tasks r.task_id ≡ false
  unfolding working replace_task
  still_not_completed =
      ground (arith, record_of-replace r.task_id started state.tasks, ==_self r.task_id)

  working_done : all (completed_at working.tasks) (deps_of r.task_id state.dag.tasks) ≡ true
  unfolding working
  working_done =
      replace_mono now state started (λ h. cc (h, not_completed))
        (deps_of r.task_id state.dag.tasks) deps_completed

  -- the state that is committed, but for its version and time
  abbrev Committed : MainHarnessState → MainHarnessState → Type 0
  Committed before after = after ≡ record before { version = state.version + 1; updated_at = now }

  Committed-IsClosed :
      (before after : MainHarnessState) → IsClosed before → Committed before after → IsClosed after
  Committed-IsClosed before after h e =
      subst IsClosed (sym e) (record { known = h.known; closed = h.closed })

  give_up-IsClosed :
      (message : Option String) (repository : Option Rows) (after : MainHarnessState)
      → (give_up services now state started message repository).0 ≡ ok after
      → IsClosed after
  unfolding give_up working
  give_up-IsClosed message repository after h =
      let failed = replace_task now working (failed_with started message) in
      Committed-IsClosed failed after
        (replace-IsClosed now working (failed_with started message)
          (λ c. cc (c, still_not_completed)) (λ c. cc c) working-IsClosed)
        (commit-ok now failed after state.version repository h)

  with_report : SolveProblemReport → List ReportFileRecord → MainHarnessState
  with_report report files = record working {
    reports = working.reports ++ report ∷ [];
    report_ids = working.report_ids ++ services.report_id ∷ [];
    report_files = working.report_files ++ files;
  }

  settled_record : SolveProblemReport → MainHarnessTask
  settled_record report = record started {
    status = status_after report.status;
    last_report_id = some services.report_id;
    last_error = error_after report.status report.error;
  }

  reported-IsClosed :
      (report : SolveProblemReport) (files : List ReportFileRecord)
      → IsClosed (replace_task now (with_report report files) (settled_record report))
  unfolding with_report settled_record working replace_task
  reported-IsClosed report files =
      replace-IsClosed now (with_report report files) (settled_record report)
        (λ c. cc (c, still_not_completed)) (λ c. working_done)
        (record { known = working-IsClosed.known; closed = working-IsClosed.closed })

  settle-IsClosed :
      (report : SolveProblemReport) (files : List ReportFileRecord) (repository : Option Rows)
      (after : MainHarnessState)
      → (settle services now state started (r.attempts + 1) report files repository).0 ≡ ok after
      → IsClosed after
  unfolding settle with_report settled_record working
  settle-IsClosed report files repository after h =
      elim (Result-cases (attach_files (r.attempts + 1) files report)) [
        | inl (e, f) ↦ absurd (ground (arith, f, h))
        | inr (attached, f) ↦
            let reported =
              replace_task now (with_report attached files) (settled_record attached) in
            elim (Result-cases (unlock_dependents now reported)) [
              | inl (e, g) ↦ absurd (ground (arith, f, g, h))
              | inr (unlocked, g) ↦
                  Committed-IsClosed unlocked after
                    (unlock-IsClosed now reported unlocked (reported-IsClosed attached files) g)
                    (commit-ok now unlocked after state.version repository
                      (ground (arith, f, g, h)))
            ]
      ]

  conclude-IsClosed :
      (answer : ToolAnswer) (repository : Option Rows) (after : MainHarnessState)
      → (conclude services now state started (r.attempts + 1) answer repository).0 ≡ ok after
      → IsClosed after
  unfolding conclude
  conclude-IsClosed (refused message) repository after h = give_up-IsClosed _ repository after h
  conclude-IsClosed (invalid text) repository after h = give_up-IsClosed _ repository after h
  conclude-IsClosed (answered report) repository after h =
      by_storage (services.persist report (r.attempts + 1)) refl
    where
      by_storage : (s : Stored) → services.persist report (r.attempts + 1) ≡ s → IsClosed after
      by_storage (stored files) e =
          settle-IsClosed report files repository after (ground (arith, e, h))
      by_storage (not_stored text) e =
          give_up-IsClosed (some (concat "durable report persistence failed: " text)) repository
            after (ground (arith, e, h))

-- A dispatch that returns keeps the invariant that completed tasks have completed dependencies,
-- whatever the tool answers (a failure, no report, or a report of any status and of any task) and
-- whether or not the report store keeps the files.
pub dispatch-IsClosed :
    (services : Services) (now : ℕ) (state : MainHarnessState) (task_id : String)
    (max_iterations : ℕ) (repository : Option Rows) (after : MainHarnessState)
    → IsClosed state
    → (dispatch services now state task_id max_iterations repository).0 ≡ ok after
    → IsClosed after
dispatch-IsClosed services now state task_id max_iterations repository after inv h =
    let (node, r, task, disclosed, found, built, shown, rest) =
      dispatch-ok services now state task_id max_iterations repository after h in
    conclude-IsClosed services now state task_id node r found inv _ repository after rest
