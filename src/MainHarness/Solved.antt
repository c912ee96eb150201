-- ===== src/MainHarness/Solved.antt =====
-- A harness whose tool is the solve service keeps only reports of a finished solve.
use mm_harness.Prelude.{
  ℕ, ◌+◌, String, Bool, true, false, Option, none, some, List, [], ◌∷◌, ◌++◌, ◌≡◌, refl, sym, subst,
  arith, all, all-append, Bool-cases, inl, inr, ◌||◌, ltb,
}
use Prim.Native.String.{◌++◌ as concat}
use mm_harness.Errors.{ok, Result-cases}
use mm_harness.Reports
use mm_harness.Reports.{ReportFileRecord, SolveProblemReport, SolveProblemStatus}
use mm_harness.MainHarness.{
  MainHarnessTask, MainHarnessState, replace_task, unlock_all, in_dag_order, unlock_dependents,
}
use mm_harness.MainHarness.Task.{SolveCall}
use mm_harness.MainHarness.Repository.{Rows}
use mm_harness.MainHarness.Repository.Versions.{commit-ok}
use mm_harness.MainHarness.Dispatch.{
  Services, ToolAnswer, Stored, refused, invalid, answered, stored, not_stored, failed_with,
  status_after, error_after, attach_files, settle, give_up, conclude, dispatch,
}
use mm_harness.MainHarness.Dispatch.Admission.{call_of, dispatch-ok}
use mm_harness.Solve.Ports.{Outcome, returned, raised, Service}
use mm_harness.Solve.Ending.{solve-ends}
use mm_harness.Solve.History.{IsEnded}
use mm_harness.Solve.Tool.{solve_problem, tool_answer, with_solver}

-- a completed report with its final report, or one that is failed or blocked: never a revision for the harness to ask for
abbrev pub is_settled : SolveProblemReport → Bool
is_settled r = elim r.status [
  | Reports.completed ↦ elim r.final_report [ none ↦ false | some p ↦ true ]
  | Reports.revision_required ↦ false
  | Reports.blocked ↦ true
  | Reports.failed ↦ true
]

ended-settled : (limit : ℕ) (r : SolveProblemReport) → IsEnded limit r → is_settled r ≡ true
ended-settled limit r (inl h) = ground (arith, h.is_failed)
ended-settled limit r (inr (inl h)) = ground (arith, h.is_blocked)
ended-settled limit r (inr (inr (first, pos, h))) = ground (arith, h.is_completed, h.reported.1)

abbrev Answers : ToolAnswer → Type 0
Answers (answered r) = is_settled r ≡ true
Answers _ = Unit

solve_problem-settled :
    {W : Type 0} (service : Service W) (call : SolveCall) (w : W)
    → Answers (tool_answer (solve_problem service call w).0)
unfolding solve_problem
solve_problem-settled service call w =
    elim (Bool-cases (ltb call.max_iterations 1 || ltb 20 call.max_iterations)) [
      | inl out ↦ rw out tt
      | inr within ↦ rw within (
          by_outcome _
            (λ r e. ended-settled _ r (solve-ends _ call.task (some call.context) w r e)))
    ]
  where
    by_outcome :
        (o : Outcome SolveProblemReport)
        → ((r : SolveProblemReport) → o ≡ returned r → is_settled r ≡ true)
        → Answers (tool_answer o)
    by_outcome (returned r) h = h r refl
    by_outcome (raised e) h = tt

attach_files-settled :
    (attempt : ℕ) (files : List ReportFileRecord) (report attached : SolveProblemReport)
    → attach_files attempt files report ≡ ok attached
    → is_settled report ≡ true
    → is_settled attached ≡ true
unfolding attach_files
attach_files-settled attempt [] report attached e h = ground (arith, e, h)
attach_files-settled attempt (f ∷ fs) report attached e h = ground (arith, e, h)

module _ (services : Services) (now : ℕ) (state after : MainHarnessState) (repository : Option Rows)
    (started : MainHarnessTask) (attempt : ℕ) (clean : all is_settled state.reports ≡ true) where
  committed :
      (before : MainHarnessState)
      → all is_settled before.reports ≡ true
      → after ≡ record before { version = state.version + 1; updated_at = now }
      → all is_settled after.reports ≡ true
  committed before h e = subst (λ s. all is_settled s.reports ≡ true) (sym e) h

  unlock-reports :
      (before unlocked : MainHarnessState)
      → unlock_dependents now before ≡ ok unlocked
      → before.reports ≡ unlocked.reports
  unfolding unlock_dependents
  unlock-reports before unlocked h =
      elim (Result-cases (unlock_all before.dag.tasks (before.tasks, false))) [
        | inl (e, f) ↦ absurd (ground (arith, f, h))
        | inr ((tasks, changed), f) ↦ elim (Bool-cases changed) [
          | inr same ↦ ground (arith, f, same, h)
          | inl more ↦ elim (Result-cases (in_dag_order tasks before.dag.tasks)) [
            | inl (e, g) ↦ absurd (ground (arith, f, more, g, h))
            | inr (ordered, g) ↦ ground (arith, f, more, g, h)
          ]
        ]
      ]

  give_up-settled :
      (message : Option String)
      → (give_up services now state started message repository).0 ≡ ok after
      → all is_settled after.reports ≡ true
  unfolding give_up replace_task
  give_up-settled message h =
      let failed =
        replace_task now (replace_task now state started) (failed_with started message) in
      committed failed clean (commit-ok now failed after state.version repository h)

  settle-settled :
      (report : SolveProblemReport) (files : List ReportFileRecord)
      → is_settled report ≡ true
      → (settle services now state started attempt report files repository).0 ≡ ok after
      → all is_settled after.reports ≡ true
  unfolding settle replace_task
  settle-settled report files settled h = elim (Result-cases (attach_files attempt files report)) [
    | inl (e, f) ↦ absurd (ground (arith, f, h))
    | inr (attached, f) ↦
        let reported =
          replace_task now
            (record (replace_task now state started) {
              reports = state.reports ++ attached ∷ [];
              report_ids = state.report_ids ++ services.report_id ∷ [];
              report_files = state.report_files ++ files;
            })
            (record started {
              status = status_after attached.status;
              last_report_id = some services.report_id;
              last_error = error_after attached.status attached.error;
            }) in
        let kept : all is_settled reported.reports ≡ true = ground (
          arith,
          all-append is_settled state.reports (attached ∷ []),
          clean,
          attach_files-settled attempt files report attached f settled,
        ) in
        elim (Result-cases (unlock_dependents now reported)) [
          | inl (e, g) ↦ absurd (ground (arith, f, g, h))
          | inr (unlocked, g) ↦
              committed unlocked
                (subst (λ l. all is_settled l ≡ true) (unlock-reports reported unlocked g) kept)
                (commit-ok now unlocked after state.version repository (ground (arith, f, g, h)))
        ]
  ]

  conclude-settled :
      (answer : ToolAnswer)
      → Answers answer
      → (conclude services now state started attempt answer repository).0 ≡ ok after
      → all is_settled after.reports ≡ true
  unfolding conclude
  conclude-settled (refused message) a h = give_up-settled _ h
  conclude-settled (invalid text) a h = give_up-settled _ h
  conclude-settled (answered report) a h = by_storage (services.persist report attempt) refl
    where
      by_storage :
          (s : Stored) → services.persist report attempt ≡ s → all is_settled after.reports ≡ true
      by_storage (stored files) e = settle-settled report files a (ground (arith, e, h))
      by_storage (not_stored text) e =
          give_up-settled (some (concat "durable report persistence failed: " text))
            (ground (arith, e, h))

-- A dispatch whose tool is the solve service keeps only reports of finished solves, if the run had only such before: each
-- is failed, blocked, or completed with a final report, and none asks the harness for a revision. This holds for all
-- that the agents, the stores and the operator do, and for any bound that the dispatch asks for.
pub dispatch-settles :
    {W : Type 0} (service : Service W) (w : W) (services : Services) (now : ℕ)
    (state after : MainHarnessState) (task_id : String) (max_iterations : ℕ)
    (repository : Option Rows)
    → all is_settled state.reports ≡ true
    → (dispatch (with_solver service w services) now state task_id max_iterations repository).0
      ≡ ok after
    → all is_settled after.reports ≡ true
dispatch-settles service w services now state after task_id max_iterations repository clean h =
    let solver = with_solver service w services in
    let (node, r, task, disclosed, found, built, shown, rest) =
      dispatch-ok solver now state task_id max_iterations repository after h in
    let call = call_of solver now state task_id r task disclosed max_iterations in
    conclude-settled solver now state after repository _ (r.attempts + 1) clean
      (tool_answer (solve_problem service call w).0) (solve_problem-settled service call w) rest
