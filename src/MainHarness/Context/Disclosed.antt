-- ===== src/MainHarness/Context/Disclosed.antt =====
-- Which files a dispatch discloses.
use mm_harness.Prelude.{
  ℕ, ◌/◌, max, length, String, Bool, true, false, not, ◌&&◌, ◌||◌, Option, none, some, List, [],
  ◌∷◌, ◌++◌, map, select, all, all-append, contains, ◌==◌, nat_eq, string_eq, ◌≡◌, refl, arith,
  eq_iff, ==_self, Bool-cases, Option-cases, ◌⊎◌, inl, inr,
}
use mathlib.Core.List.{reverse, append-nil}
use mm_harness.Errors.{ok, Result-cases}
use mm_harness.Compact.{Measures}
use mm_harness.Reports.{
  ReportFileRecord, ReadOnlyFileReference, as_readonly, is_solve_file, SolveProblemReport,
}
use mm_harness.MainHarness.{MainHarnessTask, MainHarnessState, record_of}
use mm_harness.MainHarness.Context.{
  disclosed_files, path_of, solution_of, project, project_all, context_for_dispatch,
}
use mm_harness.MainHarness.Disclosure.{
  DependencySolutionContext, SolveProblemContext, supplied_or_none, zip, is_disclosed, match_of,
  put_file, merge_files, solution_files, node_dependency_outputs,
}

-- a stored file of the last attempt of a direct dependency, of a role that another task may open
abbrev pub is_current : List MainHarnessTask → ReportFileRecord → Bool
is_current tasks f = elim (record_of f.task_id tasks) [
  | none ↦ false
  | some r ↦ f.attempt == r.attempts
]

abbrev pub may_disclose : MainHarnessState → List String → ReportFileRecord → Bool
may_disclose state dependencies f =
    contains f.task_id dependencies && (is_solve_file f.role && is_current state.tasks f)

module _ (allowed : ReadOnlyFileReference → Bool) where
  all-put_file :
      (f : ReadOnlyFileReference) (gs : List ReadOnlyFileReference)
      → allowed f ≡ true
      → all allowed gs ≡ true
      → all allowed (put_file f gs) ≡ true
  unfolding put_file
  all-put_file f [] h k = ground arith
  all-put_file f (g ∷ gs) h k = ground (arith, all-put_file f gs)

  all-merge_files :
      (fs merged : List ReadOnlyFileReference)
      → all allowed merged ≡ true
      → all allowed fs ≡ true
      → all allowed (merge_files merged fs) ≡ true
  unfolding merge_files
  all-merge_files [] merged h k = h
  all-merge_files (f ∷ fs) merged h k =
      all-merge_files fs (put_file f merged) (all-put_file f merged (ground (arith, k)) h)
        (ground (arith, k))

  solution_files-append :
      (ss : List DependencySolutionContext) (s : DependencySolutionContext)
      → all allowed (solution_files (ss ++ s ∷ []))
        ≡ (all allowed (solution_files ss) && all allowed s.solve_files)
  solution_files-append [] s = ground (arith, all-append allowed s.solve_files [])
  solution_files-append (x ∷ ss) s = ground (
    arith,
    solution_files-append ss s,
    all-append allowed x.solve_files (solution_files (ss ++ s ∷ [])),
    all-append allowed x.solve_files (solution_files ss),
  )

  module _ (measures : Measures) (state : MainHarnessState) (task_id : String)
      (dependencies : List String)
      (stored : all
          (λ f. not (may_disclose state dependencies f) || allowed (as_readonly f))
          state.report_files
        ≡ true) where
    disclosed-allowed :
        (dependency : String) (r : MainHarnessTask) (report : SolveProblemReport)
        (files : List ReportFileRecord)
        → contains dependency dependencies ≡ true
        → record_of dependency state.tasks ≡ some r
        → all (λ f. not (may_disclose state dependencies f) || allowed (as_readonly f)) files ≡ true
        → all allowed (map as_readonly (select (is_disclosed dependency r.attempts report) files))
          ≡ true
    unfolding is_disclosed
    disclosed-allowed dependency r report [] m e h = refl
    disclosed-allowed dependency r report (f ∷ fs) m e h =
        elim (Bool-cases (is_disclosed dependency r.attempts report f)) [
          | inl shown ↦
              let named : f.task_id ≡ dependency =
                (eq_iff f.task_id dependency).0 (ground (arith, shown)) in
              let known : contains f.task_id dependencies ≡ true = rw named m in
              let held : record_of f.task_id state.tasks ≡ some r = rw named e in
              ground (arith, disclosed-allowed dependency r report fs m e, shown, known, held, h)
          | inr hidden ↦ ground (arith, disclosed-allowed dependency r report fs m e, hidden, h)
        ]

    -- a dependency adds nothing, or one solution with its disclosed files
    project-cases :
        (pairs : List (ℕ × SolveProblemReport)) (budget : ℕ) (dependency : String)
        (found : List DependencySolutionContext)
        → project measures state task_id pairs budget dependency ≡ ok found
        → (found ≡ [])
          ⊎ ((s : DependencySolutionContext) × (r : MainHarnessTask) × (report : SolveProblemReport)
              × (found ≡ s ∷ [])
              × (record_of dependency state.tasks ≡ some r)
              × (s.solve_files
                  ≡ map as_readonly
                      (disclosed_files measures state task_id dependency r.attempts report)))
    unfolding project solution_of
    project-cases pairs budget dependency found h =
        elim (Option-cases (match_of dependency pairs)) [
          | inl e ↦ inl (ground (arith, e, h))
          | inr ((report_id, (report, payload)), e) ↦
              elim (Option-cases (record_of dependency state.tasks)) [
                | inl f ↦ absurd (ground (arith, e, f, h))
                | inr (r, f) ↦
                    elim (Result-cases (node_dependency_outputs state.dag task_id dependency)) [
                      | inl (x, g) ↦ absurd (ground (arith, e, f, g, h))
                      | inr (requested, g) ↦
                          let files =
                            disclosed_files measures state task_id dependency r.attempts report in
                          let s =
                            solution_of measures dependency report_id report payload
                              (map as_readonly files) (path_of measures state task_id files) budget
                              requested in
                          inr (s, r, report, ground (arith, e, f, g, h), f, refl)
                    ]
              ]
        ]

    projected-allowed :
        (pairs : List (ℕ × SolveProblemReport)) (budget : ℕ) (dependency : String)
        (solutions found : List DependencySolutionContext)
        → contains dependency dependencies ≡ true
        → project measures state task_id pairs budget dependency ≡ ok found
        → all allowed (solution_files solutions) ≡ true
        → all allowed (solution_files (solutions ++ found)) ≡ true
    projected-allowed pairs budget dependency solutions found m h before =
        elim (project-cases pairs budget dependency found h) [
          | inl e ↦ rw e (rw (append-nil solutions) before)
          | inr (s, r, report, e, f, g) ↦
              let files = disclosed-allowed dependency r report state.report_files m f stored in
              rw e (ground (arith, solution_files-append solutions s, before, files, g))
        ]

    project_all-allowed :
        (pairs : List (ℕ × SolveProblemReport)) (budget : ℕ) (supplied : List String)
        (solutions result : List DependencySolutionContext) (rest : List String)
        → all (λ d. contains d dependencies) rest ≡ true
        → project_all measures state task_id pairs budget supplied solutions rest ≡ ok result
        → all allowed (solution_files solutions) ≡ true
        → all allowed (solution_files result) ≡ true
    unfolding project_all
    project_all-allowed pairs budget supplied solutions result [] m h before = ground arith
    project_all-allowed pairs budget supplied solutions result (d ∷ rest) m h before =
        elim (Bool-cases (contains d supplied)) [
          | inl given ↦
              project_all-allowed pairs budget supplied (solutions ++ []) result rest
                (ground (arith, m)) (ground (arith, given, h)) (rw (append-nil solutions) before)
          | inr free ↦ elim (Result-cases (project measures state task_id pairs budget d)) [
            | inl (x, g) ↦ absurd (ground (arith, free, g, h))
            | inr (found, g) ↦
                project_all-allowed pairs budget supplied (solutions ++ found) result rest
                  (ground (arith, m)) (ground (arith, free, g, h))
                  (projected-allowed pairs budget d solutions found (ground (arith, m)) g before)
          ]
        ]

contains_more :
    (k : String) (ks ds : List String)
    → all (λ d. contains d ks) ds ≡ true
    → all (λ d. contains d (k ∷ ks)) ds ≡ true
contains_more k ks [] h = refl
contains_more k ks (d ∷ ds) h = ground (arith, contains_more k ks ds)

contains_self : (ds : List String) → all (λ d. contains d ds) ds ≡ true
contains_self [] = refl
contains_self (d ∷ ds) = ground (arith, contains_more d ds ds (contains_self ds), ==_self d)

-- A dispatch discloses only files that its caller supplied, and stored files of the last attempt of a
-- direct dependency whose role another task may open: whatever holds of all of these holds of every
-- read-only file in the context that the tool is handed.
pub context_for_dispatch-disclosed :
    (allowed : ReadOnlyFileReference → Bool) (measures : Measures) (state : MainHarnessState)
    (task_id : String) (dependencies : List String) (supplied : Option SolveProblemContext)
    (context : SolveProblemContext)
    → all allowed (supplied_or_none supplied).readonly_files ≡ true
    → all allowed (solution_files (supplied_or_none supplied).dependency_solutions) ≡ true
    → all
        (λ f. not (may_disclose state dependencies f) || allowed (as_readonly f))
        state.report_files
      ≡ true
    → context_for_dispatch measures state task_id dependencies supplied ≡ ok context
    → all allowed context.readonly_files ≡ true
unfolding context_for_dispatch
context_for_dispatch-disclosed allowed measures state task_id dependencies supplied context files
      solved stored h =
    let c = supplied_or_none supplied in
    let pairs = reverse (zip state.report_ids state.reports) in
    let budget = max 1_000 (c.context_budget_tokens / max 1 (length dependencies)) in
    let given = map (λ (s : DependencySolutionContext). s.task_id) c.dependency_solutions in
    elim (Result-cases
      (project_all measures state task_id pairs budget given c.dependency_solutions dependencies)) [
        | inl (e, f) ↦ absurd (ground (arith, f, h))
        | inr (solutions, f) ↦
            let solved_after =
              project_all-allowed allowed measures state task_id dependencies stored pairs budget
                given c.dependency_solutions solutions dependencies (contains_self dependencies) f
                solved in
            let merged =
              all-merge_files allowed (solution_files solutions) (merge_files [] c.readonly_files)
                (all-merge_files allowed c.readonly_files [] refl files) solved_after in
            let shown : context.readonly_files
                ≡ merge_files (merge_files [] c.readonly_files) (solution_files solutions) =
              ground (arith, f, h) in
            rw shown merged
      ]
