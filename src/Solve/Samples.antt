-- ===== src/Solve/Samples.antt =====
-- A solve whose first review asks for a repair, and whose second approves. The world counts the Code Agent's calls.
use mm_harness.Prelude.{
  ℕ, suc, ◌+◌, ◌≤◌, true, none, [], ◌∷◌, ◌≡◌, ◌⊎◌, inl, inr, refl, arith, length, ◌==◌, nat_eq,
  if◌then◌else◌,
}
use mm_harness.Errors.{Error, value_error, type_error, overflow_error}
use mm_harness.Json.{end, get, without}
use mm_harness.Reports.{
  ReportPayload, ExplorationMaterial, UnifiedModelingReport, CodingHarnessReport,
  SolveProblemReview, approve, revise, model, blocked, SolveProblemReport,
}
use mm_harness.MainHarness.Task.{SolveProblemTask, auto}
use mm_harness.Store.Evidence.{unique}
use mm_harness.Solve.Ports.{
  Truncated, Outcome, returned, pure, continue_with, handled, provided, Service,
}
use mm_harness.Solve.{
  probe, control_checkpoint, archive, record_context_marker, prepare_context, attempt_text, guarded,
}
use mm_harness.Solve.Model.{
  go_on, explore_routes, summarized, formulated, form_preliminary, choose_route, model_first,
  write_contract, hand_over,
}
use mm_harness.Solve.Code.{
  redirected, hand_back, execute_code, hand_review, review_code, unified, unify_models, compose,
  disclose_requested,
}
use mm_harness.Solve.Rounds.{
  concluded, finish, revise_code, repair, round, rounds, solve_rounds, solve,
}
use mm_harness.Solve.Start.{has_binary_source, start, research}
use mm_harness.Solve.Does.{Watch, Gives, Any, Does, Does-pure}
use mm_harness.Solve.Counts.{Counts, counting, erring}
use mm_harness.Solve.Ending.{solve-calls, solve-ends, solve-raises}
use mm_harness.Solve.History.{IsEnded}

abbrev payload : ReportPayload
payload = record {
  title = "Yield";
  markdown = "3";
  summary = "The yield is 3.";
  claims = [];
  limitations = [];
  structured = end;
  solution_report_path = none;
  solve_files = [];
}

abbrev route : ExplorationMaterial
route = record {
  branch_id = "b";
  report = payload;
  candidate_scheme = "sum";
  assumptions = [];
  required_validations = [];
  expected_outputs = [];
  expected_figures = [];
  coding_instructions = [];
  risks = [];
  confidence = none;
  requested_file_paths = [];
}

abbrev unified_report : UnifiedModelingReport
unified_report = record {
  report = payload;
  selected_branch_ids = "b" ∷ [];
  main_scheme = "sum";
  required_validations = "total" ∷ [];
  expected_outputs = "table" ∷ [];
  expected_figures = [];
  coding_instructions = [];
  rejected_branch_reasons = end;
}

abbrev coded : CodingHarnessReport
coded = record {
  report = payload;
  execution_succeeded = true;
  validations = end;
  validation_evidence = end;
  metrics = end;
  deviations = [];
  issues = [];
  artifacts = [];
  generated_files = [];
}

abbrev verdict : ℕ → SolveProblemReview
verdict i = record {
  decision = if i == 1 then revise else approve;
  rationale = "checked";
  revision_instructions = if i == 1 then "scale the axis" ∷ [] else [];
  accepted_claims = [];
  revision_target = model;
  requested_file_paths = [];
}

abbrev pub service : Service ℕ
service = record {
  model_agent = record {
    explore = λ t c n i. pure (route ∷ []);
    summarize_exploration = none;
    formulate_preliminary = none;
    unify = none;
    synthesize = λ t c p i. pure unified_report;
    review = λ t c m d i. pure (verdict i);
    compose_final_report = λ t c m d r i. pure payload;
  };
  code_harness = λ t c m i w. (returned coded, suc w);
  max_iterations = 3;
  research_agent = none;
  file_reader = none;
  archive_writer = none;
  probe_writer = none;
  human_control = none;
  writers = record {
    preliminary_markdown = λ p. "";
    modeling_markdown = λ u. "";
    disclosure_failure = λ t i ps e. "";
    model_to_code = λ t c p i n. "";
    code_to_model = λ t c m d i n. "";
    model_to_code_revision = λ t c m d r i n. "";
    pointer = λ c t i a b. "";
  };
  number_text = λ n. "1";
  value_text = λ j. "";
  uuid_of = λ s. none;
  int_text = λ s. none;
  truncated = λ s. Truncated.not_a_number;
  read_modeling = λ f. none;
  read_preliminary = λ f. none;
}

abbrev task : SolveProblemTask
task = record {
  task_id = "q1";
  title = "Yield";
  problem = "Sum the rows.";
  dependencies = [];
  requested_outputs = [];
  difficulty = 1;
  exploration_mode = auto;
  max_branches = 1;
  revision = 0;
  metadata = end;
}

module _ (watch : Watch ℕ) (one : (v : ℕ) → watch.calls (suc v) ≤ watch.calls v + 1) where
  code-does : Does watch 1 Any (λ v. (returned coded, suc v))
  code-does = record { costs = one; gives = λ v. tt }

  quiet : {A : Type 0} (a : A) → Does watch 0 Any (pure a)
  quiet a = Does-pure watch a tt

  counted : Counts service watch
  counted = record {
    code_harness = λ t c m i. code-does;
    explore = λ t c n i. quiet _;
    summarize = λ f e t c rs i. absurd (ground (arith, e));
    formulate = λ f e t c rs s i. absurd (ground (arith, e));
    unify = λ f e t c p d r i. absurd (ground (arith, e));
    synthesize = λ t c p i. quiet _;
    review = λ t c m d i. quiet _;
    compose_final_report = λ t c m d r i. quiet _;
    research = λ f e q n m. absurd (ground (arith, e));
    disclose = λ f e c ps. absurd (ground (arith, e));
    archive_markdown = λ f e n t m i a b c d r. absurd (ground (arith, e));
    record_probe = λ f e n t m i a b c d. absurd (ground (arith, e));
    control = λ f e. absurd (ground (arith, e));
  }

abbrev answer : Outcome SolveProblemReport × ℕ
answer = solve service task none 0

abbrev rounds_of : Outcome SolveProblemReport → ℕ
rounds_of (returned r) = length r.iterations
rounds_of _ = 0

two_rounds : rounds_of answer.0 ≡ 2
unfolding solve solve_rounds attempt_text research start rounds concluded round repair finish
    revise_code hand_over execute_code hand_back review_code hand_review redirected unify_models
    unified compose disclose_requested model_first explore_routes choose_route form_preliminary
    formulated summarized go_on write_contract archive guarded probe control_checkpoint
    record_context_marker provided continue_with handled prepare_context has_binary_source unique
    get without
two_rounds = refl

abbrev unfinished : SolveProblemReport
unfinished = record {
  task_id = "q1";
  status = blocked;
  iteration_count = 0;
  iterations = [];
  final_report = none;
  revision_instructions = [];
  artifacts = [];
  archive_files = [];
  research_report = none;
  error = none;
}

abbrev report_of : Outcome SolveProblemReport → SolveProblemReport
report_of (returned r) = r
report_of _ = unfinished

answered : answer.0 ≡ returned (report_of answer.0)
unfolding solve solve_rounds attempt_text research start rounds concluded round repair finish
    revise_code hand_over execute_code hand_back review_code hand_review redirected unify_models
    unified compose disclose_requested model_first explore_routes choose_route form_preliminary
    formulated summarized go_on write_contract archive guarded probe control_checkpoint
    record_context_marker provided continue_with handled prepare_context has_binary_source unique
    get without
answered = refl

solve-ends_example : IsEnded 3 (report_of answer.0)
solve-ends_example = solve-ends service task none 0 (report_of answer.0) answered

solve-calls_example : (answer.1 ≤ 0 + 3) × (answer.1 ≤ 0 + 3)
solve-calls_example =
    solve-calls service task (λ w. w) (counted (counting (λ w. w)) (λ v. omega arith)) none 0

abbrev OnlyRefusals : Error → Type 0
OnlyRefusals e = (e ≡ value_error) ⊎ ((e ≡ type_error) ⊎ (e ≡ overflow_error))

solve-raises_example :
    Gives (erring {W = ℕ} OnlyRefusals).raises (IsEnded 3) (solve service task none 0).0
solve-raises_example =
    solve-raises service task OnlyRefusals (inl refl) (inr (inl refl)) (inr (inr refl))
      (counted (erring OnlyRefusals) (λ v. omega arith)) none 0
