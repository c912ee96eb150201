-- ===== src/Solve/Rounds.antt =====
-- application/solve_problem.py: `SolveProblemService.solve`: the rounds, where a solve starts or is resumed, and the
-- report that an operator's interrupt ends in.
use mm_harness.Prelude.{
  ℕ, zero, suc, ◌+◌, ◌-◌, min, Bool, ◌||◌, Option, none, some, List, [], ◌∷◌, ◌++◌, length, ltb,
  take_text, ◌==◌, nat_eq, string_eq, if◌then◌else◌,
}
use Prim.Native.String.{◌++◌ as concat}
use mm_harness.Json.{integer, string, pos, end, field}
use mm_harness.Reports.{
  SolveProblemStatus, ReportPayload, ProducedArtifact, UnifiedModelingReport, CodingHarnessReport,
  SolveProblemReview, SolveProblemIteration, SolveProblemReport,
}
use mm_harness.MainHarness.Disclosure.{SolveProblemContext, supplied_or_none}
use mm_harness.MainHarness.Task.{SolveProblemTask}
use mm_harness.Solve.Ports.{
  HumanInterrupt, Raised, error, interrupt, Run, pure, raise, ◌>>=◌, ◌>>◌, attempt,
  ModelingContract, Service,
}
use mm_harness.Solve.{
  max_revision_rounds, probe, control_checkpoint, prepare_context, archive_files,
}
use mm_harness.Solve.Model.{Progress, done, more, go_on, model_first, hand_over}
use mm_harness.Solve.Code.{
  approves, execute_code, review_code, unify_models, compose, disclose_requested,
}
use mm_harness.Solve.Start.{LoopState, has_binary_source, refused, start, research}

-- iteration_limit
abbrev pub iteration_limit : ℕ → ℕ
iteration_limit max_iterations = min max_iterations (max_revision_rounds + 1)

-- revision_round_limit
abbrev pub revision_round_limit : ℕ → ℕ
revision_round_limit max_iterations = min max_revision_rounds (max_iterations - 1)

-- a `return` in the body ends the loop
unfoldable pub concluded :
    {W : Type 0}
    → (LoopState → Run W SolveProblemReport)
    → Progress LoopState
    → Run W SolveProblemReport
concluded next (done report) = pure report
concluded next (more state) = next state

module _ {W : Type 0} (service : Service W) (task : SolveProblemTask) where
  open service use {max_iterations, research_agent, read_modeling, read_preliminary}

  -- a return of `_solve` with status COMPLETED
  abbrev pub solved :
      ℕ
      → SolveProblemContext
      → List SolveProblemIteration
      → ReportPayload
      → List ProducedArtifact
      → SolveProblemReport
  solved iteration context iterations report artifacts = record {
    task_id = task.task_id;
    status = SolveProblemStatus.completed;
    iteration_count = iteration;
    iterations = iterations;
    final_report = some report;
    revision_instructions = [];
    artifacts = artifacts;
    archive_files = archive_files service task context;
    research_report = context.research_report;
    error = none;
  }

  abbrev pub last_artifacts : List SolveProblemIteration → List ProducedArtifact
  last_artifacts [] = []
  last_artifacts (x ∷ []) = x.coding_report.artifacts
  last_artifacts (x ∷ y ∷ xs) = last_artifacts (y ∷ xs)

  -- the return behind the loop
  abbrev pub exhausted : ℕ → LoopState → SolveProblemReport
  exhausted first state = record {
    task_id = task.task_id;
    status = SolveProblemStatus.failed;
    iteration_count = first - 1 + length state.iterations;
    iterations = state.iterations;
    final_report = none;
    revision_instructions = state.revision_instructions;
    artifacts = last_artifacts state.iterations;
    archive_files = archive_files service task state.context;
    research_report = state.context.research_report;
    error = some "solve_problem 内部返修额度已耗尽；主 Harness 不会再次调用本题。";
  }

  module _ (first : ℕ) (resumed : Bool) where
    abbrev pub snapshot :
        ℕ
        → LoopState
        → Option UnifiedModelingReport
        → CodingHarnessReport
        → SolveProblemReview
        → SolveProblemIteration
    snapshot iteration state model coding review = record {
      iteration = iteration;
      preliminary_reports = if iteration == first then state.preliminary else [];
      modeling_report = model;
      coding_report = coding;
      review = review;
    }

    -- the review approves, or the round is the last one
    unfoldable pub finish :
        ℕ → LoopState → CodingHarnessReport → SolveProblemReview → Run W (Progress LoopState)
    finish iteration state coding review = do
      unified ←
          unify_models service task (revision_round_limit max_iterations) iteration state.context
            state.preliminary coding review
      composed ←
          compose service task (revision_round_limit max_iterations) iteration unified.0 unified.1
            coding review
      pure (
          done (
            solved iteration composed.0
              (state.iterations ++ snapshot iteration state (some unified.1) coding review ∷ [])
              composed.1 coding.artifacts))

    -- another round follows
    unfoldable pub revise_code :
        ℕ → LoopState → CodingHarnessReport → SolveProblemReview → Run W (Progress LoopState)
    revise_code iteration state coding review = do
      context ←
          disclose_requested service task (revision_round_limit max_iterations) iteration
            state.context review
      pure (
          more (record state {
            context = context;
            revision_instructions = review.revision_instructions;
            revision_target = review.revision_target;
            iterations = state.iterations ++ snapshot iteration state none coding review ∷ [];
          }))

    -- a round from the handoff of the model on
    unfoldable pub repair : ℕ → LoopState → ModelingContract → Run W (Progress LoopState)
    repair iteration state modeling = do
      handed ←
          hand_over service task iteration first resumed state.context state.preliminary modeling
            (revision_round_limit max_iterations)
      executed ←
          execute_code service task (revision_round_limit max_iterations) iteration handed
            state.revision_target modeling
      reviewed ←
          review_code service task (revision_round_limit max_iterations) iteration executed.0
            modeling executed.1
      let reviewed_state = record state { context = reviewed.0 }
      if approves reviewed.1 || iteration == iteration_limit max_iterations
          then finish iteration reviewed_state executed.1 reviewed.1
          else revise_code iteration reviewed_state executed.1 reviewed.1

    -- the body of the loop
    unfoldable pub round : ℕ → LoopState → Run W (Progress LoopState)
    round iteration state = do
      checked ← control_checkpoint service task state.context (some iteration) "iteration_start"
      let context = record checked {
        instructions = checked.instructions ++ state.revision_instructions;
      }
      modelled ←
          model_first service task iteration context state.iterations state.revision_target
            state.preliminary state.modeling
      go_on modelled (λ m.
          repair iteration (record state { context = m.0; preliminary = m.1; modeling = some m.2 })
            m.2)

    -- for iteration_number in range(iteration, iteration + left)
    unfoldable pub rounds : ℕ → ℕ → LoopState → Run W SolveProblemReport
    rounds zero iteration state = pure (exhausted first state)
    rounds (suc left) iteration state =
        round iteration state >>= concluded (rounds left (iteration + 1))

  -- _solve
  unfoldable pub solve_rounds : Option SolveProblemContext → Run W SolveProblemReport
  solve_rounds supplied = do
    prepared ← prepare_context service task (supplied_or_none supplied)
    probe service task prepared none "solve_start" "Main Harness" "started" (
        field "max_iterations" (integer (pos max_iterations)) (
          field "revision_round_limit" (integer (pos (revision_round_limit max_iterations))) (
            field "readonly_file_count" (integer (pos (length prepared.readonly_files))) (
              field "multimodal_input_count" (integer (pos (length prepared.multimodal_inputs)))
                end))))
    checked ← control_checkpoint service task prepared none "solve_start"
    context ← research service task checked
    begun ←
        if has_binary_source context
        then refused
            "solve_problem received a complete binary problem source; pass only a delegated scoped Markdown context"
        else start service task context
    if ltb (iteration_limit max_iterations) begun.first
        then refused "resume_iteration exceeds the configured solve_problem iteration limit"
        else rounds begun.first begun.resumed (iteration_limit max_iterations + 1 - begun.first)
            begun.first begun.state

  -- the report that a human interrupt ends in
  unfoldable pub interrupted :
      Option SolveProblemContext → HumanInterrupt → Run W SolveProblemReport
  interrupted supplied i = do
    let context = elim i.context as (λ o. SolveProblemContext) [
      | some c ↦ c
      | none ↦ supplied_or_none supplied
    ]
    probe service task context i.iteration "human_interrupt" "Human Operator" "blocked"
        (field "reason" (string (take_text 2_000 i.reason)) end)
    pure (record {
      task_id = task.task_id;
      status = SolveProblemStatus.blocked;
      iteration_count = elim i.iteration as (λ o. ℕ) [ none ↦ 0 | some n ↦ n ];
      iterations = [];
      final_report = none;
      revision_instructions = [];
      artifacts = [];
      archive_files = archive_files service task context;
      research_report = context.research_report;
      error = some (concat "human interrupt: " (take_text 2_000 i.reason));
    })

  -- except HumanInterruptRequested
  unfoldable pub stopped_by : Option SolveProblemContext → Raised → Run W SolveProblemReport
  stopped_by supplied (interrupt i) = interrupted supplied i
  stopped_by supplied (error e text) = raise (error e text)

  -- solve
  unfoldable pub solve : Option SolveProblemContext → Run W SolveProblemReport
  solve supplied = attempt (solve_rounds supplied) (stopped_by supplied)
