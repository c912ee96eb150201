-- ===== src/Solve/Steps/Repair.antt =====
-- The stages of a round from the Code Agent on: one call of it, and a review that asks the Code Agent for every repair.
use mm_harness.Prelude.{String, ℕ, List, ◌≡◌, refl}
use mm_harness.Reports.{
  PreliminaryModelingReport, UnifiedModelingReport, CodingHarnessReport, SolveProblemReview,
  RevisionTarget, code, model, full,
}
use mm_harness.MainHarness.Disclosure.{SolveProblemContext}
use mm_harness.MainHarness.Task.{SolveProblemTask}
use mm_harness.Errors.{value_error}
use mm_harness.Solve.Ports.{error, interrupt, HumanInterrupt, ModelingContract, Service}
use mm_harness.Solve.Model.{is_empty}
use mm_harness.Solve.Code.{
  redirected, hand_back, execute_code, hand_review, review_code, unified, unify_models, compose,
  disclose_requested,
}
use mm_harness.Solve.Does.{
  Watch, Any, Does, Does-pure, Does-bind, Does-then, Does-provided, Does-if,
}
use mm_harness.Solve.Counts.{Counts}
use mm_harness.Solve.Steps.{
  probe-does, control_checkpoint-does, archive-does, record_context_marker-does, guarded-does,
}

redirected-code : (r : SolveProblemReview) → (redirected r).revision_target ≡ code
unfolding redirected
redirected-code r = go r.revision_target refl
  where
    go : (t : RevisionTarget) → r.revision_target ≡ t → (redirected r).revision_target ≡ code
    go code e = rw (e, redirected) refl
    go model e = rw (e, redirected) refl
    go full e = rw (e, redirected) refl

module _ {W : Type 0} (service : Service W) (task : SolveProblemTask) (watch : Watch W)
    (refuses : (text : String) → watch.raises (error value_error text))
    (counts : Counts service watch) (stops : (i : HumanInterrupt) → watch.raises (interrupt i))
    (limit i : ℕ) where
  hand_back-does :
      (context : SolveProblemContext) (modeling : ModelingContract) (coding : CodingHarnessReport)
      → Does watch 0 Any (hand_back service task limit i context modeling coding)
  unfolding hand_back
  hand_back-does context modeling coding =
      Does-then watch (record_context_marker-does service task watch refuses counts _ i _ _ _) (λ a.
        Does-then watch (archive-does service task watch refuses counts a i _ _ _ _ _) (λ b.
          Does-then watch (archive-does service task watch refuses counts b i _ _ _ _ _) (λ c.
            Does-then watch (probe-does service task watch refuses counts c _ _ _ _ _)
              (λ u. Does-pure watch c tt))))

  -- the one call of the Code Agent in a round
  pub execute_code-does :
      (context : SolveProblemContext) (target : RevisionTarget) (modeling : ModelingContract)
      → Does watch 1 Any (execute_code service task limit i context target modeling)
  unfolding execute_code
  execute_code-does context target modeling =
      Does-then watch (probe-does service task watch refuses counts context _ _ _ _ _) (λ u.
        Does-then watch
          (control_checkpoint-does service task watch refuses counts stops context _ _)
          (λ a.
            Does-bind watch
              (guarded-does service task watch refuses counts a i _ _ _ _
                (counts.code_harness task a modeling i))
              (λ coding x.
                Does-then watch (probe-does service task watch refuses counts a _ _ _ _ _) (λ v.
                  Does-then watch
                    (control_checkpoint-does service task watch refuses counts stops a _ _)
                    (λ b.
                      Does-then watch (hand_back-does b modeling coding)
                        (λ c. Does-pure watch (c, coding) tt))))))

  hand_review-does :
      (context : SolveProblemContext) (modeling : ModelingContract) (coding : CodingHarnessReport)
      (original : RevisionTarget) (review : SolveProblemReview)
      → Does watch 0 Any (hand_review service task limit i context modeling coding original review)
  unfolding hand_review
  hand_review-does context modeling coding original review =
      Does-then watch (probe-does service task watch refuses counts context _ _ _ _ _) (λ u.
        Does-then watch (probe-does service task watch refuses counts context _ _ _ _ _) (λ v.
          Does-then watch
            (record_context_marker-does service task watch refuses counts context i _ _ _)
            (λ a.
              Does-then watch (archive-does service task watch refuses counts a i _ _ _ _ _) (λ b.
                Does-then watch (archive-does service task watch refuses counts b i _ _ _ _ _) (λ c.
                  Does-if watch (is_empty review.revision_instructions) (λ e. Does-pure watch c tt)
                    (λ e. archive-does service task watch refuses counts c i _ _ _ _ _))))))

  pub review_code-does :
      (context : SolveProblemContext) (modeling : ModelingContract) (coding : CodingHarnessReport)
      → Does watch 0
          (λ r. r.1.revision_target ≡ code)
          (review_code service task limit i context modeling coding)
  unfolding review_code
  review_code-does context modeling coding =
      Does-then watch (probe-does service task watch refuses counts context _ _ _ _ _) (λ u.
        Does-then watch
          (control_checkpoint-does service task watch refuses counts stops context _ _)
          (λ a.
            Does-then watch
              (guarded-does service task watch refuses counts a i _ _ _ _
                (counts.review task a modeling coding i))
              (λ review.
                Does-then watch (hand_review-does a modeling coding _ (redirected review))
                  (λ b. Does-pure watch (b, redirected review) (redirected-code review)))))

  unified-does :
      (context : SolveProblemContext) (preliminary : List PreliminaryModelingReport)
      (coding : CodingHarnessReport) (review : SolveProblemReview)
      → Does watch 0 Any (unified service task limit i context preliminary coding review)
  unfolding unified
  unified-does context preliminary coding review =
      Does-provided watch service.model_agent.unify (counts.synthesize task context preliminary i)
        (λ f e. counts.unify f e task context preliminary coding review i)

  pub unify_models-does :
      (context : SolveProblemContext) (preliminary : List PreliminaryModelingReport)
      (coding : CodingHarnessReport) (review : SolveProblemReview)
      → Does watch 0 Any (unify_models service task limit i context preliminary coding review)
  unfolding unify_models
  unify_models-does context preliminary coding review =
      Does-then watch (probe-does service task watch refuses counts context _ _ _ _ _) (λ u.
        Does-then watch
          (guarded-does service task watch refuses counts context i _ _ _ _
            (unified-does context preliminary coding review))
          (λ m.
            Does-then watch (probe-does service task watch refuses counts context _ _ _ _ _) (λ v.
              Does-then watch (archive-does service task watch refuses counts context i _ _ _ _ _)
                (λ a.
                  Does-then watch
                    (record_context_marker-does service task watch refuses counts a i _ _ _)
                    (λ b. Does-pure watch (b, m) tt)))))

  pub compose-does :
      (context : SolveProblemContext) (u : UnifiedModelingReport) (coding : CodingHarnessReport)
      (review : SolveProblemReview)
      → Does watch 0 Any (compose service task limit i context u coding review)
  unfolding compose
  compose-does context u coding review =
      Does-then watch (control_checkpoint-does service task watch refuses counts stops context _ _)
        (λ a.
          Does-then watch
            (guarded-does service task watch refuses counts a i _ _ _ _
              (counts.compose_final_report task a u coding review i))
            (λ report.
              Does-then watch (probe-does service task watch refuses counts a _ _ _ _ _)
                (λ v. Does-pure watch (a, report) tt)))

  pub disclose_requested-does :
      (context : SolveProblemContext) (review : SolveProblemReview)
      → Does watch 0 Any (disclose_requested service task limit i context review)
  unfolding disclose_requested
  disclose_requested-does context review =
      Does-if watch (is_empty review.requested_file_paths) (λ e. Does-pure watch context tt)
        (λ e. Does-provided watch service.file_reader (Does-pure watch context tt) (λ read f.
          Does-then watch (counts.disclose read f context _) (λ files. Does-pure watch _ tt)))
