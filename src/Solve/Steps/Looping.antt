-- ===== src/Solve/Steps/Looping.antt =====
-- The loop of a solve: a call of the Code Agent in each round, and how it ends.
use mm_harness.Prelude.{
  String, ℕ, zero, suc, ◌+◌, ◌≤◌, Bool, true, false, ◌||◌, some, [], ◌≡◌, refl, subst, arith, ◌==◌,
  nat_eq, inl, inr,
}
use mm_harness.Reports.{CodingHarnessReport, SolveProblemReview, code, SolveProblemReport}
use mm_harness.MainHarness.Task.{SolveProblemTask}
use mm_harness.Errors.{value_error}
use mm_harness.Solve.Ports.{error, interrupt, HumanInterrupt, Run, ModelingContract, Service}
use mm_harness.Solve.Model.{Progress, done, more}
use mm_harness.Solve.Code.{approves}
use mm_harness.Solve.Rounds.{iteration_limit, concluded, finish, revise_code, repair, round, rounds}
use mm_harness.Solve.Start.{LoopState}
use mm_harness.Solve.Does.{Watch, Does, Does-pure, Does-weaken, Does-bind, Does-then, Does-if}
use mm_harness.Solve.Counts.{Counts}
use mm_harness.Solve.Steps.{control_checkpoint-does}
use mm_harness.Solve.Steps.Modelling.{
  IsStopped, FirstStops, go_on-does, model_first-does, hand_over-does,
}
use mm_harness.Solve.Steps.Repair.{
  execute_code-does, review_code-does, unify_models-does, compose-does, disclose_requested-does,
}
use mm_harness.Solve.History.{Revised, Ends, Revised-append, IsBefore, Rounds, closing, revising}

module _ {W : Type 0} (service : Service W) (task : SolveProblemTask) (watch : Watch W)
    (refuses : (text : String) → watch.raises (error value_error text))
    (counts : Counts service watch)
    (stops : (i : HumanInterrupt) → watch.raises (interrupt i)) where
  module _ (first : ℕ) (resumed : Bool) (i : ℕ) where
    finish-does :
        (state : LoopState) (coding : CodingHarnessReport) (review : SolveProblemReview)
        → Revised first state.iterations i
        → i ≤ iteration_limit service.max_iterations
        → review.revision_target ≡ code
        → (approves review || i == iteration_limit service.max_iterations) ≡ true
        → Does watch 0
            (Rounds first (iteration_limit service.max_iterations) i)
            (finish service task first resumed i state coding review)
    unfolding finish
    finish-does state coding review before le target last =
        Does-then watch
          (unify_models-does service task watch refuses counts stops _ i _ _ coding review)
          (λ u.
            Does-then watch
              (compose-does service task watch refuses counts stops _ i u.0 u.1 coding review)
              (λ c. Does-pure watch _ (
                inr (record {
                  is_completed = refl;
                  reported = (_, refl);
                  earlier = state.iterations;
                  last = _;
                  all = refl;
                  revised = before;
                  numbered = refl;
                  within = le;
                  targeted = target;
                  unified = (_, refl);
                  closes = closing i _ (approves review) last;
                  delivered = refl;
                }))))

    revise_code-does :
        (state : LoopState) (coding : CodingHarnessReport) (review : SolveProblemReview)
        (modeling : ModelingContract)
        → state.modeling ≡ some modeling
        → Revised first state.iterations i
        → i ≤ iteration_limit service.max_iterations
        → review.revision_target ≡ code
        → (approves review || i == iteration_limit service.max_iterations) ≡ false
        → Does watch 0
            (Rounds first (iteration_limit service.max_iterations) i)
            (revise_code service task first resumed i state coding review)
    unfolding revise_code
    revise_code-does state coding review modeling modelled before le target next =
        let (other, lt) = revising i _ (approves review) le next in
        Does-then watch
          (disclose_requested-does service task watch refuses counts stops _ i state.context review)
          (λ c. Does-pure watch _ (
            lt,
            record {
              revised = Revised-append first state.iterations i _ before refl other target refl;
              unmodelled = λ e. absurd (ground (arith, modelled, e));
            },
          ))

    repair-does :
        (state : LoopState) (modeling : ModelingContract)
        → state.modeling ≡ some modeling
        → Revised first state.iterations i
        → i ≤ iteration_limit service.max_iterations
        → Does watch 1
            (Rounds first (iteration_limit service.max_iterations) i)
            (repair service task first resumed i state modeling)
    unfolding repair
    repair-does state modeling modelled before le =
        Does-then watch
          (hand_over-does service task watch refuses counts i first resumed _ _ modeling _)
          (λ a.
            Does-bind watch
              (execute_code-does service task watch refuses counts stops _ i a _ modeling)
              (λ e u.
                Does-bind watch
                  (review_code-does service task watch refuses counts stops _ i e.0 modeling e.1)
                  (λ r target.
                    Does-if watch (approves r.1 || i == iteration_limit service.max_iterations)
                      (λ last. finish-does _ e.1 r.1 before le target last)
                      (λ next.
                        revise_code-does _ e.1 r.1 modeling modelled before le target next))))

    round-does :
        (state : LoopState)
        → IsBefore first i state
        → i ≤ iteration_limit service.max_iterations
        → Does watch 1
            (Rounds first (iteration_limit service.max_iterations) i)
            (round service task first resumed i state)
    unfolding round
    round-does state before le =
        Does-then watch (control_checkpoint-does service task watch refuses counts stops _ _ _)
          (λ c.
            Does-bind watch
              (model_first-does service task watch refuses counts i _ state.iterations _ _
                state.modeling)
              (λ p stops.
                go_on-does service task watch refuses counts i p
                  (λ r e.
                    let (unmodelled, h) =
                      subst (FirstStops i state.iterations state.modeling) e stops in
                    let (one, none_kept) = before.unmodelled unmodelled in
                    inl (
                      subst (λ n. IsStopped n [] r) one (subst (λ l. IsStopped i l r) none_kept h)))
                  (λ m. repair-does _ m.2 refl before.revised le)))

    concluded-does :
        (k : ℕ) (next : LoopState → Run W SolveProblemReport) (p : Progress LoopState)
        → Rounds first (iteration_limit service.max_iterations) i p
        → ((state : LoopState)
            → suc i ≤ iteration_limit service.max_iterations
            → IsBefore first (i + 1) state
            → Does watch k (Ends first (iteration_limit service.max_iterations)) (next state))
        → Does watch k (Ends first (iteration_limit service.max_iterations)) (concluded next p)
    unfolding concluded
    concluded-does k next (done r) h d =
        Does-weaken watch (Does-pure watch {Q = Ends first _} r h) (omega arith) (λ a g. g)
    concluded-does k next (more state) (lt, before) d = d state lt before

  pub rounds-does :
      (first : ℕ) (resumed : Bool) (left i : ℕ) (state : LoopState)
      → IsBefore first i state
      → i + left ≡ iteration_limit service.max_iterations + 1
      → i ≤ iteration_limit service.max_iterations
      → Does watch left
          (Ends first (iteration_limit service.max_iterations))
          (rounds service task first resumed left i state)
  unfolding rounds
  rounds-does first resumed zero i state before sum le = absurd (omega (arith, sum))
  rounds-does first resumed (suc left) i state before sum le =
      Does-weaken watch
        (Does-bind watch {k = left} (round-does first resumed i state before le) (λ p h.
          concluded-does first resumed i left _ p h (λ next lt kept.
            rounds-does first resumed left (i + 1) next kept (omega (arith, sum))
              (omega (arith, lt)))))
        (omega arith) (λ r h. h)
