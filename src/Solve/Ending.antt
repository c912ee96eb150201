-- ===== src/Solve/Ending.antt =====
-- How a solve ends, and how often it calls the Code Agent.
use mm_harness.Prelude.{
  ℕ, String, none, some, true, false, ◌+◌, ◌≤◌, Option, ◌≡◌, refl, subst, arith, nat_eq, inl, inr,
  ltb,
}
use mm_harness.Reports.{SolveProblemReport}
use mm_harness.MainHarness.Disclosure.{SolveProblemContext}
use mm_harness.MainHarness.Task.{SolveProblemTask}
use mm_harness.Errors.{Error, value_error, type_error, overflow_error}
use mm_harness.Json.{Json, null, boolean, integer, real, string, array, object}
use mm_harness.Solve.{float_int, attempt_text, prepare_context}
use mm_harness.Solve.Ports.{error, interrupt, HumanInterrupt, Raised, returned, Truncated, Service}
use mm_harness.Solve.Rounds.{iteration_limit, solve_rounds, interrupted, stopped_by, solve}
use mm_harness.Solve.Start.{has_binary_source}
use mm_harness.Solve.Does.{
  Gives, Watch, Any, Does, Does-pure, Does-raise, Does-weaken, Does-attempt, Does-after, Does-then,
  Does-provided, Does-if,
}
use mm_harness.Solve.Counts.{Counts, counting, uncounted, erring, inside, Counts-inside}
use mm_harness.Solve.Steps.{probe-does, control_checkpoint-does}
use mm_harness.Solve.History.{IsEnded, ended}
use mm_harness.Solve.Steps.Looping.{rounds-does}
use mm_harness.Solve.Steps.Starting.{start-does, research-does}

module _ {W : Type 0} (service : Service W) (task : SolveProblemTask) (watch : Watch W)
    (refuses : (text : String) → watch.raises (error value_error text))
    (mistypes : (text : String) → watch.raises (error type_error text))
    (overflows : (text : String) → watch.raises (error overflow_error text)) where
  float_int-does : (t : Truncated) → Does watch 0 Any (float_int service task t)
  float_int-does (Truncated.whole t) = Does-pure watch t tt
  float_int-does Truncated.infinite = Does-raise watch _ (overflows _)
  float_int-does Truncated.not_a_number = Does-raise watch _ (refuses _)

  attempt_text-does : (o : Option Json) → Does watch 0 Any (attempt_text service task o)
  unfolding attempt_text
  attempt_text-does none = Does-pure watch _ tt
  attempt_text-does (some (integer n)) = Does-pure watch _ tt
  attempt_text-does (some (boolean true)) = Does-pure watch _ tt
  attempt_text-does (some (boolean false)) = Does-pure watch _ tt
  attempt_text-does (some (string s)) =
      Does-provided watch (service.int_text s) (Does-raise watch _ (refuses _))
        (λ t e. Does-pure watch t tt)
  attempt_text-does (some (real s)) = float_int-does (service.truncated s)
  attempt_text-does (some null) = Does-raise watch _ (mistypes _)
  attempt_text-does (some (array js)) = Does-raise watch _ (mistypes _)
  attempt_text-does (some (object fs)) = Does-raise watch _ (mistypes _)

  prepare_context-does :
      (context : SolveProblemContext) → Does watch 0 Any (prepare_context service task context)
  unfolding prepare_context
  prepare_context-does context =
      Does-provided watch _ (Does-pure watch _ tt)
        (λ raw e. Does-then watch (attempt_text-does _) (λ t. Does-pure watch _ tt))

module _ {W : Type 0} (service : Service W) (task : SolveProblemTask) (watch : Watch W)
    (refuses : (text : String) → watch.raises (error value_error text))
    (mistypes : (text : String) → watch.raises (error type_error text))
    (overflows : (text : String) → watch.raises (error overflow_error text))
    (counts : Counts service watch)
    (stops : (i : HumanInterrupt) → watch.raises (interrupt i)) where
  solve_rounds-does :
      (supplied : Option SolveProblemContext)
      → Does watch
          (iteration_limit service.max_iterations)
          (IsEnded (iteration_limit service.max_iterations))
          (solve_rounds service task supplied)
  unfolding solve_rounds
  solve_rounds-does supplied =
      Does-then watch (prepare_context-does service task watch refuses mistypes overflows _)
        (λ prepared.
          Does-then watch (probe-does service task watch refuses counts _ _ _ _ _ _) (λ u.
            Does-then watch (control_checkpoint-does service task watch refuses counts stops _ _ _)
              (λ a. Does-then watch (research-does service task watch refuses counts a) (λ b.
                Does-after watch
                  (Does-if watch (has_binary_source b) (λ e. Does-raise watch _ (refuses _))
                    (λ e. start-does service task watch refuses counts b))
                  (λ s begun.
                    Does-if watch (ltb (iteration_limit service.max_iterations) s.first)
                      (λ e.
                        Does-weaken watch (Does-raise watch _ (refuses _)) (omega arith) (λ r h. h))
                      (λ e.
                        Does-weaken watch
                          (rounds-does service task watch refuses counts stops s.first s.resumed _
                            s.first s.state begun.before (ground (arith, e, begun.positive_first))
                            (ground (arith, e)))
                          (ground (arith, begun.positive_first))
                          (λ r h. ended begun.positive_first h)))))))

module _ {W : Type 0} (service : Service W) (task : SolveProblemTask) (watch : Watch W)
    (refuses : (text : String) → watch.raises (error value_error text))
    (mistypes : (text : String) → watch.raises (error type_error text))
    (overflows : (text : String) → watch.raises (error overflow_error text))
    (counts : Counts service watch) where
  interrupted-does :
      (supplied : Option SolveProblemContext) (i : HumanInterrupt)
      → Does watch 0
          (IsEnded (iteration_limit service.max_iterations))
          (interrupted service task supplied i)
  unfolding interrupted
  interrupted-does supplied i =
      Does-then watch (probe-does service task watch refuses counts _ _ _ _ _ _) (λ u.
        Does-pure watch _
          (inr (inl (record { is_blocked = refl; empty = refl; unreported = refl }))))

  stopped_by-does :
      (supplied : Option SolveProblemContext) (e : Raised)
      → (inside watch).raises e
      → Does watch 0
          (IsEnded (iteration_limit service.max_iterations))
          (stopped_by service task supplied e)
  unfolding stopped_by
  stopped_by-does supplied (interrupt i) h = interrupted-does supplied i
  stopped_by-does supplied (error e text) h = Does-raise watch _ h

  solve-does :
      (supplied : Option SolveProblemContext)
      → Does watch
          (iteration_limit service.max_iterations)
          (IsEnded (iteration_limit service.max_iterations))
          (solve service task supplied)
  unfolding solve
  solve-does supplied =
      Does-weaken watch
        (Does-attempt (inside watch) watch (λ w. refl) {k = 0}
          (solve_rounds-does service task (inside watch) refuses mistypes overflows
            (Counts-inside service watch counts) (λ i. tt) supplied)
          (stopped_by-does supplied))
        (omega arith) (λ r h. h)

-- However a solve ends, also by an exception or an interrupt, it has called the Code Agent at most three times, and at
-- most `max_iterations` times. A call is what `calls` counts: the other ports leave the count alone.
pub solve-calls :
    {W : Type 0} (service : Service W) (task : SolveProblemTask) (calls : W → ℕ)
    → Counts service (counting calls)
    → (supplied : Option SolveProblemContext) (w : W)
    → (calls (solve service task supplied w).1 ≤ calls w + 3)
      × (calls (solve service task supplied w).1 ≤ calls w + service.max_iterations)
solve-calls service task calls counts supplied w = omega (
  arith,
  (solve-does service task (counting calls) (λ text. tt) (λ text. tt) (λ text. tt) counts
        supplied).costs
      w,
)

-- Whatever the agents, the reader, the archive, the probes and the operator do, a solve that returns a report ends in one
-- of three ways. Before the Code Agent it ends FAILED, with no rounds and a reason. By an operator's interrupt it ends
-- BLOCKED. Else it is COMPLETED with a final report, at most three rounds and at most `max_iterations`: the rounds are
-- numbered in order, those before the last each asked the Code Agent for a repair and have no unified model, and the last
-- has one, delivers its artifacts, and is approved or is the last that is allowed. So the return behind the loop is not
-- reached, and no report asks the Main Harness for a revision.
pub solve-ends :
    {W : Type 0} (service : Service W) (task : SolveProblemTask)
    (supplied : Option SolveProblemContext) (w : W) (r : SolveProblemReport)
    → (solve service task supplied w).0 ≡ returned r
    → IsEnded (iteration_limit service.max_iterations) r
solve-ends service task supplied w r e =
    subst (Gives (λ e. Unit) (IsEnded (iteration_limit service.max_iterations))) e (
      (solve-does service task (counting (λ v. 0)) (λ text. tt) (λ text. tt) (λ text. tt)
          (uncounted service) supplied).gives
        w)

-- Where the ports raise only errors of the expected kinds, `ValueError`, `TypeError` and `OverflowError` among them, and
-- raise no operator's interrupt, a solve either returns a report that ends in one of the three ways or raises an error of
-- an expected kind. The interrupt that the solve itself raises for an operator's command never leaves it.
pub solve-raises :
    {W : Type 0} (service : Service W) (task : SolveProblemTask) (expected : Error → Type 0)
    → expected value_error
    → expected type_error
    → expected overflow_error
    → Counts service (erring expected)
    → (supplied : Option SolveProblemContext) (w : W)
    → Gives
        (erring {W = W} expected).raises
        (IsEnded (iteration_limit service.max_iterations))
        (solve service task supplied w).0
solve-raises service task expected refusal mistype overflow counts supplied w =
    (solve-does service task (erring expected) (λ text. refusal) (λ text. mistype)
        (λ text. overflow) counts supplied).gives
      w
