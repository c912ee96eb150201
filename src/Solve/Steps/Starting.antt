-- ===== src/Solve/Steps/Starting.antt =====
-- The start of a solve calls no Code Agent, and leads to a first round.
use mm_harness.Prelude.{String, Option, some, none, ℕ, ◌≤◌, not, ◌||◌, [], ◌∷◌, refl, arith, nat_eq}
use mm_harness.Json.{
  Items, nil, item, null, boolean, integer, real, string, array, object, Fields, get,
}
use mm_harness.MainHarness.Disclosure.{SolveProblemContext}
use mm_harness.MainHarness.Task.{SolveProblemTask}
use mm_harness.Errors.{value_error}
use mm_harness.Solve.Ports.{error, Service}
use mm_harness.Solve.Model.{is_empty}
use mm_harness.Solve.Start.{
  given, positive, fields_of, items_of, is_target, validated, read_all, resume, start, research,
}
use mm_harness.Solve.Does.{
  Watch, Any, Does, Does-pure, Does-raise, Does-then, Does-provided, Does-if,
}
use mm_harness.Solve.Counts.{Counts}
use mm_harness.Solve.History.{IsStart, positive_pos}

module _ {W : Type 0} (service : Service W) (task : SolveProblemTask) (watch : Watch W)
    (refuses : (text : String) → watch.raises (error value_error text))
    (counts : Counts service watch) where
  validated-does : {A : Type 0} (o : Option A) → Does watch 0 Any (validated {W = W} o)
  validated-does (some a) = Does-pure watch a tt
  validated-does none = Does-raise watch _ (refuses _)

  read_all-does : (items : Items) → Does watch 0 Any (read_all service task items)
  unfolding read_all
  read_all-does nil = Does-pure watch [] tt
  read_all-does (item (object fields) items) =
      Does-then watch (validated-does (service.read_preliminary fields))
        (λ r. Does-then watch (read_all-does items) (λ rs. Does-pure watch (r ∷ rs) tt))
  read_all-does (item null items) = read_all-does items
  read_all-does (item (boolean b) items) = read_all-does items
  read_all-does (item (integer n) items) = read_all-does items
  read_all-does (item (real t) items) = read_all-does items
  read_all-does (item (string t) items) = read_all-does items
  read_all-does (item (array js) items) = read_all-does items

  resume-does :
      (context : SolveProblemContext) (first : ℕ) (modeling : Fields)
      → 1 ≤ first
      → Does watch 0 IsStart (resume service task context first modeling)
  unfolding resume
  resume-does context first modeling pos =
      Does-then watch (validated-does (service.read_modeling modeling)) (λ m.
        Does-then watch
          (Does-provided watch (items_of (get "resume_preliminary" context.metadata))
            (Does-raise watch _ (refuses _)) (λ items e. Does-pure watch items tt))
          (λ items. Does-then watch (read_all-does items) (λ rs.
            Does-if watch (is_empty rs) (λ e. Does-raise watch _ (refuses _))
              (λ e.
                Does-if watch (not (is_target (get "resume_revision_target" context.metadata)))
                  (λ f. Does-raise watch _ (refuses _))
                  (λ f. Does-pure watch _ (record {
                    positive_first = pos;
                    before = record {
                      revised = refl;
                      unmodelled = λ g. absurd (ground (arith, g));
                    };
                  }))))))

  pub start-does :
      (context : SolveProblemContext) → Does watch 0 IsStart (start service task context)
  unfolding start
  start-does context =
      Does-if watch
        (not (
          given (get "resume_iteration" context.metadata)
          || given (get "resume_modeling" context.metadata)))
        (λ e. Does-pure watch _ (record {
          positive_first = omega arith;
          before = record { revised = refl; unmodelled = λ g. (refl, refl) };
        }))
        (λ e.
          Does-provided watch (positive (get "resume_iteration" context.metadata))
            (Does-raise watch _ (refuses _))
            (λ first f.
              Does-provided watch (fields_of (get "resume_modeling" context.metadata))
                (Does-raise watch _ (refuses _))
                (λ modeling g. resume-does context first modeling (positive_pos _ f))))

  pub research-does :
      (context : SolveProblemContext) → Does watch 0 Any (research service task context)
  unfolding research
  research-does context =
      Does-provided watch service.research_agent (Does-pure watch context tt) (λ search e.
        Does-provided watch context.research_report
          (Does-then watch (counts.research search e _ _ _) (λ r. Does-pure watch _ tt))
          (λ r f. Does-pure watch context tt))
