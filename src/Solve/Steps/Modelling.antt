-- ===== src/Solve/Steps/Modelling.antt =====
-- The stages of a round before the Code Agent make no call of it, and a report that ends the solve there says so.
use mm_harness.Prelude.{
  ℕ, ◌-◌, String, Bool, Option, none, some, List, [], ◌∷◌, ◌≡◌, refl, subst, ◌&&◌, not, ◌==◌,
  nat_eq, ◌⊎◌, inl, inr, arith,
}
use mm_harness.Reports.{
  SolveProblemStatus, ExplorationMaterial, PreliminaryModelingReport, ReportPayload,
  SolveProblemIteration, SolveProblemReport, RevisionTarget,
}
use mm_harness.MainHarness.Disclosure.{SolveProblemContext, DisclosedTextFile}
use mm_harness.MainHarness.Task.{SolveProblemTask}
use mm_harness.Store.Evidence.{unique}
use mm_harness.Errors.{value_error}
use mm_harness.Solve.Ports.{error, Raised, Run, ModelingContract, Service}
use mm_harness.Solve.Model.{
  Progress, done, more, go_on, is_empty, requested_paths, explore_again, disclosure_failed,
  after_disclosure, disclose_routes, explore_routes, summarized, formulated, form_preliminary,
  choose_route, model_first, write_contract, hand_over,
}
use mm_harness.Solve.Does.{
  Watch, Any, Does, Does-pure, Does-weaken, Does-bind, Does-attempt, Does-then, Does-provided,
  Does-if,
}
use mm_harness.Solve.Counts.{Counts}
use mm_harness.Solve.Steps.{probe-does, archive-does, record_context_marker-does, guarded-does}

-- a report that ends the solve before the Code Agent
pub record IsStopped (iteration : ℕ) (iterations : List SolveProblemIteration)
    (r : SolveProblemReport) : Type 0 where
  pub is_failed : r.status ≡ SolveProblemStatus.failed
  pub count : r.iteration_count ≡ iteration - 1
  pub kept : r.iterations ≡ iterations
  pub unreported : r.final_report ≡ none
  pub reason : (e : String) × (r.error ≡ some e)

abbrev pub Stops : {A : Type 0} → ℕ → List SolveProblemIteration → Progress A → Type 0
Stops iteration iterations (done r) = IsStopped iteration iterations r
Stops iteration iterations (more a) = Unit

-- The loop is ended before the Code Agent only while there is no model.
abbrev pub FirstStops :
    {A : Type 0} → ℕ → List SolveProblemIteration → Option ModelingContract → Progress A → Type 0
FirstStops iteration iterations modeling (done r) =
    (modeling ≡ none) × IsStopped iteration iterations r
FirstStops iteration iterations modeling (more a) = Unit

first_stops :
    {A : Type 0} (iteration : ℕ) (iterations : List SolveProblemIteration) (p : Progress A)
    → Stops iteration iterations p
    → FirstStops iteration iterations none p
first_stops iteration iterations (done r) h = (refl, h)
first_stops iteration iterations (more a) h = tt

module _ {W : Type 0} (service : Service W) (task : SolveProblemTask) (watch : Watch W)
    (refuses : (text : String) → watch.raises (error value_error text))
    (counts : Counts service watch) (i : ℕ) where
  explore_again-does :
      (context : SolveProblemContext) (routes : List ExplorationMaterial) (requested : List String)
      (disclosed : List DisclosedTextFile)
      → Does watch 0 Any (explore_again service task i context routes requested disclosed)
  unfolding explore_again
  explore_again-does context routes requested disclosed =
      Does-then watch (probe-does service task watch refuses counts context _ _ _ _ _) (λ u.
        Does-if watch (is_empty disclosed) (λ e. Does-pure watch _ tt)
          (λ e.
            Does-then watch
              (guarded-does service task watch refuses counts _ i _ _ _ _
                (counts.explore task _ 1 i))
              (λ again. Does-pure watch _ tt)))

  disclosure_failed-does :
      (context : SolveProblemContext) (iterations : List SolveProblemIteration)
      (requested : List String) (e : Raised)
      → Does watch 0
          (Stops i iterations)
          (disclosure_failed service task i context iterations requested e)
  unfolding disclosure_failed
  disclosure_failed-does context iterations requested e =
      Does-then watch (probe-does service task watch refuses counts context _ _ _ _ _) (λ u.
        Does-then watch (archive-does service task watch refuses counts context i _ _ _ _ _) (λ c.
          Does-pure watch _ (record {
            is_failed = refl;
            count = refl;
            kept = refl;
            unreported = refl;
            reason = (_, refl);
          })))

  after_disclosure-does :
      (context : SolveProblemContext) (iterations : List SolveProblemIteration)
      (routes : List ExplorationMaterial) (requested : List String)
      (answer : Raised ⊎ List DisclosedTextFile)
      → Does watch 0
          (Stops i iterations)
          (after_disclosure service task i context iterations routes requested answer)
  unfolding after_disclosure
  after_disclosure-does context iterations routes requested (inl e) =
      disclosure_failed-does context iterations requested e
  after_disclosure-does context iterations routes requested (inr disclosed) =
      Does-then watch (explore_again-does context routes requested disclosed)
        (λ explored. Does-pure watch _ tt)

  disclose_routes-does :
      (context : SolveProblemContext) (iterations : List SolveProblemIteration)
      (routes : List ExplorationMaterial)
      (read : SolveProblemContext → List String → Run W (List DisclosedTextFile))
      → service.file_reader ≡ some read
      → Does watch 0
          (Stops i iterations)
          (disclose_routes service task i context iterations routes read)
  unfolding disclose_routes
  disclose_routes-does context iterations routes read e =
      Does-then watch (probe-does service task watch refuses counts context _ _ _ _ _) (λ u.
        Does-then watch
          (Does-attempt watch watch (λ w. refl)
            (Does-then watch (counts.disclose read e context _) (λ files. Does-pure watch _ tt))
            (λ f h. Does-pure watch _ tt))
          (λ answer. after_disclosure-does context iterations routes _ answer))

  explore_routes-does :
      (context : SolveProblemContext) (iterations : List SolveProblemIteration)
      (target : RevisionTarget)
      → Does watch 0 (Stops i iterations) (explore_routes service task i context iterations target)
  unfolding explore_routes
  explore_routes-does context iterations target =
      Does-then watch (probe-does service task watch refuses counts context _ _ _ _ _) (λ u.
        Does-then watch
          (guarded-does service task watch refuses counts _ i _ _ _ _
            (counts.explore task context 1 i))
          (λ routes.
            Does-then watch (probe-does service task watch refuses counts context _ _ _ _ _) (λ v.
              Does-then watch
                (record_context_marker-does service task watch refuses counts context i _ _ _)
                (λ c.
                  Does-if watch (is_empty (unique [] (requested_paths routes)))
                    (λ e. Does-pure watch _ tt)
                    (λ e.
                      Does-provided watch service.file_reader (Does-pure watch _ tt)
                        (λ read f. disclose_routes-does c iterations routes read f))))))

  summarized-does :
      (context : SolveProblemContext) (route : ExplorationMaterial)
      → Does watch 0 Any (summarized service task i context route)
  unfolding summarized
  summarized-does context route =
      Does-provided watch service.model_agent.summarize_exploration (Does-pure watch _ tt)
        (λ f e. counts.summarize f e task context _ i)

  formulated-does :
      (context : SolveProblemContext) (route : ExplorationMaterial) (summary : ReportPayload)
      → Does watch 0 Any (formulated service task i context route summary)
  unfolding formulated
  formulated-does context route summary =
      Does-provided watch service.model_agent.formulate_preliminary (Does-pure watch _ tt)
        (λ f e. counts.formulate f e task context _ summary i)

  form_preliminary-does :
      (context : SolveProblemContext) (route : ExplorationMaterial)
      → Does watch 0 Any (form_preliminary service task i context route)
  unfolding form_preliminary
  form_preliminary-does context route =
      Does-then watch (probe-does service task watch refuses counts context _ _ _ _ _) (λ u.
        Does-then watch
          (guarded-does service task watch refuses counts _ i _ _ _ _
            (summarized-does context route))
          (λ summary.
            Does-then watch (probe-does service task watch refuses counts context _ _ _ _ _) (λ v.
              Does-then watch (probe-does service task watch refuses counts context _ _ _ _ _) (λ w.
                Does-then watch
                  (guarded-does service task watch refuses counts _ i _ _ _ _
                    (formulated-does context route summary))
                  (λ report.
                    Does-then watch (probe-does service task watch refuses counts context _ _ _ _ _)
                      (λ x.
                        Does-then watch
                          (archive-does service task watch refuses counts context i _ _ _ _ _)
                          (λ c.
                            Does-then watch
                              (record_context_marker-does service task watch refuses counts c i _ _
                                _)
                              (λ d. Does-pure watch _ tt))))))))

  choose_route-does :
      (context : SolveProblemContext) (iterations : List SolveProblemIteration)
      (routes : List ExplorationMaterial)
      → Does watch 0 (Stops i iterations) (choose_route service task i context iterations routes)
  unfolding choose_route
  choose_route-does context iterations [] = Does-pure watch _ (record {
    is_failed = refl;
    count = refl;
    kept = refl;
    unreported = refl;
    reason = (_, refl);
  })
  choose_route-does context iterations (route ∷ []) =
      Does-then watch (form_preliminary-does context route) (λ formed. Does-pure watch _ tt)
  choose_route-does context iterations (route ∷ other ∷ routes) = Does-pure watch _ (record {
    is_failed = refl;
    count = refl;
    kept = refl;
    unreported = refl;
    reason = (_, refl);
  })

  pub go_on-does :
      {A B : Type 0} {k : ℕ} {Q : Progress B → Type 0} (p : Progress A)
      {later : A → Run W (Progress B)}
      → ((r : SolveProblemReport) → p ≡ done r → Q (done r))
      → ((a : A) → Does watch k Q (later a))
      → Does watch k Q (go_on p later)
  unfolding go_on
  go_on-does {Q} (done r) stopped d =
      Does-weaken watch (Does-pure watch {Q = Q} (done r) (stopped r refl)) (omega arith) (λ a h. h)
  go_on-does (more a) stopped d = d a

  pub model_first-does :
      (context : SolveProblemContext) (iterations : List SolveProblemIteration)
      (target : RevisionTarget) (preliminary : List PreliminaryModelingReport)
      (modeling : Option ModelingContract)
      → Does watch 0
          (FirstStops i iterations modeling)
          (model_first service task i context iterations target preliminary modeling)
  unfolding model_first
  model_first-does context iterations target preliminary (some modeling) = Does-pure watch _ tt
  model_first-does context iterations target preliminary none =
      Does-weaken watch
        (Does-bind watch {k = 0} (explore_routes-does context iterations target) (λ explored s.
          go_on-does explored (λ r h. (refl, subst (Stops i iterations) h s))
            (λ e.
              Does-weaken watch (choose_route-does e.0 iterations e.1) (omega arith)
                (first_stops i iterations))))
        (omega arith) (λ a h. h)

  pub hand_over-does :
      (start : ℕ) (resumed : Bool) (context : SolveProblemContext)
      (preliminary : List PreliminaryModelingReport) (modeling : ModelingContract) (limit : ℕ)
      → Does watch 0 Any (hand_over service task i start resumed context preliminary modeling limit)
  unfolding hand_over write_contract
  hand_over-does start resumed context preliminary modeling limit =
      Does-if watch (i == start && not resumed)
        (λ e.
          Does-then watch (archive-does service task watch refuses counts context i _ _ _ _ _) (λ c.
            Does-then watch (probe-does service task watch refuses counts c _ _ _ _ _)
              (λ u. Does-pure watch _ tt)))
        (λ e. Does-pure watch _ tt)
