-- ===== src/Solve/Steps.antt =====
-- The steps of a solve that call no Code Agent, and the one that does.
pub mod Modelling
pub mod Repair
pub mod Looping
pub mod Starting
use mm_harness.Errors.{Error, value_error}
use mm_harness.Prelude.{
  ℕ, ◌+◌, String, Bool, true, false, ◌&&◌, Option, none, some, List, [], ◌∷◌, ◌≡◌, refl, find, ◌==◌,
  nat_eq, not, Bool-cases, Option-cases, inl, inr, arith, if◌then◌else◌,
}
use mm_harness.Json.{Json, Fields}
use mm_harness.Reports.{
  ReadOnlyFileRole, ExplorationMaterial, ReportPayload, PreliminaryModelingReport,
  CodingHarnessReport, SolveProblemReview, UnifiedModelingReport,
}
use mm_harness.MainHarness.Disclosure.{SolveProblemContext, DisclosedTextFile}
use mm_harness.MainHarness.Task.{SolveProblemTask}
use mm_harness.Solve.Ports.{
  HumanInterrupt, Raised, error, interrupt, Outcome, returned, raised, Run, pure, raise, ◌>>=◌,
  ◌>>◌, ModelingContract, HumanCommand, HumanControl, ArchivePort, ProbePort, Service,
}
use mm_harness.Solve.{
  run_id_of, cursor_of, is_interrupt, parsed, publish, record_probe, probe, probe_commands, consume,
  control_checkpoint, archive, record_context_marker, guarded,
}
use mm_harness.Solve.Does.{
  Gives, Watch, Any, Does, Does-pure, Does-raise, Does-weaken, Does-bind, Does-attempt, Does-widen,
  Does-then, Does-provided, Does-if,
}
use mm_harness.Solve.Counts.{Counts}

module _ {W : Type 0} (service : Service W) (task : SolveProblemTask) (watch : Watch W)
    (refuses : (text : String) → watch.raises (error value_error text))
    (counts : Counts service watch) where
  parsed-does : (text : String) → Does watch 0 Any (parsed service task text)
  parsed-does text =
      Does-provided watch (service.uuid_of text) (Does-raise watch _ (refuses _))
        (λ id e. Does-pure watch id tt)

  publish-does :
      (run : String) (i : Option ℕ) (event actor status : String) (details : Fields)
      → Does watch 0 Any (publish service task run i event actor status details)
  unfolding publish
  publish-does run i event actor status details =
      Does-provided watch service.human_control (Does-pure watch tt tt)
        (λ control e. (counts.control control e).0 _ _ _ i event actor status details)

  record_probe-does :
      (run : String) (i : Option ℕ) (event actor status : String) (details : Fields)
      → Does watch 0 Any (record_probe service task run i event actor status details)
  unfolding record_probe
  record_probe-does run i event actor status details =
      Does-provided watch service.probe_writer (Does-pure watch tt tt) (λ write e.
        Does-then watch (parsed-does run)
          (λ id. counts.record_probe write e id _ _ i event actor status details))

  pub probe-does :
      (context : SolveProblemContext) (i : Option ℕ) (event actor status : String)
      (details : Fields)
      → Does watch 0 Any (probe service task context i event actor status details)
  unfolding probe
  probe-does context i event actor status details =
      Does-provided watch (run_id_of context) (Does-pure watch tt tt) (λ raw e.
        Does-then watch (publish-does _ i event actor status details)
          (λ u. record_probe-does _ i event actor status details))

  probe_commands-does :
      (context : SolveProblemContext) (i : Option ℕ) (stage : String) (cs : List HumanCommand)
      → Does watch 0 Any (probe_commands service task context i stage cs)
  unfolding probe_commands
  probe_commands-does context i stage [] = Does-pure watch tt tt
  probe_commands-does context i stage (c ∷ cs) =
      Does-then watch
        (Does-if watch (is_interrupt c) (λ e. probe-does context i _ _ _ _)
          (λ e. probe-does context i _ _ _ _))
        (λ u. probe_commands-does context i stage cs)

  consume-does :
      (stops : (i : HumanInterrupt) → watch.raises (interrupt i)) (control : HumanControl W)
      → service.human_control ≡ some control
      → (context : SolveProblemContext) (i : Option ℕ) (stage run : String) (cs : List HumanCommand)
      → Does watch 0 Any (consume service task control context i stage run cs)
  unfolding consume
  consume-does stops control e context i stage run [] =
      Does-then watch ((counts.control control e).2 run) (λ stopped.
        Does-if watch stopped (λ f. Does-raise watch _ (stops _)) (λ f. Does-pure watch context tt))
  consume-does stops control e context i stage run (c ∷ cs) =
      Does-then watch (probe_commands-does context i stage (c ∷ cs)) (λ u.
        Does-provided watch (find is_interrupt (c ∷ cs)) (Does-pure watch _ tt)
          (λ d f. Does-raise watch _ (stops _)))

  pub control_checkpoint-does :
      (stops : (i : HumanInterrupt) → watch.raises (interrupt i)) (context : SolveProblemContext)
      (i : Option ℕ) (stage : String)
      → Does watch 0 Any (control_checkpoint service task context i stage)
  unfolding control_checkpoint
  control_checkpoint-does stops context i stage =
      Does-provided watch service.human_control (Does-pure watch context tt) (λ control e.
        Does-provided watch (run_id_of context) (Does-pure watch context tt) (λ raw f.
          Does-then watch ((counts.control control e).1 _ _)
            (λ cs. consume-does stops control e context i stage _ cs)))

  pub archive-does :
      (context : SolveProblemContext) (i : ℕ) (stage name markdown purpose : String)
      (role : ReadOnlyFileRole)
      → Does watch 0 Any (archive service task context i stage name markdown purpose role)
  unfolding archive
  archive-does context i stage name markdown purpose role =
      Does-provided watch service.archive_writer (Does-pure watch context tt) (λ write e.
        Does-provided watch (run_id_of context) (Does-pure watch context tt) (λ raw f.
          Does-then watch (parsed-does _) (λ id.
            Does-then watch
              (counts.archive_markdown write e id _ _ i stage name markdown purpose role)
              (λ file.
                Does-then watch (probe-does context _ _ _ _ _) (λ u. Does-pure watch _ tt)))))

  pub record_context_marker-does :
      (context : SolveProblemContext) (i : ℕ) (actor message channel : String)
      → Does watch 0 Any (record_context_marker service task context i actor message channel)
  unfolding record_context_marker
  record_context_marker-does context i actor message channel =
      Does-then watch (probe-does context _ _ _ _ _) (λ u. Does-pure watch context tt)

  pub guarded-does :
      {A : Type 0} {k : ℕ} (context : SolveProblemContext) (i : ℕ) (event actor : String)
      (details : Fields) (first : Run W A)
      → Does watch k Any first
      → Does watch k Any (guarded service task context i event actor details first)
  unfolding guarded
  guarded-does {k} context i event actor details first d =
      Does-weaken watch
        (Does-attempt watch watch (λ w. refl) d
          (λ e h. Does-then watch (probe-does context _ _ _ _ _) (λ u. Does-raise watch e h)))
        (omega arith) (λ a h. h)
