-- ===== src/Solve/Tool.antt =====
-- application/local_tools.py: `_solve_problem`, the handler of the tool that the Main Harness dispatches. Its arguments are
-- those of a `SolveCall`, as Pydantic reads them back.
use mm_harness.Prelude.{min, ◌||◌, some, ltb, take_text, if◌then◌else◌}
use mm_harness.Errors.{value_error}
use mm_harness.Reports.{SolveProblemReport}
use mm_harness.MainHarness.Task.{SolveCall}
use mm_harness.MainHarness.Dispatch.{Services, ToolAnswer, refused, answered}
use mm_harness.Solve.Ports.{error, text_of, Outcome, returned, raised, Run, raise, Service}
use mm_harness.Solve.Rounds.{solve}

-- a call may lower the configured bound, and not raise it
unfoldable pub solve_problem : {W : Type 0} → Service W → SolveCall → Run W SolveProblemReport
solve_problem service call =
    if ltb call.max_iterations 1 || ltb 20 call.max_iterations
    then raise (error value_error "max_iterations must be between 1 and 20")
    else solve (record service { max_iterations = min call.max_iterations service.max_iterations })
        call.task (some call.context)

-- what `ToolRuntime.execute` makes of the handler's end, for `dispatch`
abbrev pub tool_answer : Outcome SolveProblemReport → ToolAnswer
tool_answer (returned report) = answered report
tool_answer (raised e) = refused (some (take_text 2_000 (text_of e)))

-- the services of a harness whose tool is the solve service, in a world `w`
abbrev pub with_solver : {W : Type 0} → Service W → W → Services → Services
with_solver service w services = record services {
  execute = λ call. tool_answer (solve_problem service call w).0;
}
