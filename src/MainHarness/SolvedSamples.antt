-- ===== src/MainHarness/SolvedSamples.antt =====
-- The first question of a run, dispatched to a solve service.
use mm_harness.Prelude.{true, none, ◌≡◌, refl, all, text_length, is_blank, is_space, begins, nat_eq}
use mm_harness.Errors.{Result, ok, err}
use mm_harness.Json.{get, without, put}
use mm_harness.Capability.{resolve, resolve_all, resolve_one}
use mm_harness.Capability
use mm_harness.MainHarness.{
  MainHarnessState, replace_task, unlock_one, unlock_all, in_dag_order, unlock_dependents,
  all_completed, initial_tasks, initial_state,
}
use mm_harness.MainHarness.Repository.{commit, save_row, update_rows}
use mm_harness.MainHarness.Task.{task_of}
use mm_harness.MainHarness.Dispatch.{attach_files, admit, settle, give_up, conclude, dispatch}
use mm_harness.MainHarness.Context.{context_for_dispatch, project_all, identified_context}
use mm_harness.MainHarness.Samples.{fresh, services}
use mm_harness.MainHarness.Solved.{is_settled, dispatch-settles}
use mm_harness.Store.Evidence.{unique}
use mm_harness.Solve.Ports.{continue_with, handled, provided}
use mm_harness.Solve.{
  publish, record_probe, probe, control_checkpoint, archive, record_context_marker, prepare_context,
  guarded,
}
use mm_harness.Solve.Model.{
  go_on, explore_routes, summarized, formulated, form_preliminary, choose_route, model_first,
  write_contract, hand_over,
}
use mm_harness.Solve.Code.{
  redirected, hand_back, execute_code, hand_review, review_code, unified, unify_models, compose,
  disclose_requested,
}
use mm_harness.Solve.Rounds.{
  concluded, finish, revise_code, repair, round, rounds, solve_rounds, solve,
}
use mm_harness.Solve.Start.{has_binary_source, start, research}
use mm_harness.Solve.Tool.{solve_problem, with_solver}
use mm_harness.Solve.Samples.{service}

abbrev outcome : Result MainHarnessState
outcome = (dispatch (with_solver service 0 services) 110 fresh "q1" 3 none).0

abbrev state_of : Result MainHarnessState → MainHarnessState
state_of (ok s) = s
state_of (err e) = fresh

first_solved : outcome ≡ ok (state_of outcome)
unfolding dispatch context_for_dispatch project_all admit settle give_up conclude commit save_row
    update_rows initial_state initial_tasks attach_files replace_task unlock_dependents unlock_all
    unlock_one in_dag_order all_completed resolve resolve_all resolve_one Capability.get
    Capability.put task_of is_blank is_space text_length begins identified_context put solve_problem
    solve solve_rounds research start rounds concluded round repair finish revise_code hand_over
    execute_code hand_back review_code hand_review redirected unify_models unified compose
    disclose_requested model_first explore_routes choose_route form_preliminary formulated
    summarized go_on write_contract archive guarded probe control_checkpoint record_context_marker
    provided continue_with handled prepare_context has_binary_source unique get without publish
    record_probe
first_solved = refl

fresh-settled : all is_settled fresh.reports ≡ true
unfolding initial_state
fresh-settled = refl

dispatch-settles_example : all is_settled (state_of outcome).reports ≡ true
dispatch-settles_example =
    dispatch-settles service 0 services 110 fresh (state_of outcome) "q1" 3 none fresh-settled
      first_solved
