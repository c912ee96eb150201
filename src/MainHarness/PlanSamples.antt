-- ===== src/MainHarness/PlanSamples.antt =====
-- The sample run under a new plan, and its publication.
use mm_harness.Prelude.{
  String, Bool, true, false, ◌&&◌, none, some, [], ◌∷◌, all, ◌==◌, nat_eq, string_eq, ◌≡◌, refl,
  is_blank, is_space, ends_with, begins,
}
use mm_harness.Errors.{ok}
use mm_harness.Json.{end}
use mm_harness.Dag.{DagTaskNode, DagTaskTable, sort, insert, before}
use mm_harness.Dag.Samples.{table, paper, first_question, second_question}
use mm_harness.Reports.{ReportPayload, ProducedArtifact, final_latex_paper, is_latex_kind}
use mm_harness.Publication.{
  validate_publication_artifacts, find_latex_artifact, is_latex_artifact, latex_source_valid,
}
use mm_harness.MainHarness.{
  MainHarnessState, completed, ready, blocked, is_completed, record_of, all_completed,
  initial_state,
}
use mm_harness.MainHarness.Statuses.{completed_at}
use mm_harness.MainHarness.Repository.{commit}
use mm_harness.MainHarness.Publish.{terminal_node, unfinished, complete_terminal, publish}
use mm_harness.MainHarness.Replan.{kept, replanned_tasks, changed_ids, replan}
use mm_harness.MainHarness.Publish.Gate.{publish_complete}
use mm_harness.MainHarness.Replan.Keeping.{replan-records, replan-stale}
use mm_harness.MainHarness.Samples.{tables, rec, first_solved}

-- the second question is replaced; the first is kept
abbrev same_node : DagTaskNode → DagTaskNode → Bool
same_node a b = a.title == b.title && a.id == b.id

abbrev second_changed : DagTaskNode
second_changed = record second_question { title = "Question 2 with a budget" }

abbrev second_replaced : DagTaskTable
second_replaced = record table { tasks = paper ∷ second_changed ∷ first_question ∷ [] }

abbrev replanned : MainHarnessState
replanned = record first_solved {
  dag = second_replaced;
  tasks =
      rec "publish-paper" blocked 0 none
      ∷ rec "q2" ready 0 none
      ∷ rec "q1" completed 1 (some 1)
      ∷ [];
  decisions =
      record {
        kind = "replan";
        reason = "a budget";
        affected_task_ids = "q2" ∷ [];
        created_at = 140;
      }
      ∷ [];
  version = 3;
  updated_at = 140;
}

second_replanned :
    (replan same_node 140 first_solved second_replaced "a budget" none).0 ≡ ok replanned
unfolding replan kept replanned_tasks changed_ids sort insert before commit initial_state
second_replanned = refl

replan-records_example : record_of "q1" replanned.tasks ≡ record_of "q1" first_solved.tasks
unfolding initial_state
replan-records_example =
    replan-records same_node 140 first_solved replanned second_replaced "a budget" none refl
      second_replanned "q1" first_question refl

-- both questions are solved, and then the first is replaced
abbrev both_solved : MainHarnessState
both_solved = record first_solved {
  tasks =
      rec "publish-paper" ready 0 none
      ∷ rec "q2" completed 1 (some 2)
      ∷ rec "q1" completed 1 (some 1)
      ∷ [];
}

abbrev first_replaced : DagTaskTable
first_replaced = record table {
  tasks =
      paper ∷ second_question ∷ record first_question { title = "Question 1 in other units" } ∷ [];
}

abbrev first_redone : MainHarnessState
first_redone = record both_solved {
  dag = first_replaced;
  tasks =
      rec "publish-paper" blocked 0 none
      ∷ rec "q2" completed 1 (some 2)
      ∷ rec "q1" ready 0 none
      ∷ [];
  decisions =
      record {
        kind = "replan";
        reason = "other units";
        affected_task_ids = "q1" ∷ [];
        created_at = 150;
      }
      ∷ [];
  version = 3;
  updated_at = 150;
}

first_replanned :
    (replan same_node 150 both_solved first_replaced "other units" none).0 ≡ ok first_redone
unfolding replan kept replanned_tasks changed_ids sort insert before commit initial_state
first_replanned = refl

replan-stale_example :
    (completed_at first_redone.tasks "q2" ≡ true) × (completed_at first_redone.tasks "q1" ≡ false)
unfolding initial_state
replan-stale_example =
    replan-stale same_node 150 both_solved first_redone first_replaced "other units" none refl
      first_replanned "q2" "q1" second_question
      (record first_question { title = "Question 1 in other units" }) refl refl refl refl refl

-- the paper is published
abbrev latex : String
latex =
    "\\documentclass{article}\\title{Yield}\\begin{document}\\begin{abstract}A.\\end{abstract}\\section{One}B.\\end{document}"

abbrev latex_paper : ProducedArtifact
latex_paper = record {
  logical_name = "paper.tex";
  kind = final_latex_paper;
  media_type = "text/x-tex";
  text = some latex;
  base64 = none;
  metadata = end;
}

abbrev final : ReportPayload
final = record {
  title = "Yield";
  markdown = "# Yield";
  summary = "";
  claims = [];
  limitations = [];
  structured = end;
  solution_report_path = none;
  solve_files = [];
}

abbrev published_state : MainHarnessState
published_state = record both_solved {
  tasks =
      rec "publish-paper" completed 0 none
      ∷ rec "q2" completed 1 (some 2)
      ∷ rec "q1" completed 1 (some 1)
      ∷ [];
  final_report = some final;
  final_latex_paper = some latex_paper;
  terminal = true;
  version = 3;
  updated_at = 160;
}

paper_published :
    (publish tables (λ r p. ok []) 160 both_solved final latex_paper none).0 ≡ ok published_state
unfolding publish terminal_node complete_terminal all_completed commit initial_state
    validate_publication_artifacts find_latex_artifact is_latex_artifact latex_source_valid is_blank
    is_space begins ends_with
paper_published = refl

publish_complete_example :
    (is_latex_kind latex_paper.kind ≡ true)
    × (validate_publication_artifacts tables (latex_paper ∷ []) ≡ ok tt)
    × (unfinished "publish-paper" both_solved.tasks ≡ false)
    × (all (λ t. is_completed t.status) published_state.tasks ≡ true)
    × (published_state.terminal ≡ true)
    × (published_state.version ≡ 3)
    × (published_state.final_report ≡ some final)
    × (published_state.final_latex_paper ≡ some latex_paper)
unfolding initial_state
publish_complete_example =
    publish_complete tables (λ r p. ok []) 160 both_solved final latex_paper none published_state
      paper_published
