-- ===== src/Dag/Canonical.antt =====
-- domain/dag.py: the two builders of canonical graphs, and that the validator accepts what they build.
use Prim.Native.String.{◌++◌ as concat}
use mm_harness.Prelude.{
  ℕ, suc, zero, ◌+◌, ◌-◌, String, Bool, true, false, not, ◌&&◌, ◌||◌, Option, none, some, List, [],
  ◌∷◌, ◌++◌, ltb, ◌==◌, nat_eq, string_eq, if◌then◌else◌, ◌≡◌, ◌≤◌, refl, arith, is_blank, strip,
}
use mm_harness.Errors.{Result, ok, raise_if, value_error, ◌>>◌}
use mm_harness.Json.{Fields, end, field, string, integer, pos}
use mm_harness.Dag.{
  DagTaskNode, DagTaskTable, DagTaskKind, ingest, model, code, review, solve_problem, publish_latex,
  before, insert, sort, initial_degrees, repeats, children, release, release_all, advance,
  while_ready, start, final, topological_order, reach, reachable_from_roots, check_dependencies,
  check_terminal, validate,
}

-- DAGTaskNode(...), with the fields that the builders leave out
abbrev pub build :
    String → String → DagTaskKind → List String → String → List String → Bool → Fields → DagTaskNode
build id title kind depends_on output_contract capabilities terminal metadata = record {
  id = id;
  title = title;
  kind = kind;
  depends_on = depends_on;
  dependency_outputs = [];
  required_capabilities = capabilities;
  output_contract = output_contract;
  terminal = terminal;
  metadata = metadata;
}

-- DAGTaskTable(...), whose validator runs
abbrev build_table : List DagTaskNode → Result DagTaskTable
build_table tasks = validate (record { tasks = tasks; terminal_task_id = "publish-paper" })

abbrev stages : List DagTaskNode
stages =
    build "ingest" "Multimodal intake" ingest [] "problem_brief"
      ("document.read" ∷ "image.inspect" ∷ "artifact.read" ∷ []) false end
    ∷ build "model" "Model formulation" model ("ingest" ∷ []) "modeling_report"
        ("modeling.formulate" ∷ []) false end
    ∷ build "code" "Local implementation and execution" code ("model" ∷ []) "coding_evidence"
        ("python.execute" ∷ "artifact.write" ∷ []) false
        (field "revision_policy" (string "review_may_return_to_code") end)
    ∷ build "review" "Independent evidence review" review ("code" ∷ []) "review_verdict"
        ("report.review" ∷ []) false end
    ∷ build "publish-paper" "Final report and LaTeX paper" publish_latex ("review" ∷ [])
        "final_question_report+final_latex_paper" ("report.finalize" ∷ "report.publish" ∷ []) true
        end
    ∷ []

pub canonical_single_question_dag : Result DagTaskTable
canonical_single_question_dag = build_table stages

-- str(index), for the numbers of questions
abbrev pub numeral : ℕ → String
numeral n =
    if n == 1
    then "1"
    else if n == 2
    then "2"
    else if n == 3
    then "3"
    else if n == 4
    then "4"
    else ""

-- d.get(key, default)
abbrev or_else : Option String → Option String → Option String
or_else none default = default
or_else (some p) default = some p

-- `task_problem`, `task_problems` as its `get`
module _ (task_problem : Option String) (task_problems : String → Option String) where
  -- the metadata of a node, by key in the order of the dictionary
  pub node_metadata : ℕ → String → String → ℕ → Fields
  node_metadata question_count scope node_id index =
      let node_scope =
        if question_count == 1 then strip scope else concat "question-" (numeral index) in
      let scoped_problem = or_else (task_problems node_id) task_problem in
      field "scope" (string node_scope) (
        field "todo"
          (string (
            concat (concat "Solve only " node_scope)
              " and return its reviewed solve_problem_report."))
          (field "question_number" (integer (pos index)) (
            field "exploration_mode" (string "auto") (
              field "difficulty" (integer (pos 1)) (elim scoped_problem [
                | none ↦ end
                | some p ↦
                    field "problem"
                      (string (
                        if question_count == 1
                        then p
                        else concat (concat (concat p "\n\nSCOPE LOCK: analyze only ") node_scope)
                            "; do not solve or summarize any other numbered question."))
                      end
              ])))))

  -- the nodes from `index` on, `left` of them
  pub solve_nodes : String → ℕ → String → ℕ → ℕ → List DagTaskNode
  unfolding node_metadata
  solve_nodes task_id question_count scope index zero = []
  solve_nodes task_id question_count scope index (suc left) =
      let node_id = if question_count == 1 then task_id else concat "q" (numeral index) in
      build node_id
        (if question_count == 1 then "解决问题" else concat (concat "解决第 " (numeral index)) " 问")
        solve_problem (if index == 1 then [] else concat "q" (numeral (index - 1)) ∷ [])
        "solve_problem_report" ("problem.solve" ∷ []) false
        (node_metadata question_count scope node_id index)
      ∷ solve_nodes task_id question_count scope (index + 1) left

  -- solve_nodes[-1].id
  abbrev pub last_id : String → ℕ → String
  last_id task_id question_count =
      if question_count == 1 then task_id else concat "q" (numeral question_count)

  -- the questions' nodes and the paper's, last
  abbrev pub main_nodes : String → String → ℕ → List DagTaskNode
  main_nodes task_id scope question_count =
      solve_nodes task_id question_count scope 1 question_count
      ++ build "publish-paper" "汇总最终报告与 LaTeX 论文" publish_latex
          (last_id task_id question_count ∷ []) "final_question_report+final_latex_paper"
          ("report.finalize" ∷ "report.publish" ∷ []) true end
        ∷ []

  pub canonical_main_harness_dag : String → String → ℕ → Result DagTaskTable
  unfolding solve_nodes
  canonical_main_harness_dag task_id scope question_count = do
    raise_if (task_id == "") value_error
    raise_if (is_blank scope) value_error
    raise_if (ltb question_count 1 || ltb 4 question_count) value_error
    raise_if (ltb 1 question_count && not (task_id == "q1")) value_error
    raise_if (elim task_problem [ none ↦ false | some p ↦ is_blank p ]) value_error
    build_table (main_nodes task_id scope question_count)

-- The graph of stages is one that the validator accepts, and its order is that of the stages.
canonical_single_question_dag_valid :
    (table : DagTaskTable) × (canonical_single_question_dag ≡ ok table)
    × (topological_order table.tasks
        ≡ ok ("ingest" ∷ "model" ∷ "code" ∷ "review" ∷ "publish-paper" ∷ []))
unfolding canonical_single_question_dag solve_nodes validate check_dependencies check_terminal
    topological_order final while_ready advance release_all release start initial_degrees sort
    insert before children repeats reach reachable_from_roots
canonical_single_question_dag_valid =
    (record { tasks = stages; terminal_task_id = "publish-paper" }, refl, refl)

-- "q1", "q2" and so on, `left` of them from `index`, and then the paper
abbrev pub serial_order : ℕ → ℕ → List String
serial_order index zero = "publish-paper" ∷ []
serial_order index (suc left) = concat "q" (numeral index) ∷ serial_order (index + 1) left

module _ (task_problem : Option String) (task_problems : String → Option String)
    (scope : String) where
  abbrev pub question_table : ℕ → DagTaskTable
  question_table question_count = record {
    tasks = main_nodes task_problem task_problems "q1" scope question_count;
    terminal_task_id = "publish-paper";
  }

  abbrev pub Builds : ℕ → Type 0
  Builds question_count =
      (canonical_main_harness_dag task_problem task_problems "q1" scope question_count
        ≡ ok (question_table question_count))
      × (topological_order (question_table question_count).tasks
          ≡ ok (serial_order 1 question_count))

  module _ (scoped : is_blank scope ≡ false)
      (stated : elim task_problem [ none ↦ false | some p ↦ is_blank p ] ≡ false) where
    one_built : Builds 1
    unfolding canonical_main_harness_dag solve_nodes validate check_dependencies check_terminal
        topological_order final while_ready advance release_all release start initial_degrees sort
        insert before children repeats reach reachable_from_roots
    one_built = rw scoped (rw stated (refl, refl))

    two_built : Builds 2
    unfolding canonical_main_harness_dag solve_nodes validate check_dependencies check_terminal
        topological_order final while_ready advance release_all release start initial_degrees sort
        insert before children repeats reach reachable_from_roots
    two_built = rw scoped (rw stated (refl, refl))

    three_built : Builds 3
    unfolding canonical_main_harness_dag solve_nodes validate check_dependencies check_terminal
        topological_order final while_ready advance release_all release start initial_degrees sort
        insert before children repeats reach reachable_from_roots
    three_built = rw scoped (rw stated (refl, refl))

    four_built : Builds 4
    unfolding canonical_main_harness_dag solve_nodes validate check_dependencies check_terminal
        topological_order final while_ready advance release_all release start initial_degrees sort
        insert before children repeats reach reachable_from_roots
    four_built = rw scoped (rw stated (refl, refl))

    -- For one to four questions, a scope that is not blank and a problem text that is not blank where it
    -- is given, the builder returns a table, so one that its validator accepts; the questions are
    -- ordered by their numbers, and the paper stands last.
    pub canonical_main_harness_dag_valid :
        (question_count : ℕ) → 1 ≤ question_count → question_count ≤ 4 → Builds question_count
    canonical_main_harness_dag_valid zero low high = absurd (omega (arith, low))
    canonical_main_harness_dag_valid (suc zero) low high = one_built
    canonical_main_harness_dag_valid (suc (suc zero)) low high = two_built
    canonical_main_harness_dag_valid (suc (suc (suc zero))) low high = three_built
    canonical_main_harness_dag_valid (suc (suc (suc (suc zero)))) low high = four_built
    canonical_main_harness_dag_valid (suc (suc (suc (suc (suc n))))) low high =
        absurd (omega (arith, high))
