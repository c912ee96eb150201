-- ===== src/Dag/Samples.antt =====
-- A table of two questions and a paper, with the runs of its validation and of its order.
use mm_harness.Prelude.{
  ℕ, ◌<◌, ◌≤◌, String, Bool, true, false, List, [], ◌∷◌, contains, count, distinct, length, ◌==◌,
  nat_eq, string_eq, if◌then◌else◌, ◌≡◌, refl, sym, subst, arith, eq_iff, Bool-cases, inl, inr,
}
use mm_harness.Errors.{ok}
use mm_harness.Json.{end}
use mm_harness.Dag.{
  DagTaskNode, DagTaskTable, DagTaskKind, solve_problem, publish_latex, ids, before, insert, sort,
  initial_degrees, repeats, children, release, release_all, advance, while_ready, start, final,
  topological_order, reach, reachable_from_roots, subset, check_dependencies, check_terminal,
  is_last, validate,
}
use mm_harness.Dag.Counting.{deps_of}
use mm_harness.Dag.Rounds.{ready-final}
use mm_harness.Dag.Order.{IsOrdered, topological_order_sound, topological_order_complete}
use mm_harness.Dag.Validity.{validate_sound}

abbrev pub node : String → DagTaskKind → List String → Bool → DagTaskNode
node id kind depends_on terminal = record {
  id = id;
  title = id;
  kind = kind;
  depends_on = depends_on;
  dependency_outputs = [];
  required_capabilities = [];
  output_contract = "artifact";
  terminal = terminal;
  metadata = end;
}

abbrev pub first_question : DagTaskNode
first_question = node "q1" solve_problem [] false

abbrev pub second_question : DagTaskNode
second_question = node "q2" solve_problem ("q1" ∷ []) false

abbrev pub paper : DagTaskNode
paper = node "publish-paper" publish_latex ("q1" ∷ "q2" ∷ []) true

-- the paper stands first in the table, and last in its order
abbrev pub nodes : List DagTaskNode
nodes = paper ∷ second_question ∷ first_question ∷ []

abbrev pub table : DagTaskTable
table = record { tasks = nodes; terminal_task_id = "publish-paper" }

abbrev sorted : List String
sorted = "q1" ∷ "q2" ∷ "publish-paper" ∷ []

final_order : topological_order nodes ≡ ok sorted
unfolding topological_order final while_ready advance release_all release start initial_degrees sort
    insert before children repeats
final_order = refl

pub table_valid : validate table ≡ ok table
unfolding validate check_dependencies check_terminal topological_order final while_ready advance
    release_all release start initial_degrees sort insert before children repeats reach
    reachable_from_roots
table_valid = refl

rank : String → ℕ
rank id = if id == "publish-paper" then 2 else if id == "q2" then 1 else 0

nodes-known : (id : String) → subset (deps_of id nodes) (ids nodes) ≡ true
nodes-known id = ground (arith, eq_iff "publish-paper" id, eq_iff "q2" id, eq_iff "q1" id)

second-ranked : (d : String) → contains d ("q1" ∷ []) ≡ true → rank d < rank "q2"
unfolding rank
second-ranked d h =
    subst (λ x. rank x < 1) (sym ((eq_iff d "q1").0 (ground (arith, h)))) (omega arith)

paper-ranked : (d : String) → contains d ("q1" ∷ "q2" ∷ []) ≡ true → rank d < rank "publish-paper"
unfolding rank
paper-ranked d h = elim (Bool-cases (d == "q1")) [
  | inl e ↦ subst (λ x. rank x < 2) (sym ((eq_iff d "q1").0 e)) (omega arith)
  | inr e ↦ subst (λ x. rank x < 2) (sym ((eq_iff d "q2").0 (ground (arith, e, h)))) (omega arith)
]

nodes-ranked : (id d : String) → contains d (deps_of id nodes) ≡ true → rank d < rank id
nodes-ranked id d h = elim (Bool-cases ("publish-paper" == id)) [
  | inl e ↦
      subst (λ x. rank d < rank x) ((eq_iff "publish-paper" id).0 e)
        (paper-ranked d (ground (arith, e, h)))
  | inr e ↦ elim (Bool-cases ("q2" == id)) [
    | inl f ↦
        subst (λ x. rank d < rank x) ((eq_iff "q2" id).0 f)
          (second-ranked d (ground (arith, e, f, h)))
    | inr f ↦ absurd (ground (arith, e, f, h, eq_iff "q1" id))
  ]
]

ready-final_example : (final nodes).ready ≡ []
ready-final_example = ready-final nodes refl

topological_order_sound_example :
    ((id : String) → count id sorted ≡ count id (ids nodes)) × IsOrdered nodes [] sorted
topological_order_sound_example = topological_order_sound nodes refl sorted final_order

topological_order_complete_example : (order : List String) × (topological_order nodes ≡ ok order)
topological_order_complete_example =
    topological_order_complete nodes refl rank nodes-known nodes-ranked

validate_sound_example :
    (table ≡ table)
    × (length nodes ≤ 100)
    × (distinct (ids nodes) ≡ true)
    × ((id : String)
        → (subset (deps_of id nodes) (ids nodes) ≡ true) × (contains id (deps_of id nodes) ≡ false))
    × ((order : List String) × (topological_order nodes ≡ ok order)
        × ((id : String) → count id order ≡ count id (ids nodes))
        × IsOrdered nodes [] order
        × (is_last "publish-paper" order ≡ true))
validate_sound_example = validate_sound table table table_valid
