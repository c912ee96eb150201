-- ===== src/MainHarness/Disclosure.antt =====
-- application/main_harness.py: what `_context_for_dispatch` is made from, that is the records of a context, the
-- reports and files of a dependency, `node_dependency_outputs` and `_merge_readonly_files`. The path of a stored file is
-- a normalized relative one, which `ReadOnlyFileReference` keeps as it is.
use mm_harness.Prelude.{
  ℕ, suc, ◌+◌, String, Bool, true, false, not, ◌&&◌, ◌||◌, Option, none, some, List, [], ◌∷◌, ◌++◌,
  map, contains, codes, occurs, ◌==◌, nat_eq, string_eq, if◌then◌else◌,
}
use mm_harness.Errors.{Result, ok, err, key_error}
use mm_harness.Json.{Json, Items, Fields, string, object, nil, item, end, get, put}
use mm_harness.Dag.{DagTaskTable, node_of}
use mm_harness.Reports.{
  ReadOnlyFileRole, dependency_solution, is_solve_file, ReportFileRecord, ReadOnlyFileReference,
  ReportPayload, SolveProblemReport, SolveProblemStatus,
}

pub record DependencySolutionContext : Type 0 where
  pub task_id : String
  pub report_id : ℕ
  pub title : String
  pub summary : String
  pub claims : List String
  pub limitations : List String
  pub downstream_outputs : Fields
  pub solution_report_path : Option String
  pub solve_files : List ReadOnlyFileReference
  pub estimated_tokens : ℕ

pub record DisclosedTextFile : Type 0 where
  pub relative_path : String
  pub purpose : String
  pub content : String
  pub sha256 : String
  pub truncated : Bool

pub record SolveProblemContext : Type 0 where
  pub source_artifact_ids : List String
  pub multimodal_inputs : List Json
  pub dependency_report_ids : List ℕ
  pub accepted_report_ids : List ℕ
  pub dependency_solutions : List DependencySolutionContext
  pub readonly_files : List ReadOnlyFileReference
  pub disclosed_text_files : List DisclosedTextFile
  pub instructions : List String
  pub research_report : Option Json
  pub context_budget_tokens : ℕ
  pub compression : Fields
  pub metadata : Fields

-- SolveProblemContext()
abbrev pub no_context : SolveProblemContext
no_context = record {
  source_artifact_ids = [];
  multimodal_inputs = [];
  dependency_report_ids = [];
  accepted_report_ids = [];
  dependency_solutions = [];
  readonly_files = [];
  disclosed_text_files = [];
  instructions = [];
  research_report = none;
  context_budget_tokens = 32_000;
  compression = end;
  metadata = end;
}

-- supplied or SolveProblemContext()
abbrev pub supplied_or_none : Option SolveProblemContext → SolveProblemContext
supplied_or_none none = no_context
supplied_or_none (some c) = c

-- zip(state.report_ids, state.reports)
abbrev pub zip : List ℕ → List SolveProblemReport → List (ℕ × SolveProblemReport)
zip [] rs = []
zip (i ∷ is) [] = []
zip (i ∷ is) (r ∷ rs) = (i, r) ∷ zip is rs

abbrev pub is_completed_report : SolveProblemReport → Bool
is_completed_report r = elim r.status [ SolveProblemStatus.completed ↦ true | _ ↦ false ]

-- the first loop, on `dependency_ids` and `accepted_ids`
unfoldable pub collect_ids :
    List String → List (ℕ × SolveProblemReport) → List ℕ × List ℕ → List ℕ × List ℕ
collect_ids dependencies [] ids = ids
collect_ids dependencies ((report_id, report) ∷ pairs) (dependency_ids, accepted_ids) =
    collect_ids dependencies pairs (
      if contains report.task_id dependencies && not (contains report_id dependency_ids)
      then (
        dependency_ids ++ report_id ∷ [],
        if is_completed_report report && not (contains report_id accepted_ids)
            then accepted_ids ++ report_id ∷ []
            else accepted_ids,
      )
      else (dependency_ids, accepted_ids))

-- the report of a dependency, and its payload, where the pairs are read from the last one
unfoldable pub match_of :
    String → List (ℕ × SolveProblemReport) → Option (ℕ × (SolveProblemReport × ReportPayload))
match_of dependency [] = none
match_of dependency ((report_id, report) ∷ pairs) =
    let earlier = match_of dependency pairs in
    if report.task_id == dependency && is_completed_report report
    then elim report.final_report [ none ↦ earlier | some p ↦ some (report_id, (report, p)) ]
    else earlier

-- relative_path.replace("\\", "/")
abbrev pub slashes : List ℕ → List ℕ
slashes cs = map (λ c. if c == 92 then 47 else c) cs

abbrev pub is_solution : ReadOnlyFileRole → Bool
is_solution dependency_solution = true
is_solution _ = false

-- the test on `state.report_files`
abbrev pub is_iteration : SolveProblemReport → Option ℕ → Bool
is_iteration report none = false
is_iteration report (some n) = n == report.iteration_count

unfoldable pub is_disclosed : String → ℕ → SolveProblemReport → ReportFileRecord → Bool
is_disclosed dependency attempts report f =
    f.task_id == dependency
    && (f.attempt == attempts
        && ((is_solution f.role
              || (is_iteration report f.iteration
                  || occurs (codes "/exchanges/") (slashes (codes f.relative_path))))
            && is_solve_file f.role))

-- node_dependency_outputs
unfoldable pub outputs_of : String → List (String × List String) → List String
outputs_of dependency [] = []
outputs_of dependency ((d, keys) ∷ rest) =
    let later = outputs_of dependency rest in if d == dependency then keys else later

unfoldable pub node_dependency_outputs : DagTaskTable → String → String → Result (List String)
unfolding outputs_of
node_dependency_outputs dag task_id dependency = elim (node_of task_id dag.tasks) [
  | none ↦ err key_error
  | some node ↦ ok (outputs_of dependency node.dependency_outputs)
]

-- {key: downstream[key] for key in requested_keys if key in downstream}
unfoldable pub pick : List String → Fields → Fields → Fields
unfolding get put
pick [] from picked = picked
pick (key ∷ keys) from picked =
    pick keys from (elim (get key from) [ none ↦ picked | some value ↦ put key value picked ])

abbrev pub value_or : Json → Option Json → Json
value_or default none = default
value_or default (some j) = j

abbrev pub requested_of : List String → Json → Json
requested_of (key ∷ keys) (object fields) = object (pick (key ∷ keys) fields end)
requested_of keys j = j

-- structured.get("downstream_outputs", structured), with the requested keys only
unfoldable pub downstream_of : List String → Fields → Json
unfolding get pick
downstream_of requested structured =
    requested_of requested (value_or (object structured) (get "downstream_outputs" structured))

abbrev pub fields_or_none : Json → Fields
fields_or_none (object fields) = fields
fields_or_none _ = end

abbrev pub first_of {ℓ} : {A : Type ℓ} → ℕ → List A → List A
first_of n [] = []
first_of ℕ.zero (x ∷ xs) = []
first_of (suc n) (x ∷ xs) = x ∷ first_of n xs

-- items[n:], so items[-10:] for n = len(items) - 10, which stops at 0
abbrev pub after {ℓ} : {A : Type ℓ} → ℕ → List A → List A
after n [] = []
after ℕ.zero (x ∷ xs) = x ∷ xs
after (suc n) (x ∷ xs) = after n xs

-- _merge_readonly_files: the place of a path is that of its first file, the value that of its last
unfoldable pub put_file :
    ReadOnlyFileReference → List ReadOnlyFileReference → List ReadOnlyFileReference
put_file f [] = f ∷ []
put_file f (g ∷ gs) =
    let later = put_file f gs in if g.relative_path == f.relative_path then f ∷ gs else g ∷ later

unfoldable pub merge_files :
    List ReadOnlyFileReference → List ReadOnlyFileReference → List ReadOnlyFileReference
unfolding put_file
merge_files merged [] = merged
merge_files merged (f ∷ fs) = merge_files (put_file f merged) fs

-- file for solution in dependency_solutions for file in solution.solve_files
abbrev pub solution_files : List DependencySolutionContext → List ReadOnlyFileReference
solution_files [] = []
solution_files (s ∷ ss) = s.solve_files ++ solution_files ss

-- the research report of the task's last report, where none is supplied
unfoldable pub research_of : String → List SolveProblemReport → Option Json
research_of task_id [] = none
research_of task_id (report ∷ earlier) =
    let rest = research_of task_id earlier in
    if report.task_id == task_id then report.research_report else rest

abbrev pub texts_json : List String → Items
texts_json [] = nil
texts_json (t ∷ ts) = item (string t) (texts_json ts)

abbrev pub total_tokens : List DependencySolutionContext → ℕ
total_tokens [] = 0
total_tokens (s ∷ ss) = s.estimated_tokens + total_tokens ss
