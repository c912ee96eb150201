-- ===== src/Solve/Start.antt =====
-- application/solve_problem.py: where the rounds of a solve start, and what a resumed solve brings.
use mm_harness.Prelude.{
  ℕ, suc, ◌+◌, max, min, String, Bool, true, false, ◌&&◌, ◌||◌, Option, none, some, List, [], ◌∷◌,
  ◌*◌, not, map, any, codes, begins, leb, ◌==◌, nat_eq, string_eq, if◌then◌else◌,
}
use mathlib.Core.List.{reverse}
use mm_harness.Errors.{value_error}
use mm_harness.Json.{
  Json, null, boolean, integer, string, array, object, pos, Items, nil, item, Fields, get, without,
}
use mm_harness.Reports.{
  ReadOnlyFileReference, problem_file, PreliminaryModelingReport, RevisionTarget, code,
  SolveProblemIteration,
}
use mm_harness.MainHarness.Disclosure.{SolveProblemContext}
use mm_harness.MainHarness.Task.{SolveProblemTask}
use mm_harness.Solve.Ports.{
  error, Run, pure, raise, ◌>>=◌, provided, ModelingContract, unified_contract, Service,
}
use mm_harness.Solve.Model.{is_empty}

pub record LoopState : Type 0 where
  pub context : SolveProblemContext
  pub revision_instructions : List String
  pub revision_target : RevisionTarget
  pub preliminary : List PreliminaryModelingReport
  pub modeling : Option ModelingContract
  pub iterations : List SolveProblemIteration

-- where the loop starts: the first round, the state, and whether the solve is resumed
pub record Start : Type 0 where
  pub first : ℕ
  pub resumed : Bool
  pub state : LoopState

-- text.lower(), on the letters of ASCII: no other character's lower case is a letter of ".pdf"
abbrev pub lower : List ℕ → List ℕ
lower cs = map (λ c. if leb 65 c && leb c 90 then c + 32 else c) cs

abbrev pub is_pdf : ReadOnlyFileReference → Bool
is_pdf f =
    let media_type = lower (codes f.media_type) in
    begins media_type (codes "application/pdf") && begins (codes "application/pdf") media_type
    || begins (codes "fdp.") (reverse (lower (codes f.relative_path)))

abbrev pub is_problem : ReadOnlyFileReference → Bool
is_problem f = elim f.role [ problem_file ↦ true | _ ↦ false ]

-- the test on `multimodal_inputs` and `full_problem_inputs`
unfoldable pub has_binary_source : SolveProblemContext → Bool
unfolding begins
has_binary_source context =
    not (is_empty context.multimodal_inputs)
    || any (λ f. is_problem f && is_pdf f) context.readonly_files

-- metadata.get(key) is not None
abbrev pub given : Option Json → Bool
given none = false
given (some null) = false
given (some _) = true

-- a positive `int`, which `True` is too
abbrev pub positive : Option Json → Option ℕ
positive (some (integer (pos (suc n)))) = some (suc n)
positive (some (boolean true)) = some 1
positive _ = none

abbrev pub fields_of : Option Json → Option Fields
fields_of (some (object fields)) = some fields
fields_of _ = none

abbrev pub items_of : Option Json → Option Items
items_of none = some nil
items_of (some (array items)) = some items
items_of (some _) = none

-- RevisionTarget(raw_target), where "code" is the default
abbrev pub is_target : Option Json → Bool
is_target none = true
is_target (some (string s)) = s == "code" || s == "model" || s == "full"
is_target (some _) = false

abbrev pub refused : {W A : Type 0} → String → Run W A
refused text = raise (error value_error text)

-- `model_validate`, whose error is a ValueError
abbrev pub validated : {W A : Type 0} → Option A → Run W A
validated (some a) = pure a
validated none = refused "validation error"

module _ {W : Type 0} (service : Service W) (task : SolveProblemTask) where
  open service use {max_iterations, research_agent, read_modeling, read_preliminary}

  -- the reports among the items; an item that is no object is left out
  unfoldable pub read_all : Items → Run W (List PreliminaryModelingReport)
  read_all nil = pure []
  read_all (item (object fields) items) = do
    report ← validated (read_preliminary fields)
    reports ← read_all items
    pure (report ∷ reports)
  read_all (item j items) = read_all items

  abbrev pub start_state :
      SolveProblemContext → List PreliminaryModelingReport → Option ModelingContract → LoopState
  start_state context preliminary modeling = record {
    context = context;
    revision_instructions = [];
    revision_target = code;
    preliminary = preliminary;
    modeling = modeling;
    iterations = [];
  }

  -- the rest of a resumed start, with the round and the modeling contract
  unfoldable pub resume : SolveProblemContext → ℕ → Fields → Run W Start
  resume context first modeling = do
    model ← validated (read_modeling modeling)
    items ←
        provided (items_of (get "resume_preliminary" context.metadata))
          (refused "resume_preliminary must be a list of serialized reports") pure
    preliminary ← read_all items
    if is_empty preliminary
        then refused "resume_preliminary cannot be empty"
        else if not (is_target (get "resume_revision_target" context.metadata))
        then refused "not a valid RevisionTarget"
        else pure (record {
          first = first;
          resumed = true;
          state =
              start_state
                (record context {
                  metadata =
                      without
                        ("resume_iteration" ∷ "resume_modeling" ∷ "resume_preliminary"
                          ∷ "resume_revision_target" ∷ [])
                        context.metadata;
                })
                preliminary (some (unified_contract model));
        })

  unfoldable pub start : SolveProblemContext → Run W Start
  start context =
      if not (
        given (get "resume_iteration" context.metadata)
        || given (get "resume_modeling" context.metadata))
      then pure (record { first = 1; resumed = false; state = start_state context [] none })
      else provided (positive (get "resume_iteration" context.metadata))
          (refused "resume_iteration must be a positive integer")
          (λ first.
            provided (fields_of (get "resume_modeling" context.metadata))
              (refused "resume_modeling must contain a serialized UnifiedModelingReport")
              (resume context first))

  -- the report of the research agent, where none is supplied
  unfoldable pub research : SolveProblemContext → Run W SolveProblemContext
  research context = provided research_agent (pure context) (λ search.
      provided context.research_report
        (search task.problem (min 8 (max 3 task.difficulty))
            (min 12 (max 4 (task.max_branches * 2)))
          >>= λ report. pure (record context { research_report = some report }))
        (λ report. pure context))
