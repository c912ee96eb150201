-- ===== src/Workflow/Evidence.antt =====
-- What an approval has to show.
use mm_harness.Prelude.{
  String, Bool, true, false, not, ◌&&◌, ◌||◌, Option, none, some, List, [], ◌∷◌, all, find, select,
  ◌==◌, nat_eq, string_eq, ◌≡◌, refl, arith, Bool-cases, eq_iff, All, Option-cases, inl, inr,
}
use mathlib.Core.List.{reverse, Memᴰ}
use mm_harness.Errors.{ok}
use mm_harness.Json.{Json, Fields, get}
use mm_harness.Store.Models.{StageKind, QuestionRecord, ActivityRecord, Database, Library}
use mm_harness.Store.Events.{bind-eq-ok}
use mm_harness.Workflow.{
  ModelingStageOutput, CodingStageOutput, StageOutput, ActivityResponse, Settings, list_activities,
  has_succeeded, result_of, is_value, is_validated, output_error, response_error,
  approval_evidence_error,
}

-- A model was committed for the question, in the first modeling activity that succeeded. The coding output of the
-- question's current revision was committed, in the last one; it was executed with success, passes every validation that
-- this model asks for, and was not executed remotely, nor by Qwen outside the local sandbox.
pub record IsBacked (lib : Library) (settings : Settings) (question : QuestionRecord)
    (db : Database) : Type 0 where
  pub model : ModelingStageOutput
  pub code : CodingStageOutput
  pub model_activity : Option ActivityRecord
  pub model_result : Json
  pub model_response : ActivityResponse
  pub model_committed :
      find (has_succeeded StageKind.modeling) (list_activities lib question.id db) ≡ model_activity
  pub model_stored : result_of model_activity ≡ some model_result
  pub model_read : settings.response_of model_result ≡ ok model_response
  pub modelled : model_response.output ≡ StageOutput.modeling model
  pub activity : Option ActivityRecord
  pub result : Json
  pub response : ActivityResponse
  pub committed :
      find
        (λ a. has_succeeded StageKind.coding a && a.revision == question.revision)
        (reverse (list_activities lib question.id db))
      ≡ activity
  pub stored : result_of activity ≡ some result
  pub read : settings.response_of result ≡ ok response
  pub coded : response.output ≡ StageOutput.coding code
  pub executed : code.execution_succeeded ≡ true
  pub validated : All (λ name. Memᴰ (name, true) code.validations) model.required_validations
  pub local :
      is_value "remote-code-interpreter" (get "execution_backend" response.executor_metadata)
      ≡ false
  pub sandboxed :
      (not (is_value "qwen" (get "provider" response.executor_metadata))
        || is_value "local-sandbox" (get "execution_backend" response.executor_metadata))
      ≡ true

select-none :
    (p : String → Bool) (names : List String)
    → select (λ n. not (p n)) names ≡ []
    → all p names ≡ true
select-none p [] h = refl
select-none p (n ∷ names) h = ground (arith, h, select-none p names)

is_validated-Mem :
    (validations : List (String × Bool)) (name : String)
    → is_validated validations name ≡ true
    → Memᴰ (name, true) validations
unfolding is_validated
is_validated-Mem [] name h = cc
is_validated-Mem ((key, passed) ∷ rest) name h = elim (Bool-cases (key == name)) [
  | inl here ↦
      let same : key ≡ name = (eq_iff key name).0 here in
      let good : passed ≡ true = ground (arith, here, h) in Memᴰ.head (ground (arith, same, good))
  | inr there ↦ Memᴰ.tail (is_validated-Mem rest name (ground (arith, there, h)))
]

all_validated :
    (validations : List (String × Bool)) (names : List String)
    → all (is_validated validations) names ≡ true
    → All (λ name. Memᴰ (name, true) validations) names
all_validated validations [] h = tt
all_validated validations (name ∷ names) h = (
  is_validated-Mem validations name (ground (arith, h)),
  all_validated validations names (ground (arith, h)),
)

output_error-none :
    (model : ModelingStageOutput) (code : CodingStageOutput) (metadata : Fields)
    → output_error model code metadata ≡ none
    → (code.execution_succeeded ≡ true)
      × (all (is_validated code.validations) model.required_validations ≡ true)
      × (is_value "remote-code-interpreter" (get "execution_backend" metadata) ≡ false)
      × ((not (is_value "qwen" (get "provider" metadata))
            || is_value "local-sandbox" (get "execution_backend" metadata))
          ≡ true)
unfolding output_error
output_error-none model code metadata h =
    ground (arith, h, select-none (is_validated code.validations) model.required_validations)

response_error-none :
    (m c : ActivityResponse)
    → response_error m c ≡ none
    → (model : ModelingStageOutput) × (code : CodingStageOutput) × (m.output
        ≡ StageOutput.modeling model)
      × (c.output ≡ StageOutput.coding code)
      × (output_error model code c.executor_metadata ≡ none)
unfolding response_error
response_error-none m c h = go m.output c.output refl refl h
  where
    go :
        (x y : StageOutput)
        → m.output ≡ x
        → c.output ≡ y
        → elim x as (λ o. Option String) [
          | StageOutput.modeling model ↦ elim y as (λ o. Option String) [
            | StageOutput.coding code ↦ output_error model code c.executor_metadata
            | _ ↦ some "review approval references incompatible evidence stages"
          ]
          | _ ↦ some "review approval references incompatible evidence stages"
        ]
          ≡ none
        → (model : ModelingStageOutput) × (code : CodingStageOutput) × (m.output
            ≡ StageOutput.modeling model)
          × (c.output ≡ StageOutput.coding code)
          × (output_error model code c.executor_metadata ≡ none)
    go (StageOutput.modeling model) (StageOutput.coding code) k e h = (model, code, k, e, h)
    go (StageOutput.modeling model) (StageOutput.modeling o) k e h = absurd (ground (arith, h))
    go (StageOutput.modeling model) (StageOutput.review o) k e h = absurd (ground (arith, h))
    go (StageOutput.modeling model) (StageOutput.finalize o) k e h = absurd (ground (arith, h))
    go (StageOutput.coding o) y k e h = absurd (ground (arith, h))
    go (StageOutput.review o) y k e h = absurd (ground (arith, h))
    go (StageOutput.finalize o) y k e h = absurd (ground (arith, h))

pub approval_evidence_error-none :
    (lib : Library) (settings : Settings) (question : QuestionRecord) (db : Database)
    → approval_evidence_error lib settings question db ≡ ok none
    → IsBacked lib settings question db
unfolding approval_evidence_error
approval_evidence_error-none lib settings question db h =
    let activities = list_activities lib question.id db in
    let chosen =
      find (λ a. has_succeeded StageKind.coding a && a.revision == question.revision)
        (reverse activities) in
    elim (Option-cases (result_of (find (has_succeeded StageKind.modeling) activities))) [
      | inl e ↦ absurd (ground (arith, e, h))
      | inr (m, e) ↦ elim (Option-cases (result_of chosen)) [
        | inl f ↦ absurd (ground (arith, e, f, h))
        | inr (c, f) ↦
            let (model_response, read_model, h1) =
              bind-eq-ok _ _ (rw (e, f, approval_evidence_error) at h) in
            let (response, read, h2) = bind-eq-ok _ _ h1 in
            let (model, code, modelled, coded, clean) =
              response_error-none model_response response (ground (arith, h2)) in
            let (executed, validated, here, sandboxed) =
              output_error-none model code response.executor_metadata clean in
            record {
              model = model;
              code = code;
              model_activity =
                  find (has_succeeded StageKind.modeling) (list_activities lib question.id db);
              model_result = m;
              model_response = model_response;
              model_committed = refl;
              model_stored = e;
              model_read = read_model;
              modelled = modelled;
              activity = chosen;
              result = c;
              response = response;
              committed = refl;
              stored = f;
              read = read;
              coded = coded;
              executed = executed;
              validated = all_validated code.validations model.required_validations validated;
              local = here;
              sandboxed = sandboxed;
            }
      ]
    ]
