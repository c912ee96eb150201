-- ===== src/Workflow/Steps.antt =====
-- The stages of a question as a machine of its own, and how long it can run.
use mm_harness.Prelude.{ℕ, suc, ◌+◌, ◌-◌, ◌*◌, ◌≤◌, ◌<◌, arith}
use mm_harness.Store.Models.{QuestionState}

-- One step of a question: its state and its revision, before and after.
pub data Step (max_revisions : ℕ) : QuestionState → ℕ → QuestionState → ℕ → Type 0 where
  model : (r : ℕ) → Step max_revisions QuestionState.pending r QuestionState.modeling r
  modelled : (r : ℕ) → Step max_revisions QuestionState.modeling r QuestionState.ready_for_coding r
  code : (r : ℕ) → Step max_revisions QuestionState.ready_for_coding r QuestionState.coding r
  code_again : (r : ℕ) → Step max_revisions QuestionState.revision_required r QuestionState.coding r
  coded : (r : ℕ) → Step max_revisions QuestionState.coding r QuestionState.ready_for_review r
  review : (r : ℕ) → Step max_revisions QuestionState.ready_for_review r QuestionState.reviewing r
  approve : (r : ℕ) → Step max_revisions QuestionState.reviewing r QuestionState.approved r
  reject : (r : ℕ) → Step max_revisions QuestionState.reviewing r QuestionState.failed r
  revise :
      (r : ℕ)
      → r < max_revisions
      → Step max_revisions QuestionState.reviewing r QuestionState.revision_required (suc r)
  finish : (r : ℕ) → Step max_revisions QuestionState.approved r QuestionState.finalizing r
  finished : (r : ℕ) → Step max_revisions QuestionState.finalizing r QuestionState.completed r

-- steps one after another, with their number
pub data Steps (max_revisions : ℕ) : ℕ → QuestionState → ℕ → QuestionState → ℕ → Type 0 where
  none_left : (s : QuestionState) (r : ℕ) → Steps max_revisions 0 s r s r
  then :
      (n : ℕ) (s t u : QuestionState) (r q p : ℕ)
      → Step max_revisions s r t q
      → Steps max_revisions n t q u p
      → Steps max_revisions (suc n) s r u p

-- how many steps a state is from the end, but for its revisions
abbrev pub weight : QuestionState → ℕ
weight QuestionState.pending = 8
weight QuestionState.modeling = 7
weight QuestionState.ready_for_coding = 6
weight QuestionState.revision_required = 6
weight QuestionState.coding = 5
weight QuestionState.ready_for_review = 4
weight QuestionState.reviewing = 3
weight QuestionState.approved = 2
weight QuestionState.finalizing = 1
weight QuestionState.completed = 0
weight QuestionState.failed = 0

abbrev rank : ℕ → QuestionState → ℕ → ℕ
rank max_revisions s r = 4 * (max_revisions - r) + weight s

step-rank :
    (max_revisions : ℕ) (s t : QuestionState) (r q : ℕ)
    → Step max_revisions s r t q
    → suc (rank max_revisions t q) ≤ rank max_revisions s r
step-rank m _ _ _ _ (model r) = omega arith
step-rank m _ _ _ _ (modelled r) = omega arith
step-rank m _ _ _ _ (code r) = omega arith
step-rank m _ _ _ _ (code_again r) = omega arith
step-rank m _ _ _ _ (coded r) = omega arith
step-rank m _ _ _ _ (review r) = omega arith
step-rank m _ _ _ _ (approve r) = omega arith
step-rank m _ _ _ _ (reject r) = omega arith
step-rank m _ _ _ _ (revise r h) = omega (arith, h)
step-rank m _ _ _ _ (finish r) = omega arith
step-rank m _ _ _ _ (finished r) = omega arith

-- A question takes at most eight steps, and four more for each revision that its bound leaves: the machine of the
-- stages always ends.
pub Steps-bounded :
    (max_revisions n : ℕ) (s t : QuestionState) (r q : ℕ)
    → Steps max_revisions n s r t q
    → n ≤ 4 * (max_revisions - r) + 8
Steps-bounded m n s t r q run = omega (arith, below m n s t r q run, weight_le s)
  where
    weight_le : (s : QuestionState) → weight s ≤ 8
    weight_le QuestionState.pending = omega arith
    weight_le QuestionState.modeling = omega arith
    weight_le QuestionState.ready_for_coding = omega arith
    weight_le QuestionState.revision_required = omega arith
    weight_le QuestionState.coding = omega arith
    weight_le QuestionState.ready_for_review = omega arith
    weight_le QuestionState.reviewing = omega arith
    weight_le QuestionState.approved = omega arith
    weight_le QuestionState.finalizing = omega arith
    weight_le QuestionState.completed = omega arith
    weight_le QuestionState.failed = omega arith

    below : (m n : ℕ) (s t : QuestionState) (r q : ℕ) → Steps m n s r t q → n ≤ rank m s r
    below m _ _ _ _ _ (none_left s r) = omega arith
    below m _ _ _ _ _ (then n s t u r q p step rest) =
        omega (arith, step-rank m s t r q step, below m n t u q p rest)
