-- ===== src/Solve/History.antt =====
-- What the rounds of a solve and its report are like at its end.
use mm_harness.Prelude.{
  ℕ, suc, ◌+◌, ◌≤◌, Bool, true, false, ◌||◌, Option, none, some, List, [], ◌∷◌, ◌++◌, ◌≡◌, refl,
  arith, ◌==◌, nat_eq, ◌⊎◌, inl, inr,
}
use mm_harness.Json.{Json}
use mm_harness.Reports.{
  SolveProblemStatus, ReportPayload, UnifiedModelingReport, code, SolveProblemIteration,
  SolveProblemReport,
}
use mm_harness.Solve.Model.{Progress, done, more}
use mm_harness.Solve.Code.{approves}
use mm_harness.Solve.Start.{LoopState, Start, positive}
use mm_harness.Solve.Steps.Modelling.{IsStopped}

-- the rounds from `i` to before `j`: each asked the Code Agent for a repair, and none has a unified model
abbrev pub Revised : ℕ → List SolveProblemIteration → ℕ → Type 0
Revised i [] j = i ≡ j
Revised i (x ∷ xs) j =
    (x.iteration ≡ i)
    × (approves x.review ≡ false)
    × (x.review.revision_target ≡ code)
    × (x.modeling_report ≡ none)
    × Revised (i + 1) xs j

-- The report of a solve whose review approves, or whose rounds are used up.
pub record IsSolved (first limit : ℕ) (r : SolveProblemReport) : Type 0 where
  pub is_completed : r.status ≡ SolveProblemStatus.completed
  pub reported : (p : ReportPayload) × (r.final_report ≡ some p)
  pub earlier : List SolveProblemIteration
  pub last : SolveProblemIteration
  pub all : r.iterations ≡ earlier ++ last ∷ []
  pub revised : Revised first earlier r.iteration_count
  pub numbered : last.iteration ≡ r.iteration_count
  pub within : r.iteration_count ≤ limit
  pub targeted : last.review.revision_target ≡ code
  pub unified : (u : UnifiedModelingReport) × (last.modeling_report ≡ some u)
  pub closes : (approves last.review ≡ true) ⊎ (r.iteration_count ≡ limit)
  pub delivered : r.artifacts ≡ last.coding_report.artifacts

-- what the loop ends in, from a first round
abbrev pub Ends : ℕ → ℕ → SolveProblemReport → Type 0
Ends first limit r = IsStopped 1 [] r ⊎ IsSolved first limit r

pub Revised-append :
    (i : ℕ) (xs : List SolveProblemIteration) (j : ℕ) (x : SolveProblemIteration)
    → Revised i xs j
    → x.iteration ≡ j
    → approves x.review ≡ false
    → x.review.revision_target ≡ code
    → x.modeling_report ≡ none
    → Revised i (xs ++ x ∷ []) (j + 1)
Revised-append i [] j x h n a t m = (omega arith, a, t, m, omega arith)
Revised-append i (y ∷ ys) j x (n', a', t', m', h) n a t m =
    (n', a', t', m', Revised-append (i + 1) ys j x h n a t m)

-- what the loop keeps: the state before round `i`
pub record IsBefore (first i : ℕ) (state : LoopState) : Type 0 where
  pub revised : Revised first state.iterations i
  pub unmodelled : state.modeling ≡ none → (i ≡ 1) × (state.iterations ≡ [])

-- a round ends the solve, or leads to the next
abbrev pub Rounds : ℕ → ℕ → ℕ → Progress LoopState → Type 0
Rounds first limit i (done r) = Ends first limit r
Rounds first limit i (more state) = (suc i ≤ limit) × IsBefore first (i + 1) state

pub closing : (i limit : ℕ) (b : Bool) → (b || i == limit) ≡ true → (b ≡ true) ⊎ (i ≡ limit)
closing i limit true h = inl refl
closing i limit false h = inr ((nat_eq.beq_iff i limit).0 h)

pub revising :
    (i limit : ℕ) (b : Bool) → i ≤ limit → (b || i == limit) ≡ false → (b ≡ false) × (suc i ≤ limit)
revising i limit b le h = ground (arith, nat_eq.beq_iff i limit)

pub record IsStart (s : Start) : Type 0 where
  pub positive_first : 1 ≤ s.first
  pub before : IsBefore s.first s.first s.state

pub positive_pos : (v : Option Json) {n : ℕ} → positive v ≡ some n → 1 ≤ n
positive_pos v h = ground (arith, h)

pub record IsBlocked (r : SolveProblemReport) : Type 0 where
  pub is_blocked : r.status ≡ SolveProblemStatus.blocked
  pub empty : r.iterations ≡ []
  pub unreported : r.final_report ≡ none

-- the three ends of a solve that returns
abbrev pub IsEnded : ℕ → SolveProblemReport → Type 0
IsEnded limit r =
    IsStopped 1 [] r ⊎ (IsBlocked r ⊎ ((first : ℕ) × (1 ≤ first) × IsSolved first limit r))

pub ended :
    {first limit : ℕ} {r : SolveProblemReport} → 1 ≤ first → Ends first limit r → IsEnded limit r
ended pos (inl h) = inl h
ended {first} pos (inr h) = inr (inr (first, pos, h))
