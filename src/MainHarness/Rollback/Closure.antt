-- ===== src/MainHarness/Rollback/Closure.antt =====
-- When the loop of a rollback ends, and what its sweeps keep.
use mm_harness.Prelude.{
  ℕ, zero, suc, ◌+◌, ◌≤◌, ◌<◌, String, Bool, true, false, not, ◌&&◌, List, [], ◌∷◌, any, contains,
  length, ◌≡◌, refl, ap, arith, Bool-cases, inl, inr, string_eq, if◌then◌else◌, ==_self,
}
use mm_harness.Dag.{DagTaskNode}
use mm_harness.MainHarness.Rollback.{sweep, closure}

abbrev pub touches : List String → DagTaskNode → Bool
touches affected node = any (λ d. contains d affected) node.depends_on

-- the nodes that are not affected
abbrev pub missing : List DagTaskNode → List String → ℕ
missing [] affected = 0
missing (n ∷ ns) affected = (if contains n.id affected then 0 else 1) + missing ns affected

module _ (n : DagTaskNode) (ns : List DagTaskNode) (a : List String) (b : Bool) where
  pub sweep-add :
      (not (contains n.id a) && touches a n) ≡ true
      → sweep (n ∷ ns) (a, b) ≡ sweep ns (n.id ∷ a, true)
  unfolding sweep
  sweep-add e = ap (λ t. sweep ns (if t then (n.id ∷ a, true) else (a, b))) e

  pub sweep-skip :
      (not (contains n.id a) && touches a n) ≡ false → sweep (n ∷ ns) (a, b) ≡ sweep ns (a, b)
  unfolding sweep
  sweep-skip e = ap (λ t. sweep ns (if t then (n.id ∷ a, true) else (a, b))) e

sweep-keeps :
    (x : String) (nodes : List DagTaskNode) (a : List String) (b : Bool)
    → contains x a ≡ true
    → contains x (sweep nodes (a, b)).0 ≡ true
unfolding sweep
sweep-keeps x [] a b h = h
sweep-keeps x (n ∷ ns) a b h = elim (Bool-cases (not (contains n.id a) && touches a n)) [
  | inl add ↦ rw (sweep-add n ns a b add) (sweep-keeps x ns (n.id ∷ a) true (ground (arith, h)))
  | inr skip ↦ rw (sweep-skip n ns a b skip) (sweep-keeps x ns a b h)
]

sweep-changed : (nodes : List DagTaskNode) (a : List String) → (sweep nodes (a, true)).1 ≡ true
unfolding sweep
sweep-changed [] a = refl
sweep-changed (n ∷ ns) a = elim (Bool-cases (not (contains n.id a) && touches a n)) [
  | inl add ↦ rw (sweep-add n ns a true add) (sweep-changed ns (n.id ∷ a))
  | inr skip ↦ rw (sweep-skip n ns a true skip) (sweep-changed ns a)
]

-- A run that changes nothing found every node that is touched affected already.
abbrev pub Saturated : List DagTaskNode → List String → Type 0
Saturated [] a = Unit
Saturated (n ∷ ns) a = (touches a n ≡ true → contains n.id a ≡ true) × Saturated ns a

sweep-idle :
    (nodes : List DagTaskNode) (a : List String)
    → (sweep nodes (a, false)).1 ≡ false
    → ((sweep nodes (a, false)).0 ≡ a) × Saturated nodes a
unfolding sweep
sweep-idle [] a h = (refl, tt)
sweep-idle (n ∷ ns) a h = elim (Bool-cases (not (contains n.id a) && touches a n)) [
  | inl add ↦ cc (rw (sweep-add n ns a false add) at h, sweep-changed ns (n.id ∷ a))
  | inr skip ↦
      let (same, rest) = sweep-idle ns a (rw (sweep-skip n ns a false skip) at h) in
      (rw (sweep-skip n ns a false skip) same, (ground (arith, skip), rest))
]

missing_mono :
    (nodes : List DagTaskNode) (a a' : List String)
    → ((x : String) → contains x a ≡ true → contains x a' ≡ true)
    → missing nodes a' ≤ missing nodes a
missing_mono [] a a' keep = omega arith
missing_mono (n ∷ ns) a a' keep = ground (arith, keep n.id, missing_mono ns a a' keep)

-- a run that changes something leaves fewer nodes that are not affected
sweep-shrinks :
    (nodes : List DagTaskNode) (a : List String)
    → (sweep nodes (a, false)).1 ≡ true
    → missing nodes (sweep nodes (a, false)).0 < missing nodes a
unfolding sweep
sweep-shrinks [] a h = cc
sweep-shrinks (n ∷ ns) a h = elim (Bool-cases (not (contains n.id a) && touches a n)) [
  | inl add ↦ rw (sweep-add n ns a false add) (
      ground (
        arith,
        add,
        sweep-keeps n.id ns (n.id ∷ a) true,
        missing_mono ns a (sweep ns (n.id ∷ a, true)).0
            (λ x m. sweep-keeps x ns (n.id ∷ a) true (ground (arith, m))),
        ==_self n.id,
      ))
  | inr skip ↦ rw (sweep-skip n ns a false skip) (
      ground (
        arith,
        sweep-shrinks ns a (rw (sweep-skip n ns a false skip) at h),
        sweep-keeps n.id ns a false,
      ))
]

pub closure-stop :
    (fuel : ℕ) (nodes : List DagTaskNode) (a : List String)
    → (sweep nodes (a, false)).1 ≡ false
    → closure (suc fuel) nodes a ≡ (sweep nodes (a, false)).0
unfolding closure
closure-stop fuel nodes a e =
    ap
      (λ t. if t then closure fuel nodes (sweep nodes (a, false)).0 else (sweep nodes (a, false)).0)
      e

pub closure-again :
    (fuel : ℕ) (nodes : List DagTaskNode) (a : List String)
    → (sweep nodes (a, false)).1 ≡ true
    → closure (suc fuel) nodes a ≡ closure fuel nodes (sweep nodes (a, false)).0
unfolding closure
closure-again fuel nodes a e =
    ap
      (λ t. if t then closure fuel nodes (sweep nodes (a, false)).0 else (sweep nodes (a, false)).0)
      e

-- With more fuel than there are nodes to add, the loop ends because a run changed nothing.
pub closure-Saturated :
    (fuel : ℕ) (nodes : List DagTaskNode) (a : List String)
    → missing nodes a < fuel
    → Saturated nodes (closure fuel nodes a)
closure-Saturated zero nodes a h = absurd (omega arith)
closure-Saturated (suc fuel) nodes a h = elim (Bool-cases (sweep nodes (a, false)).1) [
  | inl more ↦ rw (closure-again fuel nodes a more) (
      closure-Saturated fuel nodes (sweep nodes (a, false)).0
        (omega (arith, sweep-shrinks nodes a more)))
  | inr done ↦
      let (same, full) = sweep-idle nodes a done in rw (closure-stop fuel nodes a done, same) full
]

pub closure-keeps :
    (fuel : ℕ) (nodes : List DagTaskNode) (a : List String) (x : String)
    → contains x a ≡ true
    → contains x (closure fuel nodes a) ≡ true
closure-keeps zero nodes a x h = unfold closure in h
closure-keeps (suc fuel) nodes a x h = elim (Bool-cases (sweep nodes (a, false)).1) [
  | inl more ↦
      rw (closure-again fuel nodes a more)
        (closure-keeps fuel nodes (sweep nodes (a, false)).0 x (sweep-keeps x nodes a false h))
  | inr done ↦ rw (closure-stop fuel nodes a done) (sweep-keeps x nodes a false h)
]

pub missing-le : (nodes : List DagTaskNode) (a : List String) → missing nodes a ≤ length nodes
missing-le [] a = omega arith
missing-le (n ∷ ns) a = ground (arith, missing-le ns a)
