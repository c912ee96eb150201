-- ===== src/Dag/Rounds.antt =====
-- The invariant of the topological sort, and that its loop ends by its own test.
use native.Mathlib.Nat.{add-zero}
use mm_harness.Prelude.{
  ℕ, zero, suc, ◌+◌, ◌-◌, ◌≤◌, ◌<◌, String, Bool, true, false, Option, none, some, List, [], ◌∷◌,
  ◌++◌, ◌≡◌, refl, sym, ap, subst, ◌∙◌, arith, count, count-append, contains, distinct, length,
  length-append, select, List-cases, length-map, inl, inr, eq_iff, ◌==◌, string_eq, nat_eq,
  if◌then◌else◌, ◌&&◌, leb, length-le_of_count, contains-count,
}
use mm_harness.Dag.{
  DagTaskNode, Kahn, ids, node_of, children, sort, initial_degrees, release_all, advance,
  while_ready, start, final,
}
use mm_harness.Dag.Counting.{
  deps_of, pending, count-sort, count-children, pending-append, pending-nil,
}
use mm_harness.Dag.Release.{
  release_all-order, release_all-degrees, one_if, release_all-ready, Balanced, placed_in_round,
  count-zero_absent, deps_of-unknown,
}

pub record IsSorting (tasks : List DagTaskNode) (k : Kahn) : Type 0 where
  pub degree : (id : String) → k.degrees id ≡ pending k.order (deps_of id tasks)
  pub placed :
      (id : String)
      → count id k.ready + count id k.order
        ≡ (if contains id (ids tasks) && k.degrees id == 0 then 1 else 0)

module _ (tasks : List DagTaskNode) (unique : distinct (ids tasks) ≡ true) where
  module _ (current : String) (ready : List String) (k : Kahn) (inv : IsSorting tasks k)
      (popped : k.ready ≡ current ∷ ready) where
    absent : contains current k.order ≡ false
    absent =
        count-zero_absent current k.order
          (ground (arith, inv.placed current, popped, eq_iff current current))

    abbrev named : String → ℕ
    named id = count current (deps_of id tasks)

    count-released : (id : String) → count id (sort (children current tasks)) ≡ named id
    count-released id =
        count-sort id (children current tasks) ∙ count-children id current tasks unique

    settled :
        (id : String)
        → k.degrees id ≡ pending (k.order ++ current ∷ []) (deps_of id tasks) + named id
    settled id = inv.degree id ∙ pending-append current k.order (deps_of id tasks) absent

    abbrev popped_state : Kahn
    popped_state = record k { ready = ready; order = k.order ++ current ∷ [] }

    round_balance :
        (id : String)
        → Balanced
            (count id ready + one_if (leb 1 (named id) && k.degrees id == named id))
            (count id k.order + one_if (current == id))
            (contains id (ids tasks))
            (k.degrees id - named id)
    round_balance id =
        placed_in_round (count id ready) (count id k.order) (k.degrees id) (named id)
          (contains id (ids tasks)) (current == id)
          (subst
            (λ l. Balanced (count id l) (count id k.order) (contains id (ids tasks)) (k.degrees id))
            popped (inv.placed id))
          (omega (arith, settled id)) (deps_of-unknown id current tasks)

    ready-advance :
        (id : String)
        → count id (release_all (sort (children current tasks)) popped_state).ready
          ≡ count id ready + one_if (leb 1 (named id) && k.degrees id == named id)
    ready-advance id =
        subst
          (λ n.
            n ≤ k.degrees id
            → count id (release_all (sort (children current tasks)) popped_state).ready
              ≡ count id ready + one_if (leb 1 n && k.degrees id == n))
          (count-released id) (release_all-ready id (sort (children current tasks)) popped_state)
          (omega (arith, settled id))

    degrees-advance :
        (id : String)
        → (release_all (sort (children current tasks)) popped_state).degrees id
          ≡ k.degrees id - named id
    degrees-advance id =
        release_all-degrees id (sort (children current tasks)) popped_state
        ∙ ap (λ n. k.degrees id - n) (count-released id)

    pub order-advance : (advance tasks current ready k).order ≡ k.order ++ current ∷ []
    unfolding advance
    order-advance = release_all-order (sort (children current tasks)) popped_state

    advance-IsSorting : IsSorting tasks (advance tasks current ready k)
    unfolding advance
    advance-IsSorting = record {
      degree = λ id. rw (release_all-order, degrees-advance id) (omega (arith, settled id));
      placed = λ id.
          rw
            (
              release_all-order,
              degrees-advance id,
              ready-advance id,
              count-append id k.order (current ∷ []),
              add-zero (one_if (current == id)),
            )
            (round_balance id);
    }

  -- the sort starts balanced: nothing is ordered, and the ids of degree 0 are ready
  count-selected :
      (p : String → Bool) (id : String) (xs : List String)
      → distinct xs ≡ true
      → count id (select p xs) ≡ one_if (contains id xs && p id)
  count-selected p id [] h = refl
  count-selected p id (x ∷ xs) h = ground (arith, count-selected p id xs, eq_iff x id, eq_iff id x)

  initial_pending : (id : String) → initial_degrees tasks id ≡ pending [] (deps_of id tasks)
  unfolding initial_degrees
  initial_pending id = starting (node_of id tasks)
    where
      starting :
          (o : Option DagTaskNode)
          → ◌≡◌ {A = ℕ}
              (elim o [ none ↦ 0 | some t ↦ length t.depends_on ])
              (pending [] (elim o [ none ↦ [] | some t ↦ t.depends_on ]))
      starting none = refl
      starting (some t) = sym (pending-nil t.depends_on)

  pub start-IsSorting : IsSorting tasks (start tasks)
  unfolding start initial_degrees
  start-IsSorting = record {
    degree = λ id. initial_pending id;
    placed = λ id. omega (
      arith,
      count-sort id (select (λ j. initial_degrees tasks j == 0) (ids tasks)),
      count-selected (λ j. initial_degrees tasks j == 0) id (ids tasks) unique,
    );
  }

  -- An id is ordered once at most, and only if it is a task's.
  pub count-order :
      {k : Kahn} → IsSorting tasks k → (id : String) → count id k.order ≤ count id (ids tasks)
  count-order inv id = ground (arith, inv.placed id, contains-count id (ids tasks))

  pub length-order : {k : Kahn} → IsSorting tasks k → length k.order ≤ length tasks
  length-order {k} inv = omega (
    arith,
    length-le_of_count k.order (ids tasks) (count-order inv),
    length-map (λ (t : DagTaskNode). t.id) tasks,
  )

  while_ready-idle : (fuel : ℕ) (k : Kahn) → k.ready ≡ [] → while_ready (suc fuel) tasks k ≡ k
  unfolding while_ready
  while_ready-idle fuel k e =
      ap (λ l. elim l [ [] ↦ k | c ∷ r ↦ while_ready fuel tasks (advance tasks c r k) ]) e

  while_ready-pop :
      (fuel : ℕ) (k : Kahn) (c : String) (r : List String)
      → k.ready ≡ c ∷ r
      → while_ready (suc fuel) tasks k ≡ while_ready fuel tasks (advance tasks c r k)
  unfolding while_ready
  while_ready-pop fuel k c r e =
      ap (λ l. elim l [ [] ↦ k | c' ∷ r' ↦ while_ready fuel tasks (advance tasks c' r' k) ]) e

  -- An invariant of the loop that every round keeps.
  pub while_ready_induction :
      (P : Kahn → Type 0)
      → ((k : Kahn) (c : String) (r : List String)
          → IsSorting tasks k
          → k.ready ≡ c ∷ r
          → P k
          → P (advance tasks c r k))
      → (fuel : ℕ) (k : Kahn) → IsSorting tasks k
      → P k
      → IsSorting tasks (while_ready fuel tasks k) × P (while_ready fuel tasks k)
  unfolding while_ready
  while_ready_induction P keep zero k inv p = (inv, p)
  while_ready_induction P keep (suc fuel) k inv p = elim (List-cases k.ready) [
    | inl e ↦ rw (while_ready-idle fuel k e) (inv, p)
    | inr (c, r, e) ↦ rw (while_ready-pop fuel k c r e) (
        while_ready_induction P keep fuel (advance tasks c r k) (advance-IsSorting c r k inv e)
          (keep k c r inv e p))
  ]

  while_ready-done :
      (fuel : ℕ) (k : Kahn)
      → IsSorting tasks k
      → length tasks < fuel + length k.order
      → (while_ready fuel tasks k).ready ≡ []
  unfolding while_ready
  while_ready-done zero k inv h = absurd (omega (arith, length-order inv))
  while_ready-done (suc fuel) k inv h = elim (List-cases k.ready) [
    | inl e ↦ rw (while_ready-idle fuel k e) e
    | inr (c, r, e) ↦ rw (while_ready-pop fuel k c r e) (
        while_ready-done fuel (advance tasks c r k) (advance-IsSorting c r k inv e)
          (omega (arith, ap length (order-advance c r k inv e), length-append k.order (c ∷ []))))
  ]

  pub final-IsSorting : IsSorting tasks (final tasks)
  unfolding final
  final-IsSorting =
      (while_ready_induction (λ _. Unit {0}) (λ _ _ _ _ _ _. tt) (suc (length tasks)) (start tasks)
        start-IsSorting tt).0

  -- The loop of the topological sort ends because nothing is ready any more, and not because the
  -- fuel that stands for its rounds is used up, on every table whose ids are distinct.
  pub ready-final : (final tasks).ready ≡ []
  unfolding final start
  ready-final = while_ready-done (suc (length tasks)) (start tasks) start-IsSorting (omega arith)
