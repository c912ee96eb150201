-- ===== src/Dag/Order.antt =====
-- What the topological order of a task table is.
use mathlib.Core.List.{append-nil, append_assoc}
use mm_harness.Prelude.{
  ℕ, suc, zero, ◌≤◌, ◌<◌, String, true, List, [], ◌∷◌, ◌++◌, ◌≡◌, refl, sym, subst, arith, count,
  contains, distinct, length, length-map, count-eq_of_length, contains-count, count-contains,
  distinct-count, Bool-cases, inl, inr, eq_iff, string_eq, nat_eq, length-le_of_count,
}
use mm_harness.Errors.{ok}
use mm_harness.Dag.{DagTaskNode, Kahn, ids, subset, advance, start, final, topological_order}
use mm_harness.Dag.Counting.{deps_of, pending}
use mm_harness.Dag.Rounds.{
  IsSorting, while_ready_induction, start-IsSorting, final-IsSorting, ready-final, count-order,
  length-order, order-advance,
}

-- Each id of the second list stands behind all of its task's dependencies.
abbrev pub IsOrdered : List DagTaskNode → List String → List String → Type 0
IsOrdered tasks placed [] = Unit
IsOrdered tasks placed (id ∷ rest) =
    (subset (deps_of id tasks) placed ≡ true) × IsOrdered tasks (placed ++ id ∷ []) rest

IsOrdered-append_one :
    (tasks : List DagTaskNode) (c : String) (placed order : List String)
    → IsOrdered tasks placed order
    → subset (deps_of c tasks) (placed ++ order) ≡ true
    → IsOrdered tasks placed (order ++ c ∷ [])
IsOrdered-append_one tasks c placed [] h s =
    (subst (λ l. subset (deps_of c tasks) l ≡ true) (append-nil placed) s, tt)
IsOrdered-append_one tasks c placed (id ∷ order) h s = (
  h.0,
  IsOrdered-append_one tasks c (placed ++ id ∷ []) order h.1 (
      subst (λ l. subset (deps_of c tasks) l ≡ true) (sym (append_assoc placed (id ∷ []) order)) s),
)

subset_of_settled : (ds order : List String) → pending order ds ≡ 0 → subset ds order ≡ true
subset_of_settled [] order h = refl
subset_of_settled (d ∷ ds) order h = ground (arith, subset_of_settled ds order)

module _ (tasks : List DagTaskNode) (unique : distinct (ids tasks) ≡ true) where
  final-IsOrdered : IsOrdered tasks [] (final tasks).order
  unfolding final start
  final-IsOrdered =
      (while_ready_induction tasks unique (λ k. IsOrdered tasks [] k.order) keep
        (suc (length tasks)) (start tasks) (start-IsSorting tasks unique) tt).1
    where
      keep :
          (k : Kahn) (c : String) (r : List String)
          → IsSorting tasks k
          → k.ready ≡ c ∷ r
          → IsOrdered tasks [] k.order
          → IsOrdered tasks [] (advance tasks c r k).order
      keep k c r inv e h = rw (order-advance tasks unique c r k inv e) (
          IsOrdered-append_one tasks c [] k.order h (
            subset_of_settled (deps_of c tasks) k.order
              (ground (arith, inv.placed c, inv.degree c, e, eq_iff c c))))

  topological_order-ok :
      (order : List String)
      → topological_order tasks ≡ ok order
      → ((final tasks).order ≡ order) × (length (final tasks).order ≡ length tasks)
  unfolding topological_order
  topological_order-ok order h = ground arith

  -- On a table whose ids are distinct, an order that `topological_order` returns holds every task's
  -- id exactly as often as the table does, so once, and nothing else; and each id stands behind all
  -- the ids that its task depends on.
  pub topological_order_sound :
      (order : List String)
      → topological_order tasks ≡ ok order
      → ((id : String) → count id order ≡ count id (ids tasks)) × IsOrdered tasks [] order
  topological_order_sound order h =
      let (same, complete) = topological_order-ok order h in
      let inv = final-IsSorting tasks unique in
      subst (λ l. ((id : String) → count id l ≡ count id (ids tasks)) × IsOrdered tasks [] l) same
        (
          count-eq_of_length (final tasks).order (ids tasks) (count-order tasks unique inv)
              (omega (arith, length-map (λ (t : DagTaskNode). t.id) tasks)),
          final-IsOrdered,
        )

  module _ (rank : String → ℕ)
      (known : (id : String) → subset (deps_of id tasks) (ids tasks) ≡ true)
      (ranked : (id d : String) → contains d (deps_of id tasks) ≡ true → rank d < rank id) where
    settled_below :
        (n : ℕ) (ds : List String)
        → subset ds (ids tasks) ≡ true
        → ((d : String) → contains d ds ≡ true → rank d < n)
        → ((d : String)
            → contains d (ids tasks) ≡ true
            → rank d < n
            → contains d (final tasks).order ≡ true)
        → pending (final tasks).order ds ≡ 0
    settled_below n [] s below done = refl
    settled_below n (d ∷ ds) s below done = ground (
      arith,
      done d,
      below d,
      eq_iff d d,
      settled_below n ds (ground arith) (λ x m. below x (ground (arith, m))) done,
    )

    -- all ids below a rank are ordered, by induction on the rank
    ordered_below :
        (n : ℕ) (id : String)
        → contains id (ids tasks) ≡ true
        → rank id < n
        → contains id (final tasks).order ≡ true
    ordered_below zero id m h = absurd (omega arith)
    ordered_below (suc n) id m h =
        let inv = final-IsSorting tasks unique in
        let settled =
          settled_below n (deps_of id tasks) (known id) (λ d c. omega (arith, ranked id d c))
            (ordered_below n) in
        count-contains id (final tasks).order
          (ground (arith, inv.placed id, inv.degree id, settled, m, ready-final tasks unique))

    count-le_order : (id : String) → count id (ids tasks) ≤ count id (final tasks).order
    count-le_order id = elim (Bool-cases (contains id (ids tasks))) [
      | inl m ↦
          let placed =
            contains-count id (final tasks).order
              (ordered_below (suc (rank id)) id m (omega arith)) in
          ground (arith, distinct-count id (ids tasks) unique, placed)
      | inr m ↦ ground (arith, distinct-count id (ids tasks) unique, m)
    ]

    -- On a table whose ids are distinct and whose dependencies are all tasks of the table, if the
    -- dependencies have no cycle (some rank puts every dependency below its task), then
    -- `topological_order` returns an order and raises nothing.
    pub topological_order_complete : (order : List String) × (topological_order tasks ≡ ok order)
    unfolding topological_order
    topological_order_complete =
        let inv = final-IsSorting tasks unique in
        let fits : length (final tasks).order ≡ length tasks = omega (
          arith,
          length-order tasks unique inv,
          length-le_of_count (ids tasks) (final tasks).order count-le_order,
          length-map (λ (t : DagTaskNode). t.id) tasks,
        ) in
        ((final tasks).order, ground (arith, fits))
