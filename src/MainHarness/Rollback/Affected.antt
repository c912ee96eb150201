-- ===== src/MainHarness/Rollback/Affected.antt =====
-- The ids that a rollback affects are the task and its transitive dependents, no more and no fewer.
use mathlib.Core.List.{Memᴰ}
use mm_harness.Prelude.{
  ℕ, zero, suc, String, Bool, true, false, not, ◌&&◌, List, [], ◌∷◌, any, contains, length, ◌≡◌,
  refl, sym, arith, subst, ◌↔◌, &&-right, Bool-cases, inl, inr, eq_iff, ◌==◌, string_eq, ==_self,
}
use mm_harness.Dag.{DagTaskNode}
use mm_harness.MainHarness.Rollback.{sweep, closure, affected_by}
use mm_harness.MainHarness.Rollback.Closure.{
  touches, Saturated, closure-stop, closure-again, closure-Saturated, closure-keeps, missing-le,
  sweep-add, sweep-skip,
}

-- `id` is `root`, or the id of a task that depends on one which descends from `root`.
pub data Descends (nodes : List DagTaskNode) (root : String) : String → Type 0 where
  here : {id : String} → id ≡ root → Descends nodes root id
  below :
      {id : String} (d : String) (node : DagTaskNode)
      → Memᴰ node nodes
      → node.id ≡ id
      → contains d node.depends_on ≡ true
      → Descends nodes root d
      → Descends nodes root id

module _ (all_nodes : List DagTaskNode) (root : String) where
  abbrev AllDescend : List String → Type 0
  AllDescend a = (x : String) → contains x a ≡ true → Descends all_nodes root x

  touched-by :
      (ds a : List String)
      → any (λ d. contains d a) ds ≡ true
      → (d : String) × (contains d ds ≡ true) × (contains d a ≡ true)
  touched-by [] a h = cc
  touched-by (d ∷ ds) a h = elim (Bool-cases (contains d a)) [
    | inl yes_d ↦ (d, ground (arith, ==_self d), yes_d)
    | inr no_d ↦
        let (d', m, c) = touched-by ds a (ground (arith, no_d, h)) in (d', ground (arith, m), c)
  ]

  descends-add :
      (n : DagTaskNode) (a : List String)
      → Memᴰ n all_nodes
      → touches a n ≡ true
      → AllDescend a
      → AllDescend (n.id ∷ a)
  descends-add n a m t h x c =
      let (d, named, in_a) = touched-by n.depends_on a t in
      elim (Bool-cases (x == n.id)) [
        | inl same ↦ below d n m (sym ((eq_iff x n.id).0 same)) named (h d in_a)
        | inr other ↦ h x (ground (arith, other, c))
      ]

  sweep-AllDescend :
      (nodes : List DagTaskNode) (a : List String) (b : Bool)
      → ((n : DagTaskNode) → Memᴰ n nodes → Memᴰ n all_nodes)
      → AllDescend a
      → AllDescend (sweep nodes (a, b)).0
  sweep-AllDescend [] a b within h = unfold sweep in h
  sweep-AllDescend (n ∷ ns) a b within h =
      let rest = λ (m : DagTaskNode) (k : Memᴰ m ns). within m (Memᴰ.tail k) in
      elim (Bool-cases (not (contains n.id a) && touches a n)) [
        | inl add ↦ rw (sweep-add n ns a b add) (
            sweep-AllDescend ns (n.id ∷ a) true rest (
              descends-add n a (within n (Memᴰ.head refl))
                (&&-right (not (contains n.id a)) (touches a n) add) h))
        | inr skip ↦ rw (sweep-skip n ns a b skip) (sweep-AllDescend ns a b rest h)
      ]

  closure-AllDescend :
      (fuel : ℕ) (a : List String) → AllDescend a → AllDescend (closure fuel all_nodes a)
  closure-AllDescend zero a h = unfold closure in h
  closure-AllDescend (suc fuel) a h =
      let grown = sweep-AllDescend all_nodes a false (λ n m. m) h in
      elim (Bool-cases (sweep all_nodes (a, false)).1) [
        | inl more ↦
            rw (closure-again fuel all_nodes a more)
              (closure-AllDescend fuel (sweep all_nodes (a, false)).0 grown)
        | inr done ↦ rw (closure-stop fuel all_nodes a done) grown
      ]

touches-of :
    (d : String) (ds a : List String)
    → contains d ds ≡ true
    → contains d a ≡ true
    → any (λ x. contains x a) ds ≡ true
touches-of d [] a m h = cc
touches-of d (x ∷ ds) a m h = ground (arith, touches-of d ds a, eq_iff d x, h)

Saturated-at :
    (nodes : List DagTaskNode) (a : List String) (n : DagTaskNode)
    → Saturated nodes a
    → Memᴰ n nodes
    → touches a n ≡ true
    → contains n.id a ≡ true
Saturated-at [] a n s k t = elim k [ ]
Saturated-at (m ∷ ms) a n s (Memᴰ.head e) t =
    subst (λ x. contains x.id a ≡ true) (sym e) (s.0 (subst (λ x. touches a x ≡ true) e t))
Saturated-at (m ∷ ms) a n s (Memᴰ.tail k) t = Saturated-at ms a n s.1 k t

-- A rollback of a task affects an id exactly when it is the task, or the id of a task that depends,
-- directly or through others, on it: no descendant is left out, and nothing else is touched.
pub affected_by-exact :
    (nodes : List DagTaskNode) (task_id x : String)
    → (contains x (affected_by task_id nodes) ≡ true) ↔ Descends nodes task_id x
unfolding affected_by
affected_by-exact nodes task_id x =
    (closure-AllDescend nodes task_id (suc (length nodes)) (task_id ∷ []) start x, complete)
  where
    start : AllDescend nodes task_id (task_id ∷ [])
    start y c = here (ground (arith, eq_iff y task_id, c))

    rooted : contains task_id (affected_by task_id nodes) ≡ true
    rooted =
        closure-keeps (suc (length nodes)) nodes (task_id ∷ []) task_id
          (ground (arith, ==_self task_id))

    full : Saturated nodes (affected_by task_id nodes)
    full =
        closure-Saturated (suc (length nodes)) nodes (task_id ∷ [])
          (omega (arith, missing-le nodes (task_id ∷ [])))

    complete :
        {y : String} → Descends nodes task_id y → contains y (affected_by task_id nodes) ≡ true
    complete (here e) = subst (λ z. contains z (affected_by task_id nodes) ≡ true) (sym e) rooted
    complete (below d node m e named up) =
        subst (λ z. contains z (affected_by task_id nodes) ≡ true) e
          (Saturated-at nodes (affected_by task_id nodes) node full m
            (touches-of d node.depends_on (affected_by task_id nodes) named (complete up)))
