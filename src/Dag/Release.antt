-- ===== src/Dag/Release.antt =====
-- What the inner loop of the topological sort does to the degrees and to the ready ids.
use mm_harness.Prelude.{
  ℕ, ◌+◌, ◌-◌, ◌≤◌, String, Bool, true, false, List, [], ◌∷◌, ◌++◌, ◌≡◌, refl, ◌∙◌, arith, count,
  count-append, contains, Bool-cases, inl, inr, eq_iff, ◌==◌, string_eq, nat_eq, if◌then◌else◌,
  ◌&&◌, leb, contains-count,
}
use mm_harness.Dag.{DagTaskNode, Kahn, ids, release, release_all}
use mm_harness.Dag.Counting.{deps_of, count-sort}

-- What the inner loop does: each child's degree falls by its count, and a child whose degree
-- falls to 0 becomes ready once.
pub release_all-order : (cs : List String) (k : Kahn) → (release_all cs k).order ≡ k.order
unfolding release_all
release_all-order [] k = refl
release_all-order (c ∷ cs) k = release_all-order cs (release c k)

release-degrees :
    (id c : String) (k : Kahn)
    → (release c k).degrees id ≡ k.degrees id - (if c == id then 1 else 0)
unfolding release
release-degrees id c k = ground (arith, eq_iff c id)

pub release_all-degrees :
    (id : String) (cs : List String) (k : Kahn)
    → (release_all cs k).degrees id ≡ k.degrees id - count id cs
unfolding release_all
release_all-degrees id [] k = omega arith
release_all-degrees id (c ∷ cs) k =
    ground (arith, release_all-degrees id cs (release c k), release-degrees id c k)

release-ready :
    (id c : String) (k : Kahn)
    → count id (release c k).ready
      ≡ count id k.ready + (if c == id && k.degrees id - 1 == 0 then 1 else 0)
unfolding release
release-ready id c k = ground (
  arith,
  eq_iff c id,
  eq_iff c c,
  count-sort id (k.ready ++ c ∷ []),
  count-append id k.ready (c ∷ []),
)

abbrev pub one_if : Bool → ℕ
one_if b = if b then 1 else 0

released_in_two :
    (r d n : ℕ) (b : Bool)
    → one_if b + n ≤ d
    → r + one_if (b && d - 1 == 0) + one_if (leb 1 n && d - one_if b == n)
      ≡ r + one_if (leb 1 (one_if b + n) && d == one_if b + n)
released_in_two r d n true h = ground arith
released_in_two r d n false h = ground arith

pub release_all-ready :
    (id : String) (cs : List String) (k : Kahn)
    → count id cs ≤ k.degrees id
    → count id (release_all cs k).ready
      ≡ count id k.ready + one_if (leb 1 (count id cs) && k.degrees id == count id cs)
unfolding release_all
release_all-ready id [] k h = ground arith
release_all-ready id (c ∷ cs) k h =
    let after = release c k in
    release_all-ready id cs after (omega (arith, release-degrees id c k))
    ∙ rw (release-ready id c k, release-degrees id c k)
        (released_in_two (count id k.ready) (k.degrees id) (count id cs) (c == id) h)

-- what one round does to the two sides of the invariant, as numbers
abbrev pub Balanced : ℕ → ℕ → Bool → ℕ → Type 0
Balanced r o known d = r + o ≡ one_if (known && d == 0)

pub placed_in_round :
    (r o d n : ℕ) (known here : Bool)
    → Balanced (one_if here + r) o known d
    → n ≤ d
    → (known ≡ false → n ≡ 0)
    → Balanced (r + one_if (leb 1 n && d == n)) (o + one_if here) known (d - n)
placed_in_round r o d n true here b h k = ground arith
placed_in_round r o d n false here b h k = ground (arith, k refl)

pub count-zero_absent : (a : String) (xs : List String) → count a xs ≡ 0 → contains a xs ≡ false
count-zero_absent a xs h = elim (Bool-cases (contains a xs)) [
  | inl c ↦ absurd (omega (arith, contains-count a xs c))
  | inr c ↦ c
]

pub deps_of-unknown :
    (id d : String) (tasks : List DagTaskNode)
    → contains id (ids tasks) ≡ false
    → count d (deps_of id tasks) ≡ 0
deps_of-unknown id d [] h = refl
deps_of-unknown id d (t ∷ ts) h =
    ground (arith, deps_of-unknown id d ts, eq_iff t.id id, eq_iff id t.id)
