-- ===== src/Prelude/Lists.antt =====
-- Lists measured by native numbers, and the comprehensions, `any`, `all` and `next` of the program.
use Prim.Native.Nat.{ℕ, suc, ◌+◌, ◌-◌, ◌≤◌}
use mathlib.Core.Path.{◌≡◌}
use mathlib.Core.Bool.{Bool, true, false, ◌&&◌, ◌||◌}
use mathlib.Core.Option.{Option, none, some}
use mathlib.Core.List.{List, [], ◌∷◌, ◌++◌, map}
use native.Mathlib.Omega.{arith}
use mm_harness.Prelude.Tests.{if◌then◌else◌}
use mm_harness.Prelude.Equality.{Eq, ◌==◌}

module _ {ℓ} {A : Type ℓ} where
  abbrev pub length : List A → ℕ
  length [] = 0
  length (x ∷ xs) = suc (length xs)

  pub length-append : (xs ys : List A) → length (xs ++ ys) ≡ length xs + length ys
  length-append [] ys = omega arith
  length-append (x ∷ xs) ys = omega (arith, length-append xs ys)

  -- any(p(x) for x in xs), all(p(x) for x in xs)
  abbrev pub any : (A → Bool) → List A → Bool
  any p [] = false
  any p (x ∷ xs) = p x || any p xs

  abbrev pub all : (A → Bool) → List A → Bool
  all p [] = true
  all p (x ∷ xs) = p x && all p xs

  pub all-append : (p : A → Bool) (xs ys : List A) → all p (xs ++ ys) ≡ (all p xs && all p ys)
  all-append p [] ys = ground arith
  all-append p (x ∷ xs) ys = ground (arith, all-append p xs ys)

  -- [x for x in xs if p(x)]
  abbrev pub select : (A → Bool) → List A → List A
  select p [] = []
  select p (x ∷ xs) = let rest = select p xs in if p x then x ∷ rest else rest

  pub select-append :
      (p : A → Bool) (xs ys : List A) → select p (xs ++ ys) ≡ select p xs ++ select p ys
  select-append p [] ys = ground arith
  select-append p (x ∷ xs) ys = ground (arith, select-append p xs ys)

  -- next((x for x in xs if p(x)), None)
  abbrev pub find : (A → Bool) → List A → Option A
  find p [] = none
  find p (x ∷ xs) = let rest = find p xs in if p x then some x else rest

  -- the predicates by recursion compute to tuples, which the tactics read and build
  abbrev pub All {κ} : (A → Type κ) → List A → Type κ
  All P [] = Unit
  All P (x ∷ xs) = P x × All P xs

pub length-map {ℓ κ} :
    {A : Type ℓ} {B : Type κ} (f : A → B) (xs : List A) → length (map f xs) ≡ length xs
length-map f [] = omega arith
length-map f (x ∷ xs) = omega (arith, length-map f xs)

-- x in xs
abbrev pub contains {ℓ} : {A : Type ℓ} ⦃e : Eq A⦄ → A → List A → Bool
contains a xs = any (λ x. a == x) xs

-- len(xs) == len(set(xs))
abbrev pub distinct {ℓ} : {A : Type ℓ} ⦃e : Eq A⦄ → List A → Bool
distinct [] = true
distinct (x ∷ xs) = if contains x xs then false else distinct xs

module _ {ℓ} {A : Type ℓ} ⦃e : Eq A⦄ where
  abbrev pub count : A → List A → ℕ
  count a [] = 0
  count a (x ∷ xs) = (if x == a then 1 else 0) + count a xs

  pub count-append : (a : A) (xs ys : List A) → count a (xs ++ ys) ≡ count a xs + count a ys
  count-append a [] ys = omega arith
  count-append a (x ∷ xs) ys = omega (arith, count-append a xs ys)

  -- the list without the first `a`
  abbrev pub remove : A → List A → List A
  remove a [] = []
  remove a (x ∷ xs) = let rest = remove a xs in if x == a then xs else x ∷ rest

  pub length-remove :
      (a : A) (xs : List A) → 1 ≤ count a xs → length xs ≡ suc (length (remove a xs))
  length-remove a [] h = absurd (omega arith)
  length-remove a (x ∷ xs) h = ground (arith, length-remove a xs)

  pub count-remove :
      (a b : A) (xs : List A) → count b (remove a xs) ≡ count b xs - (if a == b then 1 else 0)
  count-remove a b [] = ground arith
  count-remove a b (x ∷ xs) =
      ground (arith, count-remove a b xs, e.beq_iff x a, e.beq_iff x b, e.beq_iff a b)

  pub length-le_of_count :
      (xs ys : List A) → ((a : A) → count a xs ≤ count a ys) → length xs ≤ length ys
  length-le_of_count [] ys h = omega arith
  length-le_of_count (x ∷ xs) ys h =
      let here : 1 ≤ count x ys = ground (arith, h x, e.beq_iff x x) in
      let below : length xs ≤ length (remove x ys) =
        length-le_of_count xs (remove x ys)
          (λ a. ground (arith, h a, count-remove x a ys, e.beq_iff x a)) in
      omega (arith, length-remove x ys here)

  -- Lists of one length, the counts of one below those of the other, have the same counts.
  pub count-eq_of_length :
      (xs ys : List A)
      → ((a : A) → count a xs ≤ count a ys)
      → length ys ≤ length xs
      → (a : A) → count a xs ≡ count a ys
  count-eq_of_length [] [] h l a = omega arith
  count-eq_of_length [] (y ∷ ys) h l a = absurd (omega arith)
  count-eq_of_length (x ∷ xs) ys h l a =
      let here : 1 ≤ count x ys = ground (arith, h x, e.beq_iff x x) in
      let rest : count a xs ≡ count a (remove x ys) =
        count-eq_of_length xs (remove x ys)
          (λ b. ground (arith, h b, count-remove x b ys, e.beq_iff x b))
          (omega (arith, length-remove x ys here)) a in
      ground (arith, h a, count-remove x a ys, e.beq_iff x a, rest, here)

  pub contains-count : (a : A) (xs : List A) → contains a xs ≡ true → 1 ≤ count a xs
  contains-count a [] h = cc
  contains-count a (x ∷ xs) h = ground (arith, contains-count a xs, e.beq_iff a x, e.beq_iff x a)

  pub count-contains : (a : A) (xs : List A) → 1 ≤ count a xs → contains a xs ≡ true
  count-contains a [] h = absurd (omega arith)
  count-contains a (x ∷ xs) h = ground (arith, count-contains a xs, e.beq_iff a x, e.beq_iff x a)

  pub distinct-count :
      (a : A) (xs : List A) → distinct xs ≡ true → count a xs ≤ (if contains a xs then 1 else 0)
  distinct-count a [] h = omega arith
  distinct-count a (x ∷ xs) h = ground (arith, distinct-count a xs, e.beq_iff x a, e.beq_iff a x)
