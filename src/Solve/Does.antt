-- ===== src/Solve/Does.antt =====
-- Rules for the steps of a solve: how often a step calls the Code Agent, and what it returns.
use mm_harness.Prelude.{
  ℕ, ◌+◌, ◌≤◌, Bool, Option, none, some, true, false, ◌≡◌, refl, arith, if◌then◌else◌,
}
use mm_harness.Solve.Ports.{
  Raised, Outcome, returned, raised, Run, pure, raise, continue_with, ◌>>=◌, handled, attempt,
  provided,
}

-- what is said of an outcome: of a value, and of an exception
abbrev pub Gives : {A : Type 0} → (Raised → Type 0) → (A → Type 0) → Outcome A → Type 0
Gives E Q (returned a) = Q a
Gives E Q (raised e) = E e

-- a count of the Code Agent's calls in a world, and the exceptions that are expected
pub record Watch (W : Type 0) : Type 1 where
  pub calls : W → ℕ
  pub raises : Raised → Type 0

-- any value
abbrev pub Any : {A : Type 0} → A → Type 0
Any a = Unit {0}

module _ {W : Type 0} (watch : Watch W) where
  open watch use {calls, raises}

  -- A step makes at most `cost` calls, however it ends, what it returns satisfies `Q`, and what it raises is expected.
  pub record Does {A : Type 0} (cost : ℕ) (Q : A → Type 0) (step : Run W A) : Type 0 where
    pub costs : (w : W) → calls (step w).1 ≤ calls w + cost
    pub gives : (w : W) → Gives raises Q (step w).0

  pub Does-pure : {A : Type 0} {Q : A → Type 0} (a : A) → Q a → Does 0 Q (pure a)
  Does-pure a h = record { costs = λ w. omega arith; gives = λ w. h }

  pub Does-raise :
      {A : Type 0} {Q : A → Type 0} (e : Raised) → raises e → Does 0 Q (raise {A = A} e)
  Does-raise e h = record { costs = λ w. omega arith; gives = λ w. h }

  pub Does-weaken :
      {A : Type 0} {j k : ℕ} {P Q : A → Type 0} {step : Run W A}
      → Does j P step
      → j ≤ k
      → ((a : A) → P a → Q a)
      → Does k Q step
  Does-weaken {A} {P} {Q} {step} d le f = record {
    costs = λ w. omega (arith, d.costs w);
    gives = λ w. Gives-map (step w).0 (d.gives w);
  }
    where
      Gives-map : (o : Outcome A) → Gives raises P o → Gives raises Q o
      Gives-map (returned a) h = f a h
      Gives-map (raised e) h = h

  continue-costs :
      {A B : Type 0} (j k n : ℕ) (P : A → Type 0) (Q : B → Type 0) (later : A → Run W B)
      → ((a : A) → P a → Does k Q (later a))
      → (r : Outcome A × W) → calls r.1 ≤ n + j
      → Gives raises P r.0
      → calls (continue_with later r).1 ≤ n + (j + k)
  unfolding continue_with
  continue-costs j k n P Q later d (returned a, w) le h = omega (arith, (d a h).costs w)
  continue-costs j k n P Q later d (raised e, w) le h = omega arith

  continue-Gives :
      {A B : Type 0} (k : ℕ) (P : A → Type 0) (Q : B → Type 0) (later : A → Run W B)
      → ((a : A) → P a → Does k Q (later a))
      → (r : Outcome A × W) → Gives raises P r.0
      → Gives raises Q (continue_with later r).0
  unfolding continue_with
  continue-Gives k P Q later d (returned a, w) h = (d a h).gives w
  continue-Gives k P Q later d (raised e, w) h = h

  pub Does-bind :
      {A B : Type 0} {j k : ℕ} {P : A → Type 0} {Q : B → Type 0} {first : Run W A}
      {later : A → Run W B}
      → Does j P first
      → ((a : A) → P a → Does k Q (later a))
      → Does (j + k) Q (first >>= later)
  Does-bind {j} {k} {P} {Q} {first} {later} d l = record {
    costs = λ w. continue-costs j k (calls w) P Q later l (first w) (d.costs w) (d.gives w);
    gives = λ w. continue-Gives k P Q later l (first w) (d.gives w);
  }

  -- behind a step that makes no call
  pub Does-after :
      {A B : Type 0} {k : ℕ} {P : A → Type 0} {Q : B → Type 0} {first : Run W A}
      {later : A → Run W B}
      → Does 0 P first
      → ((a : A) → P a → Does k Q (later a))
      → Does k Q (first >>= later)
  Does-after d l = Does-weaken (Does-bind d l) (omega arith) (λ b h. h)

  pub Does-then :
      {A B : Type 0} {k : ℕ} {Q : B → Type 0} {first : Run W A} {later : A → Run W B}
      → Does 0 Any first
      → ((a : A) → Does k Q (later a))
      → Does k Q (first >>= later)
  Does-then d l = Does-after d (λ a h. l a)

  pub Does-provided :
      {A B : Type 0} {k : ℕ} {Q : A → Type 0} (o : Option B) {absent : Run W A}
      {present : B → Run W A}
      → Does k Q absent
      → ((b : B) → o ≡ some b → Does k Q (present b))
      → Does k Q (provided o absent present)
  unfolding provided
  Does-provided none d h = d
  Does-provided (some b) d h = h b refl

  pub Does-if :
      {A : Type 0} {k : ℕ} {Q : A → Type 0} (b : Bool) {x y : Run W A}
      → (b ≡ true → Does k Q x)
      → (b ≡ false → Does k Q y)
      → Does k Q (if b then x else y)
  Does-if true d h = d refl
  Does-if false d h = h refl

-- `try`, where the handler may raise other exceptions than its body
module _ {W : Type 0} (inner outer : Watch W) (same : (w : W) → outer.calls w ≡ inner.calls w) where
  handled-costs :
      {A : Type 0} (j k n : ℕ) (Q : A → Type 0) (handler : Raised → Run W A)
      → ((e : Raised) → inner.raises e → Does outer k Q (handler e))
      → (r : Outcome A × W) → inner.calls r.1 ≤ n + j
      → Gives inner.raises Q r.0
      → outer.calls (handled handler r).1 ≤ n + (j + k)
  unfolding handled
  handled-costs j k n Q handler d (returned a, w) le h = omega (arith, same w)
  handled-costs j k n Q handler d (raised e, w) le h = omega (arith, same w, (d e h).costs w)

  handled-Gives :
      {A : Type 0} (k : ℕ) (Q : A → Type 0) (handler : Raised → Run W A)
      → ((e : Raised) → inner.raises e → Does outer k Q (handler e))
      → (r : Outcome A × W) → Gives inner.raises Q r.0
      → Gives outer.raises Q (handled handler r).0
  unfolding handled
  handled-Gives k Q handler d (returned a, w) h = h
  handled-Gives k Q handler d (raised e, w) h = (d e h).gives w

  pub Does-attempt :
      {A : Type 0} {j k : ℕ} {Q : A → Type 0} {first : Run W A} {handler : Raised → Run W A}
      → Does inner j Q first
      → ((e : Raised) → inner.raises e → Does outer k Q (handler e))
      → Does outer (j + k) Q (attempt first handler)
  Does-attempt {j} {k} {Q} {first} {handler} d h = record {
    costs = λ w.
        handled-costs j k (outer.calls w) Q handler h (first w) (omega (arith, same w, d.costs w))
          (d.gives w);
    gives = λ w. handled-Gives k Q handler h (first w) (d.gives w);
  }

  -- what is said of a step where less is expected holds where more is
  pub Does-widen :
      {A : Type 0} {k : ℕ} {Q : A → Type 0} {step : Run W A}
      → ((e : Raised) → inner.raises e → outer.raises e)
      → Does inner k Q step
      → Does outer k Q step
  Does-widen {A} {Q} {step} f d = record {
    costs = λ w. omega (arith, same w, same (step w).1, d.costs w);
    gives = λ w. value (step w).0 (d.gives w);
  }
    where
      value : (o : Outcome A) → Gives inner.raises Q o → Gives outer.raises Q o
      value (returned a) h = h
      value (raised e) h = f e h
