-- ===== src/Errors.antt =====
-- errors.py and the built-in exceptions that the program raises, with the result of code that may
-- raise. An exception is its class; a message is kept only where some handler reads it.
use mm_harness.Prelude.{◌≡◌, refl, Bool, true, false, ◌⊎◌, inl, inr}

pub data Error : Type 0 where
  value_error runtime_error permission_error key_error attribute_error timeout_error file_not_found
        type_error overflow_error :
      Error
  configuration_error not_found conflict leased_by invalid_transition lease_lost : Error
  artifact_integrity activity_execution revision_limit integrity_error : Error

-- `except ConflictError`: `LeaseLostError` is a subclass, and `leased_by` is a `ConflictError` whose
-- message says who holds the lease.
abbrev pub is_conflict : Error → Bool
is_conflict conflict = true
is_conflict leased_by = true
is_conflict lease_lost = true
is_conflict _ = false

-- what a function of the program ends in: a value, or the error that it raises
pub data Result {ℓ} (A : Type ℓ) : Type ℓ where
  ok : A → Result A
  err : Error → Result A

abbrev pub is_ok {ℓ} : {A : Type ℓ} → Result A → Bool
is_ok (ok a) = true
is_ok (err e) = false

pub Result-cases {ℓ} :
    {A : Type ℓ} (r : Result A) → ((e : Error) × (r ≡ err e)) ⊎ ((a : A) × (r ≡ ok a))
Result-cases (ok a) = inr (a, refl)
Result-cases (err e) = inl (e, refl)

-- `if b: raise e`
abbrev pub raise_if : Bool → Error → Result (Unit {0})
raise_if true e = err e
raise_if false e = ok tt

-- one statement after another
infixl 5 ◌>>=◌
abbrev pub ◌>>=◌ {ℓ κ} : {A : Type ℓ} {B : Type κ} → Result A → (A → Result B) → Result B
err e >>= later = err e
ok a >>= later = later a

-- a block that returns ends in what its last statement returns
pub >>=-eq-ok {ℓ κ} :
    {A : Type ℓ} {B : Type κ} (first : Result A) (later : A → Result B) {b : B}
    → (first >>= later) ≡ ok b
    → (a : A) × (first ≡ ok a) × (later a ≡ ok b)
>>=-eq-ok (err e) later returned = cc
>>=-eq-ok (ok a) later returned = (a, refl, returned)

infixl 5 ◌>>◌
abbrev pub ◌>>◌ {ℓ} : {B : Type ℓ} → Result (Unit {0}) → Result B → Result B
first >> later = first >>= λ _. later
