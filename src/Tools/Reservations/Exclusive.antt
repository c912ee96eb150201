-- ===== src/Tools/Reservations/Exclusive.antt =====
-- One worker holds a key at a time, a worker whose key was taken over cannot complete it, and a
-- completed key stays completed.
use mm_harness.Prelude.{
  ℕ, String, true, false, Option, none, some, List, [], ◌∷◌, ◌++◌, map, any, distinct, contains,
  string_eq, ◌≡◌, ◌≢◌, refl, arith, eq_iff, Bool-cases, Option-cases, inl, inr,
}
use mm_harness.Errors.{ok, err, runtime_error}
use mm_harness.Tools.{ToolResult}
use mm_harness.Tools.Reservations.{
  ToolRun, run_of, lookup, reservation, take_over, reserve, is_open, close, complete,
}

not_open :
    (key : String) (token : Option String) (runs : List ToolRun)
    → contains key (map (λ (r : ToolRun). r.idempotency_key) runs) ≡ false
    → any (is_open key token) runs ≡ false
not_open key token [] h = refl
not_open key token (r ∷ runs) h =
    ground
      (arith, not_open key token runs, eq_iff r.idempotency_key key, eq_iff key r.idempotency_key)

lookup-close :
    (key : String) (token : Option String) (result : ToolResult) (now : ℕ) (runs : List ToolRun)
    → distinct (map (λ (r : ToolRun). r.idempotency_key) runs) ≡ true
    → any (is_open key token) runs ≡ true
    → lookup key (close key token result now runs) ≡ some result
unfolding close lookup
lookup-close key token result now [] once h = cc
lookup-close key token result now (x ∷ runs) once h = ground (
  arith,
  lookup-close key token result now runs,
  not_open key token runs,
  eq_iff x.idempotency_key key,
  eq_iff key x.idempotency_key,
)

reserve-settled :
    (key token : String) (lease now : ℕ) (runs : List ToolRun) (result : ToolResult)
    → lookup key runs ≡ some result
    → reserve key lease token now runs ≡ (false, runs)
unfolding lookup reserve
reserve-settled key token lease now runs result h = ground arith

-- A completion that returns makes its result the answer for the key: it is what `lookup` finds, and
-- no worker is granted the key again, however long after. The key is the table's primary key.
pub lookup-complete :
    (key : String) (token : Option String) (result : ToolResult) (now : ℕ)
    (runs after : List ToolRun) (next : String) (lease later : ℕ)
    → distinct (map (λ (r : ToolRun). r.idempotency_key) runs) ≡ true
    → complete key result token now runs ≡ (ok tt, after)
    → (lookup key after ≡ some result) × (reserve key lease next later after ≡ (false, after))
unfolding complete
lookup-complete key token result now runs after next lease later once h =
    elim (Bool-cases (any (is_open key token) runs)) [
      | inl found ↦
          let kept : lookup key after ≡ some result =
            ground (arith, found, h, lookup-close key token result now runs once found) in
          (kept, reserve-settled key next lease later after result kept)
      | inr lost ↦ absurd (ground (arith, lost, h))
    ]

open-append :
    (key old token : String) (now : ℕ) (runs : List ToolRun)
    → old ≢ token
    → run_of key runs ≡ none
    → any (is_open key (some old)) (runs ++ reservation key now token ∷ []) ≡ false
open-append key old token now [] other h = ground (arith, other, eq_iff token old)
open-append key old token now (r ∷ runs) other h =
    ground (arith, open-append key old token now runs other)

open-take_over :
    (key old token : String) (now : ℕ) (runs : List ToolRun)
    → old ≢ token
    → any (is_open key (some old)) (take_over key now token runs) ≡ false
unfolding take_over
open-take_over key old token now [] other = refl
open-take_over key old token now (r ∷ runs) other =
    ground (arith, open-take_over key old token now runs other, other, eq_iff token old)

-- Once a key is granted under a new token, the worker that held it under another token cannot
-- complete it: its completion raises, and changes nothing.
pub complete-superseded :
    (key old token : String) (lease now later : ℕ) (result : ToolResult) (runs after : List ToolRun)
    → old ≢ token
    → reserve key lease token now runs ≡ (true, after)
    → complete key result (some old) later after ≡ (err runtime_error, after)
unfolding reserve complete
complete-superseded key old token lease now later result runs after other h =
    elim (Option-cases (run_of key runs)) [
      | inl e ↦ ground (arith, e, h, open-append key old token now runs other e)
      | inr (r, e) ↦ ground (arith, e, h, open-take_over key old token now runs other)
    ]
