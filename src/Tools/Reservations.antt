-- ===== src/Tools/Reservations.antt =====
-- infrastructure/db/tool_runs.py: the reservations of idempotency keys. Times are counted in
-- microseconds, and a result is kept as it was before its JSON was written.
pub mod Exclusive
use mm_harness.Prelude.{
  ℕ, ◌+◌, ◌*◌, max, String, Bool, true, false, not, ◌&&◌, Option, none, some, List, [], ◌∷◌, ◌++◌,
  map, find, any, ltb, ◌==◌, string_eq, if◌then◌else◌,
}
use mm_harness.Errors.{Error, Result, ok, err, runtime_error}
use mm_harness.Tools.{ToolResult}

pub data RunStatus : Type 0 where
  running completed : RunStatus

abbrev pub is_running : RunStatus → Bool
is_running running = true
is_running completed = false

-- a row of m2_tool_runs
pub record ToolRun : Type 0 where
  pub idempotency_key : String
  pub status : RunStatus
  pub started_at : ℕ
  pub completed_at : Option ℕ
  pub result : Option ToolResult
  pub lease_token : Option String

abbrev pub run_of : String → List ToolRun → Option ToolRun
run_of key runs = find (λ r. r.idempotency_key == key) runs

-- lookup
unfoldable pub lookup : String → List ToolRun → Option ToolResult
lookup key runs = elim (run_of key runs) [
  | none ↦ none
  | some r ↦ if is_running r.status then none else r.result
]

abbrev pub reservation : String → ℕ → String → ToolRun
reservation key now token = record {
  idempotency_key = key;
  status = running;
  started_at = now;
  completed_at = none;
  result = none;
  lease_token = some token;
}

-- the UPDATE that takes a run over
unfoldable pub take_over : String → ℕ → String → List ToolRun → List ToolRun
take_over key now token [] = []
take_over key now token (r ∷ runs) =
    (if r.idempotency_key == key then reservation key now token else r)
    ∷ take_over key now token runs

-- timedelta(seconds=max(1, lease_seconds))
abbrev pub lease_of : ℕ → ℕ
lease_of seconds = max 1 seconds * 1_000_000

-- reserve
unfoldable pub reserve : String → ℕ → String → ℕ → List ToolRun → Bool × List ToolRun
reserve key seconds token now runs = elim (run_of key runs) [
  | none ↦ (true, runs ++ reservation key now token ∷ [])
  | some r ↦
      if not (is_running r.status)
      then (false, runs)
      else if ltb (r.started_at + lease_of seconds) now
      then (true, take_over key now token runs)
      else (false, runs)
]

abbrev pub has_token : Option String → Option String → Bool
has_token none held = true
has_token (some token) none = false
has_token (some token) (some held) = held == token

-- the rows that the UPDATE of `complete` names
abbrev pub is_open : String → Option String → ToolRun → Bool
is_open key token r =
    r.idempotency_key == key && (is_running r.status && has_token token r.lease_token)

unfoldable pub close : String → Option String → ToolResult → ℕ → List ToolRun → List ToolRun
close key token result now [] = []
close key token result now (r ∷ runs) =
    (if is_open key token r
      then record r { status = completed; completed_at = some now; result = some result }
      else r)
    ∷ close key token result now runs

-- complete: the key is the table's primary key, so at most one row fits
unfoldable pub complete :
    String → ToolResult → Option String → ℕ → List ToolRun → Result (Unit {0}) × List ToolRun
complete key result token now runs =
    if any (is_open key token) runs
    then (ok tt, close key token result now runs)
    else (err runtime_error, runs)
