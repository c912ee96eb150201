-- ===== src/MainHarness/Repository.antt =====
-- infrastructure/db/main_harness.py: the table of runs, written by compare-and-swap on the version,
-- and `_commit` of application/main_harness.py.
pub mod Versions
use mm_harness.Prelude.{
  ℕ, ◌+◌, String, Bool, true, false, ◌&&◌, Option, none, some, List, [], ◌∷◌, ◌++◌, map, find, any,
  ◌==◌, nat_eq, if◌then◌else◌, ◌≡◌, refl,
}
use mm_harness.Errors.{Error, Result, ok, err, conflict, not_found}
use mm_harness.Dag.{DagTaskTable}
use mm_harness.Reports.{ReportPayload, SolveProblemReport}
use mm_harness.MainHarness.{MainHarnessState, initial_state}

-- What `model_validate_json` reads of what `model_dump_json` wrote: the two fields that `dispatch` attaches to a final
-- report are not declared by `ReportPayload`, and are not written.
abbrev pub declared_payload : Option ReportPayload → Option ReportPayload
declared_payload none = none
declared_payload (some p) = some (record p { solution_report_path = none; solve_files = [] })

abbrev pub declared_report : SolveProblemReport → SolveProblemReport
declared_report r = record r { final_report = declared_payload r.final_report }

unfoldable pub reloaded : MainHarnessState → MainHarnessState
reloaded state = record state {
  reports = map declared_report state.reports;
  final_report = declared_payload state.final_report;
}

-- a row of main_harness_runs: its key, its version column and the state that is read of its JSON
pub record RunRow : Type 0 where
  pub run_id : ℕ
  pub version : ℕ
  pub state : MainHarnessState

abbrev pub Rows : Type 0
Rows = List RunRow

-- An operation reads and writes the repository, if the harness has one, and returns or raises.
abbrev pub Action {ℓ} : Type ℓ → Type ℓ
Action A = Option Rows → Result A × Option Rows

abbrev pub lift {ℓ} : {A : Type ℓ} → Result A → Action A
lift r repository = (r, repository)

abbrev pub bind_lift {ℓ κ} : {A : Type ℓ} {B : Type κ} → Result A → (A → Action B) → Action B
bind_lift (ok a) f = f a
bind_lift (err e) f = λ repository. (err e, repository)

-- a step that reads no repository and returns
pub bind_lift-ok {ℓ κ} :
    {A : Type ℓ} {B : Type κ} (r : Result A) (f : A → Action B) (repository : Option Rows) {b : B}
    → (bind_lift r f repository).0 ≡ ok b
    → (a : A) × (r ≡ ok a) × ((f a repository).0 ≡ ok b)
bind_lift-ok (ok a) f repository h = (a, refl, h)
bind_lift-ok (err e) f repository h = cc

infixl 5 ◌>>=◌ ◌>>◌
abbrev pub ◌>>=◌ {ℓ κ} : {A : Type ℓ} {B : Type κ} → Action A → (A → Action B) → Action B
◌>>=◌ m f repository = let (r, after) = m repository in bind_lift r f after

abbrev pub ◌>>◌ {ℓ} : {B : Type ℓ} → Action (Unit {0}) → Action B → Action B
m >> k = m >>= λ _. k

-- `if b: raise e`
abbrev pub raise_if : Bool → Error → Action (Unit {0})
raise_if true e = lift (err e)
raise_if false e = lift (ok tt)

pub raise_if-ok {ℓ} :
    {B : Type ℓ} (b : Bool) (e : Error) (m : Action B) (repository : Option Rows) {x : B}
    → ((raise_if b e >> m) repository).0 ≡ ok x
    → (b ≡ false) × ((m repository).0 ≡ ok x)
raise_if-ok true e m repository h = cc
raise_if-ok false e m repository h = (refl, h)

abbrev pub row_of : ℕ → Rows → Option RunRow
row_of run_id rows = find (λ r. r.run_id == run_id) rows

-- create: `run_id` is the primary key
unfoldable pub create_row : MainHarnessState → Rows → Result MainHarnessState × Rows
create_row state rows = elim (row_of state.run_id rows) [
  | none ↦ (
    ok state,
    rows ++ record { run_id = state.run_id; version = state.version; state = reloaded state } ∷ [],
  )
  | some _ ↦ (err conflict, rows)
]

pub get_row : ℕ → Rows → Result MainHarnessState
get_row run_id rows = elim (row_of run_id rows) [ none ↦ err not_found | some r ↦ ok r.state ]

abbrev pub is_target : ℕ → ℕ → RunRow → Bool
is_target run_id version r = r.run_id == run_id && r.version == version

unfoldable pub update_rows : MainHarnessState → ℕ → Rows → Rows
update_rows state expected [] = []
update_rows state expected (r ∷ rows) =
    let rest = update_rows state expected rows in
    (if is_target state.run_id expected r
      then record r { version = state.version; state = reloaded state }
      else r)
    ∷ rest

-- save: the UPDATE names the key and the expected version, and fails if no row fits
unfoldable pub save_row : MainHarnessState → ℕ → Rows → Result MainHarnessState × Rows
unfolding update_rows
save_row state expected rows =
    if any (is_target state.run_id expected) rows
    then (ok state, update_rows state expected rows)
    else (err conflict, rows)

abbrev pub in_repository :
    MainHarnessState → (Rows → Result MainHarnessState × Rows) → Action MainHarnessState
in_repository state write none = (ok state, none)
in_repository state write (some rows) = let (r, rows') = write rows in (r, some rows')

-- _commit
unfoldable pub commit : ℕ → MainHarnessState → ℕ → Action MainHarnessState
unfolding save_row
commit now state expected =
    let committed = record state { version = expected + 1; updated_at = now } in
    in_repository committed (save_row committed expected)

-- start
unfoldable pub start : String → DagTaskTable → ℕ → ℕ → Action MainHarnessState
start problem dag run_id now =
    let state = initial_state problem dag run_id now in in_repository state (create_row state)
