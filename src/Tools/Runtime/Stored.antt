-- ===== src/Tools/Runtime/Stored.antt =====
-- The durable store of infrastructure/db/tool_runs.py as the runtime's store of keys, at one time of the clock.
use mm_harness.Prelude.{ℕ, List, some}
use mm_harness.Errors.{ok}
use mm_harness.Tools.Reservations.{ToolRun, lookup, reserve, complete}
use mm_harness.Tools.Runtime.{ToolExecutionStore}

abbrev pub tool_runs : ℕ → ToolExecutionStore (List ToolRun)
tool_runs now = record {
  lookup = λ key runs. ok (lookup key runs);
  reserve = λ key lease token runs.
      let (granted, after) = reserve key lease token now runs in (ok granted, after);
  complete = λ key result token runs. complete key result (some token) now runs;
}
