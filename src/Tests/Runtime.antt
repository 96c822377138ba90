-- ===== src/Tests/Runtime.antt =====
-- A runtime that loads and instantiates a guest, which fails.
use wasrisc.Base.{◌+◌, [], some, none, true, codes}
use wasrisc.Wamr.{Runtime, Host, fails}

abbrev pub failing : Runtime
failing = record {
  inits = true;
  loads = some 1;
  instantiates = λ m. some (m + 1);
  executes = λ i. fails (codes "unreachable");
  error_buf = [];
  says = λ e. [];
}

abbrev idle : Host
idle = record { stdout = []; calls = []; status = none }
