-- ===== src/Master/Tests.antt =====
-- The theorems of the master at concrete process tables.
use oncecall.Prelude.{ℕ, false, none, [], ◌∷◌, String, str_dec, Result, ok}
use oncecall.Master.{Process, Os, ProcManager}

-- "a" runs as 10 and "b" as 11; forks are numbered by the ident.
abbrev manager : ProcManager
manager = record { root_pid = 1; procs = ("a", 10) ∷ ("b", 11) ∷ [] }

abbrev child : Process
child = record { ppid = 1; zombie = false }

abbrev fork : String → Result ℕ ℕ
fork ident = elim (str_dec ident "c") [ yes _ ↦ ok 12 | no _ ↦ ok 13 ]

abbrev system : Os ℕ
system = record {
  table = (10, child) ∷ (11, child) ∷ [];
  fork = fork;
  stat_fault = λ _. none;
  status_fault = λ _. none;
  signal_fault = λ _. none;
}
