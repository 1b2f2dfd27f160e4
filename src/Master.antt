-- ===== src/Master.antt =====
-- cmd/oncecall_sync/entry/master.go and master/proc_exec.go: the master keeps one sync process running for
-- each ident of the database list. The operating system is Linux (proc_exec_linux.go).
pub mod Rounds
pub mod Tests
use oncecall.Prelude.{
  ℕ, Bool, true, false, Option, none, some, List, [], ◌∷◌, ◌++◌, ◌==◌, if◌then◌else◌, ite, String,
  str_dec, ℕ_discrete, Result, ok, err, Dict, lookup, put, delete, keys, not,
}

-- A line of the kernel's process table. A child that has ended stays in the table as a zombie until its
-- parent waits for it, and the master never does.
pub record Process : Type 0 where
  pub ppid : ℕ
  pub zombie : Bool

-- The answers of the system: what a fork of the ident gives now, and where /proc or a signal fails.
pub record Os (E : Type 0) : Type 0 where
  pub table : Dict ℕ Process
  pub fork : String → Result E ℕ
  pub stat_fault : ℕ → Option E
  pub status_fault : ℕ → Option E
  pub signal_fault : ℕ → Option E

-- `procs` gives the PID of the managed process; its Cmd is the process of that PID.
pub record ProcManager : Type 0 where
  pub root_pid : ℕ
  pub procs : Dict String ℕ

pub data Error (E : Type 0) : Type 0 where
  start_failed check_failed read_failed kill_failed : E → Error E
  not_found parent_mismatch : String → Error E

-- List
pub list : ProcManager → List String
list pm = keys pm.procs

module _ {E : Type 0} where
  -- os.Stat(/proc/pid): a fault, or whether the line is there.
  pub exists_proc_pid : Os E → ℕ → Result E Bool
  exists_proc_pid os pid = elim (lookup ℕ_discrete pid os.table) [
    | none ↦ ok false
    | some p ↦ elim (os.stat_fault pid) [ none ↦ ok true | some e ↦ err e ]
  ]

  -- The PPid line of /proc/pid/status; `gone` is the error of a file that is not there.
  pub read_ppid : E → Os E → ℕ → Result E ℕ
  read_ppid gone os pid = elim (lookup ℕ_discrete pid os.table) [
    | none ↦ err gone
    | some p ↦ elim (os.status_fault pid) [ none ↦ ok p.ppid | some e ↦ err e ]
  ]

  -- cmd.Process.Kill(), on a process that was not waited for: a zombie takes the signal too.
  pub kill_process : Os E → ℕ → Result E (Os E)
  kill_process os pid = elim (os.signal_fault pid) [
    | some e ↦ err e
    | none ↦ elim (lookup ℕ_discrete pid os.table) [
      | none ↦ ok os
      | some p ↦ ok (record os { table = put ℕ_discrete pid (record p { zombie = true }) os.table })
    ]
  ]

  -- Start: the new process is a child of the master.
  pub start : ProcManager → Os E → String → Result (Error E) (ℕ × ProcManager × Os E)
  start pm os ident = elim (os.fork ident) [
    | err e ↦ err (start_failed e)
    | ok pid ↦ ok (
      pid,
      record pm { procs = put str_dec ident pid pm.procs },
      record os {
        table = put ℕ_discrete pid (record { ppid = pm.root_pid; zombie = false }) os.table;
      },
    )
  ]

  abbrev is_child : ℕ → Result E ℕ → Bool
  is_child root (ok ppid) = ppid == root
  is_child root (err e) = false

  abbrev if_exists : Result E Bool → Bool → Bool
  if_exists (ok b) rest = if b then rest else false
  if_exists (err e) rest = false

  pub alive : E → ProcManager → Os E → String → Bool
  unfolding exists_proc_pid read_ppid
  alive gone pm os ident = elim (lookup str_dec ident pm.procs) [
    | none ↦ false
    | some pid ↦ if_exists (exists_proc_pid os pid) (is_child pm.root_pid (read_ppid gone os pid))
  ]

  -- Kill, for a process that is managed.
  abbrev kill_checked :
      ProcManager
      → String
      → Result E Bool
      → Result E ℕ
      → Result E (Os E)
      → Result (Error E) (ProcManager × Os E)
  kill_checked pm ident (err e) ppid killed = err (check_failed e)
  kill_checked pm ident (ok false) ppid killed = err (not_found ident)
  kill_checked pm ident (ok true) (err e) killed = err (read_failed e)
  kill_checked pm ident (ok true) (ok ppid) killed =
      if ppid == pm.root_pid
      then elim killed [
        | err e ↦ err (kill_failed e)
        | ok os ↦ ok (record pm { procs = delete str_dec ident pm.procs }, os)
      ]
      else err (parent_mismatch ident)

  pub kill : E → ProcManager → Os E → String → Result (Error E) (ProcManager × Os E)
  unfolding exists_proc_pid read_ppid kill_process
  kill gone pm os ident = elim (lookup str_dec ident pm.procs) [
    | none ↦ err (not_found ident)
    | some pid ↦
        kill_checked pm ident (exists_proc_pid os pid) (read_ppid gone os pid) (kill_process os pid)
  ]

  -- masterCurrentProcList: which idents of the list are alive, and which are down.
  pub current_proc_list : E → ProcManager → Os E → List String → List String × List String
  current_proc_list gone pm os [] = ([], [])
  current_proc_list gone pm os (s ∷ rest) =
      let r = current_proc_list gone pm os rest in
      if alive gone pm os s then (s ∷ r.0, r.1) else (r.0, s ∷ r.1)

  -- masterDownStart: stops at the first fault, and keeps what was started.
  pub down_start : ProcManager → Os E → List String → Option (Error E) × ProcManager × Os E
  down_start pm os [] = (none, pm, os)
  down_start pm os (l ∷ down) = elim (start pm os l) [
    | err e ↦ (some e, pm, os)
    | ok (pid, pm', os') ↦ down_start pm' os' down
  ]

  -- masterDownAliveProc: stops at the first fault.
  pub down_alive_proc : E → ProcManager → Os E → List String → Option (Error E) × ProcManager × Os E
  down_alive_proc gone pm os [] = (none, pm, os)
  down_alive_proc gone pm os (l ∷ kills) = elim (kill gone pm os l) [
    | err e ↦ (some e, pm, os)
    | ok (pm', os') ↦ down_alive_proc gone pm' os' kills
  ]

-- slices.Contains
pub contains : List String → String → Bool
contains [] v = false
contains (x ∷ xs) v = let rest = contains xs v in ite (str_dec x v) true rest

-- generic.Difference: what comes in and does not exist yet.
pub difference : List String → List String → List String
difference existing [] = []
difference existing (v ∷ incoming) =
    let rest = difference existing incoming in if contains existing v then rest else v ∷ rest

-- One turn of MasterEntry's loop, for a list that was read without an error: the two errors that it
-- logs, and the state after it.
pub record Turn (E : Type 0) : Type 0 where
  pub start_err : Option (Error E)
  pub kill_err : Option (Error E)
  pub manager : ProcManager
  pub system : Os E

pub master_turn : {E : Type 0} → E → ProcManager → Os E → List String → Turn E
master_turn gone pm os idents =
    let lists = current_proc_list gone pm os idents in
    let kill_list = difference lists.0 (list pm) in
    let started = down_start pm os lists.1 in
    let killed = down_alive_proc gone started.1 started.2 kill_list in
    record { start_err = started.0; kill_err = killed.0; manager = killed.1; system = killed.2 }
