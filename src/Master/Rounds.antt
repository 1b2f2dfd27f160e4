-- ===== src/Master/Rounds.antt =====
-- What a turn of the master's loop (entry/master.go) leaves managed.
use oncecall.Prelude.{
  ℕ, ◌≡◌, ◌∙◌, inl, inr, Bool, true, false, ◌&&◌, not, none, some, [], ◌∷◌, arith, Option-cases,
  String, str_dec, ℕ_discrete, ok, lookup, put, lookup-put, lookup-delete,
}
use oncecall.Master.{
  Process, Os, ProcManager, exists_proc_pid, read_ppid, kill_process, start, alive, kill, contains,
}

-- Whether the manager has a process for the ident.
abbrev pub known : ProcManager → String → Bool
known pm ident = elim (lookup str_dec ident pm.procs) [ none ↦ false | some pid ↦ true ]

-- The process table after the child `pid` has ended.
abbrev pub child_ends : {E : Type 0} → Os E → ℕ → Process → Os E
child_ends os pid p = record os { table = put ℕ_discrete pid (record p { zombie = true }) os.table }

killed_self : (pm : ProcManager) (v : String) → (not (contains (v ∷ []) v) && known pm v) ≡ false
unfolding contains
killed_self pm v = ground arith

module _ {E : Type 0} (gone : E) where
  known-kill :
      (pm pm' : ProcManager) (os os' : Os E) (l v : String)
      → kill gone pm os l ≡ ok (pm', os')
      → known pm' v ≡ (not (contains (l ∷ []) v) && known pm v)
  unfolding kill contains exists_proc_pid read_ppid kill_process
  known-kill pm pm' os os' l v e = ground (arith, lookup-delete str_dec l v pm.procs)

  unknown :
      (pm : ProcManager) (os : Os E) (v : String) → known pm v ≡ false → alive gone pm os v ≡ false
  unfolding alive
  unknown pm os v h = ground arith

  -- A process that was started is alive for the master, if /proc can be read for it, and a kill that
  -- succeeds leaves none that is.
  pub alive-start :
      (pm pm' : ProcManager) (os os' : Os E) (v : String) (pid : ℕ)
      → start pm os v ≡ ok (pid, pm', os')
      → os.stat_fault pid ≡ none
      → os.status_fault pid ≡ none
      → (alive gone pm' os' v ≡ true)
        × ((pm'' : ProcManager) (os'' : Os E)
            → kill gone pm' os' v ≡ ok (pm'', os'')
            → alive gone pm'' os'' v ≡ false)
  unfolding start alive exists_proc_pid read_ppid kill
  alive-start pm pm' os os' v pid e f g = (
    ground (
      arith,
      lookup-put str_dec v v pid pm.procs,
      lookup-put ℕ_discrete pid pid (record { ppid = pm.root_pid; zombie = false }) os.table,
    ),
    λ pm'' os'' k. unknown pm'' os'' v (known-kill pm' pm'' os' os'' v v k ∙ killed_self pm' v),
  )

  -- A child that has ended is as alive for the master as before, since nothing waits for it.
  pub alive-child_ends :
      (pm : ProcManager) (os : Os E) (pid : ℕ) (p : Process) (v : String)
      → lookup ℕ_discrete pid os.table ≡ some p
      → alive gone pm (child_ends os pid p) v ≡ alive gone pm os v
  unfolding alive exists_proc_pid read_ppid
  alive-child_ends pm os pid p v e = elim (Option-cases (lookup str_dec v pm.procs)) [
    | inl n ↦ ground arith
    | inr (q, k) ↦ ground (arith, lookup-put ℕ_discrete pid q (record p { zombie = true }) os.table)
  ]
