-- ===== src/Syncd/Tests.antt =====
-- The theorems of entry/syncd.go at concrete states.
use oncecall.Prelude.{
  ℕ, ◌≡◌, ◌≢◌, refl, ◌⊎◌, true, false, none, some, List, [], ◌∷◌, arith, keys, ◌++◌, pos, String,
  Dict, lookup, str_dec, ℕ_discrete, Result, ok, err,
}
use oncecall.Fetch.Conns.{ConnConfig, no_config}
use oncecall.SharedState.{
  SharedState, exists_conn_pool, get_conn_pool, push_conn_pool, new_shared_state,
}
use oncecall.SharedState.SyncMap.{load}
use oncecall.SharedState.Pools.{new_shared_state_idle}
use oncecall.Syncd.{Script, PlanData, new_plan_state, reset_script, reset_script_plan}
use oncecall.Syncd.Plans.{wanted, reset_script_plan_cases}
use oncecall.Syncd.Pools.{ConnPools, reset_db_list}
use oncecall.Syncd.Pools.Reach.{Reaches, reset_db_list-Reaches}
use oncecall.Syncd.Threads.{Threads, visit, visits, Reach, here, next}
use oncecall.Syncd.Threads.Alone.{Alone, Reach-Alone}
use oncecall.Syncd.Entry.{Inputs, Process, new_process, syncd_entry, syncd_entry_pools}
use oncecall.Syncd.Parent.{is_parent_running, is_parent_running-stat}

abbrev script : Script
script = record {
  config = record {
    init = none;
    read = [];
    sync = record { bind = none; tran = false; query = "insert" };
  };
  option = some (record { row_buf_cap = 4; row_buf_idle_time = pos 0 });
}

abbrev no_script : ℕ × Script
no_script = (0, record script { option = none })

abbrev list : Dict String (ℕ × Script)
list = ("a", (1, script)) ∷ []

abbrev plan_map : Dict String (PlanData ℕ ℕ)
plan_map =
    ("b", record { hash = 2; plan = script; state = new_plan_state ("db", "b") 0 4 (pos 0) }) ∷ []

reset_script_plan_cases_example :
    ((m' : Dict String (PlanData ℕ ℕ)) × (reset_script_plan ℕ_discrete "db" no_script
          (keys list)
          list
          plan_map
        ≡ some m')
      × ((j : String)
          → load str_dec m' j ≡ elim (lookup str_dec j list) [
            | none ↦ none
            | some d ↦ wanted ℕ_discrete "db" j d (load str_dec plan_map j)
          ])
      × ((j : String) → lookup str_dec j list ≢ none → load str_dec m' j ≢ none))
    ⊎ ((reset_script_plan ℕ_discrete "db" no_script (keys list) list plan_map ≡ none)
        × ((k : String) × (d : ℕ × Script) × (lookup str_dec k list ≡ some d)
            × (d.1.option ≡ none)))
unfolding lookup
reset_script_plan_cases_example =
    reset_script_plan_cases ℕ_discrete "db" no_script list plan_map (refl, tt)

same_config :
    (ident : String) (info p : ConnConfig)
    → ◌≡◌ {A = Result ℕ ConnConfig} (ok info) (ok p)
    → p ≡ info
same_config ident info p h = cc

-- Pools that are their configurations.
abbrev configs : ConnPools ℕ
configs = record {
  P = ConnConfig;
  new_conn_pool = λ ident info. ok info;
  get_config = λ p. p;
  get_config-new_conn_pool = same_config;
}

abbrev state : SharedState ConnConfig
state = push_conn_pool new_shared_state "x" no_config

abbrev dbs : Dict String ConnConfig
dbs = ("x", record no_config { server = "host" }) ∷ []

reset_db_list-Reaches_example :
    ((other : String)
      → exists_conn_pool (reset_db_list configs (ok dbs) state).1 other
        ≡ exists_conn_pool state other)
    × ((ident : String) (info : ConnConfig)
        → (reset_db_list configs (ok dbs) state).0 ≡ ok tt
        → lookup str_dec ident dbs ≡ some info
        → Reaches configs (reset_db_list configs (ok dbs) state).1 ident info)
    × ((other : String)
        → lookup str_dec other dbs ≡ none
        → get_conn_pool (reset_db_list configs (ok dbs) state).1 other ≡ get_conn_pool state other)
unfolding lookup
reset_db_list-Reaches_example = reset_db_list-Reaches configs dbs state (refl, tt)

abbrev no_threads : Threads ConnConfig
no_threads = record { shared = new_shared_state; starting = []; running = [] }

no_threads-Alone : Alone no_threads
no_threads-Alone = record { single = λ k. omega arith; marked = new_shared_state_idle ConnConfig }

Reach-Alone_example : Alone (visit ("db", "a") no_threads)
Reach-Alone_example =
    Reach-Alone no_threads (visit ("db", "a") no_threads) (next here (visits ("db", "a") refl refl))
      no_threads-Alone

abbrev inputs : List (Inputs ℕ ℕ)
inputs = record { parent = true; db_list = ok []; scripts = err 5 } ∷ []

abbrev process : Process ConnConfig ℕ ℕ
process = new_process

stops : syncd_entry configs ℕ_discrete "db" no_script inputs process ≡ some (false, process)
unfolding syncd_entry reset_db_list reset_script
stops = refl

syncd_entry_pools_example : exists_conn_pool process.shared "x" ≡ false
syncd_entry_pools_example =
    syncd_entry_pools configs ℕ_discrete "db" no_script inputs process false "x" stops

-- 7 (a)b) S 1
is_parent_running-stat_example :
    is_parent_running
      (pos 7)
      (some ((55 ∷ 32 ∷ 40 ∷ 97 ∷ 41 ∷ 98 ∷ []) ++ 41 ∷ 32 ∷ 83 ∷ 32 ∷ 49 ∷ []))
    ≡ true
is_parent_running-stat_example =
    is_parent_running-stat (pos 7) (55 ∷ 32 ∷ 40 ∷ 97 ∷ 41 ∷ 98 ∷ []) (32 ∷ 49 ∷ []) 83 refl
      (ground arith) (ground arith, (ground arith, tt))
