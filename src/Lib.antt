-- ===== src/Lib.antt =====
-- oncecall: a master process starts one sync process for each database; a sync process runs scripts,
-- each of which reads rows from some databases, keeps them in a buffer and writes them to its own.
--
-- The parts and how they meet. The master (Master) reads the list of databases and keeps a process for
-- each. In a sync process a plan (Plan, Plan/Config) runs a script: it takes connections from pools,
-- makes parameters out of a buffer (Plan) or of a VM, and stores what it reads in the buffer. A second
-- version of the buffer (Buffer) belongs to the new plan package. The sync process (Syncd) reads the
-- databases and the scripts (Fetch) and keeps pools (Factory) and plans by them. A pool of connections
-- (TimeoutPool) hands out connections to any number of callers and reports gauges to the metrics
-- (Metric).
--
--   Prelude      shared names, lists, integers and their 64-bit wrap, maps, texts, results, outcomes
--                with panics, strconv.Atoi
--   Buffer       cmd/oncecall_sync/plan/new/plan_buffer.go: ParamBuffer is planParamBufferImpl;
--                set_cell, set_cols_data, set_table, get, get_cols_data, Size.max_* are its methods
--   Metric       extension/metric/lib.go and simple.go: the interface with its laws, and its
--                implementation SimpleMetricExtension, which fills it
--   TimeoutPool  extension/pool/timeout_pool.go: Pool is TimeoutPoolExtension; `Use` is enter, acquire,
--                the caller, finish; Use/Steps is the step relation of all callers together
--   Master       cmd/oncecall_sync/entry/master.go, master/proc_exec.go and proc_exec_linux.go,
--                Difference of utils/generic: one turn of the loop is master_turn
--   Plan         cmd/oncecall_sync/plan/plan_buffer.go: get, set (set_cell), maxSize
--   Plan/Config  cmd/oncecall_sync/cfg/typed.go and plan/script_plan.go: Params makes the parameters,
--                Alloc stores rows, Run is init, runRead, runWrite and Run
--   SimplePool   extension/pool/simple_pool.go: SimplePoolExtension, related to the timeout pool by forget
--   SharedState  cmd/oncecall_sync/state/state.go over SyncMap of utils/generic/sync.go
--   Fetch        cmd/oncecall_sync/entry/master/db_fetcher.go (Idents) and entry/syncd/db_fetcher.go
--                (Conns: Self, DBList; Scripts: Script), over the managing database
--   Syncd        cmd/oncecall_sync/entry/syncd.go: the resets (Pools, and the plan map in Plans), the
--                loop of the process (Entry), the goroutines of syncdBackground (Threads); Parent is
--                syncd/proc_sync_linux.go
--   Factory      connpool/factory.go: ConnPool is connPool, over TimeoutPool; Fills gives Syncd its pools
--   PlanNew      cmd/oncecall_sync/plan/new/plan_impl.go: PlanV1, its Init, Run (Never) and the row that
--                readRunFixBind makes (Binds)
--   LuaVm        vm/lua/lua_vm.go: the conversions (Data) and Do of any script (Scripts)
--   StdSql       connpool/internal/connection/std_sql_conn.go: RunExecute (Execute), RunQuery (Query)
--   RotateWriter utils/log_file.go: write, rotate and close of the log file and its backups
--   UsePool      SyncUsePool of utils/generic/sync.go, and its counts (Stats)
--   Quotes       connpool/internal/utils/common.go: SplitRespectQuotesStr, and in Any its
--                copy SplitRespectQuotesAny
--   Fields       connpool/internal/utils/sh_conn.go: splitLine, countFields and ParseResponse
--
-- Conventions. `any` is a type of values with nil as none. Integers of Go are ℤ or, where the source
-- keeps them from being negative, ℕ; the int64 subtractions of times wrap (sub64). A map is an
-- association list without repeated keys, whose order stands for the order of a loop. A call under a
-- lock is one step. An error is a value of the model's own error type, and its text is left out; a
-- panic is `none` in the pools, Factory, Syncd and Fields, and `panicked` in the plans and Fetch. All
-- loops go over finite lists, so no fuel is needed; the endless loops of the processes are runs of a
-- step.
--
-- Parameters: the connections, the VM and the clock of a plan (Shared and an argument), Gen and the
-- clock of a pool, what the operating system answers to a fork, a look into /proc or a signal (Os), and
-- what it refuses a log file (Faults); the managing database (Manage), the TOML parser and MD5 of the
-- fetchers; the generators and connections of the factory (Around, Conn); database/sql (Db, Cursor); the
-- Lua interpreter with its numbers and the lengths of its tables (Interp).
--
-- Not modelled: the drivers and the other connections, the Lua interpreter, the unfinished reading of
-- the new plan, messages of the log, configuration files and start-up, and Windows.
pub mod Prelude
pub mod Buffer
pub mod Factory
pub mod Fetch
pub mod Fields
pub mod LuaVm
pub mod Master
pub mod Metric
pub mod Plan
pub mod PlanNew
pub mod Quotes
pub mod RotateWriter
pub mod SharedState
pub mod SimplePool
pub mod StdSql
pub mod Syncd
pub mod TimeoutPool
pub mod UsePool
