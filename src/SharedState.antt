-- ===== src/SharedState.antt =====
-- cmd/oncecall_sync/state/state.go and ident.go: what the threads of a sync process share, over the
-- maps of utils/generic/sync.go (SyncMap), whose calls are atomic.
pub mod SyncMap
pub mod Pools
use oncecall.Prelude.{
  Bool, true, false, Option, none, some, List, [], ◌∷◌, String, str_dec, Dict, Result, ok, err,
}
use oncecall.SharedState.SyncMap.{load, store, delete}

-- The database and the script.
abbrev pub ThreadKey : Type 0
ThreadKey = String × String

pub key_dec : Discrete ThreadKey
key_dec = hlevel str_dec

pub data ThreadState : Type 0 where
  running stop : ThreadState

abbrev is_running : ThreadState → Bool
is_running running = true
is_running stop = false

-- `closed` is the history of the pools that were closed here, newest first.
pub record SharedState (P : Type 0) : Type 0 where
  pub conn_pool : Dict String P
  pub thread_state : Dict ThreadKey ThreadState
  pub closed : List P

pub data Error : Type 0 where
  not_exists : String → Error

module _ {P : Type 0} where
  pub new_shared_state : SharedState P
  new_shared_state = record { conn_pool = []; thread_state = []; closed = [] }

  pub exists_conn_pool : SharedState P → String → Bool
  exists_conn_pool s ident = elim (load str_dec s.conn_pool ident) [ none ↦ false | some p ↦ true ]

  pub get_conn_pool : SharedState P → String → Result Error P
  get_conn_pool s ident = elim (load str_dec s.conn_pool ident) [
    | none ↦ err (not_exists ident)
    | some p ↦ ok p
  ]

  -- isRun, exists
  pub get_thread_state : SharedState P → ThreadKey → Bool × Bool
  get_thread_state s key = elim (load key_dec s.thread_state key) [
    | none ↦ (false, false)
    | some t ↦ (is_running t, true)
  ]

  -- The pool is not closed.
  pub pop_conn_pool : SharedState P → String → SharedState P
  pop_conn_pool s ident = record s { conn_pool = delete str_dec s.conn_pool ident }

  -- A pool that was there is closed and deleted first.
  pub push_conn_pool : SharedState P → String → P → SharedState P
  push_conn_pool s ident pool = elim (load str_dec s.conn_pool ident) [
    | none ↦ record s { conn_pool = store str_dec s.conn_pool ident pool }
    | some p ↦ record s {
      conn_pool = store str_dec (delete str_dec s.conn_pool ident) ident pool;
      closed = p ∷ s.closed;
    }
  ]

  pub set_running_thread_state : SharedState P → ThreadKey → SharedState P
  set_running_thread_state s key = record s {
    thread_state = store key_dec s.thread_state key running;
  }

  pub set_stop_thread_state : SharedState P → ThreadKey → SharedState P
  set_stop_thread_state s key = record s { thread_state = store key_dec s.thread_state key stop }

  pub delete_thread_state : SharedState P → ThreadKey → SharedState P
  delete_thread_state s key = record s { thread_state = delete key_dec s.thread_state key }
