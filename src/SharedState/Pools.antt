-- ===== src/SharedState/Pools.antt =====
-- What a reader of the state of state.go sees after each call.
use oncecall.Prelude.{
  ◌≡◌, refl, inl, inr, ite, true, false, Option-cases, List, ◌∷◌, arith, String, str_dec, Result,
  ok, err, is_ok,
}
use oncecall.SharedState.{
  ThreadKey, ThreadState, key_dec, running, stop, SharedState, new_shared_state, Error,
  exists_conn_pool, get_conn_pool, get_thread_state, pop_conn_pool, push_conn_pool,
  set_running_thread_state, set_stop_thread_state, delete_thread_state,
}
use oncecall.SharedState.SyncMap.{load, load_empty, delete, load-store, load-delete}

module _ {P : Type 0} where
  pub exists_conn_pool-get_conn_pool :
      (s : SharedState P) (ident : String)
      → exists_conn_pool s ident ≡ is_ok (get_conn_pool s ident)
  unfolding exists_conn_pool get_conn_pool
  exists_conn_pool-get_conn_pool s ident = ground arith

  abbrev pub replaced : Result Error P → List P → List P
  replaced (ok p) l = p ∷ l
  replaced (err e) l = l

  -- After a push the ident has the new pool and every other ident the one that it had; the pool that
  -- the ident had before, if any, was closed, and no other. After a pop the ident has none, every other
  -- ident has what it had, and nothing was closed.
  pub get_conn_pool-push_conn_pool :
      (s : SharedState P) (ident : String) (pool : P) (other : String)
      → (get_conn_pool (push_conn_pool s ident pool) other
          ≡ ite (str_dec ident other) (ok pool) (get_conn_pool s other))
        × ((push_conn_pool s ident pool).closed ≡ replaced (get_conn_pool s ident) s.closed)
        × (exists_conn_pool (pop_conn_pool s ident) other
            ≡ ite (str_dec ident other) false (exists_conn_pool s other))
        × ((pop_conn_pool s ident).closed ≡ s.closed)
  unfolding get_conn_pool push_conn_pool exists_conn_pool pop_conn_pool
  get_conn_pool-push_conn_pool s ident pool other =
      elim (Option-cases (load str_dec s.conn_pool ident)) [
        | inl n ↦ (
          ground (arith, load-store str_dec s.conn_pool ident other pool),
          ground arith,
          ground (arith, load-delete str_dec s.conn_pool ident other),
          refl,
        )
        | inr (p, k) ↦ (
          ground (
            arith,
            load-store str_dec (delete str_dec s.conn_pool ident) ident other pool,
            load-delete str_dec s.conn_pool ident other,
          ),
          ground arith,
          ground (arith, load-delete str_dec s.conn_pool ident other),
          refl,
        )
      ]

  -- A thread runs just after it was set running, stands still after it was set stopped, and is gone after
  -- it was deleted; no other thread is touched.
  pub get_thread_state_cases :
      (s : SharedState P) (key other : ThreadKey)
      → (get_thread_state (set_running_thread_state s key) other
          ≡ ite (key_dec key other) (true, true) (get_thread_state s other))
        × (get_thread_state (set_stop_thread_state s key) other
            ≡ ite (key_dec key other) (false, true) (get_thread_state s other))
        × (get_thread_state (delete_thread_state s key) other
            ≡ ite (key_dec key other) (false, false) (get_thread_state s other))
  unfolding get_thread_state set_running_thread_state set_stop_thread_state delete_thread_state
  get_thread_state_cases s key other = (
    ground (arith, load-store key_dec s.thread_state key other running),
    ground (arith, load-store key_dec s.thread_state key other stop),
    ground (arith, load-delete key_dec s.thread_state key other),
  )

  -- A thread that runs exists.
  pub get_thread_state_running :
      (s : SharedState P) (key : ThreadKey)
      → (get_thread_state s key).0 ≡ true
      → get_thread_state s key ≡ (true, true)
  unfolding get_thread_state
  get_thread_state_running s key h = ground arith

pub new_shared_state_empty :
    (P : Type 0) (ident : String) → exists_conn_pool (new_shared_state {P = P}) ident ≡ false
unfolding exists_conn_pool new_shared_state
new_shared_state_empty P ident = ground (arith, load_empty {V = P} str_dec ident)

pub new_shared_state_idle :
    (P : Type 0) (key : ThreadKey) → (get_thread_state (new_shared_state {P = P}) key).0 ≡ false
unfolding get_thread_state new_shared_state
new_shared_state_idle P key = ground (arith, load_empty {V = ThreadState} key_dec key)
