-- ===== src/Syncd/Entry.antt =====
-- The loop of SyncdEntry of entry/syncd.go. What the fetcher gives in a turn is an argument.
use oncecall.Prelude.{
  ◌≡◌, ◌∙◌, inl, inr, Bool, true, false, Bool-cases, Option, some, Option-cases, List, [], ◌∷◌,
  arith, String, Dict, Result, ok, err, Result-cases, is_ok, if◌then◌else◌,
}
use oncecall.Prelude.Partial.{◌>>=◌}
use oncecall.Fetch.Conns.{ConnConfig}
use oncecall.SharedState.{SharedState, new_shared_state, exists_conn_pool}
use oncecall.SharedState.Pools.{new_shared_state_empty}
use oncecall.Syncd.{Script, PlanData, reset_script}
use oncecall.Syncd.Pools.{ConnPools, ResetError, reset_db_list}
use oncecall.Syncd.Pools.Reach.{exists_conn_pool-reset_db_list}

-- Whether the parent process runs, the list of databases and the scripts of a turn.
pub record Inputs (E H : Type 0) : Type 0 where
  pub parent : Bool
  pub db_list : Result E (Dict String ConnConfig)
  pub scripts : Result E (Dict String (H × Script))

-- The shared state, and the plan map of the private one.
pub record Process (P H A : Type 0) : Type 0 where
  pub shared : SharedState P
  pub plan_map : Dict String (PlanData H A)

abbrev pub new_process : {P H A : Type 0} → Process P H A
new_process = record { shared = new_shared_state; plan_map = [] }

module _ {E H A : Type 0} (x : ConnPools E) (hash_dec : Discrete H) (sync_ident : String)
    (zero : H × Script) where
  open x use {P}

  abbrev after_scripts :
      SharedState P → Result E (Unit {0}) × Dict String (PlanData H A) → Bool × Process P H A
  after_scripts shared (r, m) = (is_ok r, record { shared = shared; plan_map = m })

  abbrev after_db_list :
      Inputs E H
      → Dict String (PlanData H A)
      → Result (ResetError E) (Unit {0}) × SharedState P
      → Option (Bool × Process P H A)
  after_db_list i m (err e, shared) = some (false, record { shared = shared; plan_map = m })
  after_db_list i m (ok done, shared) =
      reset_script hash_dec sync_ident zero i.scripts m >>= λ r. some (after_scripts shared r)

  -- Whether the loop goes on, and the state; `none` is a panic.
  unfoldable pub turn : Inputs E H → Process P H A → Option (Bool × Process P H A)
  turn i p =
      if i.parent
      then after_db_list i p.plan_map (reset_db_list x i.db_list p.shared)
      else some (false, p)

  unfoldable pub syncd_entry : List (Inputs E H) → Process P H A → Option (Bool × Process P H A)
  unfolding turn
  syncd_entry [] p = some (true, p)
  syncd_entry (i ∷ inputs) p =
      turn i p >>= λ r. if r.0 then syncd_entry inputs r.1 else some (false, r.1)

  turn_pools :
      (i : Inputs E H) (p p' : Process P H A) (b : Bool) (ident : String)
      → turn i p ≡ some (b, p')
      → exists_conn_pool p'.shared ident ≡ exists_conn_pool p.shared ident
  unfolding turn
  turn_pools i p p' b ident h =
      let there = exists_conn_pool-reset_db_list x i.db_list p.shared ident in
      let s1 = (reset_db_list x i.db_list p.shared).1 in
      elim (Bool-cases i.parent) [
        | inr n ↦ ground (arith, n)
        | inl n ↦ elim (Result-cases (reset_db_list x i.db_list p.shared).0) [
          | inr (e, k) ↦ ground (arith, n, k, there)
          | inl (u, k) ↦
              elim (Option-cases (reset_script hash_dec sync_ident zero i.scripts p.plan_map)) [
                | inl z ↦ ground (arith, n, k, z)
                | inr (r, z) ↦ ground (arith, n, k, z, there)
              ]
        ]
      ]

  syncd_entry_same :
      (inputs : List (Inputs E H)) (p p' : Process P H A) (b : Bool) (ident : String)
      → syncd_entry inputs p ≡ some (b, p')
      → exists_conn_pool p'.shared ident ≡ exists_conn_pool p.shared ident
  unfolding syncd_entry
  syncd_entry_same [] p p' b ident h = ground arith
  syncd_entry_same (i ∷ inputs) p p' b ident h = elim (Option-cases (turn i p)) [
    | inl n ↦ ground (arith, n)
    | inr ((go_on, q), n) ↦
        let first = turn_pools i p q go_on ident n in
        elim (Bool-cases go_on) [
          | inl g ↦ syncd_entry_same inputs q p' b ident (ground (arith, n, g)) ∙ first
          | inr g ↦ ground (arith, n, g, first)
        ]
  ]

  -- However many turns the process makes, and whatever the fetcher gives in them: the idents that have
  -- a pool stay the same, so that a new process has none at any time.
  pub syncd_entry_pools :
      (inputs : List (Inputs E H)) (p' : Process P H A) (b : Bool) (ident : String)
      → syncd_entry inputs new_process ≡ some (b, p')
      → exists_conn_pool p'.shared ident ≡ false
  syncd_entry_pools inputs p' b ident h =
      syncd_entry_same inputs new_process p' b ident h ∙ new_shared_state_empty P ident
