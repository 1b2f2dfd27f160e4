-- ===== src/Syncd.antt =====
-- cmd/oncecall_sync/entry/syncd.go: the sync process of one database. It resets the pools of connections
-- and the map of plans, and starts a thread for each plan.
pub mod Plans
pub mod Pools
pub mod Entry
pub mod Parent
pub mod Threads
pub mod Tests
use oncecall.Prelude.{
  ℕ, Bool, true, false, Option, none, some, List, [], ◌∷◌, length, ite, ℤ, pos, String, str_dec,
  Dict, lookup, keys, contains, Result, ok, err, if◌then◌else◌,
}
use oncecall.Prelude.Partial.{◌>>=◌}
use oncecall.Plan.{ParamBuffer, new_plan_param_buffer}
use oncecall.Plan.Config.{ScriptConfig}
use oncecall.SharedState.{ThreadKey}
use oncecall.SharedState.SyncMap.{load, store, delete}

-- Option of cfg.ScriptConfig; the capacity of the maps is a hint, and left out.
pub record PlanOption : Type 0 where
  pub row_buf_cap : ℕ
  pub row_buf_idle_time : ℤ

-- A script with its option; what else it says is a ScriptConfig of the plans.
pub record Script : Type 0 where
  pub config : ScriptConfig
  pub option : Option PlanOption

pub record PlanState (A : Type 0) : Type 0 where
  pub sync_ident : ThreadKey
  pub is_init : Bool
  pub seq : ℤ
  pub param_buffer : ParamBuffer A

pub record PlanData (H A : Type 0) : Type 0 where
  pub hash : H
  pub plan : Script
  pub state : PlanState A

pub new_plan_state : {A : Type 0} → ThreadKey → ℕ → ℕ → ℤ → PlanState A
new_plan_state sync_ident read_plan_count row_cap idle_time = record {
  sync_ident = sync_ident;
  is_init = false;
  seq = pos 0;
  param_buffer = new_plan_param_buffer read_plan_count row_cap idle_time;
}

-- scriptList[k]; `zero` is the zero value.
abbrev pub script_at : {H : Type 0} → H × Script → Dict String (H × Script) → String → H × Script
script_at zero list k = elim (lookup str_dec k list) [ none ↦ zero | some d ↦ d ]

module _ {H A : Type 0} where
  -- A script without an option is a nil dereference.
  pub new_plan_data : String → String → H × Script → Option (PlanData H A)
  new_plan_data sync_ident k (hash, script) = elim script.option [
    | none ↦ none
    | some option ↦ some (record {
      hash = hash;
      plan = script;
      state =
          new_plan_state (sync_ident, k) (length script.config.read) option.row_buf_cap
            option.row_buf_idle_time;
    })
  ]

  -- The Range of syncdResetScriptPlan, over the keys that it meets.
  pub remove_missing :
      List String → List String → Dict String (PlanData H A) → Dict String (PlanData H A)
  remove_missing ks [] m = m
  remove_missing ks (key ∷ rest) m =
      remove_missing ks rest (if contains str_dec ks key then m else delete str_dec m key)

  abbrev add_plan :
      String
      → Option (PlanData H A)
      → Dict String (PlanData H A)
      → Option (Dict String (PlanData H A))
  add_plan k p m = p >>= λ data_. some (store str_dec m k data_)

  module _ (hash_dec : Discrete H) (sync_ident : String) where
    -- The body of the second loop; Close of a script plan does nothing.
    pub reset_one :
        String → H × Script → Dict String (PlanData H A) → Option (Dict String (PlanData H A))
    unfolding new_plan_data
    reset_one k data_ m = elim (load str_dec m k) [
      | none ↦ add_plan k (new_plan_data sync_ident k data_) m
      | some already ↦ elim (hash_dec already.hash data_.0) [
        | yes same ↦ some m
        | no new ↦ add_plan k (new_plan_data sync_ident k data_) (delete str_dec m k)
      ]
    ]

    module _ (zero : H × Script) where
      pub reset_loop :
          Dict String (H × Script)
          → List String
          → Dict String (PlanData H A)
          → Option (Dict String (PlanData H A))
      unfolding reset_one
      reset_loop list [] m = some m
      reset_loop list (k ∷ ks) m = reset_one k (script_at zero list k) m >>= reset_loop list ks

      pub reset_script_plan :
          List String
          → Dict String (H × Script)
          → Dict String (PlanData H A)
          → Option (Dict String (PlanData H A))
      unfolding remove_missing reset_loop
      reset_script_plan ks list m = reset_loop list ks (remove_missing ks (keys m) m)

      -- syncdResetScript, on what the fetcher gave.
      unfoldable pub reset_script :
          {E : Type 0}
          → Result E (Dict String (H × Script))
          → Dict String (PlanData H A)
          → Option (Result E (Unit {0}) × Dict String (PlanData H A))
      unfolding reset_script_plan
      reset_script (err e) m = some (err e, m)
      reset_script (ok list) m = reset_script_plan (keys list) list m >>= λ m'. some (ok tt, m')
