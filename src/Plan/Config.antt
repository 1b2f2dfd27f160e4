-- ===== src/Plan/Config.antt =====
-- cmd/oncecall_sync/plan/script_plan.go: the types of a script (cfg/typed.go) and what a plan calls.
pub mod Params
pub mod Alloc
pub mod Run
pub mod Tests
use oncecall.Prelude.{ℕ, Bool, true, false, Option, none, some, List, [], ◌∷◌, ℤ, String, Dict}
use oncecall.Prelude.Outcome.{Outcome}

-- Where a cell of the parameters comes from: the buffer, or a text. `row` is RowIdx of a read plan and
-- StartSyncOffset of the sync plan.
pub record Dynamic : Type 0 where
  pub plan_idx : ℤ
  pub col : String
  pub row : ℤ

pub record Fix : Type 0 where
  pub dynamic : Option Dynamic
  pub static_ : Option String

pub record VmConf : Type 0 where
  pub lang : String
  pub script : String

-- The keys of `fix` are the positions, counted from 1, as texts.
pub record Bind : Type 0 where
  pub fix : Option (Dict String Fix)
  pub prev_vm : Option VmConf
  pub prev : Bool

pub record ReadPlan : Type 0 where
  pub read_ident : String
  pub bind : Option Bind
  pub tran : Bool
  pub query : String
  pub is_next : Option String

pub record SyncPlan : Type 0 where
  pub bind : Option Bind
  pub tran : Bool
  pub query : String

pub record SelfInit : Type 0 where
  pub query : String
  pub trigger_query : String

pub record OtherInit : Type 0 where
  pub query : List String
  pub trigger_query : String

pub record Init : Type 0 where
  pub self : List SelfInit
  pub other : Dict String OtherInit

pub record ScriptConfig : Type 0 where
  pub init : Option Init
  pub read : List ReadPlan
  pub sync : SyncPlan

-- [][]any, where the nil slice is the empty one.
abbrev pub Rows : Type 0 → Type 0
Rows A = List (List (Option A))

pub record Args (A : Type 0) : Type 0 where
  pub query : String
  pub args : Rows A
  pub is_transaction : Bool

-- What a plan calls: the pools of connections by their idents, and the VM. `W` is all that they work
-- on; a call gives its result and what it leaves.
pub record Shared (E A : Type 0) : Type 1 where
  pub W : Type 0
  pub has_pool : String → Bool
  pub run_query : String → Args A → W → Outcome E (Rows A × List String) × W
  pub run_execute : String → Args A → W → Outcome E (Unit {0}) × W
  pub vm_do : VmConf → Rows A → W → Outcome E (Rows A) × W
