-- ===== src/Plan/Config/Params.antt =====
-- makeReadPlanParam and makeSyncPlanParam of script_plan.go: the parameters of a query.
pub mod Shape
pub mod Tests
use oncecall.Prelude.{
  ℕ, zero, suc, ◌+◌, ◌-◌, Bool, true, false, Option, none, some, List, [], ◌∷◌, map, max, ltb, leb,
  if◌then◌else◌, length, set, replicate, ℤ, pos, pos_part, neg_part, ltb_ℤ, sub64, String, Dict,
}
use oncecall.Prelude.Atoi.{atoi}
use oncecall.Prelude.Outcome.{Outcome, returned, failed, panicked, ◌>>=◌}
use oncecall.Plan.{
  ParamBuffer, Error, source, out_len, not_number, not_setting, sentinel, get, max_size,
}
use oncecall.Plan.Config.{Dynamic, Fix, VmConf, Bind, ReadPlan, SyncPlan, Rows, Shared}

module _ {E : Type 0} where
  abbrev number : Option ℤ → Outcome (Error E) ℤ
  number none = failed not_number
  number (some n) = returned n

  -- The first loop of makeReadPlanParam: the largest position.
  pub max_key : Dict String Fix → ℕ → Outcome (Error E) ℕ
  unfolding atoi
  max_key [] k = returned k
  max_key ((key, fix) ∷ rest) k = number (atoi key) >>= λ conv. max_key rest (max k (pos_part conv))

  -- conv - 1, on 64 bits: a position below 1 is refused.
  pub position : ℤ → Outcome (Error E) ℕ
  position conv =
      let i = sub64 conv (pos 1) in
      if ltb_ℤ i (pos 0) then failed sentinel else returned (pos_part i)

module _ {E A : Type 0} where
  -- The value of a position of a read plan; `text` makes an `any` of a string.
  pub read_value : (String → A) → ParamBuffer A → ℤ → Fix → Outcome (Error E) (Option A)
  unfolding get
  read_value text b seq fix = elim fix.static_ [
    | some s ↦ returned (some (text s))
    | none ↦ elim fix.dynamic [ some d ↦ get b d.plan_idx d.col d.row seq | none ↦ returned none ]
  ]

  -- data[fixIdx] = …: an index past the end panics.
  abbrev store_at : List (Option A) → ℕ → Option A → Outcome (Error E) (List (Option A))
  store_at data_ i v = if ltb i (length data_) then returned (set data_ i v) else panicked

  -- The second loop of makeReadPlanParam.
  pub read_fix :
      (String → A)
      → ParamBuffer A
      → ℤ
      → Dict String Fix
      → List (Option A)
      → Outcome (Error E) (List (Option A))
  unfolding atoi position read_value
  read_fix text b seq [] data_ = returned data_
  read_fix text b seq ((key, fix) ∷ rest) data_ = number (atoi key) >>= λ conv.
      position conv >>= λ i. read_value text b seq fix >>= λ v.
      store_at data_ i v >>= λ data_'. read_fix text b seq rest data_'

  -- The loop of makeSyncPlanParam over the rows, for one dynamic position.
  pub sync_dynamic : ParamBuffer A → ℤ → Dynamic → ℕ → ℕ → Rows A → Outcome (Error E) (Rows A)
  unfolding get
  sync_dynamic b seq d i idx [] = returned []
  sync_dynamic b seq d i idx (row ∷ param) =
      if ltb_ℤ (pos idx) d.row
      then (sync_dynamic b seq d i (suc idx) param >>= λ rest. returned (row ∷ rest))
      else (get b d.plan_idx d.col (pos idx) seq >>= λ v.
          sync_dynamic b seq d i (suc idx) param >>= λ rest. returned (set row i v ∷ rest))

  pub sync_value : (String → A) → ParamBuffer A → ℤ → Fix → ℕ → Rows A → Outcome (Error E) (Rows A)
  unfolding sync_dynamic
  sync_value text b seq fix i param = elim fix.static_ [
    | some s ↦ returned (map (λ row. set row i (some (text s))) param)
    | none ↦ elim fix.dynamic [ some d ↦ sync_dynamic b seq d i 0 param | none ↦ failed sentinel ]
  ]

  -- The loop of makeSyncPlanParam over the positions.
  pub sync_fix :
      (String → A) → ParamBuffer A → ℤ → ℕ → Dict String Fix → Rows A → Outcome (Error E) (Rows A)
  unfolding atoi position sync_value
  sync_fix text b seq cols [] param = returned param
  sync_fix text b seq cols ((key, fix) ∷ rest) param = number (atoi key) >>= λ conv.
      position conv >>= λ i.
      (if leb cols i
        then failed out_len
        else (sync_value text b seq fix i param >>= λ p. sync_fix text b seq cols rest p))

module _ {E A : Type 0} (x : Shared E A) (text : String → A) where
  open x use {W}

  abbrev vm_result : Outcome E (Rows A) × W → Outcome (Error E) (Rows A) × W
  vm_result (returned rows, w) = (returned rows, w)
  vm_result (failed e, w) = (failed (source e), w)
  vm_result (panicked, w) = (panicked, w)

  -- Fix goes before the VM, and the VM before the rows of the plan before.
  abbrev read_bind : ParamBuffer A → ℤ → Bind → Rows A → W → Outcome (Error E) (Rows A) × W
  read_bind b seq bind prev w = elim bind.fix [
    | some fix ↦ (
      max_key fix 0 >>= λ k.
          read_fix text b seq fix (replicate k none) >>= λ data_. returned (data_ ∷ []),
      w,
    )
    | none ↦ elim bind.prev_vm [
      | some conf ↦ vm_result (x.vm_do conf prev w)
      | none ↦ (if bind.prev then returned prev else failed not_setting, w)
    ]
  ]

  pub make_read_plan_param :
      ParamBuffer A → ℤ → ReadPlan → Rows A → W → Outcome (Error E) (Rows A) × W
  unfolding max_key read_fix
  make_read_plan_param b seq plan prev w = elim plan.bind [
    | none ↦ (returned [], w)
    | some bind ↦ read_bind b seq bind prev w
  ]

  abbrev sync_sized : ParamBuffer A → ℤ → Dict String Fix → ℕ × ℕ → Outcome (Error E) (Rows A)
  sync_sized b seq fix (cols, rows) =
      sync_fix text b seq cols fix (replicate rows (replicate cols none))

  -- The VM goes before Fix, and Fix before the rows of the plan before.
  abbrev sync_bind : ParamBuffer A → ℤ → Bind → Rows A → W → Outcome (Error E) (Rows A) × W
  sync_bind b seq bind prev w = elim bind.prev_vm [
    | some conf ↦ vm_result (x.vm_do conf prev w)
    | none ↦ elim bind.fix [
      | some fix ↦ (max_size b >>= λ size. sync_sized b seq fix size, w)
      | none ↦ (if bind.prev then returned prev else failed not_setting, w)
    ]
  ]

  pub make_sync_plan_param :
      ParamBuffer A → ℤ → SyncPlan → Rows A → W → Outcome (Error E) (Rows A) × W
  unfolding sync_fix max_size
  make_sync_plan_param b seq plan prev w = elim plan.bind [
    | none ↦ (returned [], w)
    | some bind ↦ sync_bind b seq bind prev w
  ]
