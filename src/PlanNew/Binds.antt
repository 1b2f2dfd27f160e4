-- ===== src/PlanNew/Binds.antt =====
-- The row that readRunFixBind of plan_impl.go makes.
use oncecall.Prelude.{
  ℕ, ◌+◌, Bool, false, Option, none, [], ◌∷◌, max, ◌==◌, if◌then◌else◌, String, Dict, Result, ok,
  err,
}
use oncecall.Buffer.{ParamBuffer}
use oncecall.Plan.Config.{Fix}
use oncecall.PlanNew.{PlanError, bound, position}

module _ (E : Type 0) {A : Type 0} (text : String → A) (b : ParamBuffer A) where
  abbrev ok_or_none : Result (PlanError E) (Option A) → Option A
  ok_or_none (ok v) = v
  ok_or_none (err e) = none

  abbrev at_place : Result (PlanError E) ℕ → ℕ → Bool
  at_place (ok n) i = n == i + 1
  at_place (err e) i = false

  abbrev place : Result (PlanError E) ℕ → ℕ
  place (ok n) = n
  place (err e) = 0

  -- What the last entry for the position `i` + 1 binds, or what was there.
  abbrev pub bound_at : Dict String Fix → ℕ → Option A → Option A
  bound_at [] i old = old
  bound_at ((key, fix) ∷ rest) i old =
      bound_at rest i (if at_place (position key) i then ok_or_none (bound text b fix) else old)

  -- The largest position.
  abbrev pub widest : Dict String Fix → ℕ → ℕ
  widest [] n = n
  widest ((key, fix) ∷ rest) n = widest rest (max (place (position key)) n)
