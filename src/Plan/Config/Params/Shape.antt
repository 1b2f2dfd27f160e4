-- ===== src/Plan/Config/Params/Shape.antt =====
-- The shape of the parameters that makeSyncPlanParam of script_plan.go makes.
use oncecall.Prelude.{ℕ, ◌≡◌, [], ◌∷◌, length}
use oncecall.Plan.Config.{Rows}

-- Every row has `cols` cells.
abbrev pub Wide : {A : Type 0} → ℕ → Rows A → Type 0
Wide cols [] = Unit
Wide cols (row ∷ param) = (length row ≡ cols) × Wide cols param

abbrev pub Sized : {A : Type 0} → ℕ → ℕ → Rows A → Type 0
Sized cols rows param = (length param ≡ rows) × Wide cols param
