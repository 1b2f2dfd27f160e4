-- ===== src/Fields/Response.antt =====
-- What ParseResponse of sh_conn.go returns.
use oncecall.Prelude.{ℕ, zero, suc, Option, none, some, List, [], ◌∷◌}

-- The fields, then nil up to `n` cells.
abbrev pub padded : ℕ → List (List ℕ) → List (Option (List ℕ))
padded zero [] = []
padded zero (f ∷ fs) = []
padded (suc n) [] = none ∷ padded n []
padded (suc n) (f ∷ fs) = some f ∷ padded n fs
