-- ===== src/Fields/Tests.antt =====
-- The fields of sh_conn.go on one response.
use oncecall.Prelude.{List, [], ◌∷◌, ℕ, ◌+◌}

-- a,"b,c" and d, parted by a newline.
abbrev response : List ℕ
response = 97 ∷ 44 ∷ 34 ∷ 98 ∷ 44 ∷ 99 ∷ 34 ∷ 10 ∷ 100 ∷ []

abbrev newline : List ℕ
newline = 10 ∷ []

abbrev comma : List ℕ
comma = 44 ∷ []

abbrev itoa : ℕ → List ℕ
itoa n = (48 + n) ∷ []
