-- ===== src/LuaVm/Data.antt =====
-- What comes back from a Lua script that passes its input on.
use oncecall.Prelude.{
  ℕ, ◌<◌, ◌≡◌, ◌≢◌, refl, ap, ◌∙◌, inl, inr, none, some, Option-cases, List, [], ◌∷◌, arith, map,
  length, take, ok,
}
use oncecall.LuaVm.{
  Lua, nil, boolean, number, string, table, LuaCell, LuaRow, Top, Any, null, text, int, int64,
  float64, bool, bytes, unknown, Full, Interp, elements, byte_of, bytes_of, convert_lua_to_as_go,
  leaf_of, push_lua_from_go, push_row, push_rows, get_data, put_cells, put_rows, put_data,
}

take-length : {A : Type 0} (l : List A) → take (length l) l ≡ l
take-length [] = refl
take-length (a ∷ l) = ap (λ r. a ∷ r) (take-length l)

abbrev pub Bytes : List ℕ → Type 0
Bytes [] = Unit
Bytes (b ∷ l) = (b < 256) × Bytes l

-- A value that can be passed: a byte is below 256.
abbrev pub Passes : {N : Type 0} → Any N → Type 0
Passes null = Unit
Passes (text s) = Unit
Passes (int n) = Unit
Passes (int64 n) = Unit
Passes (float64 n) = Unit
Passes (bool b) = Unit
Passes (bytes bs) = Bytes bs
Passes unknown = ⊥

-- A row that can be passed: it has no nil.
abbrev pub RowPasses : {N : Type 0} → List (Any N) → Type 0
RowPasses [] = Unit
RowPasses (v ∷ row) = Passes v × (v ≢ null) × RowPasses row

abbrev pub RowsPass : {N : Type 0} → List (List (Any N)) → Type 0
RowsPass [] = Unit
RowsPass (row ∷ rows) = RowPasses row × RowsPass rows

module _ (x : Interp) where
  open x use {N}

  elements-Full : {T : Type 0} (l : List (Lua N T)) → Full l → elements x l ≡ l
  elements-Full l h = ap (λ n. take n l) (x.raw_length_full l h) ∙ take-length l

  -- How a value comes back: an integer and a text that reads as a number as a float.
  abbrev pub normal : Any N → Any N
  normal null = null
  normal (text s) = elim (x.parse s) [ none ↦ text s | some n ↦ float64 n ]
  normal (int n) = float64 (x.of_int n)
  normal (int64 n) = float64 (x.of_int n)
  normal (float64 n) = float64 n
  normal (bool b) = bool b
  normal (bytes bs) = bytes bs
  normal unknown = unknown

  leaves-Full : (bs : List ℕ) → Full (map (leaf_of x) bs)
  leaves-Full [] = tt
  leaves-Full (b ∷ bs) = (λ e. cc, leaves-Full bs)

  bytes_of-map : (bs : List ℕ) → Bytes bs → bytes_of x (map (leaf_of x) bs) ≡ ok bs
  unfolding bytes_of byte_of
  bytes_of-map [] h = refl
  bytes_of-map (b ∷ bs) h = ground (arith, x.to_int-of_int b h.0, bytes_of-map bs h.1)

  -- A value that can be passed is pushed, and what is pushed is converted to its normal form.
  pub convert_lua_to_as_go-push_lua_from_go :
      (v : Any N)
      → Passes v
      → (c : LuaCell N) × (push_lua_from_go x v ≡ ok c)
        × (convert_lua_to_as_go x c ≡ (none, normal v))
        × (v ≢ null → c ≢ nil)
  unfolding convert_lua_to_as_go push_lua_from_go
  convert_lua_to_as_go-push_lua_from_go null h = (nil, refl, refl, λ n. absurd (n refl))
  convert_lua_to_as_go-push_lua_from_go (text s) h = elim (Option-cases (x.parse s)) [
    | inl e ↦ (string s, refl, ground (arith, e), λ n e. cc)
    | inr (n, e) ↦ (string s, refl, ground (arith, e), λ n e. cc)
  ]
  convert_lua_to_as_go-push_lua_from_go (int n) h = (number (x.of_int n), refl, refl, λ n e. cc)
  convert_lua_to_as_go-push_lua_from_go (int64 n) h = (number (x.of_int n), refl, refl, λ n e. cc)
  convert_lua_to_as_go-push_lua_from_go (float64 n) h = (number n, refl, refl, λ n e. cc)
  convert_lua_to_as_go-push_lua_from_go (bool b) h = (boolean b, refl, refl, λ n e. cc)
  convert_lua_to_as_go-push_lua_from_go (bytes bs) h =
      let e = elements-Full (map (leaf_of x) bs) (leaves-Full bs) in
      let f = bytes_of-map bs h in
      (table (map (leaf_of x) bs), refl, ground (arith, e, f), λ n e. cc)
  convert_lua_to_as_go-push_lua_from_go unknown h = elim h [ ]

  put_cells-push_row :
      (row : List (Any N))
      → RowPasses row
      → (cs : List (LuaCell N)) × (push_row x row ≡ ok cs)
        × (put_cells x cs ≡ (none, map normal row))
        × Full cs
  unfolding push_row put_cells
  put_cells-push_row [] h = ([], refl, refl, tt)
  put_cells-push_row (v ∷ row) h =
      let (c, a, b, n) = convert_lua_to_as_go-push_lua_from_go v h.0 in
      let (cs, d, e, f) = put_cells-push_row row h.2 in
      (c ∷ cs, ground (arith, a, d), ground (arith, b, e), (n h.1, f))

  put_rows-push_rows :
      (rows : List (List (Any N)))
      → RowsPass rows
      → (rs : List (LuaRow N)) × (push_rows x rows ≡ ok rs)
        × (put_rows x rs ≡ (none, map (map normal) rows))
        × Full rs
  unfolding push_rows put_rows
  put_rows-push_rows [] h = ([], refl, refl, tt)
  put_rows-push_rows (row ∷ rows) h =
      let (cs, a, b, f) = put_cells-push_row row h.0 in
      let (rs, d, e, g) = put_rows-push_rows rows h.1 in
      let p = elements-Full cs f in
      (table cs ∷ rs, ground (arith, a, d), ground (arith, b, e, p), (λ n. cc, g))

  -- Rows of values that can be passed, with no nil, are given to a script, and when it puts them back as
  -- it got them, every cell comes back at its place, in its normal form.
  pub put_data-get_data :
      (rows output : List (List (Any N)))
      → RowsPass rows
      → (top : Top N) × (get_data x rows ≡ ok top)
        × (put_data x top output ≡ (none, map (map normal) rows))
  unfolding get_data put_data
  put_data-get_data rows output h =
      let (rs, a, b, f) = put_rows-push_rows rows h in
      let p = elements-Full rs f in (table rs, ground (arith, a), ground (arith, b, p))
