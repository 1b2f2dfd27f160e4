-- ===== src/LuaVm.antt =====
-- vm/lua/lua_vm.go: luaVM, what passes between Go and a Lua script. The interpreter and its numbers are
-- parameters; a value on the stack is an argument, and the stack itself is left out.
pub mod Data
pub mod Scripts
pub mod Tests
use oncecall.Prelude.{
  ℕ, suc, ◌%◌, ◌≤◌, ◌<◌, ◌≡◌, ◌≢◌, Bool, true, false, ◌||◌, Option, none, some, List, [], ◌∷◌, map,
  length, take, replicate, ltb, if◌then◌else◌, ℤ, pos, pos_part, ltb_ℤ, String, Result, ok, err,
}

-- A Lua value whose tables are seen as `T`; `other` is a function, a userdata or a thread.
pub data Lua (N T : Type 0) : Type 0 where
  nil : Lua N T
  boolean : Bool → Lua N T
  number : N → Lua N T
  string : String → Lua N T
  table : T → Lua N T
  other : Lua N T

-- Tables by their array parts, as deep as the code looks.
abbrev pub Leaf : Type 0 → Type 0
Leaf N = Lua N (Unit {0})

abbrev pub LuaCell : Type 0 → Type 0
LuaCell N = Lua N (List (Leaf N))

abbrev pub LuaRow : Type 0 → Type 0
LuaRow N = Lua N (List (LuaCell N))

abbrev pub Top : Type 0 → Type 0
Top N = Lua N (List (LuaRow N))

-- A Go value in a cell; `none` of the plans' cells is `null` here.
pub data Any (N : Type 0) : Type 0 where
  null : Any N
  text : String → Any N
  int : ℤ → Any N
  int64 : ℤ → Any N
  float64 : N → Any N
  bool : Bool → Any N
  bytes : List ℕ → Any N
  unknown : Any N

-- No nil stands in the array part.
abbrev pub Full : {N T : Type 0} → List (Lua N T) → Type 0
Full [] = Unit
Full (v ∷ l) = (v ≢ nil) × Full l

-- The numbers of the interpreter, which texts it takes for numbers, and RawLength: a border of the table,
-- which is its length where it has no nil.
pub record Interp : Type 1 where
  pub N : Type 0
  pub of_int : ℤ → N
  pub to_int : N → ℤ
  pub parse : String → Option N
  pub raw_length : {T : Type 0} → List (Lua N T) → ℕ
  pub to_int-of_int : (n : ℕ) → n < 256 → to_int (of_int (pos n)) ≡ pos n
  pub raw_length_full : {T : Type 0} (l : List (Lua N T)) → Full l → raw_length l ≡ length l

pub data Error : Type 0 where
  not_a_number not_a_byte unsupported not_a_row not_a_table cast_failed : Error

module _ (x : Interp) where
  open x use {N}

  -- ToInteger, which takes a text for its number.
  abbrev to_integer : Leaf N → Option ℤ
  to_integer nil = none
  to_integer (boolean b) = none
  to_integer (number n) = some (x.to_int n)
  to_integer (string s) = elim (x.parse s) [ none ↦ none | some n ↦ some (x.to_int n) ]
  to_integer (table t) = none
  to_integer other = none

  -- The loop over the elements of a table: 256 passes the test, and byte(256) is 0.
  pub byte_of : Leaf N → Result Error ℕ
  byte_of leaf = elim (to_integer leaf) [
    | none ↦ err not_a_number
    | some i ↦
        if ltb_ℤ (pos 256) i || ltb_ℤ i (pos 0) then err not_a_byte else ok (pos_part i % 256)
  ]

  pub bytes_of : List (Leaf N) → Result Error (List ℕ)
  unfolding byte_of
  bytes_of [] = ok []
  bytes_of (leaf ∷ l) =
      let rest = bytes_of l in
      elim (byte_of leaf) [
        | err e ↦ err e
        | ok b ↦ elim rest [ err e ↦ err e | ok bs ↦ ok (b ∷ bs) ]
      ]

  abbrev elements : {T : Type 0} → List (Lua N T) → List (Lua N T)
  elements l = take (x.raw_length l) l

  -- The error, and the value, which is a nil []byte for a table that is refused.
  abbrev of_bytes : Result Error (List ℕ) → Option Error × Any N
  of_bytes (err e) = (some e, bytes [])
  of_bytes (ok bs) = (none, bytes bs)

  -- IsNumber comes before IsString, and holds for a text that is a number.
  pub convert_lua_to_as_go : LuaCell N → Option Error × Any N
  unfolding bytes_of
  convert_lua_to_as_go nil = (none, null)
  convert_lua_to_as_go (boolean b) = (none, bool b)
  convert_lua_to_as_go (number n) = (none, float64 n)
  convert_lua_to_as_go (string s) = elim (x.parse s) [
    | none ↦ (none, text s)
    | some n ↦ (none, float64 n)
  ]
  convert_lua_to_as_go (table l) = of_bytes (bytes_of (elements l))
  convert_lua_to_as_go other = (some unsupported, null)

  abbrev pub leaf_of : ℕ → Leaf N
  leaf_of b = number (x.of_int (pos b))

  pub push_lua_from_go : Any N → Result Error (LuaCell N)
  push_lua_from_go null = ok nil
  push_lua_from_go (text s) = ok (string s)
  push_lua_from_go (int n) = ok (number (x.of_int n))
  push_lua_from_go (int64 n) = ok (number (x.of_int n))
  push_lua_from_go (float64 n) = ok (number n)
  push_lua_from_go (bool b) = ok (boolean b)
  push_lua_from_go (bytes bs) = ok (table (map leaf_of bs))
  push_lua_from_go unknown = err unsupported

  pub push_row : List (Any N) → Result Error (List (LuaCell N))
  unfolding push_lua_from_go
  push_row [] = ok []
  push_row (v ∷ row) =
      let rest = push_row row in
      elim (push_lua_from_go v) [
        | err e ↦ err cast_failed
        | ok c ↦ elim rest [ err e ↦ err e | ok cs ↦ ok (c ∷ cs) ]
      ]

  pub push_rows : List (List (Any N)) → Result Error (List (LuaRow N))
  unfolding push_row
  push_rows [] = ok []
  push_rows (row ∷ rows) =
      let rest = push_rows rows in
      elim (push_row row) [
        | err e ↦ err e
        | ok cs ↦ elim rest [ err e ↦ err e | ok rs ↦ ok (table cs ∷ rs) ]
      ]

  -- oncecall_get_data
  pub get_data : List (List (Any N)) → Result Error (Top N)
  unfolding push_rows
  get_data rows = elim (push_rows rows) [ err e ↦ err e | ok rs ↦ ok (table rs) ]

  -- The cells of a row that are made before one is refused; the others stay nil.
  pub put_cells : List (LuaCell N) → Option Error × List (Any N)
  unfolding convert_lua_to_as_go
  put_cells [] = (none, [])
  put_cells (c ∷ cells) =
      let rest = put_cells cells in
      let v = convert_lua_to_as_go c in
      elim v.0 [
        | some e ↦ (some e, v.1 ∷ replicate (length cells) null)
        | none ↦ (rest.0, v.1 ∷ rest.1)
      ]

  pub put_rows : List (LuaRow N) → Option Error × List (List (Any N))
  unfolding put_cells
  put_rows [] = (none, [])
  put_rows (table cells ∷ rows) =
      let rest = put_rows rows in
      let row = put_cells (elements cells) in
      elim row.0 [
        | some e ↦ (some e, row.1 ∷ replicate (length rows) [])
        | none ↦ (rest.0, row.1 ∷ rest.1)
      ]
  put_rows (r ∷ rows) = (some not_a_row, replicate (suc (length rows)) [])

  -- oncecall_put_data: the error, and the new output.
  pub put_data : Top N → List (List (Any N)) → Option Error × List (List (Any N))
  unfolding put_rows
  put_data (table rows) output = put_rows (elements rows)
  put_data v output = (some not_a_table, output)
