-- ===== src/Metric/Simple.antt =====
-- extension/metric/simple.go: SimpleMetricExtension. `none` is the nil map.
pub mod Laws
pub mod Tests
use oncecall.Prelude.{String, str_dec, Option, none, some, List, [], ◌∷◌, Dict, lookup, put, delete}

abbrev pub Metrics : Type 0 → Type 0
Metrics F = Option (Dict String (Dict String F))

module _ {F : Type 0} where
  abbrev pub or_empty : Option (Dict String F) → Dict String F
  or_empty none = []
  or_empty (some d) = d

  -- Reading and ranging over a nil map find nothing.
  abbrev pub or_nil : Metrics F → Dict String (Dict String F)
  or_nil none = []
  or_nil (some m) = m

  -- if s.m == nil { s.m = make(…) }; if _, ok := s.m[name]; !ok { s.m[name] = make(…) }
  pub ensure : Metrics F → String → Dict String (Dict String F)
  ensure s name = put str_dec name (or_empty (lookup str_dec name (or_nil s))) (or_nil s)

  -- s.m[name][key] = value, for a name that is there.
  pub write_key : String → String → F → Dict String (Dict String F) → Dict String (Dict String F)
  write_key name key value m =
      put str_dec name (put str_dec key value (or_empty (lookup str_dec name m))) m

  pub assignment : Metrics F → String → String → F → Metrics F
  unfolding ensure write_key
  assignment s name key value = some (write_key name key value (ensure s name))

  -- maps.Copy(s.m[name], data)
  pub copy_keys : String → Dict String F → Dict String (Dict String F) → Dict String (Dict String F)
  copy_keys name [] m = m
  copy_keys name ((key, value) ∷ data_) m = copy_keys name data_ (write_key name key value m)

  pub assignments : Metrics F → String → Dict String F → Metrics F
  unfolding ensure
  assignments s name data_ = some (copy_keys name data_ (ensure s name))

  pub delete_from_name : Metrics F → String → Metrics F
  delete_from_name s name = elim (lookup str_dec name (or_nil s)) [
    | none ↦ s
    | some sub ↦ some (delete str_dec name (or_nil s))
  ]

  pub reset : Metrics F → Metrics F
  reset s = none

  -- The text of `json.Marshal` is the library's.
  pub print : (Dict String (Dict String F) → String) → Metrics F → String
  print marshal none = "{}"
  print marshal (some m) = marshal m

module _ {F : Type 0} (nought : F) (plus : F → F → F) where
  abbrev pub or_nought : Option F → F
  or_nought none = nought
  or_nought (some v) = v

  pub get : Metrics F → String → String → F
  get s name key = or_nought (lookup str_dec key (or_empty (lookup str_dec name (or_nil s))))

  -- if val, ok := s.m[name][key]; !ok { … = value } else { … = val + value }
  abbrev pub plus_or : Option F → F → F
  plus_or none value = value
  plus_or (some val) value = plus val value

  pub add_key : String → String → F → Dict String (Dict String F) → Dict String (Dict String F)
  unfolding write_key
  add_key name key value m =
      write_key name key (plus_or (lookup str_dec key (or_empty (lookup str_dec name m))) value) m

  pub add : Metrics F → String → String → F → Metrics F
  unfolding ensure add_key
  add s name key value = some (add_key name key value (ensure s name))

  pub add_keys : String → Dict String F → Dict String (Dict String F) → Dict String (Dict String F)
  add_keys name [] m = m
  add_keys name ((key, value) ∷ data_) m = add_keys name data_ (add_key name key value m)

  pub adds : Metrics F → String → Dict String F → Metrics F
  unfolding ensure
  adds s name data_ = some (add_keys name data_ (ensure s name))
