-- ===== src/Metric.antt =====
-- extension/metric: lib.go (the interface) and simple.go (its implementation, in Simple).
pub mod Simple
use oncecall.Prelude.{String, ◌≡◌, ite, str_dec, List, [], ◌∷◌, Dict}

-- What a batch leaves of a key: the value of its last entry, or what was there.
unfoldable pub last_of : {F : Type 0} → String → Dict String F → F → F
last_of word [] old = old
last_of word ((key, v) ∷ data_) old = last_of word data_ (ite (str_dec key word) v old)

-- MetricExtension as the pools use it: their calls, and what a reader may rely on. (`Add`, `Adds`,
-- `Reset` and `Print` are calls of no pool.)
pub record MetricExtension (F : Type 0) : Type 1 where
  pub M : Type 0
  pub nought : F
  pub get : M → String → String → F
  pub assignment : M → String → String → F → M
  pub assignments : M → String → Dict String F → M
  pub delete_from_name : M → String → M
  pub get-assignment_lem :
      (m : M) (name key : String) (v : F) (other word : String)
      → get (assignment m name key v) other word
        ≡ ite (str_dec name other) (ite (str_dec key word) v (get m other word)) (get m other word)
  pub get-assignments_lem :
      (m : M) (name : String) (data_ : Dict String F) (other word : String)
      → get (assignments m name data_) other word
        ≡ ite (str_dec name other) (last_of word data_ (get m other word)) (get m other word)
  pub get-delete_lem :
      (m : M) (name other word : String)
      → get (delete_from_name m name) other word
        ≡ ite (str_dec name other) nought (get m other word)
