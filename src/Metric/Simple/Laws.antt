-- ===== src/Metric/Simple/Laws.antt =====
-- What a reader of the metrics of simple.go sees after each call.
use oncecall.Prelude.{
  String, ◌≡◌, ◌≢◌, refl, ite, Option, none, some, [], ◌∷◌, arith, str_dec, Dict, lookup, put,
  lookup-put, lookup-delete,
}
use oncecall.Metric.{MetricExtension, last_of}
use oncecall.Metric.Simple.{
  Metrics, or_empty, or_nil, ensure, write_key, assignment, copy_keys, assignments,
  delete_from_name, reset, get, or_nought, plus_or, add_key, add,
}

module _ {F : Type 0} where
  -- The entry of a key, if there is one.
  abbrev pub entry : Dict String (Dict String F) → String → String → Option F
  entry m name key = lookup str_dec key (or_empty (lookup str_dec name m))

  entry-ensure :
      (s : Metrics F) (name other key : String)
      → entry (ensure s name) other key ≡ entry (or_nil s) other key
  unfolding ensure lookup
  entry-ensure s name other key =
      ground (
        arith,
        lookup-put str_dec name other (or_empty (lookup str_dec name (or_nil s))) (or_nil s),
      )

  entry-write_key :
      (name key : String) (v : F) (m : Dict String (Dict String F)) (other word : String)
      → entry (write_key name key v m) other word
        ≡ ite
            (str_dec name other)
            (ite (str_dec key word) (some v) (entry m other word))
            (entry m other word)
  unfolding write_key
  entry-write_key name key v m other word = ground (
    arith,
    lookup-put str_dec name other (put str_dec key v (or_empty (lookup str_dec name m))) m,
    lookup-put str_dec key word v (or_empty (lookup str_dec name m)),
  )

  -- The last entry of a key among the given data.
  abbrev later : Option F → Option F → Option F
  later none old = old
  later (some v) old = some v

  entry-copy_keys_ne :
      (name : String) (data_ : Dict String F) (m : Dict String (Dict String F))
      (other word : String)
      → name ≢ other
      → entry (copy_keys name data_ m) other word ≡ entry m other word
  unfolding copy_keys
  entry-copy_keys_ne name [] m other word h = refl
  entry-copy_keys_ne name ((key, v) ∷ data_) m other word h = ground (
    arith,
    entry-copy_keys_ne name data_ (write_key name key v m) other word h,
    entry-write_key name key v m other word,
  )

module _ {F : Type 0} (nought : F) (plus : F → F → F) where
  -- Assignment sets the one entry of its name and key and no other.
  pub get-assignment :
      (s : Metrics F) (name key : String) (v : F) (other word : String)
      → get nought plus (assignment s name key v) other word
        ≡ ite
            (str_dec name other)
            (ite (str_dec key word) v (get nought plus s other word))
            (get nought plus s other word)
  unfolding get assignment
  get-assignment s name key v other word =
      ground (
        arith,
        entry-write_key name key v (ensure s name) other word,
        entry-ensure s name other word,
      )

  -- Add adds to the one entry of its name and key; a key that is not there gets the value itself.
  pub get-add :
      (s : Metrics F) (name key : String) (v : F) (other word : String)
      → get nought plus (add nought plus s name key v) other word
        ≡ ite
            (str_dec name other)
            (ite
              (str_dec key word)
              (plus_or nought plus (entry (or_nil s) name key) v)
              (get nought plus s other word))
            (get nought plus s other word)
  unfolding get add add_key
  get-add s name key v other word = ground (
    arith,
    entry-write_key name key (plus_or nought plus (entry (ensure s name) name key) v)
        (ensure s name) other word,
    entry-ensure s name other word,
    entry-ensure s name name key,
  )

  -- DeleteFromName makes every key of the name read as 0 and leaves all other names alone.
  pub get-delete_from_name :
      (s : Metrics F) (name other word : String)
      → get nought plus (delete_from_name s name) other word
        ≡ ite (str_dec name other) nought (get nought plus s other word)
  unfolding get delete_from_name lookup
  get-delete_from_name s name other word =
      ground (arith, lookup-delete str_dec name other (or_nil s))

  -- Reset makes every entry read as 0.
  pub get-reset : (s : Metrics F) (name key : String) → get nought plus (reset s) name key ≡ nought
  unfolding get reset lookup
  get-reset s name key = refl

  entry-copy_keys :
      (name : String) (data_ : Dict String F) (m : Dict String (Dict String F)) (word : String)
      → or_nought nought plus (entry (copy_keys name data_ m) name word)
        ≡ last_of word data_ (or_nought nought plus (entry m name word))
  unfolding copy_keys last_of
  entry-copy_keys name [] m word = refl
  entry-copy_keys name ((key, v) ∷ data_) m word = ground (
    arith,
    entry-copy_keys name data_ (write_key name key v m) word,
    entry-write_key name key v m name word,
  )

  -- Assignments sets each key of the batch, under its name only, and leaves the other keys alone.
  pub get-assignments :
      (s : Metrics F) (name : String) (data_ : Dict String F) (other word : String)
      → get nought plus (assignments s name data_) other word
        ≡ ite
            (str_dec name other)
            (last_of word data_ (get nought plus s other word))
            (get nought plus s other word)
  unfolding get assignments
  get-assignments s name data_ other word = ground (
    arith,
    entry-copy_keys name data_ (ensure s name) word,
    entry-copy_keys_ne name data_ (ensure s name) other word,
    entry-ensure s name other word,
  )

  -- SimpleMetricExtension keeps what the pools rely on.
  abbrev pub simple_metric_extension : MetricExtension F
  simple_metric_extension = record {
    M = Metrics F;
    nought = nought;
    get = get nought plus;
    assignment = assignment;
    assignments = assignments;
    delete_from_name = delete_from_name;
    get-assignment_lem = get-assignment;
    get-assignments_lem = get-assignments;
    get-delete_lem = get-delete_from_name;
  }
