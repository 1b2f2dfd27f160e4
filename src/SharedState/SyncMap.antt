-- ===== src/SharedState/SyncMap.antt =====
-- utils/generic/sync.go: SyncMap, and what its calls do to every key.
use oncecall.Prelude.{
  ◌≡◌, ◌≢◌, refl, Bool, true, false, Option, none, some, [], ◌∷◌, arith, ite, Dict, lookup, put,
  lookup-put, lookup-delete, Distinct, delete as remove, contains, keys, lookup_missing,
}

module _ {K V : Type 0} (dec : Discrete K) where
  pub load : Dict K V → K → Option V
  load m key = lookup dec key m

  pub store : Dict K V → K → V → Dict K V
  store m key value = put dec key value m

  pub delete : Dict K V → K → Dict K V
  delete m key = remove dec key m

  -- What is there afterwards, and whether it was there before.
  pub load_or_store : Dict K V → K → V → (V × Bool) × Dict K V
  load_or_store m key value = elim (lookup dec key m) [
    | none ↦ ((value, false), put dec key value m)
    | some v ↦ ((v, true), m)
  ]

  pub load_and_delete : Dict K V → K → Option V × Dict K V
  load_and_delete m key = (lookup dec key m, remove dec key m)

  -- The loop of Write, Read, RawRead and RawWrite: every entry of `src` is stored.
  pub write : Dict K V → Dict K V → Dict K V
  write m [] = m
  write m ((k, v) ∷ src) = write (put dec k v m) src

  abbrev pub first : Option V → Option V → Option V
  first none old = old
  first (some v) old = some v

  -- After a copy from `src` every key of `src` has its value there, and every other key the value that
  -- it had.
  pub load-write :
      (m src : Dict K V) (key : K)
      → Distinct dec src
      → load (write m src) key ≡ first (load src key) (load m key)
  unfolding load write lookup
  load-write m [] key h = refl
  load-write m ((k, v) ∷ src) key h =
      ground (arith, load-write (put dec k v m) src key h.1, lookup-put dec k key v m)

  pub load-store :
      (m : Dict K V) (key other : K) (v : V)
      → load (store m key v) other ≡ ite (dec key other) (some v) (load m other)
  unfolding load store
  load-store m key other v = lookup-put dec key other v m

  pub load-delete :
      (m : Dict K V) (key other : K)
      → load (delete m key) other ≡ ite (dec key other) none (load m other)
  unfolding load delete
  load-delete m key other = lookup-delete dec key other m

  -- LoadOrStore keeps a value that is there, tells so, and leaves every other key alone.
  pub load_or_store_lem :
      (m : Dict K V) (key other : K) (v : V)
      → ((load_or_store m key v).0.1 ≡ elim (load m key) [ none ↦ false | some w ↦ true ])
        × (load (load_or_store m key v).1 key ≡ some (load_or_store m key v).0.0)
        × (key ≢ other → load (load_or_store m key v).1 other ≡ load m other)
  unfolding load load_or_store
  load_or_store_lem m key other v =
      ground (arith, lookup-put dec key key v m, lookup-put dec key other v m)

  -- A key that Range does not meet is not there.
  pub load-keys : (m : Dict K V) (key : K) → contains dec (keys m) key ≡ false → load m key ≡ none
  unfolding load
  load-keys m key h = lookup_missing dec m key h

  pub load_empty : (key : K) → load [] key ≡ none
  unfolding load lookup
  load_empty key = refl
