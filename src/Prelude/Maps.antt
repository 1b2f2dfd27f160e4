-- ===== src/Prelude/Maps.antt =====
-- Go's `map[K]V` as an association list: keys are compared by a decision, a write keeps the place of
-- an old key, and the order of the entries stands for the (unspecified) order of a `range` loop.
use mathlib.Core.Path.{◌≡◌, refl}
use mathlib.Core.Logic.{◌≢◌, ite}
use mathlib.Core.Bool.{Bool, true, false}
use mathlib.Core.List.{List, [], ◌∷◌, map}
use mathlib.Core.Option.{Option, none, some}
use native.Mathlib.Omega.{arith}

abbrev pub Dict {ℓ} : Type ℓ → Type ℓ → Type ℓ
Dict K V = List (K × V)

module _ {ℓ} {K V : Type ℓ} where
  abbrev pub keys : Dict K V → List K
  keys = map (λ e. e.0)

module _ {ℓ} {K : Type ℓ} (dec : Discrete K) where
  -- slices.Contains
  unfoldable pub contains : List K → K → Bool
  contains [] k = false
  contains (j ∷ l) k = ite (dec j k) true (contains l k)

  -- Nothing stands twice.
  abbrev pub Separate : List K → Type 0
  Separate [] = Unit
  Separate (k ∷ l) = (contains l k ≡ false) × Separate l

module _ {ℓ} {K V : Type ℓ} (dec : Discrete K) where
  -- v, ok := m[k]
  unfoldable pub lookup : K → Dict K V → Option V
  lookup k [] = none
  lookup k ((j, v) ∷ m) = ite (dec j k) (some v) (lookup k m)

  -- m[k] = v
  unfoldable pub put : K → V → Dict K V → Dict K V
  put k v [] = (k, v) ∷ []
  put k v ((j, w) ∷ m) = ite (dec j k) ((k, v) ∷ m) ((j, w) ∷ put k v m)

  -- delete(m, k)
  unfoldable pub delete : K → Dict K V → Dict K V
  delete k [] = []
  delete k ((j, v) ∷ m) = let rest = delete k m in ite (dec j k) rest ((j, v) ∷ rest)

  -- No key stands twice.
  abbrev pub Distinct : Dict K V → Type ℓ
  Distinct [] = Unit
  Distinct ((k, v) ∷ m) = (lookup k m ≡ none) × Distinct m

  pub lookup-put :
      (k j : K) (v : V) (m : Dict K V) → lookup j (put k v m) ≡ ite (dec k j) (some v) (lookup j m)
  unfolding lookup put
  lookup-put k j v [] = refl
  lookup-put k j v ((i, w) ∷ m) = ground (arith, lookup-put k j v m)

  pub lookup-put_self : (k : K) (v : V) (m : Dict K V) → lookup k (put k v m) ≡ some v
  lookup-put_self k v m = ground (arith, lookup-put k k v m)

  pub lookup-put_ne : (k j : K) (v : V) (m : Dict K V) → k ≢ j → lookup j (put k v m) ≡ lookup j m
  lookup-put_ne k j v m h = ground (arith, lookup-put k j v m)

  pub lookup-delete :
      (k j : K) (m : Dict K V) → lookup j (delete k m) ≡ ite (dec k j) none (lookup j m)
  unfolding lookup delete
  lookup-delete k j [] = ground arith
  lookup-delete k j ((i, w) ∷ m) = ground (arith, lookup-delete k j m)

  pub put-Distinct : (k : K) (v : V) (m : Dict K V) → Distinct m → Distinct (put k v m)
  unfolding put lookup
  put-Distinct k v [] h = (refl, tt)
  put-Distinct k v ((j, w) ∷ m) h = ground (arith, put-Distinct k v m, lookup-put k j v m)

  pub delete-Distinct : (k : K) (m : Dict K V) → Distinct m → Distinct (delete k m)
  unfolding delete lookup
  delete-Distinct k [] h = tt
  delete-Distinct k ((j, w) ∷ m) h = ground (arith, delete-Distinct k m, lookup-delete k j m)

module _ {K V : Type 0} (dec : Discrete K) where
  pub lookup_missing :
      (m : Dict K V) (k : K) → contains dec (keys m) k ≡ false → lookup dec k m ≡ none
  unfolding lookup contains
  lookup_missing [] k h = refl
  lookup_missing ((j, v) ∷ m) k h = ground (arith, lookup_missing m k)

  pub contains_missing :
      (m : Dict K V) (k : K) → lookup dec k m ≡ none → contains dec (keys m) k ≡ false
  unfolding lookup contains
  contains_missing [] k h = refl
  contains_missing ((j, v) ∷ m) k h = ground (arith, contains_missing m k)

  pub keys-Separate : (m : Dict K V) → Distinct dec m → Separate dec (keys m)
  keys-Separate [] h = tt
  keys-Separate ((k, v) ∷ m) h = (contains_missing m k h.0, keys-Separate m h.1)
