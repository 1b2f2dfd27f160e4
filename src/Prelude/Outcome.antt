-- ===== src/Prelude/Outcome.antt =====
-- What a Go call comes to: it returns, it fails with an error, or it panics.
use mathlib.Core.Path.{◌≡◌, refl}
use mathlib.Core.Logic.{◌⊎◌, inl, inr}

pub data Outcome (E A : Type 0) : Type 0 where
  returned : A → Outcome E A
  failed : E → Outcome E A
  panicked : Outcome E A

infixl 5 ◌>>=◌
abbrev pub ◌>>=◌ : {E A B : Type 0} → Outcome E A → (A → Outcome E B) → Outcome E B
returned a >>= f = f a
failed e >>= f = failed e
panicked >>= f = panicked

pub Outcome-cases :
    {E A : Type 0} (o : Outcome E A)
    → ((a : A) × (o ≡ returned a)) ⊎ (((e : E) × (o ≡ failed e)) ⊎ (o ≡ panicked))
Outcome-cases (returned a) = inl (a, refl)
Outcome-cases (failed e) = inr (inl (e, refl))
Outcome-cases panicked = inr (inr refl)

pub >>=-returned :
    {E A B : Type 0} (o : Outcome E A) (f : A → Outcome E B) {b : B}
    → (o >>= f) ≡ returned b
    → (a : A) × (o ≡ returned a) × (f a ≡ returned b)
>>=-returned (returned a) f h = (a, refl, h)
>>=-returned (failed e) f h = cc
>>=-returned panicked f h = cc
