-- ===== src/Prelude/Errors.antt =====
-- Results of code that raises: a value, or the exception.
use mathlib.Core.Path.{◌≡◌, refl}
use mathlib.Core.Logic.{◌⊎◌, inl, inr}

pub data Result {ℓ κ} (E : Type ℓ) (A : Type κ) : Type (ℓ ⊔ κ) where
  ok : A → Result E A
  err : E → Result E A

infixl 5 ◌>>=◌
-- The rest of a block runs where the first part returns; an exception passes through.
abbrev pub ◌>>=◌ {ℓ κ μ} :
    {E : Type ℓ} {A : Type κ} {B : Type μ} → Result E A → (A → Result E B) → Result E B
err raised >>= rest = err raised
ok returned >>= rest = rest returned

module _ {ℓ κ μ} {E : Type ℓ} {A : Type κ} {B : Type μ} where
  -- Where a block returns, so does its first part.
  pub >>=-eq-ok :
      (first : Result E A) (rest : A → Result E B) {answer : B}
      → (first >>= rest) ≡ ok answer
      → (a : A) × (first ≡ ok a) × (rest a ≡ ok answer)
  >>=-eq-ok (err raised) rest e = cc
  >>=-eq-ok (ok returned) rest e = (returned, refl, e)

  pub >>=-eq-err :
      (first : Result E A) (rest : A → Result E B) {raised : E}
      → (first >>= rest) ≡ err raised
      → (first ≡ err raised) ⊎ ((a : A) × (first ≡ ok a) × (rest a ≡ err raised))
  >>=-eq-err (err raised) rest e = inl cc
  >>=-eq-err (ok returned) rest e = inr (returned, refl, e)

pub Result-cases {ℓ κ} :
    {E : Type ℓ} {A : Type κ} (r : Result E A) → ((a : A) × (r ≡ ok a)) ⊎ ((e : E) × (r ≡ err e))
Result-cases (ok a) = inl (a, refl)
Result-cases (err e) = inr (e, refl)
