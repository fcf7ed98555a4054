-- ===== src/Prelude/Programs.antt =====
-- Methods that change an object and may raise: what they return, and the state behind them. What
-- was changed before an exception stays changed.
use mathlib.Core.Path.{◌≡◌, refl, ◌∙◌}
use mathlib.Core.List.{List, [], ◌∷◌}
use native.Mathlib.Omega.{arith}
use openstack_osa_office_clu.Prelude.Errors.{Result, ok, err}

abbrev pub Program : Type 0 → Type 0 → Type 0 → Type 0
Program E S A = S → Result E A × S

module _ {E S : Type 0} where
  abbrev pub pure : {A : Type 0} → A → Program E S A
  pure a s = (ok a, s)

  abbrev pub raise : {A : Type 0} → E → Program E S A
  raise e s = (err e, s)

  abbrev pub modify : (S → S) → Program E S (Unit {0})
  modify f s = (ok tt, f s)

  -- A call that only reads.
  abbrev pub reads : {A : Type 0} → (S → Result E A) → Program E S A
  reads f s = (f s, s)

  abbrev pub continue_with : {A B : Type 0} → (A → Program E S B) → Result E A × S → Result E B × S
  continue_with f (ok a, s) = f a s
  continue_with f (err e, s) = (err e, s)

  infixl 5 ◌>>=◌ ◌>>◌
  abbrev pub ◌>>=◌ : {A B : Type 0} → Program E S A → (A → Program E S B) → Program E S B
  ◌>>=◌ m f s = continue_with f (m s)

  abbrev pub ◌>>◌ : {A B : Type 0} → Program E S A → Program E S B → Program E S B
  m >> k = m >>= λ _. k

  -- `for x in xs: body(x)`
  unfoldable pub for_each :
      {A : Type 0} → (A → Program E S (Unit {0})) → List A → Program E S (Unit {0})
  for_each body [] s = (ok tt, s)
  for_each body (x ∷ xs) s = continue_with (λ _. for_each body xs) (body x s)

  -- What a program leaves alone, whatever it returns.
  abbrev pub Keeps : {A D : Type 0} → (S → D) → Program E S A → Type 0
  Keeps part m = (s : S) → part (m s).1 ≡ part s

  continue_with-Keeps :
      {A B D : Type 0} (part : S → D) (f : A → Program E S B) (d : D) (r : Result E A × S)
      → part r.1 ≡ d
      → ((a : A) → Keeps part (f a))
      → part (continue_with f r).1 ≡ d
  continue_with-Keeps part f d (ok a, t) e h = h a t ∙ e
  continue_with-Keeps part f d (err x, t) e h = e

  pub Keeps-bind :
      {A B D : Type 0} (part : S → D) (m : Program E S A) (f : A → Program E S B)
      → Keeps part m
      → ((a : A) → Keeps part (f a))
      → Keeps part (m >>= f)
  Keeps-bind part m f h k s = continue_with-Keeps part f (part s) (m s) (h s) k

  pub Keeps-for_each :
      {A D : Type 0} (part : S → D) (body : A → Program E S (Unit {0})) (xs : List A)
      → ((x : A) → Keeps part (body x))
      → Keeps part (for_each body xs)
  unfolding for_each
  Keeps-for_each part body [] h s = refl
  Keeps-for_each part body (x ∷ xs) h s =
      continue_with-Keeps part (λ _. for_each body xs) (part s) (body x s) (h x s)
        (λ _. Keeps-for_each part body xs h)

  -- Where a block returns, so did its first part.
  pub bind-eq-ok :
      {A B : Type 0} (f : A → Program E S B) (r : Result E A × S) {b : B} {t : S}
      → continue_with f r ≡ (ok b, t)
      → (a : A) × (u : S) × (r ≡ (ok a, u)) × (f a u ≡ (ok b, t))
  bind-eq-ok f (ok a, u) e = (a, u, refl, e)
  bind-eq-ok f (err x, u) e = absurd (ground arith)
