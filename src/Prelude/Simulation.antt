-- ===== src/Prelude/Simulation.antt =====
-- Two programs that run side by side: where the first returns, the second returns the same.
use mathlib.Core.Path.{◌≡◌, refl, sym, ap, ◌∙◌}
use mathlib.Core.List.{List, [], ◌∷◌}
use openstack_osa_office_clu.Prelude.Errors.{ok}
use openstack_osa_office_clu.Prelude.Programs.{Program, continue_with, ◌>>=◌, for_each, bind-eq-ok}

module _ {E S : Type 0} where
  -- From states that are related by `R`, to states that are related by `Q`.
  abbrev pub Simulates :
      {A : Type 0} → (S → S → Type 0) → (S → S → Type 0) → Program E S A → Program E S A → Type 0
  Simulates {A} R Q m n =
      (s t : S) (a : A) (s' : S)
      → R s t
      → m s ≡ (ok a, s')
      → (t' : S) × (n t ≡ (ok a, t')) × Q s' t'

  pub Simulates-bind :
      {A B : Type 0} (R P Q : S → S → Type 0) (m n : Program E S A) (f g : A → Program E S B)
      → Simulates R P m n
      → ((a : A) → Simulates P Q (f a) (g a))
      → Simulates R Q (m >>= f) (n >>= g)
  Simulates-bind R P Q m n f g h k s t b s' r e =
      let (a, u, e1, e2) = bind-eq-ok f (m s) e in
      let (t1, e3, p) = h s t a u r e1 in
      let (t2, e4, q) = k a u t1 b s' p e2 in (t2, ap (continue_with g) e3 ∙ e4, q)

  pub Simulates-for_each :
      {A : Type 0} (R : S → S → Type 0) (body other : A → Program E S (Unit {0})) (xs : List A)
      → ((x : A) → Simulates R R (body x) (other x))
      → Simulates R R (for_each body xs) (for_each other xs)
  unfolding for_each
  Simulates-for_each R body other [] h = λ s t a s' r e. (t, refl, rw (sym (ap (λ p. p.1) e)) r)
  Simulates-for_each R body other (x ∷ xs) h =
      Simulates-bind R R R (body x) (other x) (λ _. for_each body xs) (λ _. for_each other xs) (h x)
        (λ _. Simulates-for_each R body other xs h)
