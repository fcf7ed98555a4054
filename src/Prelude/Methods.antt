-- ===== src/Prelude/Methods.antt =====
-- The methods of an object that calls a daemon, as blocks: they read and change the state, and may
-- raise. The operators are shut, so that what a method keeps is proved by lemmas on its parts.
use mathlib.Core.Path.{◌≡◌, refl, ◌∙◌}
use mathlib.Core.Bool.{Bool, true, false}
use mathlib.Core.List.{List, [], ◌∷◌}
use openstack_osa_office_clu.Prelude.Errors.{Result, ok, err}
use openstack_osa_office_clu.Prelude.Tests.{if◌then◌else◌}
use openstack_osa_office_clu.Prelude.Programs.{Program, continue_with}

module _ {E S : Type 0} where
  unfoldable pub pure : {A : Type 0} → A → Program E S A
  pure a s = (ok a, s)

  unfoldable pub raise : {A : Type 0} → E → Program E S A
  raise e s = (err e, s)

  -- Reads a part of the state; changes it.
  unfoldable pub gets : {A : Type 0} → (S → A) → Program E S A
  gets f s = (ok (f s), s)

  unfoldable pub modify : (S → S) → Program E S (Unit {0})
  modify f s = (ok tt, f s)

  -- A call that only reads.
  unfoldable pub reads : {A : Type 0} → (S → Result E A) → Program E S A
  reads f s = (f s, s)

  infixl 5 ◌>>=◌ ◌>>◌
  unfoldable pub ◌>>=◌ : {A B : Type 0} → Program E S A → (A → Program E S B) → Program E S B
  ◌>>=◌ m f s = continue_with f (m s)

  abbrev pub ◌>>◌ : {A B : Type 0} → Program E S A → Program E S B → Program E S B
  m >> k = m >>= λ _. k

  unfoldable pub choose : {A : Type 0} → Bool → Program E S A → Program E S A → Program E S A
  choose b m k = if b then m else k

  -- `if b:` with nothing else to do.
  abbrev pub when : Bool → Program E S (Unit {0}) → Program E S (Unit {0})
  when b m = choose b m (pure tt)

  unfoldable pub for_each :
      {A : Type 0} → (A → Program E S (Unit {0})) → List A → Program E S (Unit {0})
  for_each body [] = pure tt
  for_each body (x ∷ xs) = body x >> for_each body xs

-- What a block leaves alone, whatever it returns.
pub record Keeps {E S A D : Type 0} (part : S → D) (m : Program E S A) : Type 0 where
  pub same : (s : S) → part (m s).1 ≡ part s

module _ {E S D : Type 0} {part : S → D} where
  pub pure-Keeps : {A : Type 0} (a : A) → Keeps {E = E} part (pure a)
  unfolding pure
  pure-Keeps a = record { same = λ s. refl }

  pub raise-Keeps : {A : Type 0} (e : E) → Keeps {A = A} part (raise e)
  unfolding raise
  raise-Keeps e = record { same = λ s. refl }

  pub gets-Keeps : {A : Type 0} (f : S → A) → Keeps {E = E} part (gets f)
  unfolding gets
  gets-Keeps f = record { same = λ s. refl }

  pub reads-Keeps : {A : Type 0} (f : S → Result E A) → Keeps part (reads f)
  unfolding reads
  reads-Keeps f = record { same = λ s. refl }

  pub modify-Keeps : (f : S → S) → ((s : S) → part (f s) ≡ part s) → Keeps {E = E} part (modify f)
  unfolding modify
  modify-Keeps f h = record { same = h }

  continue_with-Keeps :
      {A B : Type 0} (f : A → Program E S B) (d : D) (r : Result E A × S)
      → part r.1 ≡ d
      → ((a : A) → Keeps part (f a))
      → part (continue_with f r).1 ≡ d
  continue_with-Keeps f d (ok a, t) e h = (h a).same t ∙ e
  continue_with-Keeps f d (err x, t) e h = e

  pub bind-Keeps :
      {A B : Type 0} {m : Program E S A} {f : A → Program E S B}
      → Keeps part m
      → ((a : A) → Keeps part (f a))
      → Keeps part (m >>= f)
  unfolding ◌>>=◌
  bind-Keeps {m = m} {f = f} h k = record {
    same = λ s. continue_with-Keeps f (part s) (m s) (h.same s) k;
  }

  pub choose-Keeps :
      {A : Type 0} (b : Bool) {m k : Program E S A}
      → Keeps part m
      → Keeps part k
      → Keeps part (choose b m k)
  unfolding choose
  choose-Keeps true h j = h
  choose-Keeps false h j = j

  pub for_each-Keeps :
      {A : Type 0} {body : A → Program E S (Unit {0})} (xs : List A)
      → ((x : A) → Keeps part (body x))
      → Keeps part (for_each body xs)
  unfolding for_each
  for_each-Keeps [] h = pure-Keeps tt
  for_each-Keeps (x ∷ xs) h = bind-Keeps (h x) (λ _. for_each-Keeps xs h)

  -- A test that is known to hold takes the first way.
  pub choose-true-Keeps :
      {A : Type 0} (b : Bool) {m : Program E S A} (k : Program E S A)
      → b ≡ true
      → Keeps part m
      → Keeps part (choose b m k)
  unfolding choose
  choose-true-Keeps b k e h = rw e h

  pub choose-false-Keeps :
      {A : Type 0} (b : Bool) (m : Program E S A) {k : Program E S A}
      → b ≡ false
      → Keeps part k
      → Keeps part (choose b m k)
  unfolding choose
  choose-false-Keeps b m e h = rw e h

pub ruleset keeps_rules = (
  pure-Keeps, raise-Keeps, gets-Keeps, reads-Keeps, modify-Keeps, bind-Keeps, choose-Keeps,
  for_each-Keeps, choose-true-Keeps,
)
