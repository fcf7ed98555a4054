-- ===== src/Prelude/Hoare.antt =====
-- What a block ensures of its answer, and what it keeps true, in the style of Hoare's rules.
use mathlib.Core.Path.{◌≡◌, subst}
use mathlib.Core.Bool.{Bool, true, false}
use mathlib.Core.List.{List, [], ◌∷◌}
use openstack_osa_office_clu.Prelude.Errors.{Result, ok, err}
use openstack_osa_office_clu.Prelude.Programs.{Program, continue_with}
use openstack_osa_office_clu.Prelude.Methods.{pure, raise, modify, reads, ◌>>=◌, choose, for_each}

-- What holds of a block's answer, if it returns one, and of the state behind it.
abbrev pub OnReturn : {E S A : Type 0} (P : A → S → Type 0) → Result E A × S → Type 0
OnReturn P (ok a, s) = P a s
OnReturn P (err e, s) = Unit

pub record Ensures {E S A : Type 0} (P : A → S → Type 0) (m : Program E S A) : Type 0 where
  pub holds : (s : S) → OnReturn P (m s)

module _ {E S A B : Type 0} (P : B → S → Type 0) where
  continue_with-OnReturn :
      (f : A → Program E S B) (r : Result E A × S)
      → ((a : A) → Ensures P (f a))
      → OnReturn P (continue_with f r)
  continue_with-OnReturn f (ok a, s) h = (h a).holds s
  continue_with-OnReturn f (err e, s) h = tt

  -- The last part of a block decides.
  pub bind-Ensures :
      (m : Program E S A) (f : A → Program E S B)
      → ((a : A) → Ensures P (f a))
      → Ensures P (m >>= f)
  unfolding ◌>>=◌
  bind-Ensures m f h = record { holds = λ s. continue_with-OnReturn f (m s) h }

  -- A block whose first part ensures what the second one needs.
  pub bind-after-Ensures :
      {Q : A → S → Type 0} (m : Program E S A) (f : A → Program E S B)
      → Ensures Q m
      → ((a : A) (s : S) → Q a s → OnReturn P (f a s))
      → Ensures P (m >>= f)
  unfolding ◌>>=◌
  bind-after-Ensures {Q = Q} m f h k = record { holds = λ s. after (m s) (h.holds s) }
    where
      after : (r : Result E A × S) → OnReturn Q r → OnReturn P (continue_with f r)
      after (ok a, s) q = k a s q
      after (err e, s) q = tt

pub choose-true-Ensures :
    {E S A : Type 0} {P : A → S → Type 0} (b : Bool) {m : Program E S A} (k : Program E S A)
    → b ≡ true
    → Ensures P m
    → Ensures P (choose b m k)
unfolding choose
choose-true-Ensures b k e h = rw e h

-- Where a block returns, what it ensures is so.
pub OnReturn-ok :
    {E S A : Type 0} (P : A → S → Type 0) (r : Result E A × S) (a : A) (s : S)
    → r ≡ (ok a, s)
    → OnReturn P r
    → P a s
OnReturn-ok P r a s e h = subst (OnReturn P) e h

-- What is so before a block is so behind it, whatever it returns.
pub record Holds {E S A : Type 0} (I : S → Type 0) (m : Program E S A) : Type 0 where
  pub kept : (s : S) → I s → I (m s).1

module _ {E S : Type 0} {I : S → Type 0} where
  pub pure-Holds : {A : Type 0} (a : A) → Holds {E = E} I (pure a)
  unfolding pure
  pure-Holds a = record { kept = λ s h. h }

  pub raise-Holds : {A : Type 0} (e : E) → Holds {A = A} I (raise e)
  unfolding raise
  raise-Holds e = record { kept = λ s h. h }

  pub reads-Holds : {A : Type 0} (f : S → Result E A) → Holds I (reads f)
  unfolding reads
  reads-Holds f = record { kept = λ s h. h }

  pub modify-Holds : (f : S → S) → ((s : S) → I s → I (f s)) → Holds {E = E} I (modify f)
  unfolding modify
  modify-Holds f h = record { kept = h }

  continue_with-Holds :
      {A B : Type 0} (f : A → Program E S B) (r : Result E A × S)
      → I r.1
      → ((a : A) → Holds I (f a))
      → I (continue_with f r).1
  continue_with-Holds f (ok a, t) e h = (h a).kept t e
  continue_with-Holds f (err x, t) e h = e

  pub bind-Holds :
      {A B : Type 0} {m : Program E S A} {f : A → Program E S B}
      → Holds I m
      → ((a : A) → Holds I (f a))
      → Holds I (m >>= f)
  unfolding ◌>>=◌
  bind-Holds {m = m} {f = f} h k = record {
    kept = λ s i. continue_with-Holds f (m s) (h.kept s i) k;
  }

  pub choose-Holds :
      {A : Type 0} (b : Bool) {m k : Program E S A} → Holds I m → Holds I k → Holds I (choose b m k)
  unfolding choose
  choose-Holds true h j = h
  choose-Holds false h j = j

  pub for_each-Holds :
      {A : Type 0} {body : A → Program E S (Unit {0})} (xs : List A)
      → ((x : A) → Holds I (body x))
      → Holds I (for_each body xs)
  unfolding for_each
  for_each-Holds [] h = pure-Holds tt
  for_each-Holds (x ∷ xs) h = bind-Holds (h x) (λ _. for_each-Holds xs h)

pub ruleset holds_rules =
    (pure-Holds, raise-Holds, reads-Holds, modify-Holds, bind-Holds, choose-Holds, for_each-Holds)

-- From what is so before a block to what is so behind it, whatever it returns.
pub record Leads {E S A : Type 0} (I J : S → Type 0) (m : Program E S A) : Type 0 where
  pub led : (s : S) → I s → J (m s).1

module _ {E S : Type 0} {I J : S → Type 0} (weaker : (s : S) → I s → J s) where
  pub before-Leads : {A : Type 0} {m : Program E S A} → Holds I m → Leads I J m
  before-Leads {m = m} h = record { led = λ s i. weaker (m s).1 (h.kept s i) }

  pub behind-Leads : {A : Type 0} {m : Program E S A} → Holds J m → Leads I J m
  behind-Leads h = record { led = λ s i. h.kept s (weaker s i) }

  -- The change is in the later part, or in the first one.
  pub later-Leads :
      {A B : Type 0} {m : Program E S A} {f : A → Program E S B}
      → Holds I m
      → ((a : A) → Leads I J (f a))
      → Leads I J (m >>= f)
  unfolding ◌>>=◌
  later-Leads {m = m} {f = f} h k = record { led = λ s i. after (m s) (h.kept s i) }
    where
      after : (r : Result E _ × S) → I r.1 → J (continue_with f r).1
      after (ok a, t) i = (k a).led t i
      after (err e, t) i = weaker t i

module _ {E S : Type 0} {I J : S → Type 0} where
  pub first-Leads :
      {A B : Type 0} {m : Program E S A} {f : A → Program E S B}
      → Leads I J m
      → ((a : A) → Holds J (f a))
      → Leads I J (m >>= f)
  unfolding ◌>>=◌
  first-Leads {m = m} {f = f} h k = record {
    led = λ s i. continue_with-Holds f (m s) (h.led s i) k;
  }

  pub choose-Leads :
      {A : Type 0} (b : Bool) {m k : Program E S A}
      → Leads I J m
      → Leads I J k
      → Leads I J (choose b m k)
  unfolding choose
  choose-Leads true h j = h
  choose-Leads false h j = j
