-- ===== src/Util/Differences/Laws.antt =====
-- The dicts before and after against the list of differences.
use mathlib.Core.Option
use openstack_osa_office_clu.Prelude.{
  Bool, true, false, [], ◌∷◌, ◌++◌, some, none, Option, String, string_eq, ◌=?◌, ◌≡◌, refl, arith,
  if◌then◌else◌, ◌∙◌, sym, ap,
}
use openstack_osa_office_clu.Prelude.Dict.{Dict, insert, lookup, lookup-insert, lookup-nil}
use openstack_osa_office_clu.Util.Differences.{
  Tracker, fill, get_before_after, has_difference_for, merge,
}

module _ {V : Type 0} where
  -- The last difference for a name, `old` where there is none.
  unfoldable pub last_for : String → Option (V × V) → Tracker V → Option (V × V)
  last_for name old [] = old
  last_for name old (item ∷ diff) =
      last_for name (if name =? item.name then some (item.active, item.parameter) else old) diff

  -- The two dicts hold the same names.
  lookup-fill :
      (name : String) (diff : Tracker V) (before after : Dict String V) (old : Option (V × V))
      → lookup name before ≡ Option.map (λ p. p.0) old
      → lookup name after ≡ Option.map (λ p. p.1) old
      → (lookup name (fill diff before after).0 ≡ Option.map (λ p. p.0) (last_for name old diff))
        × (lookup name (fill diff before after).1 ≡ Option.map (λ p. p.1) (last_for name old diff))
  unfolding fill last_for
  lookup-fill name [] before after old h k = (h, k)
  lookup-fill name (item ∷ diff) before after old h k =
      lookup-fill name diff (insert item.name item.active before)
        (insert item.name item.parameter after)
        (if name =? item.name then some (item.active, item.parameter) else old)
        (rw lookup-insert (ground arith)) (rw lookup-insert (ground arith))

  last_for-append :
      (name : String) (old : Option (V × V)) (a b : Tracker V)
      → last_for name old (a ++ b) ≡ last_for name (last_for name old a) b
  unfolding last_for
  last_for-append name old [] b = refl
  last_for-append name old (item ∷ a) b =
      last_for-append name (if name =? item.name then some (item.active, item.parameter) else old) a
        b

  -- `get_before_after` gives, for each name, the values of its last difference, and nothing for a
  -- name without a difference.
  pub lookup-get_before_after :
      (name : String) (diff : Tracker V)
      → (lookup name (get_before_after diff).0 ≡ Option.map (λ p. p.0) (last_for name none diff))
        × (lookup name (get_before_after diff).1 ≡ Option.map (λ p. p.1) (last_for name none diff))
  unfolding get_before_after
  lookup-get_before_after name diff =
      lookup-fill name diff [] [] none (lookup-nil name) (lookup-nil name)

  last_for-has_difference_for :
      (name : String) (old : Option (V × V)) (diff : Tracker V)
      → last_for name old diff
        ≡ (if has_difference_for name diff then last_for name none diff else old)
  unfolding last_for has_difference_for
  last_for-has_difference_for name old [] = refl
  last_for-has_difference_for name old (item ∷ diff) = ground (
    arith,
    string_eq.beq_iff name item.name,
    string_eq.beq_iff item.name name,
    last_for-has_difference_for name old diff,
    last_for-has_difference_for name (some (item.active, item.parameter)) diff,
  )

  -- After a merge both dicts show the values of the other tracker at each name that it has a
  -- difference for, and the tracker's own at every other name.
  pub get_before_after-merge :
      (name : String) (a b : Tracker V)
      → let from = if has_difference_for name b then b else a in
        (lookup name (get_before_after (merge a b)).0 ≡ lookup name (get_before_after from).0)
        × (lookup name (get_before_after (merge a b)).1 ≡ lookup name (get_before_after from).1)
  unfolding merge
  get_before_after-merge name a b =
      let from = if has_difference_for name b then b else a in
      let same : last_for name none (a ++ b) ≡ last_for name none from =
        last_for-append name none a b
        ∙ last_for-has_difference_for name (last_for name none a) b
        ∙ choose (has_difference_for name b) in
      let (x, y) = lookup-get_before_after name (a ++ b) in
      let (z, w) = lookup-get_before_after name from in
      (x ∙ ap (Option.map (λ p. p.0)) same ∙ sym z, y ∙ ap (Option.map (λ p. p.1)) same ∙ sym w)
    where
      choose :
          (t : Bool)
          → (if t then last_for name none b else last_for name none a)
            ≡ last_for name none (if t then b else a)
      choose true = refl
      choose false = refl
