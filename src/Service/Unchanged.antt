-- ===== src/Service/Unchanged.antt =====
-- The tests of Changes on a value and the same value.
use openstack_osa_office_clu.Prelude.{
  ℕ, Bool, false, List, [], ◌∷◌, length, some, none, Option, String, Eq, beq_refl, string_eq,
  nat_eq, list_eq, option_eq, All, ◌≡◌, refl, arith, Bool-cases, inl, inr,
}
use openstack_osa_office_clu.Prelude.Dict.{Dict, lookup, NodupKeys, IsEntry, NodupKeys-IsEntry}
use openstack_osa_office_clu.Prelude.Text.{Text, has, split_once}
use openstack_osa_office_clu.Service.Sorting.{sort, insert_in, text_le}
use openstack_osa_office_clu.Service.{Values, Port, Attachment}
use openstack_osa_office_clu.Service.Changes

module _ {ℓ κ} {A : Type ℓ} (le : A → A → Bool) (P : A → Type κ) where
  insert_in-All : (x : A) (xs : List A) → P x → All P xs → All P (insert_in le x xs)
  unfolding insert_in
  insert_in-All x [] p h = (p, tt)
  insert_in-All x (y ∷ ys) p h = elim (Bool-cases (le x y)) [
    | inl e ↦ rw e (p, h)
    | inr e ↦ rw e (h.0, insert_in-All x ys p h.1)
  ]

  pub sort-All : (xs : List A) → All P xs → All P (sort le xs)
  unfolding sort
  sort-All [] h = tt
  sort-All (x ∷ xs) h = insert_in-All x (sort le xs) h.0 (sort-All xs h.1)

module _ {ℓ} {A : Type ℓ} (changed : A → A → Bool) where
  any_pair_refl :
      (xs : List A) → All (λ x. changed x x ≡ false) xs → Changes.any_pair changed xs xs ≡ false
  unfolding Changes.any_pair
  any_pair_refl [] h = refl
  any_pair_refl (x ∷ xs) h = rw h.0 (any_pair_refl xs h.1)

  All-always : ((x : A) → changed x x ≡ false) → (xs : List A) → All (λ x. changed x x ≡ false) xs
  All-always h [] = tt
  All-always h (x ∷ xs) = (h x, All-always h xs)

  abbrev pub AllSame : Option (List A) → Type 0
  AllSame none = Unit
  AllSame (some xs) = All (λ x. changed x x ≡ false) xs

  has_list_changed_refl :
      (arrange : List A → List A) (o : Option (List A))
      → ((xs : List A)
          → All (λ x. changed x x ≡ false) xs
          → All (λ x. changed x x ≡ false) (arrange xs))
      → AllSame o
      → Changes.has_list_changed arrange changed o o ≡ false
  unfolding Changes.has_list_changed
  has_list_changed_refl arrange none k h = refl
  has_list_changed_refl arrange (some xs) k h =
      rw (beq_refl (length xs)) (any_pair_refl (arrange xs) (k xs h))

pub has_changed_refl {ℓ} : {A : Type ℓ} ⦃e : Eq A⦄ (o : Option A) → Changes.has_changed o o ≡ false
has_changed_refl none = refl
has_changed_refl (some x) = rw (beq_refl x) refl

texts_differ_refl : (x : String) → Changes.texts_differ x x ≡ false
texts_differ_refl x = rw (beq_refl x) refl

AllSame-texts : (o : Option (List String)) → AllSame Changes.texts_differ o
AllSame-texts none = tt
AllSame-texts (some xs) = All-always Changes.texts_differ texts_differ_refl xs

pub have_texts_changed_refl : (o : Option (List String)) → Changes.have_texts_changed o o ≡ false
unfolding Changes.have_texts_changed
have_texts_changed_refl o =
    has_list_changed_refl Changes.texts_differ (λ xs. xs) o (λ xs h. h) (AllSame-texts o)

pub have_sorted_texts_changed_refl :
    (o : Option (List String)) → Changes.have_sorted_texts_changed o o ≡ false
unfolding Changes.have_sorted_texts_changed
have_sorted_texts_changed_refl o =
    has_list_changed_refl Changes.texts_differ (sort text_le) o (sort-All text_le _)
      (AllSame-texts o)

has_port_changed_refl : (x : Port) → Changes.has_port_changed x x ≡ false
unfolding Changes.has_port_changed
has_port_changed_refl x =
    rw (beq_refl x.protocol, beq_refl x.published_port, beq_refl x.target_port, beq_refl x.mode)
      (ground arith)

pub has_publish_changed_refl : (o : Option (List Port)) → Changes.has_publish_changed o o ≡ false
unfolding Changes.has_publish_changed Changes.has_list_changed
has_publish_changed_refl none = refl
has_publish_changed_refl (some xs) =
    has_list_changed_refl Changes.has_port_changed _ (some xs) (sort-All _ _)
      (All-always Changes.has_port_changed has_port_changed_refl xs)

split_once-none : (c : ℕ) (t : Text) → has c t ≡ false → split_once c t ≡ none
unfolding has split_once
split_once-none c [] h = refl
split_once-none c (x ∷ t) h = ground (arith, split_once-none c t)

pub has_image_changed_refl : (image : Text) → (Changes.has_image_changed image image).0 ≡ false
unfolding Changes.has_image_changed Changes.before_at
has_image_changed_refl image = elim (Bool-cases (has b'@' image)) [
  | inl e ↦ rw (e, beq_refl image) refl
  | inr e ↦ rw (e, split_once-none b'@' image e, Changes.before_at) (rw (beq_refl image) refl)
]

module _ {V : Type 0} (values : Values V) where
  pub has_value_changed_refl : (o : Option V) → Changes.has_value_changed values o o ≡ false
  has_value_changed_refl none = refl
  has_value_changed_refl (some v) = ground (arith, (values.equal.beq_iff v v).1 refl)

  entry_changed :
      (k : String) (o : Option V) (d : Dict String (Option V))
      → lookup k d ≡ some o
      → Changes.has_value_changed values o (Changes.get_value values k d) ≡ false
  entry_changed k o d h = rw (h, Changes.get_value) (has_value_changed_refl o)

  has_entry_changed_refl :
      (d xs : Dict String (Option V))
      → All (IsEntry d) xs
      → Changes.has_entry_changed values d xs ≡ false
  unfolding Changes.has_entry_changed
  has_entry_changed_refl d [] h = refl
  has_entry_changed_refl d ((k, o) ∷ xs) h =
      ground (arith, entry_changed k o d h.0, has_entry_changed_refl d xs h.1)

  pub has_dict_changed_refl :
      (d : Dict String (Option V))
      → NodupKeys d
      → Changes.has_dict_changed values (some d) (some d) ≡ false
  unfolding Changes.has_dict_changed
  has_dict_changed_refl [] u = refl
  has_dict_changed_refl (x ∷ d) u =
      has_entry_changed_refl (x ∷ d) (x ∷ d) (NodupKeys-IsEntry (x ∷ d) u)

  -- The dicts of a list have each key once.
  abbrev pub NodupAll : Option (List (Dict String (Option V))) → Type 0
  NodupAll none = Unit
  NodupAll (some ds) = All NodupKeys ds

  abbrev pub NodupOption : Option (Dict String (Option V)) → Type 0
  NodupOption none = Unit
  NodupOption (some d) = NodupKeys d

  pub has_option_changed_refl :
      (o : Option (Dict String (Option V)))
      → NodupOption o
      → Changes.has_dict_changed values o o ≡ false
  unfolding Changes.has_dict_changed
  has_option_changed_refl none u = refl
  has_option_changed_refl (some d) u = has_dict_changed_refl d u

  AllSame-dicts :
      (ds : List (Dict String (Option V)))
      → All NodupKeys ds
      → All (λ d. Changes.has_dict_changed values (some d) (some d) ≡ false) ds
  AllSame-dicts [] u = tt
  AllSame-dicts (d ∷ ds) u = (has_dict_changed_refl d u.0, AllSame-dicts ds u.1)

  pub have_dicts_changed_refl :
      (key : String) (o : Option (List (Dict String (Option V))))
      → NodupAll o
      → Changes.have_dicts_changed values key o o ≡ false
  unfolding Changes.have_dicts_changed Changes.has_list_changed
  have_dicts_changed_refl key none u = refl
  have_dicts_changed_refl key (some ds) u =
      has_list_changed_refl _ _ (some ds) (sort-All _ _) (AllSame-dicts ds u)

  pub have_dicts_changed_in_order_refl :
      (o : Option (List (Dict String (Option V))))
      → NodupAll o
      → Changes.have_dicts_changed_in_order values o o ≡ false
  unfolding Changes.have_dicts_changed_in_order Changes.has_list_changed
  have_dicts_changed_in_order_refl none u = refl
  have_dicts_changed_in_order_refl (some ds) u =
      has_list_changed_refl _ _ (some ds) (λ xs h. h) (AllSame-dicts ds u)

  aliases_differ_refl : (o : Option (List String)) → Changes.aliases_differ values o o ≡ false
  unfolding Changes.aliases_differ
  aliases_differ_refl none = refl
  aliases_differ_refl (some xs) = rw (beq_refl (sort text_le xs)) refl

  has_attachment_changed_refl :
      (x : Attachment V) → Changes.has_attachment_changed values x x ≡ false
  unfolding Changes.has_attachment_changed
  has_attachment_changed_refl x =
      rw (beq_refl x.id, aliases_differ_refl x.aliases, has_value_changed_refl x.options) refl

  pub have_networks_changed_refl :
      (o : Option (List (Attachment V))) → Changes.have_networks_changed values o o ≡ false
  unfolding Changes.have_networks_changed Changes.has_list_changed
  have_networks_changed_refl none = refl
  have_networks_changed_refl (some xs) =
      has_list_changed_refl _ _ (some xs) (sort-All _ _)
        (All-always (Changes.has_attachment_changed values) has_attachment_changed_refl xs)
