-- ===== src/Service/Changes.antt =====
-- How docker_swarm_service tells that a parameter of a service has changed: `has_dict_changed`,
-- `has_list_changed`, `have_networks_changed`, and the tests that DockerService has of its own.
use openstack_osa_office_clu.Prelude.{
  ℕ, Bool, true, false, not, ◌&&◌, ◌||◌, List, [], ◌∷◌, length, truthy, if◌then◌else◌, some, none,
  Option, String, Eq, string_eq, nat_eq, list_eq, list_beq, option_eq, ◌=?◌, ◌==◌, any,
}
use openstack_osa_office_clu.Prelude.Dict.{Dict, lookup}
use openstack_osa_office_clu.Prelude.Text.{Text, has, split_once}
use openstack_osa_office_clu.Service.Sorting.{sort, text_le, leb}
use openstack_osa_office_clu.Service.{Values, Port, Attachment}

abbrev pub or_nil {ℓ} : {A : Type ℓ} → Option (List A) → List A
or_nil none = []
or_nil (some xs) = xs

-- `any(changed(new, old) for new, old in zip(news, olds))`
unfoldable pub any_pair {ℓ} : {A : Type ℓ} → (A → A → Bool) → List A → List A → Bool
any_pair changed [] olds = false
any_pair changed (x ∷ xs) [] = false
any_pair changed (x ∷ xs) (y ∷ ys) = changed x y || any_pair changed xs ys

-- The lists against each other, where the order is that of `arrange`; a list that is not given is
-- not compared, and one that the service does not have is empty.
unfoldable pub has_list_changed {ℓ} :
    {A : Type ℓ} → (List A → List A) → (A → A → Bool) → Option (List A) → Option (List A) → Bool
unfolding any_pair
has_list_changed arrange changed none olds = false
has_list_changed arrange changed (some news) olds =
    if not (length news == length (or_nil olds))
    then true
    else any_pair changed (arrange news) (arrange (or_nil olds))

abbrev pub texts_differ : String → String → Bool
texts_differ new old = not (new =? old)

-- Lists of texts: in order, or as sorted.
unfoldable pub have_texts_changed : Option (List String) → Option (List String) → Bool
unfolding has_list_changed
have_texts_changed new old = has_list_changed (λ xs. xs) texts_differ new old

unfoldable pub have_sorted_texts_changed : Option (List String) → Option (List String) → Bool
unfolding has_list_changed sort
have_sorted_texts_changed new old = has_list_changed (sort text_le) texts_differ new old

-- `new is not None and new != old`
abbrev pub has_changed {ℓ} : {A : Type ℓ} ⦃e : Eq A⦄ → Option A → Option A → Bool
has_changed none old = false
has_changed (some x) none = true
has_changed (some x) (some y) = not (x =? y)

module _ {V : Type 0} (values : Values V) where
  abbrev pub is_true : Option V → Bool
  is_true none = false
  is_true (some v) = values.true_value v

  abbrev pub values_equal : V → Option V → Bool
  values_equal v none = false
  values_equal v (some w) = values.equal.beq v w

  -- A value that is None in the new dict is not compared.
  abbrev pub has_value_changed : Option V → Option V → Bool
  has_value_changed none old = false
  has_value_changed (some v) old =
      if not (values.true_value v) && not (is_true old) then false else not (values_equal v old)

  -- `old_dict.get(option)`, with None for a missing key
  abbrev pub get_value : String → Dict String (Option V) → Option V
  get_value option d = elim (lookup option d) [ none ↦ none | some v ↦ v ]

  unfoldable pub has_entry_changed : Dict String (Option V) → Dict String (Option V) → Bool
  unfolding lookup
  has_entry_changed old new = any (λ x. has_value_changed x.1 (get_value x.0 old)) new

  unfoldable pub has_dict_changed :
      Option (Dict String (Option V)) → Option (Dict String (Option V)) → Bool
  unfolding has_entry_changed
  has_dict_changed none old = false
  has_dict_changed (some new) old =
      if not (truthy new)
      then truthy (or_nil old)
      else if not (truthy (or_nil old))
      then true
      else has_entry_changed (or_nil old) new

  -- The text under the key of a sorted list of dicts.
  abbrev pub key_text : String → Dict String (Option V) → String
  key_text key d = elim (get_value key d) [ none ↦ "" | some v ↦ values.text v ]

  unfoldable pub have_dicts_changed :
      String
      → Option (List (Dict String (Option V)))
      → Option (List (Dict String (Option V)))
      → Bool
  unfolding has_list_changed has_dict_changed sort
  have_dicts_changed key new old =
      has_list_changed (sort (λ a b. text_le (key_text key a) (key_text key b)))
        (λ a b. has_dict_changed (some a) (some b)) new old

  unfoldable pub have_dicts_changed_in_order :
      Option (List (Dict String (Option V))) → Option (List (Dict String (Option V))) → Bool
  unfolding has_list_changed has_dict_changed
  have_dicts_changed_in_order new old =
      has_list_changed (λ xs. xs) (λ a b. has_dict_changed (some a) (some b)) new old

  unfoldable pub aliases_differ : Option (List String) → Option (List String) → Bool
  unfolding sort
  aliases_differ none old = false
  aliases_differ (some new) old = not (sort text_le new =? sort text_le (or_nil old))

  unfoldable pub has_attachment_changed : Attachment V → Attachment V → Bool
  unfolding aliases_differ
  has_attachment_changed new old =
      not (new.id =? old.id)
      || aliases_differ new.aliases old.aliases
      || has_value_changed new.options old.options

  unfoldable pub have_networks_changed :
      Option (List (Attachment V)) → Option (List (Attachment V)) → Bool
  unfolding has_list_changed has_attachment_changed sort
  have_networks_changed new old =
      has_list_changed (sort (λ a b. text_le a.id b.id)) has_attachment_changed new old

abbrev pub or_zero : Option ℕ → ℕ
or_zero none = 0
or_zero (some n) = n

abbrev pub or_empty : Option String → String
or_empty none = ""
or_empty (some s) = s

-- `publish_sorter`, as an order
abbrev pub port_le : Port → Port → Bool
port_le a b =
    if not (or_zero a.published_port == or_zero b.published_port)
    then leb (or_zero a.published_port) (or_zero b.published_port)
    else if not (or_zero a.target_port == or_zero b.target_port)
    then leb (or_zero a.target_port) (or_zero b.target_port)
    else text_le (or_empty a.protocol) (or_empty b.protocol)

-- The mode is not compared where the parameter does not give one.
unfoldable pub has_port_changed : Port → Port → Bool
has_port_changed new old =
    not (new.protocol =? old.protocol)
    || not (new.published_port =? old.published_port)
    || not (new.target_port =? old.target_port)
    || (not (or_empty new.mode =? "") && not (new.mode =? old.mode))

unfoldable pub has_publish_changed : Option (List Port) → Option (List Port) → Bool
unfolding has_list_changed has_port_changed sort
has_publish_changed new old = has_list_changed (sort port_le) has_port_changed new old

-- `old_image.split("@")[0]`
unfoldable pub before_at : Text → Text
unfolding split_once
before_at image = elim (split_once b'@' image) [ none ↦ image | some (a, b) ↦ a ]

-- Whether the image has changed, and the old image as it was compared.
unfoldable pub has_image_changed : Text → Text → Bool × Text
unfolding has before_at list_beq
has_image_changed image old =
    let compared = if has b'@' image then old else before_at old in
    (not (image =? compared), compared)
