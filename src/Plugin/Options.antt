-- ===== src/Plugin/Options.antt =====
-- docker_plugin: the options as they are written for the daemon, and read back.
use openstack_osa_office_clu.Prelude.{
  true, false, List, [], ◌∷◌, ◌==◌, some, none, Option, String, string_eq, ok, ◌≡◌, refl, ap, ◌∙◌,
  arith, All, Bool-cases, Option-cases, inl, inr, truthy,
}
use Prim.Native.Char.{Char, code}
use Prim.Native.String.{◌++◌ as ◌<>◌}
use Prim.Native.String.append
use openstack_osa_office_clu.Prelude.Dict.{lookup, insert, lookup-insert, lookup-cons, NodupKeys}
use openstack_osa_office_clu.Plugin.{
  GivenOptions, ActiveOptions, or_blank, prepare_option, prepare_options, split_equals, parse_into,
  parse_options, Plugin, Params, Differences, nonempty, option_differs, option_differences, against,
  has_different_config,
}

abbrev equals : Char
equals = "="

split_equals-cons : (v : String) → split_equals ("=" <> v) ≡ some ("", v)
unfolding split_equals
split_equals-cons v =
    ap split_equals (append.cons equals "" v ∙ ap (String.◌∷◌ equals) (append.nil v))
    ∙ elim (Option-cases (split_equals v)) [ inl e ↦ rw e refl | inr (a, e) ↦ rw e refl ]

split_equals-eq-none :
    (c : Char) (s : String)
    → split_equals (String.◌∷◌ c s) ≡ none
    → (split_equals s ≡ none) × ((code c == 61) ≡ false)
unfolding split_equals
split_equals-eq-none c s h = elim (Option-cases (split_equals s)) [
  | inl e ↦ (e, ground (arith, rw e at h))
  | inr (a, e) ↦ absurd (ground (arith, rw e at h))
]

split_equals-join :
    (k v : String) → split_equals k ≡ none → split_equals (k <> ("=" <> v)) ≡ some (k, v)
unfolding split_equals
split_equals-join String.[] v h = ap split_equals (append.nil ("=" <> v)) ∙ split_equals-cons v
split_equals-join (String.◌∷◌ c s) v h =
    let (e, n) = split_equals-eq-none c s h in
    ap split_equals (append.cons c s ("=" <> v))
    ∙ rw (split_equals, split_equals-join s v e, n) refl

parse_into-cons :
    (d : ActiveOptions) (x : String) (xs : List String) (k v : String)
    → split_equals x ≡ some (k, v)
    → parse_into d (x ∷ xs) ≡ parse_into (insert k v d) xs
unfolding parse_into
parse_into-cons d x xs k v e = rw (parse_into, e) refl

-- The dict that reading the written options into `d` gives.
abbrev insert_all : ActiveOptions → GivenOptions → ActiveOptions
insert_all d [] = d
insert_all d ((k, v) ∷ os) = insert_all (insert k (or_blank v) d) os

-- No key holds a "=", and no value is empty or None.
abbrev pub IsWritable : String × Option String → Type 0
IsWritable (k, v) = (split_equals k ≡ none) × (nonempty v ≡ true)

parse_into-prepare_options :
    (d : ActiveOptions) (os : GivenOptions)
    → All IsWritable os
    → parse_into d (prepare_options os) ≡ some (insert_all d os)
unfolding parse_into prepare_options
parse_into-prepare_options d [] h = refl
parse_into-prepare_options d ((k, v) ∷ os) (h, hs) =
    parse_into-cons d (prepare_option (k, v)) (prepare_options os) k (or_blank v)
      (split_equals-join k (or_blank v) h.0)
    ∙ parse_into-prepare_options (insert k (or_blank v) d) os hs

insert_all-other :
    (k : String) (d : ActiveOptions) (os : GivenOptions)
    → lookup k os ≡ none
    → lookup k (insert_all d os) ≡ lookup k d
insert_all-other k d [] h = refl
insert_all-other k d ((j, v) ∷ os) h =
    insert_all-other k (insert j (or_blank v) d) os (ground (arith, lookup-cons k j v os))
    ∙ ground (arith, lookup-cons k j v os, lookup-insert k j (or_blank v) d)

abbrev IsRead : ActiveOptions → String × Option String → Type 0
IsRead d (k, v) = lookup k d ≡ some (or_blank v)

insert_all-IsRead :
    (d : ActiveOptions) (os : GivenOptions) → NodupKeys os → All (IsRead (insert_all d os)) os
insert_all-IsRead d [] u = tt
insert_all-IsRead d ((k, v) ∷ os) (fresh, u) = (
  insert_all-other k (insert k (or_blank v) d) os fresh
      ∙ ground (arith, lookup-insert k k (or_blank v) d, string_eq.beq_iff k k),
  insert_all-IsRead (insert k (or_blank v) d) os u,
)

option_differs-same :
    (v : Option String) → nonempty v ≡ true → option_differs (some (or_blank v)) v ≡ false
option_differs-same none h = absurd (ground arith)
option_differs-same (some v) h = ground (arith, string_eq.beq_iff v v)

option_differences-same :
    (d : ActiveOptions) (os : GivenOptions) (t : Differences)
    → All IsWritable os
    → All (IsRead d) os
    → option_differences d os t ≡ t
unfolding option_differences
option_differences-same d [] t h k = refl
option_differences-same d ((k, v) ∷ os) t (h, hs) (r, rs) =
    rw (r, option_differs-same v h.1) (option_differences-same d os t hs rs)

abbrev pub set_by : Params → Plugin → Plugin
set_by p e = record e { settings = some record { env = some (prepare_options p.plugin_options) } }

-- Where the option names differ and hold no "=", and no value is empty or None: a plugin with the
-- settings that `prepare_options` writes shows no difference.
pub has_different_config-prepare_options :
    (p : Params) (e : Plugin)
    → NodupKeys p.plugin_options
    → All IsWritable p.plugin_options
    → has_different_config p (set_by p e) ≡ ok []
unfolding has_different_config parse_options
has_different_config-prepare_options p e u h =
    let given = p.plugin_options in
    let active = insert_all [] given in
    let read : against given (parse_into [] (prepare_options given)) ≡ ok [] =
      ap (against given) (parse_into-prepare_options [] given h)
      ∙ ap ok (option_differences-same active given [] h (insert_all-IsRead [] given u)) in
    elim (Bool-cases (truthy given)) [ inl t ↦ rw t read | inr t ↦ rw t refl ]
