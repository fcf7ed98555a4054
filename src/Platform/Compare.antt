-- ===== src/Platform/Compare.antt =====
-- What a platform holds that a string is parsed to.
use openstack_osa_office_clu.Prelude.{
  Bool, true, false, not, [], some, none, Option, Result, ok, err, >>=-eq-ok, ◌≡◌, ◌≢◌, arith,
  list_eq, nat_eq, option_eq, if◌then◌else◌, truthy, contains,
}
use openstack_osa_office_clu.Prelude.Text.{Text, split_once}
use openstack_osa_office_clu.Platform.{
  Platform, PlatformError, unknown, empty_string, init, parse_platform_string, parse_one,
  parse_parts, validate_part, validate_variant, normalize_os, normalize_arch, known_os, known_arch,
  os_of_daemon, or_none,
}

-- A platform with a variant has an operating system and an architecture.
abbrev pub IsWhole : Platform → Type 0
IsWhole p = (p.variant ≢ none) → (p.os ≢ none) × (p.arch ≢ none)

init-IsWhole :
    (os arch variant : Option Text) (p : Platform) → init os arch variant ≡ ok p → IsWhole p
unfolding init
init-IsWhole os arch none p h w = ground arith
init-IsWhole os none (some v) p h w = ground arith
init-IsWhole none (some a) (some v) p h w = ground arith
init-IsWhole (some o) (some a) (some v) p h w = ground arith

abbrev GivesWhole : Result PlatformError Platform → Type 0
GivesWhole r = (p : Platform) → r ≡ ok p → IsWhole p

if-GivesWhole :
    (b : Bool) (x y : Result PlatformError Platform)
    → GivesWhole x
    → GivesWhole y
    → GivesWhole (if b then x else y)
if-GivesWhole true x y f g = f
if-GivesWhole false x y f g = g

err-GivesWhole : (e : PlatformError) → GivesWhole (err e)
err-GivesWhole e p h = absurd (ground arith)

-- A string that names an operating system, with the daemon's architecture.
os_only-GivesWhole :
    (os : Text) (daemon_arch : Option Text)
    → GivesWhole (elim daemon_arch [
      | none ↦ init (some os) none none
      | some a ↦ init (some os) (some (normalize_arch a []).0) (some (normalize_arch a []).1)
    ])
os_only-GivesWhole os none = init-IsWhole (some os) none none
os_only-GivesWhole os (some a) =
    init-IsWhole (some os) (some (normalize_arch a []).0) (some (normalize_arch a []).1)

parse_one-GivesWhole :
    (string : Text) (daemon_os daemon_arch : Option Text)
    → GivesWhole (parse_one string daemon_os daemon_arch)
unfolding parse_one
parse_one-GivesWhole s o a p h =
    let (u, f, g) = >>=-eq-ok (validate_part s s) _ h in
    let os = normalize_os s in
    let res = normalize_arch os [] in
    if-GivesWhole (contains known_os os) _ _ (os_only-GivesWhole os a)
      (if-GivesWhole (contains known_arch res.0) _ _
        (init-IsWhole (os_of_daemon o) (or_none res.0) (or_none res.1))
        (err-GivesWhole (unknown s)))
      p g

parse_parts-IsWhole :
    (string os arch : Text) (variant : Option Text) (p : Platform)
    → parse_parts string os arch variant ≡ ok p
    → IsWhole p
unfolding parse_parts
parse_parts-IsWhole s o a v p h =
    let (o', f, g) = >>=-eq-ok (validate_part s o) _ h in
    let (a', f1, g1) = >>=-eq-ok (validate_part s a) _ g in
    let (v', f2, g2) = >>=-eq-ok (validate_variant s v) _ g1 in init-IsWhole _ _ _ p g2

several-GivesWhole :
    (s os rest : Text) (r : Option (Text × Text))
    → GivesWhole (elim r [
      | none ↦ parse_parts s os rest none
      | some (arch, variant) ↦ parse_parts s os arch (some variant)
    ])
several-GivesWhole s os rest none = parse_parts-IsWhole s os rest none
several-GivesWhole s os rest (some (arch, variant)) = parse_parts-IsWhole s os arch (some variant)

split-GivesWhole :
    (s : Text) (o a : Option Text) (r : Option (Text × Text))
    → GivesWhole (elim r [
      | none ↦ parse_one s o a
      | some (os, rest) ↦ elim (split_once b'/' rest) [
        | none ↦ parse_parts s os rest none
        | some (arch, variant) ↦ parse_parts s os arch (some variant)
      ]
    ])
split-GivesWhole s o a none = parse_one-GivesWhole s o a
split-GivesWhole s o a (some (os, rest)) = several-GivesWhole s os rest (split_once b'/' rest)

-- A string that is parsed without an error gives a platform whose variant, if any, comes with an
-- operating system and an architecture.
pub parse_platform_string-IsWhole :
    (string daemon_os daemon_arch : Option Text) (p : Platform)
    → parse_platform_string string daemon_os daemon_arch ≡ ok p
    → IsWhole p
unfolding parse_platform_string
parse_platform_string-IsWhole none o a p h = init-IsWhole none none none p h
parse_platform_string-IsWhole (some s) o a p h =
    if-GivesWhole (not (truthy s)) _ _ (err-GivesWhole empty_string)
      (split-GivesWhole s o a (split_once b'/' s)) p h
