-- ===== src/ImageName.antt =====
-- Image names: collections/ansible_collections/community/docker/plugins/module_utils/_image_name.py.
pub mod Normal
pub mod Tags
pub mod RoundTrip
pub mod Recovered
mod Examples
use openstack_osa_office_clu.Prelude.{
  ℕ, Bool, true, false, not, ◌&&◌, ◌||◌, List, [], ◌∷◌, ◌++◌, if◌then◌else◌, ◌==◌, some, none,
  Option, Result, ok, err, truthy, ◌=?◌, list_eq, list_beq, nat_eq,
}
use openstack_osa_office_clu.Prelude.Text.{
  Text, codes, within, has, split_once, rsplit_once, Sign, plus, parse_int,
}
use openstack_osa_office_clu.Regex.{
  Regex, seq, alt, star, one, plus as some_of, char, times, up_to, literal, line_match,
}

abbrev is_lower_alnum : ℕ → Bool
is_lower_alnum c = within b'a' b'z' c || within b'0' b'9' c

abbrev pub is_tag_start : ℕ → Bool
is_tag_start c = within b'a' b'z' c || within b'A' b'Z' c || within b'0' b'9' c || c == b'_'

abbrev pub is_tag_char : ℕ → Bool
is_tag_char c = is_tag_start c || c == b'.' || c == b'-'

abbrev pub is_hex : ℕ → Bool
is_hex c = within b'0' b'9' c || within b'a' b'f' c || within b'A' b'F' c

-- `[a-z0-9]+`
abbrev pub word : Regex
word = some_of (one is_lower_alnum)

-- `(\.|_|__|-+)[a-z0-9]+`
abbrev pub separated : Regex
separated =
    seq (alt (char b'.') (alt (char b'_') (alt (literal (codes "__")) (some_of (char b'-'))))) word

-- `[a-z0-9]+((\.|_|__|-+)[a-z0-9]+)*`
abbrev pub component : Regex
component = seq word (star separated)

-- `_PATH_RE`, `_TAG_RE` and `_DIGEST_RE`, without the anchors
unfoldable pub path_re : Regex
path_re = seq component (star (seq (char b'/') component))

unfoldable pub tag_re : Regex
tag_re = seq (one is_tag_start) (up_to 127 (one is_tag_char))

unfoldable pub digest_re : Regex
digest_re = seq (literal (codes "sha256:")) (times 64 (one is_hex))

unfoldable pub is_digest : Text → Bool → Bool
unfolding digest_re
is_digest name allow_empty = if not (truthy name) then allow_empty else line_match digest_re name

unfoldable pub is_tag : Text → Bool → Bool
unfolding tag_re
is_tag name allow_empty = if not (truthy name) then allow_empty else line_match tag_re name

pub record ImageName : Type 0 where
  pub registry : Option Text
  pub path : Text
  pub tag : Option Text
  pub digest : Option Text

-- `"." in s or ":" in s or s == "localhost"`: the test by which a first component is a registry
unfoldable pub is_host : Text → Bool
unfolding has list_beq
is_host s = has b'.' s || has b':' s || s =? codes "localhost"

-- The three steps of `parse`, each on the name that the step before has left.
pub split_digest : Text → Text × Option Text
split_digest name = elim (rsplit_once b'@' name) [
  | none ↦ (name, none)
  | some (rest, digest) ↦ (rest, some digest)
]

pub split_tag : Text → Text × Option Text
split_tag name = elim (rsplit_once b':' name) [
  | none ↦ (name, none)
  | some (rest, tag) ↦ if has b'/' tag then (name, none) else (rest, some tag)
]

pub split_registry : Text → Option Text × Text
split_registry name = elim (split_once b'/' name) [
  | none ↦ (none, name)
  | some (first, rest) ↦ if is_host first then (some first, rest) else (none, name)
]

unfoldable pub parse : Text → ImageName
unfolding split_digest split_tag split_registry is_host has split_once rsplit_once
parse name =
    let (name1, digest) = split_digest name in
    let (name2, tag) = split_tag name1 in
    let (registry, path) = split_registry name2 in
    record { registry = registry; path = path; tag = tag; digest = digest }

-- The `ValueError`s of `validate` and `get_hostname_and_port`, with the text that each one names.
pub data NameError : Type 0 where
  registry_dash registry_colon bad_path bad_tag bad_digest bad_port : Text → NameError
  no_registry : NameError

abbrev pub last_is : ℕ → Text → Bool
last_is c [] = false
last_is c (x ∷ xs) = elim xs [ [] ↦ x == c | _ ∷ _ ↦ last_is c xs ]

abbrev pub first_is : ℕ → Text → Bool
first_is c [] = false
first_is c (x ∷ xs) = x == c

-- The checks of the registry: the first that fails. An empty registry passes.
pub check_registry : Option Text → Option NameError
check_registry none = none
check_registry (some r) =
    if truthy r && (first_is b'-' r || last_is b'-' r)
    then some (registry_dash r)
    else if truthy r && last_is b':' r
    then some (registry_colon r)
    else none

pub check_path : Text → Option NameError
check_path p = if line_match path_re p then none else some (bad_path p)

pub check_tag : Option Text → Option NameError
check_tag none = none
check_tag (some s) = if truthy s && not (is_tag s false) then some (bad_tag s) else none

pub check_digest : Option Text → Option NameError
check_digest none = none
check_digest (some s) = if truthy s && not (is_digest s false) then some (bad_digest s) else none

-- One check behind another: the first error stops the method.
abbrev pub or_check : Option NameError → Option NameError → Option NameError
or_check (some e) _ = some e
or_check none next = next

abbrev pub raise_first : Option NameError → ImageName → Result NameError ImageName
raise_first none i = ok i
raise_first (some e) i = err e

unfoldable pub validate : ImageName → Result NameError ImageName
unfolding check_registry check_path check_tag check_digest path_re
validate i =
    raise_first
      (or_check (check_registry i.registry)
        (or_check (check_path i.path) (or_check (check_tag i.tag) (check_digest i.digest))))
      i

-- A part that is given and not empty, with its separator.
abbrev pub with_prefix : ℕ → Option Text → Text
with_prefix c none = []
with_prefix c (some s) = if truthy s then c ∷ s else []

abbrev pub registry_part : Option Text → Text → Text
registry_part none path = []
registry_part (some r) path = if truthy r then r ++ (if truthy path then b'/' ∷ [] else []) else []

unfoldable pub combine : ImageName → Text
combine i =
    registry_part i.registry i.path
    ++ (i.path ++ (with_prefix b':' i.tag ++ with_prefix b'@' i.digest))

abbrev pub docker_io : Text
docker_io = codes "docker.io"

-- `registry in ("", None, "index.docker.io", "registry.hub.docker.com")`
pub is_default_registry : Option Text → Bool
unfolding list_beq
is_default_registry none = true
is_default_registry (some r) =
    not (truthy r) || r =? codes "index.docker.io" || r =? codes "registry.hub.docker.com"

abbrev pub default_registry : Option Text → Option Text
default_registry r = if is_default_registry r then some docker_io else r

pub is_docker_io : Option Text → Bool
unfolding list_beq
is_docker_io none = false
is_docker_io (some r) = r =? docker_io

-- The path of an official image gets its `library/`.
pub normal_path : Option Text → Text → Text
unfolding has
normal_path registry path =
    if is_docker_io registry && not (has b'/' path) && truthy path
    then codes "library/" ++ path
    else path

unfoldable pub normalize : ImageName → ImageName
unfolding is_default_registry is_docker_io normal_path
normalize i =
    let registry = default_registry i.registry in
    record i { registry = registry; path = normal_path registry i.path }

-- `int(parts[1])` behind the first colon
pub port_of : Text → Text → Result NameError (Text × (Sign × ℕ))
port_of host port = elim (parse_int port) [ none ↦ err (bad_port port) | some n ↦ ok (host, n) ]

unfoldable pub get_hostname_and_port : ImageName → Result NameError (Text × (Sign × ℕ))
unfolding port_of split_once parse_int list_beq
get_hostname_and_port i = elim i.registry [
  | none ↦ err no_registry
  | some r ↦
      if r =? docker_io
      then ok (codes "index.docker.io", (plus, 443))
      else elim (split_once b':' r) [
        | none ↦ ok (r, (plus, 443))
        | some (host, port) ↦ port_of host port
      ]
]
