-- ===== src/Platform.antt =====
-- Platform strings: collections/ansible_collections/community/docker/plugins/module_utils/_platform.py.
pub mod Compare
mod Examples
use openstack_osa_office_clu.Prelude.{
  ℕ, Bool, true, false, not, ◌&&◌, ◌||◌, List, [], ◌∷◌, ◌++◌, if◌then◌else◌, ◌==◌, some, none,
  Option, Result, ok, err, ◌>>=◌, truthy, ◌=?◌, Eq, list_eq, list_beq, nat_eq, option_eq, pair_eq,
  contains,
}
use openstack_osa_office_clu.Prelude.Dict.{Dict, lookup}
use openstack_osa_office_clu.Prelude.Text.{Text, codes, within, split_once, lower}
use openstack_osa_office_clu.Regex.{Regex, one, plus as some_of, line_match}

-- The `ValueError`s.
pub data PlatformError : Type 0 where
  empty_part invalid_characters unknown : Text → PlatformError
  empty_string variant_without_arch variant_without_os : PlatformError

abbrev pub is_platform_char : ℕ → Bool
is_platform_char c =
    within b'A' b'Z' c || within b'a' b'z' c || within b'0' b'9' c || c == b'_' || c == b'-'

-- `_VALID_STR`, without the anchors
abbrev pub valid_str : Regex
valid_str = some_of (one is_platform_char)

unfoldable pub validate_part : Text → Text → Result PlatformError Text
unfolding line_match
validate_part string part =
    if not (truthy part)
    then err (empty_part string)
    else if not (line_match valid_str part)
    then err (invalid_characters string)
    else ok part

abbrev pub known_os : List Text
known_os =
    codes "aix"
    ∷ codes "android"
    ∷ codes "darwin"
    ∷ codes "dragonfly"
    ∷ codes "freebsd"
    ∷ codes "hurd"
    ∷ codes "illumos"
    ∷ codes "ios"
    ∷ codes "js"
    ∷ codes "linux"
    ∷ codes "nacl"
    ∷ codes "netbsd"
    ∷ codes "openbsd"
    ∷ codes "plan9"
    ∷ codes "solaris"
    ∷ codes "windows"
    ∷ codes "zos"
    ∷ []

abbrev pub known_arch : List Text
known_arch =
    codes "386"
    ∷ codes "amd64"
    ∷ codes "amd64p32"
    ∷ codes "arm"
    ∷ codes "armbe"
    ∷ codes "arm64"
    ∷ codes "arm64be"
    ∷ codes "ppc64"
    ∷ codes "ppc64le"
    ∷ codes "loong64"
    ∷ codes "mips"
    ∷ codes "mipsle"
    ∷ codes "mips64"
    ∷ codes "mips64le"
    ∷ codes "mips64p32"
    ∷ codes "mips64p32le"
    ∷ codes "ppc"
    ∷ codes "riscv"
    ∷ codes "riscv64"
    ∷ codes "s390"
    ∷ codes "s390x"
    ∷ codes "sparc"
    ∷ codes "sparc64"
    ∷ codes "wasm"
    ∷ []

unfoldable pub normalize_os : Text → Text
unfolding lower list_beq
normalize_os os_str = let os = lower os_str in if os =? codes "macos" then codes "darwin" else os

abbrev pub arch_table : Dict (Text × Option Text) (Text × Option Text)
arch_table =
    ((codes "i386", none), (codes "386", some (codes "")))
    ∷ ((codes "x86_64", some (codes "v1")), (codes "amd64", some (codes "")))
    ∷ ((codes "x86-64", some (codes "v1")), (codes "amd64", some (codes "")))
    ∷ ((codes "amd64", some (codes "v1")), (codes "amd64", some (codes "")))
    ∷ ((codes "x86_64", none), (codes "amd64", none))
    ∷ ((codes "x86-64", none), (codes "amd64", none))
    ∷ ((codes "amd64", none), (codes "amd64", none))
    ∷ ((codes "aarch64", some (codes "8")), (codes "arm64", some (codes "")))
    ∷ ((codes "arm64", some (codes "8")), (codes "arm64", some (codes "")))
    ∷ ((codes "aarch64", some (codes "v8")), (codes "arm64", some (codes "")))
    ∷ ((codes "arm64", some (codes "v8")), (codes "arm64", some (codes "")))
    ∷ ((codes "aarch64", none), (codes "arm64", none))
    ∷ ((codes "arm64", none), (codes "arm64", none))
    ∷ ((codes "armhf", none), (codes "arm", some (codes "v7")))
    ∷ ((codes "armel", none), (codes "arm", some (codes "v6")))
    ∷ ((codes "arm", some (codes "")), (codes "arm", some (codes "v7")))
    ∷ ((codes "arm", some (codes "5")), (codes "arm", some (codes "v5")))
    ∷ ((codes "arm", some (codes "6")), (codes "arm", some (codes "v6")))
    ∷ ((codes "arm", some (codes "7")), (codes "arm", some (codes "v7")))
    ∷ ((codes "arm", some (codes "8")), (codes "arm", some (codes "v8")))
    ∷ ((codes "arm", none), (codes "arm", none))
    ∷ []

-- A variant of the table that is `None` leaves the variant as it is.
abbrev pub rewritten : Text → Text × Option Text → Text × Text
rewritten variant (arch, none) = (arch, variant)
rewritten variant (arch, some v) = (arch, v)

unfoldable pub normalize_arch : Text → Text → Text × Text
unfolding lookup lower list_beq
normalize_arch arch_str variant_str =
    let arch = lower arch_str in
    let variant = lower variant_str in
    elim (lookup (arch, some variant) arch_table) [
      | some res ↦ rewritten variant res
      | none ↦ elim (lookup (arch, none) arch_table) [
        | some res ↦ rewritten variant res
        | none ↦ (arch, variant)
      ]
    ]

pub record Platform : Type 0 where
  pub os : Option Text
  pub arch : Option Text
  pub variant : Option Text

-- `_Platform(os=..., arch=..., variant=...)`
unfoldable pub init : Option Text → Option Text → Option Text → Result PlatformError Platform
init os arch none = ok (record { os = os; arch = arch; variant = none })
init os none (some v) = err variant_without_arch
init none (some a) (some v) = err variant_without_os
init (some o) (some a) (some v) = ok (record { os = some o; arch = some a; variant = some v })

-- `s or None`
abbrev pub or_none : Text → Option Text
or_none s = if truthy s then some s else none

-- `s or ""`
abbrev pub or_empty : Option Text → Text
or_empty none = []
or_empty (some s) = s

-- `_normalize_os(daemon_os) if daemon_os else None`
pub os_of_daemon : Option Text → Option Text
unfolding normalize_os
os_of_daemon none = none
os_of_daemon (some s) = if truthy s then some (normalize_os s) else none

-- A string of one part, which is an operating system or an architecture.
pub parse_one : Text → Option Text → Option Text → Result PlatformError Platform
unfolding validate_part normalize_os normalize_arch init os_of_daemon list_beq
parse_one string daemon_os daemon_arch = validate_part string string >>= λ _.
    let os = normalize_os string in
    let (arch, variant) = normalize_arch os [] in
    if contains known_os os
    then elim daemon_arch [
      | none ↦ init (some os) none none
      | some a ↦
          let (arch', variant') = normalize_arch a [] in init (some os) (some arch') (some variant')
    ]
    else if contains known_arch arch
    then init (os_of_daemon daemon_os) (or_none arch) (or_none variant)
    else err (unknown string)

abbrev pub validate_variant : Text → Option Text → Result PlatformError (Option Text)
validate_variant string none = ok none
validate_variant string (some v) = validate_part string v >>= λ w. ok (some w)

-- The two changes of the variant behind `_normalize_arch`.
pub adjust : Option Text → Text → Text → Option Text
unfolding list_beq
adjust none arch variant =
    if arch =? codes "arm" && variant =? codes "v7" then none else or_none variant
adjust (some _) arch variant =
    if arch =? codes "arm64" && not (truthy variant) then some (codes "v8") else or_none variant

-- A string of two parts, or of three.
pub parse_parts : Text → Text → Text → Option Text → Result PlatformError Platform
unfolding validate_part normalize_os normalize_arch init adjust
parse_parts string os arch variant = validate_part string os >>= λ os'.
    validate_part string arch >>= λ arch'. validate_variant string variant >>= λ variant'.
    let res = normalize_arch arch' (or_empty variant') in
    init (some (normalize_os os')) (some res.0) (adjust variant' res.0 res.1)

unfoldable pub parse_platform_string :
    Option Text → Option Text → Option Text → Result PlatformError Platform
unfolding parse_one parse_parts split_once init
parse_platform_string none daemon_os daemon_arch = init none none none
parse_platform_string (some string) daemon_os daemon_arch =
    if not (truthy string) then err empty_string else elim (split_once b'/' string) [
      | none ↦ parse_one string daemon_os daemon_arch
      | some (os, rest) ↦ elim (split_once b'/' rest) [
        | none ↦ parse_parts string os rest none
        | some (arch, variant) ↦ parse_parts string os arch (some variant)
      ]
    ]

-- `"/".join` of the parts that are there
unfoldable pub str : Platform → Text
str p = elim (or_none (or_empty p.variant)) [
  | some v ↦ or_empty p.os ++ b'/' ∷ or_empty p.arch ++ b'/' ∷ v
  | none ↦ elim (or_none (or_empty p.os)) [
    | some o ↦ if truthy (or_empty p.arch) then o ++ b'/' ∷ or_empty p.arch else o
    | none ↦ or_empty p.arch
  ]
]

-- `__eq__`
unfoldable pub platform_eq : Platform → Platform → Bool
unfolding list_beq
platform_eq p q = p.os =? q.os && p.arch =? q.arch && p.variant =? q.variant

unfoldable pub normalize_platform_string :
    Text → Option Text → Option Text → Result PlatformError Text
unfolding parse_platform_string str
normalize_platform_string string daemon_os daemon_arch =
    parse_platform_string (some string) daemon_os daemon_arch >>= λ p. ok (str p)

-- The architecture and the variant that `compose_platform_string` goes on with.
pub composed_arch : Option Text → Option Text → Option Text → Option Text × Option Text
unfolding normalize_arch
composed_arch none variant (some daemon_arch) =
    let (arch, variant') = normalize_arch daemon_arch (or_empty variant) in
    (some arch, or_none variant')
composed_arch none variant none = (none, or_none (or_empty variant))
composed_arch (some arch) variant daemon_arch = (some arch, or_none (or_empty variant))

pub composed_os : Option Text → Option Text → Option Text
unfolding normalize_os
composed_os none (some daemon_os) = some (normalize_os daemon_os)
composed_os none none = none
composed_os (some os) daemon_os = some os

unfoldable pub compose_platform_string :
    Option Text → Option Text → Option Text → Option Text → Option Text → Result PlatformError Text
unfolding composed_os composed_arch init str
compose_platform_string os arch variant daemon_os daemon_arch =
    let (arch', variant') = composed_arch arch variant daemon_arch in
    init (composed_os os daemon_os) arch' variant' >>= λ p. ok (str p)

unfoldable pub compare_platform_strings : Text → Text → Result PlatformError Bool
unfolding parse_platform_string platform_eq
compare_platform_strings string1 string2 = parse_platform_string (some string1) none none >>= λ p.
    parse_platform_string (some string2) none none >>= λ q. ok (platform_eq p q)
