-- ===== src/ImageName/Normal.antt =====
-- module_utils/_image_name.py: what `normalize` gives, and the host name behind it.
use openstack_osa_office_clu.Prelude.{
  ok, err, Result, ℕ, true, false, not, ◌&&◌, [], ◌∷◌, ◌++◌, some, none, Option, truthy, ◌=?◌,
  list_eq, nat_eq, ◌≡◌, refl, ap, ◌↔◌, arith, Bool-cases, ◌⊎◌, inl, inr, Option-cases,
}
use openstack_osa_office_clu.Prelude.Text.{
  Text, codes, has, before_newline, split_once, Sign, plus, parse_int,
}
use openstack_osa_office_clu.Regex.{full_match, line_match, char}
use openstack_osa_office_clu.Regex.Sound.{
  Matches, line_match_iff, m_one, m_seq, m_more, Matches-seq, full_match_iff,
}
use openstack_osa_office_clu.ImageName.{
  ImageName, component, path_re, normalize, validate, or_check, raise_first, NameError, bad_port,
  port_of, docker_io, default_registry, is_default_registry, is_docker_io, normal_path,
  check_registry, check_path, get_hostname_and_port,
}

is_default_registry_set : (s : Text) → is_default_registry (some s) ≡ false → truthy s ≡ true
unfolding is_default_registry
is_default_registry_set s h = ground arith

default_registry-IsSet :
    (r : Option Text) → (s : Text) × (default_registry r ≡ some s) × (truthy s ≡ true)
default_registry-IsSet none = (docker_io, unfold is_default_registry in refl, refl)
default_registry-IsSet (some r) = elim (Bool-cases (is_default_registry (some r))) [
  | inl e ↦ (docker_io, rw e, refl)
  | inr e ↦ (r, rw e, is_default_registry_set r e)
]

default_registry_idem :
    (r : Option Text) → default_registry (default_registry r) ≡ default_registry r
default_registry_idem r = elim (Bool-cases (is_default_registry r)) [
  | inl e ↦ rw e (unfold is_default_registry in refl)
  | inr e ↦ rw (e, e)
]

has-library : (p : Text) → has b'/' (codes "library/" ++ p) ≡ true
unfolding has
has-library p = refl

normal_path_idem : (r : Option Text) (p : Text) → normal_path r (normal_path r p) ≡ normal_path r p
unfolding normal_path
normal_path_idem r p = ground (arith, has-library p)

-- Normalizing a second time changes nothing.
pub normalize_idem : (i : ImageName) → normalize (normalize i) ≡ normalize i
unfolding normalize
normalize_idem i = rw default_registry_idem (rw normal_path_idem)

before_newline-append :
    (a p : Text) {t : Text} → before_newline p ≡ some t → before_newline (a ++ p) ≡ some (a ++ t)
unfolding before_newline
before_newline-append [] p h = h
before_newline-append (x ∷ []) [] h = absurd (ground arith)
before_newline-append (x ∷ []) (y ∷ p) h = ground arith
before_newline-append (x ∷ y ∷ a) p h = rw (before_newline-append (y ∷ a) p h)

component_library : full_match component (codes "library") ≡ true
unfolding full_match
component_library = refl

path_re-library : (t : Text) → Matches path_re t → Matches path_re (codes "library/" ++ t)
unfolding path_re
path_re-library t h =
    let (a, b, x, y, e) = Matches-seq h in
    let first = (full_match_iff component (codes "library")).0 component_library in
    let slash : Matches (char b'/') (codes "/") = m_one refl in
    m_seq first (m_more (m_seq slash x refl) y refl) (ap (λ u. codes "library/" ++ u) e)

pub check_path_iff : (p : Text) → (check_path p ≡ none) ↔ (line_match path_re p ≡ true)
unfolding check_path
check_path_iff p = (λ h. ground arith, λ h. ground arith)

check_path-library : (p : Text) → check_path p ≡ none → check_path (codes "library/" ++ p) ≡ none
check_path-library p h = (check_path_iff _).1 (
    (line_match_iff path_re _).1 (elim ((line_match_iff path_re p).0 ((check_path_iff p).0 h)) [
      | inl m ↦ inl (path_re-library p m)
      | inr (t, e, m) ↦
          inr (
            codes "library/" ++ t,
            before_newline-append (codes "library/") p e,
            path_re-library t m,
          )
    ]))

check_path-normal_path :
    (r : Option Text) (p : Text) → check_path p ≡ none → check_path (normal_path r p) ≡ none
unfolding normal_path
check_path-normal_path r p h = elim (Bool-cases (is_docker_io r && not (has b'/' p) && truthy p)) [
  | inl e ↦ rw e (check_path-library p h)
  | inr e ↦ rw e h
]

check_registry-default_registry :
    (r : Option Text) → check_registry r ≡ none → check_registry (default_registry r) ≡ none
check_registry-default_registry r h = elim (Bool-cases (is_default_registry r)) [
  | inl e ↦ rw e (unfold check_registry in refl)
  | inr e ↦ rw e h
]

pub or_check-none : (a b : Option NameError) → or_check a b ≡ none → (a ≡ none) × (b ≡ none)
or_check-none none b h = (refl, h)
or_check-none (some e) b h = absurd (ground arith)

pub raise_first-ok : (e : Option NameError) (i j : ImageName) → raise_first e i ≡ ok j → e ≡ none
raise_first-ok none i j h = refl
raise_first-ok (some e) i j h = absurd (ground arith)

-- A name that `validate` accepts is still accepted once it is normalized.
pub validate-normalize :
    (i : ImageName) → validate i ≡ ok i → validate (normalize i) ≡ ok (normalize i)
unfolding validate normalize
validate-normalize i h =
    let (r, rest) = or_check-none (check_registry i.registry) _ (raise_first-ok _ i i h) in
    let (p, last) = or_check-none (check_path i.path) _ rest in
    rw (
      check_registry-default_registry i.registry r,
      check_path-normal_path (default_registry i.registry) i.path p,
      last,
    )

-- What a lookup of the host gives: a host, or the error for a port that is no number.
abbrev pub FindsHost : Result NameError (Text × (Sign × ℕ)) → Type 0
FindsHost r =
    ((h : Text × (Sign × ℕ)) × (r ≡ ok h))
    ⊎ ((port : Text) × (r ≡ err (bad_port port)) × (parse_int port ≡ none))

port_of-FindsHost : (host port : Text) → FindsHost (port_of host port)
unfolding port_of
port_of-FindsHost host port = elim (Option-cases (parse_int port)) [
  | inl e ↦ inr (port, rw (e, port_of), e)
  | inr (n, e) ↦ inl ((host, n), rw (e, port_of))
]

host-FindsHost :
    (s : Text) (j : ImageName) → j.registry ≡ some s → FindsHost (get_hostname_and_port j)
unfolding get_hostname_and_port
host-FindsHost s j e = elim (Bool-cases (s =? docker_io)) [
  | inl d ↦ inl ((codes "index.docker.io", (plus, 443)), ground arith)
  | inr d ↦ elim (Option-cases (split_once b':' s)) [
    | inl f ↦ inl ((s, (plus, 443)), ground arith)
    | inr ((host, port), f) ↦
        let same : get_hostname_and_port j ≡ port_of host port = ground arith in
        rw same (port_of-FindsHost host port)
  ]
]

-- Behind `normalize` there is a registry: `get_hostname_and_port` returns a host and a port, and
-- its one error is for a port that is no number.
pub get_hostname_and_port-normalize :
    (i : ImageName) → FindsHost (get_hostname_and_port (normalize i))
unfolding normalize
get_hostname_and_port-normalize i =
    let (s, e, t) = default_registry-IsSet i.registry in host-FindsHost s (normalize i) e

-- A name for the default registry, or with none, goes to port 443 of `index.docker.io`.
pub get_hostname_and_port_default :
    (i : ImageName)
    → is_default_registry i.registry ≡ true
    → get_hostname_and_port (normalize i) ≡ ok (codes "index.docker.io", (plus, 443))
unfolding get_hostname_and_port normalize
get_hostname_and_port_default i d = rw d
