-- ===== src/ImageName/Examples.antt =====
-- Image names from the documentation, and the theorems at them.
use openstack_osa_office_clu.Prelude.{
  ok, err, Bool, true, false, some, none, [], ◌≡◌, ◌↔◌, ◌⊎◌, ◌≢◌, refl, arith, inr,
}
use openstack_osa_office_clu.Prelude.Text.{codes, plus, has}
use openstack_osa_office_clu.Regex.{line_match}
use openstack_osa_office_clu.ImageName.{
  ImageName, parse, combine, normalize, validate, registry_dash, is_tag, is_digest,
  get_hostname_and_port, is_default_registry, is_host,
}
use openstack_osa_office_clu.ImageName.Tags.{
  IsTag, UpToNewline, is_tag_iff, is_digest_iff, IsDigest,
}
use openstack_osa_office_clu.ImageName.Normal.{validate-normalize}
use openstack_osa_office_clu.ImageName.RoundTrip.{combine-parse}
use openstack_osa_office_clu.ImageName.Recovered.{parse-combine}

abbrev nginx : ImageName
nginx = record { registry = none; path = codes "nginx"; tag = none; digest = none }

abbrev private_app : ImageName
private_app = record {
  registry = some (codes "reg.io:5000");
  path = codes "a/b";
  tag = some (codes "1.0");
  digest = none;
}

parse_private : parse (codes "reg.io:5000/a/b:1.0") ≡ private_app
unfolding parse
parse_private = refl

combine_private : combine private_app ≡ codes "reg.io:5000/a/b:1.0"
unfolding combine
combine_private = refl

validate_private : validate private_app ≡ ok private_app
unfolding validate is_tag line_match
validate_private = refl

validate_dash :
    validate (record nginx { registry = some (codes "-x.y") }) ≡ err (registry_dash (codes "-x.y"))
unfolding validate
validate_dash = refl

normalize-nginx :
    normalize nginx
    ≡ record nginx { registry = some (codes "docker.io"); path = codes "library/nginx" }
unfolding normalize
normalize-nginx = refl

host_private : get_hostname_and_port private_app ≡ ok (codes "reg.io", (plus, 5000))
unfolding get_hostname_and_port
host_private = refl

-- A newline behind a tag is not noticed.
tag_newline : is_tag (codes "latest\n") false ≡ true
unfolding is_tag line_match
tag_newline = refl

is_tag_iff_example : (is_tag (codes "latest\n") false ≡ true) ↔ (
    ((codes "latest\n" ≡ []) × (◌≡◌ {A = Bool} false true)) ⊎ UpToNewline IsTag (codes "latest\n"))
is_tag_iff_example = is_tag_iff (codes "latest\n") false

is_digest_iff_example : (is_digest (codes "sha256:1") false ≡ true) ↔ (
    ((codes "sha256:1" ≡ []) × (◌≡◌ {A = Bool} false true))
    ⊎ UpToNewline IsDigest (codes "sha256:1"))
is_digest_iff_example = is_digest_iff (codes "sha256:1") false

validate-normalize_example : validate (normalize private_app) ≡ ok (normalize private_app)
validate-normalize_example = validate-normalize private_app validate_private

default_nginx : is_default_registry nginx.registry ≡ true
unfolding is_default_registry
default_nginx = refl

tag_filled : (parse (codes "reg.io:5000/a/b:1.0")).tag ≢ some []
unfolding parse
tag_filled h = ground arith

digest_filled : (parse (codes "reg.io:5000/a/b:1.0")).digest ≢ some []
unfolding parse
digest_filled h = ground arith

path_filled :
    ((parse (codes "reg.io:5000/a/b:1.0")).registry ≡ none)
    ⊎ ((parse (codes "reg.io:5000/a/b:1.0")).path ≢ [])
unfolding parse
path_filled = inr (λ h. ground arith)

combine-parse_example : combine (parse (codes "reg.io:5000/a/b:1.0")) ≡ codes "reg.io:5000/a/b:1.0"
combine-parse_example =
    combine-parse (codes "reg.io:5000/a/b:1.0") tag_filled digest_filled path_filled

host_is_good :
    (is_host (codes "reg.io:5000") ≡ true)
    × (has b'/' (codes "reg.io:5000") ≡ false)
    × (has b'@' (codes "reg.io:5000") ≡ false)
unfolding is_host
host_is_good = (refl, refl, refl)

parse-combine_example : parse (combine private_app) ≡ private_app
parse-combine_example =
    parse-combine private_app validate_private host_is_good (λ h. ground arith) (λ h. ground arith)
