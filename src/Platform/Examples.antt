-- ===== src/Platform/Examples.antt =====
-- Platform strings that are parsed, composed and compared, and the theorems at examples.
use openstack_osa_office_clu.Prelude.{some, none, ok, err, ◌≡◌, refl}
use openstack_osa_office_clu.Prelude.Text.{codes}
use openstack_osa_office_clu.Platform.{
  Platform, variant_without_os, parse_platform_string, normalize_platform_string,
  compose_platform_string,
}
use openstack_osa_office_clu.Platform.Compare.{IsWhole, parse_platform_string-IsWhole}

abbrev linux_arm64 : Platform
linux_arm64 = record {
  os = some (codes "linux");
  arch = some (codes "arm64");
  variant = some (codes "v8");
}

parse_aarch64 : parse_platform_string (some (codes "Linux/aarch64/v8")) none none ≡ ok linux_arm64
unfolding parse_platform_string
parse_aarch64 = refl

parse_arm64 : parse_platform_string (some (codes "linux/arm64/8")) none none ≡ ok linux_arm64
unfolding parse_platform_string
parse_arm64 = refl

normalize_i386 :
    normalize_platform_string (codes "i386") (some (codes "linux")) none ≡ ok (codes "linux/386")
unfolding normalize_platform_string
normalize_i386 = refl

compose_daemon :
    compose_platform_string none none none (some (codes "linux")) (some (codes "armhf"))
    ≡ ok (codes "linux/arm/v7")
unfolding compose_platform_string
compose_daemon = refl

-- A bare `arm` gets a variant, and then has no operating system to go with it.
arm_alone : parse_platform_string (some (codes "arm")) none none ≡ err variant_without_os
unfolding parse_platform_string
arm_alone = refl

parse_platform_string-IsWhole_example : IsWhole linux_arm64
parse_platform_string-IsWhole_example =
    parse_platform_string-IsWhole (some (codes "linux/arm64/8")) none none linux_arm64 parse_arm64
