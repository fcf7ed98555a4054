-- ===== src/Util/Health/Examples.antt =====
-- Durations and health checks as a playbook writes them, and the theorems at them.
use openstack_osa_office_clu.Prelude.{true, [], ◌∷◌, some, none, ok, err, ◌≡◌, refl, arith}
use openstack_osa_office_clu.Prelude.Text.{codes}
use openstack_osa_office_clu.Util.Health.{
  amount, Parts, convert_duration_to_nanosecond, invalid_duration, Healthcheck, Normalized, shell,
  words, parse_healthcheck, normalize_healthcheck, enabled, disabled,
}
use openstack_osa_office_clu.Util.Health.Durations.{
  write_duration, nanoseconds_of, convert_duration_to_nanosecond-write_duration,
}
use openstack_osa_office_clu.Util.Health.Parsing.{
  HasNoZero, normalize_healthcheck-HasNoZero, FollowsTest, parse_healthcheck-FollowsTest,
}

duration : convert_duration_to_nanosecond (codes "1h2m3s4ms5us") ≡ ok 3_723_004_005_000
unfolding convert_duration_to_nanosecond
duration = refl

duration_ms : convert_duration_to_nanosecond (codes "5ms") ≡ ok 5_000_000
unfolding convert_duration_to_nanosecond
duration_ms = refl

duration_order :
    convert_duration_to_nanosecond (codes "5s1m") ≡ err (invalid_duration (codes "5s1m"))
unfolding convert_duration_to_nanosecond
duration_order = refl

abbrev parts : Parts
parts = record {
  hours = none;
  minutes = some (codes "2");
  seconds = none;
  milliseconds = some (codes "15");
  microseconds = none;
}

parts_total : nanoseconds_of parts ≡ 120_015_000_000
unfolding amount
parts_total = refl

convert_duration_to_nanosecond-write_duration_example :
    convert_duration_to_nanosecond (write_duration parts) ≡ ok (nanoseconds_of parts)
convert_duration_to_nanosecond-write_duration_example =
    convert_duration_to_nanosecond-write_duration parts
      (record {
        is_hours = tt;
        is_minutes = (refl, refl);
        is_seconds = tt;
        is_milliseconds = (refl, refl);
        is_microseconds = tt;
      })
      (omega (arith, parts_total))

abbrev curl : Healthcheck
curl = record {
  test = some (shell (codes "curl -f x"));
  test_cli_compatible = none;
  interval = some (codes "30s");
  timeout = some (codes "0s");
  start_period = none;
  start_interval = none;
  retries = some 3;
}

abbrev curl_normalized : Normalized
curl_normalized = record {
  test = some (words (codes "CMD-SHELL" ∷ codes "curl -f x" ∷ []));
  test_cli_compatible = none;
  interval = some 30_000_000_000;
  timeout = none;
  start_period = none;
  start_interval = none;
  retries = some 3;
}

normalize_curl : normalize_healthcheck curl true ≡ ok curl_normalized
unfolding normalize_healthcheck
normalize_curl = refl

parse_curl : parse_healthcheck (some curl) ≡ ok (enabled curl_normalized)
unfolding parse_healthcheck
parse_curl = refl

parse_none :
    parse_healthcheck (some (record curl { test = some (words (codes "NONE" ∷ [])) })) ≡ ok disabled
unfolding parse_healthcheck
parse_none = refl

normalize_healthcheck-HasNoZero_example : HasNoZero curl_normalized
normalize_healthcheck-HasNoZero_example = normalize_healthcheck-HasNoZero curl true normalize_curl

parse_healthcheck-FollowsTest_example :
    FollowsTest (shell (codes "curl -f x")) (enabled curl_normalized)
parse_healthcheck-FollowsTest_example =
    parse_healthcheck-FollowsTest curl (shell (codes "curl -f x")) refl refl parse_curl
