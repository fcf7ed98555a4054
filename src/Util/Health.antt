-- ===== src/Util/Health.antt =====
-- Durations and health checks: `convert_duration_to_nanosecond`, `normalize_healthcheck` and
-- `parse_healthcheck` of module_utils/_util.py.
pub mod Durations
pub mod Parsing
mod Examples
use openstack_osa_office_clu.Prelude.{
  ℕ, zero, suc, ◌+◌, ◌*◌, ◌-◌, ◌/◌, ◌%◌, ◌^◌, Bool, true, false, not, ◌&&◌, ◌||◌, List, [], ◌∷◌,
  ◌++◌, some, none, Option, Result, ok, err, ◌>>=◌, if◌then◌else◌, ◌==◌, truthy, ltb, list_beq,
  list_eq, nat_eq, ◌=?◌,
}
use openstack_osa_office_clu.Prelude.Text.{Text, codes, is_digit, strip_prefix}

pub data HealthError : Type 0 where
  -- `ValueError` of a text that is no duration, and the `OverflowError` of `timedelta`
  invalid_duration days_overflow : Text → HealthError

-- `\d+`: the digits at the front, and what follows them
unfoldable pub span_digits : Text → Text × Text
span_digits [] = ([], [])
span_digits (c ∷ s) =
    let (ds, rest) = span_digits s in if is_digit c then (c ∷ ds, rest) else ([], c ∷ s)

-- `int` of a text of digits
unfoldable pub nat_of : ℕ → Text → ℕ
nat_of acc [] = acc
nat_of acc (c ∷ ds) = nat_of (acc * 10 + (c - b'0')) ds

abbrev pub first_is : ℕ → Text → Bool
first_is c [] = false
first_is c (x ∷ s) = x == c

-- `((?P<…>\d+)unit)?`: the digits, if the group matches, and what follows it. `m(?!s)` is the unit
-- `m` with the flag.
pub take_group : Text → Bool → Text → Option Text × Text
unfolding span_digits strip_prefix
take_group unit not_s s =
    let (ds, rest) = span_digits s in
    if not (truthy ds) then (none, s) else elim (strip_prefix unit rest) [
      | none ↦ (none, s)
      | some behind ↦ if not_s && first_is b's' behind then (none, s) else (some ds, behind)
    ]

pub record Parts : Type 0 where
  pub hours : Option Text
  pub minutes : Option Text
  pub seconds : Option Text
  pub milliseconds : Option Text
  pub microseconds : Option Text

-- `regex.match(time_str)`: the five groups in order, then the end of the text, or a newline there.
unfoldable pub match_duration : Text → Option Parts
unfolding list_beq
match_duration s =
    let (h, s1) = take_group (codes "h") false s in
    let (m, s2) = take_group (codes "m") true s1 in
    let (sec, s3) = take_group (codes "s") false s2 in
    let (ms, s4) = take_group (codes "ms") false s3 in
    let (us, s5) = take_group (codes "us") false s4 in
    if not (truthy s5) || s5 =? codes "\n"
    then some
        (record { hours = h; minutes = m; seconds = sec; milliseconds = ms; microseconds = us })
    else none

pub amount : Option Text → ℕ
unfolding nat_of
amount none = 0
amount (some ds) = nat_of 0 ds

-- `timedelta(**time_params)`, which keeps days, seconds below a day and microseconds below a second.
pub record TimeDelta : Type 0 where
  pub days : ℕ
  pub secs : ℕ
  pub micros : ℕ

unfoldable pub total_micros : Parts → ℕ
unfolding amount
total_micros p =
    (amount p.hours * 3600 + amount p.minutes * 60 + amount p.seconds) * 1_000_000
    + amount p.milliseconds * 1000
    + amount p.microseconds

unfoldable pub time_delta : ℕ → TimeDelta
time_delta total = record {
  days = total / 1_000_000 / 86_400;
  secs = (total / 1_000_000) % 86_400;
  micros = total % 1_000_000;
}

unfoldable pub convert_duration_to_nanosecond : Text → Result HealthError ℕ
unfolding match_duration take_group total_micros time_delta
convert_duration_to_nanosecond s = elim (match_duration s) [
  | none ↦ err (invalid_duration s)
  | some p ↦
      let delta = time_delta (total_micros p) in
      if ltb 999_999_999 delta.days
      then err (days_overflow s)
      else ok ((delta.micros + (delta.secs + delta.days * 24 * 3600) * 1_000_000) * 1000)
]

-- The health check's `test`: a text, or a list of texts.
pub data HealthTest : Type 0 where
  shell : Text → HealthTest
  words : List Text → HealthTest

-- The suboptions of `healthcheck`, by their types in the argument specification. An option that is
-- not given is `None`.
pub record Healthcheck : Type 0 where
  pub test : Option HealthTest
  pub test_cli_compatible : Option Bool
  pub interval : Option Text
  pub timeout : Option Text
  pub start_period : Option Text
  pub start_interval : Option Text
  pub retries : Option ℕ

-- The dictionary that is returned: the keys that are present.
pub record Normalized : Type 0 where
  pub test : Option HealthTest
  pub test_cli_compatible : Option Bool
  pub interval : Option ℕ
  pub timeout : Option ℕ
  pub start_period : Option ℕ
  pub start_interval : Option ℕ
  pub retries : Option ℕ

unfoldable pub normalize_healthcheck_test : HealthTest → List Text
normalize_healthcheck_test (words ws) = ws
normalize_healthcheck_test (shell s) = codes "CMD-SHELL" ∷ s ∷ []

abbrev pub test_truthy : HealthTest → Bool
test_truthy (shell s) = truthy s
test_truthy (words ws) = truthy ws

-- `not value` leaves the key out, but for an empty `test` with `test_cli_compatible`.
pub keep_test : Bool → Bool → HealthTest → Option HealthTest
unfolding normalize_healthcheck_test
keep_test cli normalize_test v =
    if not (test_truthy v) && not cli
    then none
    else if test_truthy v && normalize_test
    then some (words (normalize_healthcheck_test v))
    else some v

abbrev pub keep_flag : Option Bool → Option Bool
keep_flag (some true) = some true
keep_flag _ = none

abbrev pub keep_number : ℕ → Option ℕ
keep_number n = if n == 0 then none else some n

-- A duration option: left out where it is `None` or comes to 0.
pub keep_duration : Option Text → Result HealthError (Option ℕ)
unfolding convert_duration_to_nanosecond
keep_duration none = ok none
keep_duration (some s) = do n ← convert_duration_to_nanosecond s; ok (keep_number n)

abbrev pub is_set : Option Bool → Bool
is_set none = false
is_set (some b) = b

abbrev pub and_then {ℓ κ} : {A : Type ℓ} {B : Type κ} → Option A → (A → Option B) → Option B
and_then none f = none
and_then (some a) f = f a

unfoldable pub normalize_healthcheck : Healthcheck → Bool → Result HealthError Normalized
unfolding keep_test keep_duration
normalize_healthcheck h normalize_test = do
  interval ← keep_duration h.interval
  timeout ← keep_duration h.timeout
  start_period ← keep_duration h.start_period
  start_interval ← keep_duration h.start_interval
  ok (record {
    test = and_then h.test (keep_test (is_set h.test_cli_compatible) normalize_test);
    test_cli_compatible = keep_flag h.test_cli_compatible;
    interval = interval;
    timeout = timeout;
    start_period = start_period;
    start_interval = start_interval;
    retries = and_then h.retries keep_number;
  })

-- What `parse_healthcheck` returns: a health check with the flag `False`, `(None, True)` for one
-- that is switched off, and `(None, None)`.
pub data Parsed : Type 0 where
  unspecified : Parsed
  disabled : Parsed
  enabled : Normalized → Parsed

-- `result["test"] == ["NONE"]`
pub is_none_test : Option HealthTest → Bool
unfolding list_beq
is_none_test (some (words ws)) = ws =? (codes "NONE" ∷ [])
is_none_test _ = false

-- `healthcheck.get("test")`, read as a truth value
abbrev pub has_test : Healthcheck → Bool
has_test h = elim h.test [ none ↦ false | some v ↦ test_truthy v ]

unfoldable pub parse_healthcheck : Option Healthcheck → Result HealthError Parsed
unfolding normalize_healthcheck is_none_test
parse_healthcheck none = ok unspecified
parse_healthcheck (some h) = if not (has_test h) then ok unspecified else do
  result ← normalize_healthcheck h true
  ok (if is_none_test result.test then disabled else enabled result)
