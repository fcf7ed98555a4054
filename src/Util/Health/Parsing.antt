-- ===== src/Util/Health/Parsing.antt =====
-- What `normalize_healthcheck` keeps, and when `parse_healthcheck` switches a health check off.
use openstack_osa_office_clu.Prelude.{
  ℕ, Bool, true, [], ◌∷◌, some, none, Option, ok, ◌>>=◌, >>=-eq-ok, if◌then◌else◌, list_eq,
  list_beq_iff, nat_eq, ◌=?◌, ◌≡◌, ◌≢◌, refl, arith, ◌⊎◌, inl, inr, sym, ap, ◌∙◌, Bool-cases,
  Result-cases,
}
use openstack_osa_office_clu.Prelude.Text.{Text, codes}
use openstack_osa_office_clu.Util.Health.{
  HealthTest, words, Healthcheck, Normalized, Parsed, disabled, enabled, keep_duration, keep_test,
  normalize_healthcheck, normalize_healthcheck_test, parse_healthcheck, and_then, keep_number,
  is_set, test_truthy, is_none_test, convert_duration_to_nanosecond, has_test,
}

keep_duration-ne-zero : (s : Option Text) → keep_duration s ≢ ok (some 0)
unfolding keep_duration
keep_duration-ne-zero none h = ground arith
keep_duration-ne-zero (some s) h = elim (Result-cases (convert_duration_to_nanosecond s)) [
  | inl (n, e) ↦ ground arith
  | inr (x, e) ↦ ground arith
]

-- No number of the result is zero: Docker reads zero as a default.
pub record HasNoZero (r : Normalized) : Type 0 where
  pub interval_ne : r.interval ≢ some 0
  pub timeout_ne : r.timeout ≢ some 0
  pub start_period_ne : r.start_period ≢ some 0
  pub start_interval_ne : r.start_interval ≢ some 0
  pub retries_ne : r.retries ≢ some 0

keep_number-ne-zero : (n : Option ℕ) → and_then n keep_number ≢ some 0
keep_number-ne-zero none h = ground arith
keep_number-ne-zero (some n) h = ground arith

-- The parts of a success.
abbrev IsNormalForm : Healthcheck → Bool → Normalized → Type 0
IsNormalForm h b r =
    (keep_duration h.interval ≡ ok r.interval)
    × (keep_duration h.timeout ≡ ok r.timeout)
    × (keep_duration h.start_period ≡ ok r.start_period)
    × (keep_duration h.start_interval ≡ ok r.start_interval)
    × (r.retries ≡ and_then h.retries keep_number)
    × (r.test ≡ and_then h.test (keep_test (is_set h.test_cli_compatible) b))

normalize_healthcheck-IsNormalForm :
    (h : Healthcheck) (b : Bool) {r : Normalized}
    → normalize_healthcheck h b ≡ ok r
    → IsNormalForm h b r
unfolding normalize_healthcheck
normalize_healthcheck-IsNormalForm h b e =
    let (i, ei, e1) = >>=-eq-ok (keep_duration h.interval) _ e in
    let (t, et, e2) = >>=-eq-ok (keep_duration h.timeout) _ e1 in
    let (p, ep, e3) = >>=-eq-ok (keep_duration h.start_period) _ e2 in
    let (s, es, e4) = >>=-eq-ok (keep_duration h.start_interval) _ e3 in
    (ground arith, ground arith, ground arith, ground arith, ground arith, ground arith)

-- A health check that `normalize_healthcheck` accepts has no duration and no number of retries
-- that is zero.
pub normalize_healthcheck-HasNoZero :
    (h : Healthcheck) (normalize_test : Bool) {r : Normalized}
    → normalize_healthcheck h normalize_test ≡ ok r
    → HasNoZero r
normalize_healthcheck-HasNoZero h b e =
    let f = normalize_healthcheck-IsNormalForm h b e in
    record {
      interval_ne = λ z. keep_duration-ne-zero h.interval (rw z at f.0);
      timeout_ne = λ z. keep_duration-ne-zero h.timeout (rw z at f.1);
      start_period_ne = λ z. keep_duration-ne-zero h.start_period (rw z at f.2);
      start_interval_ne = λ z. keep_duration-ne-zero h.start_interval (rw z at f.3);
      retries_ne = λ z. keep_number-ne-zero h.retries (sym (rw z at f.4));
    }

-- What `parse_healthcheck` makes of a test: the check is off if the command is `NONE`, and
-- otherwise has the command as a list.
abbrev pub FollowsTest : HealthTest → Parsed → Type 0
FollowsTest v r =
    ((normalize_healthcheck_test v ≡ codes "NONE" ∷ []) × (r ≡ disabled))
    ⊎ ((normalize_healthcheck_test v ≢ codes "NONE" ∷ [])
        × (n : Normalized) × (r ≡ enabled n)
        × (n.test ≡ some (words (normalize_healthcheck_test v))))

keep_test_truthy :
    (cli : Bool) (v : HealthTest)
    → test_truthy v ≡ true
    → keep_test cli true v ≡ some (words (normalize_healthcheck_test v))
unfolding keep_test
keep_test_truthy cli v u = ground arith

-- With a test that is not empty, a health check is read as switched off exactly when its command
-- is the one word `NONE`; otherwise the result is on, and its test is the command as a list.
pub parse_healthcheck-FollowsTest :
    (h : Healthcheck) (v : HealthTest) {r : Parsed}
    → h.test ≡ some v
    → test_truthy v ≡ true
    → parse_healthcheck (some h) ≡ ok r
    → FollowsTest v r
unfolding parse_healthcheck
parse_healthcheck-FollowsTest h v {r} t u e =
    let given : has_test h ≡ true = rw t u in
    let run : (normalize_healthcheck h true >>= λ n.
    ok (if is_none_test n.test then disabled else enabled n))
        ≡ ok r =
      ground arith in
    let (n, f, g) = >>=-eq-ok (normalize_healthcheck h true) _ run in
    let ws = normalize_healthcheck_test v in
    let test : n.test ≡ some (words ws) =
      (normalize_healthcheck-IsNormalForm h true f).5
      ∙ ap (λ o. and_then o (keep_test (is_set h.test_cli_compatible) true)) t
      ∙ keep_test_truthy (is_set h.test_cli_compatible) v u in
    let tested : is_none_test n.test ≡ (ws =? codes "NONE" ∷ []) =
      ap is_none_test test ∙ unfold is_none_test in refl in
    elim (Bool-cases (ws =? codes "NONE" ∷ [])) [
      | inl x ↦ inl ((list_beq_iff ws (codes "NONE" ∷ [])).0 x, ground arith)
      | inr x ↦
          inr (
            (λ y. ground (arith, (list_beq_iff ws (codes "NONE" ∷ [])).1 y)),
            n,
            ground arith,
            test,
          )
    ]
