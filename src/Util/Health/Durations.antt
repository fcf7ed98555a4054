-- ===== src/Util/Health/Durations.antt =====
-- `convert_duration_to_nanosecond` of module_utils/_util.py on durations written with their units.
use openstack_osa_office_clu.Prelude.{
  ◌<◌, ℕ, ◌+◌, ◌*◌, ◌/◌, ◌%◌, ◌≤◌, Bool, true, false, ◌&&◌, ◌||◌, [], ◌∷◌, ◌++◌, some, none, Option,
  ok, ◌==◌, truthy, ltb, list_eq, nat_eq, ◌≡◌, refl, arith, ◌⊎◌, inl, inr, all, ◌∙◌, ap, sym,
  Bool-cases,
}
use openstack_osa_office_clu.Prelude.Text.{Text, codes, is_digit, strip_prefix}
use openstack_osa_office_clu.Util.Health.{
  amount, Parts, span_digits, take_group, match_duration, total_micros, first_is,
  convert_duration_to_nanosecond,
}

-- A number, as digits.
abbrev pub IsNumber : Text → Type 0
IsNumber ds = (truthy ds ≡ true) × (all is_digit ds ≡ true)

abbrev pub IsAmount : Option Text → Type 0
IsAmount none = Unit
IsAmount (some ds) = IsNumber ds

abbrev pub write_group : Text → Option Text → Text → Text
write_group unit none rest = rest
write_group unit (some ds) rest = ds ++ (unit ++ rest)

-- The parts that are given, in order, each with its unit.
abbrev pub write_duration : Parts → Text
write_duration p = write_group (codes "h") p.hours (
    write_group (codes "m") p.minutes (
      write_group (codes "s") p.seconds
        (write_group (codes "ms") p.milliseconds (write_group (codes "us") p.microseconds []))))

span_digits-append :
    (ds : Text) (c : ℕ) (r : Text)
    → all is_digit ds ≡ true
    → is_digit c ≡ false
    → span_digits (ds ++ c ∷ r) ≡ (ds, c ∷ r)
unfolding span_digits
span_digits-append [] c r h n = ground arith
span_digits-append (d ∷ ds) c r h n = ground (arith, span_digits-append ds c r)

-- What a text of later groups begins with: nothing, or a number and a character `c` with `fits c r`.
abbrev Head : (ℕ → Text → Bool) → Text → Type 0
Head fits s =
    (s ≡ [])
    ⊎ ((ds : Text) × (c : ℕ) × (r : Text) × IsNumber ds × (s ≡ ds ++ c ∷ r) × (fits c r ≡ true))

abbrev from_us : ℕ → Text → Bool
from_us c r = c == b'u'

abbrev from_ms : ℕ → Text → Bool
from_ms c r = from_us c r || c == b'm' && first_is b's' r

abbrev from_s : ℕ → Text → Bool
from_s c r = from_ms c r || c == b's'

abbrev from_m : ℕ → Text → Bool
from_m c r = from_s c r || c == b'm'

module _ (unit : Text) (not_s : Bool) where
  -- Digits with the unit behind them.
  take_group-some :
      (ds rest : Text) (c : ℕ) (u : Text)
      → IsNumber ds
      → unit ≡ c ∷ u
      → is_digit c ≡ false
      → strip_prefix unit (unit ++ rest) ≡ some rest
      → (not_s && first_is b's' rest) ≡ false
      → take_group unit not_s (ds ++ (unit ++ rest)) ≡ (some ds, rest)
  unfolding take_group
  take_group-some ds rest c u n e d p q =
      let run : span_digits (ds ++ (unit ++ rest)) ≡ (ds, unit ++ rest) =
        ap (λ t. span_digits (ds ++ (t ++ rest))) e
        ∙ span_digits-append ds c (u ++ rest) n.1 d
        ∙ ap (λ t. (ds, t ++ rest)) (sym e) in
      ground arith

  -- Digits with another unit behind them, or nothing.
  take_group-none :
      (fits : ℕ → Text → Bool) (s : Text)
      → Head fits s
      → ((c : ℕ) (r : Text)
          → fits c r ≡ true
          → (is_digit c ≡ false)
            × ((strip_prefix unit (c ∷ r) ≡ none)
                ⊎ ((t : Text) × (strip_prefix unit (c ∷ r) ≡ some t)
                    × ((not_s && first_is b's' t) ≡ true))))
      → take_group unit not_s s ≡ (none, s)
  unfolding take_group
  take_group-none fits s (inl e) h = rw e (unfold span_digits in refl)
  take_group-none fits s (inr (ds, c, r, n, e, o)) h =
      let (d, w) = h c r o in
      let run : span_digits (ds ++ c ∷ r) ≡ (ds, c ∷ r) = span_digits-append ds c r n.1 d in
      let found : span_digits s ≡ (ds, c ∷ r) = rw e run in
      elim w [ inl x ↦ ground arith | inr (t, x, y) ↦ ground arith ]

-- Each text of later groups begins as its first group says.
Head-us : (us : Option Text) → IsAmount us → Head from_us (write_group (codes "us") us [])
Head-us none a = inl refl
Head-us (some ds) a = inr (ds, b'u', b's' ∷ [], a, refl, refl)

Head-weaken :
    (p q : ℕ → Text → Bool) (s : Text)
    → ((c : ℕ) (r : Text) → p c r ≡ true → q c r ≡ true)
    → Head p s
    → Head q s
Head-weaken p q s w (inl e) = inl e
Head-weaken p q s w (inr (ds, c, r, n, e, o)) = inr (ds, c, r, n, e, w c r o)

Head-ms :
    (ms us : Option Text)
    → IsAmount ms
    → IsAmount us
    → Head from_ms (write_group (codes "ms") ms (write_group (codes "us") us []))
Head-ms none us a b = Head-weaken from_us from_ms _ (λ c r h. ground arith) (Head-us us b)
Head-ms (some ds) us a b = inr (ds, b'm', b's' ∷ write_group (codes "us") us [], a, refl, refl)

abbrev behind_seconds : Parts → Text
behind_seconds p =
    write_group (codes "ms") p.milliseconds (write_group (codes "us") p.microseconds [])

abbrev behind_minutes : Parts → Text
behind_minutes p = write_group (codes "s") p.seconds (behind_seconds p)

abbrev behind_hours : Parts → Text
behind_hours p = write_group (codes "m") p.minutes (behind_minutes p)

pub record IsDuration (p : Parts) : Type 0 where
  pub is_hours : IsAmount p.hours
  pub is_minutes : IsAmount p.minutes
  pub is_seconds : IsAmount p.seconds
  pub is_milliseconds : IsAmount p.milliseconds
  pub is_microseconds : IsAmount p.microseconds

module _ (p : Parts) (w : IsDuration p) where
  Head-behind_minutes : Head from_s (behind_minutes p)
  Head-behind_minutes = go p.seconds w.is_seconds
    where
      go :
          (s : Option Text)
          → IsAmount s
          → Head from_s (write_group (codes "s") s (behind_seconds p))
      go none a =
          Head-weaken from_ms from_s _ (λ c r h. ground arith)
            (Head-ms p.milliseconds p.microseconds w.is_milliseconds w.is_microseconds)
      go (some ds) a = inr (ds, b's', behind_seconds p, a, refl, refl)

  Head-behind_hours : Head from_m (behind_hours p)
  Head-behind_hours = go p.minutes w.is_minutes
    where
      go :
          (s : Option Text)
          → IsAmount s
          → Head from_m (write_group (codes "m") s (behind_minutes p))
      go none a = Head-weaken from_s from_m _ (λ c r h. ground arith) Head-behind_minutes
      go (some ds) a = inr (ds, b'm', behind_minutes p, a, refl, ground arith)

-- Each group takes its own number and leaves the rest.
take-us :
    (us : Option Text)
    → IsAmount us
    → take_group (codes "us") false (write_group (codes "us") us []) ≡ (us, [])
unfolding strip_prefix
take-us none a = unfold take_group span_digits in refl
take-us (some ds) a =
    take_group-some (codes "us") false ds [] b'u' (codes "s") a refl refl refl refl

take-ms :
    (ms : Option Text) (rest : Text)
    → IsAmount ms
    → Head from_us rest
    → take_group (codes "ms") false (write_group (codes "ms") ms rest) ≡ (ms, rest)
unfolding strip_prefix
take-ms none rest a h =
    take_group-none (codes "ms") false from_us rest h (λ c r f. (ground arith, inl (ground arith)))
take-ms (some ds) rest a h =
    take_group-some (codes "ms") false ds rest b'm' (codes "s") a refl refl refl refl

take-s :
    (s : Option Text) (rest : Text)
    → IsAmount s
    → Head from_ms rest
    → take_group (codes "s") false (write_group (codes "s") s rest) ≡ (s, rest)
unfolding strip_prefix
take-s none rest a h =
    take_group-none (codes "s") false from_ms rest h (λ c r f. (ground arith, inl (ground arith)))
take-s (some ds) rest a h = take_group-some (codes "s") false ds rest b's' [] a refl refl refl refl

Head-no_s : (fits : ℕ → Text → Bool) (rest : Text) → Head fits rest → first_is b's' rest ≡ false
Head-no_s fits rest (inl e) = rw e
Head-no_s fits rest (inr ([], c, r, n, e, o)) = absurd (ground arith)
Head-no_s fits rest (inr (d ∷ ds, c, r, n, e, o)) = rw e (ground arith)

skip_m :
    (c : ℕ) (r : Text)
    → from_s c r ≡ true
    → (is_digit c ≡ false)
      × ((strip_prefix (codes "m") (c ∷ r) ≡ none)
          ⊎ ((t : Text) × (strip_prefix (codes "m") (c ∷ r) ≡ some t) × (first_is b's' t ≡ true)))
unfolding strip_prefix
skip_m c r f = elim (Bool-cases (c == b'm')) [
  | inl e ↦ (ground arith, inr (r, ground arith, ground arith))
  | inr e ↦ (ground arith, inl (ground arith))
]

take-m :
    (m : Option Text) (rest : Text)
    → IsAmount m
    → Head from_s rest
    → take_group (codes "m") true (write_group (codes "m") m rest) ≡ (m, rest)
unfolding strip_prefix
take-m none rest a h = take_group-none (codes "m") true from_s rest h skip_m
take-m (some ds) rest a h =
    take_group-some (codes "m") true ds rest b'm' [] a refl refl refl (Head-no_s from_s rest h)

take-h :
    (h : Option Text) (rest : Text)
    → IsAmount h
    → Head from_m rest
    → take_group (codes "h") false (write_group (codes "h") h rest) ≡ (h, rest)
unfolding strip_prefix
take-h none rest a w =
    take_group-none (codes "h") false from_m rest w (λ c r f. (ground arith, inl (ground arith)))
take-h (some ds) rest a w = take_group-some (codes "h") false ds rest b'h' [] a refl refl refl refl

match_duration-write_duration :
    (p : Parts) → IsDuration p → match_duration (write_duration p) ≡ some p
unfolding match_duration
match_duration-write_duration p w =
    rw (take-h p.hours (behind_hours p) w.is_hours (Head-behind_hours p w)) (
      rw (take-m p.minutes (behind_minutes p) w.is_minutes (Head-behind_minutes p w)) (
        rw
          (take-s p.seconds (behind_seconds p) w.is_seconds
            (Head-ms p.milliseconds p.microseconds w.is_milliseconds w.is_microseconds))
          (rw
            (take-ms p.milliseconds _ w.is_milliseconds (Head-us p.microseconds w.is_microseconds))
            (rw (take-us p.microseconds w.is_microseconds)))))

recombine :
    (t : ℕ)
    → (t % 1_000_000 + (t / 1_000_000 % 86_400 + t / 1_000_000 / 86_400 * 24 * 3600) * 1_000_000)
        * 1000
      ≡ t * 1000
recombine t = omega arith

-- What the parts of a duration say, in nanoseconds.
abbrev pub nanoseconds_of : Parts → ℕ
nanoseconds_of p =
    amount p.hours * 3_600_000_000_000
    + amount p.minutes * 60_000_000_000
    + amount p.seconds * 1_000_000_000
    + amount p.milliseconds * 1_000_000
    + amount p.microseconds * 1000

nanoseconds_lem : (p : Parts) → total_micros p * 1000 ≡ nanoseconds_of p
unfolding total_micros
nanoseconds_lem p = omega arith

few_days :
    (t n : ℕ)
    → t * 1000 ≡ n
    → n < 86_400_000_000_000 * 1_000_000_000
    → t / 1_000_000 / 86_400 ≤ 999_999_999
few_days t n e h = omega arith

-- Hours, minutes, seconds, milliseconds and microseconds, each given or not, come to the sum of
-- their nanoseconds, if that is less than the 1_000_000_000 days that `timedelta` cannot hold.
pub convert_duration_to_nanosecond-write_duration :
    (p : Parts)
    → IsDuration p
    → nanoseconds_of p < 86_400_000_000_000 * 1_000_000_000
    → convert_duration_to_nanosecond (write_duration p) ≡ ok (nanoseconds_of p)
unfolding convert_duration_to_nanosecond
convert_duration_to_nanosecond-write_duration p w h =
    let few = few_days (total_micros p) (nanoseconds_of p) (nanoseconds_lem p) h in
    let e : ltb 999_999_999 (total_micros p / 1_000_000 / 86_400) ≡ false = ground arith in
    rw (match_duration-write_duration p w, convert_duration_to_nanosecond)
      (rw e (ap ok (recombine (total_micros p) ∙ nanoseconds_lem p)))
