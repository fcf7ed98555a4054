-- ===== src/Logfmt/Total.antt =====
-- module_utils/_logfmt.py: the rounds of the loop of `parse_line`, and the position in the line.
use openstack_osa_office_clu.Prelude.{
  ℕ, zero, suc, ◌+◌, ◌*◌, ◌-◌, ◌≤◌, ◌<◌, Bool, true, [], ◌∷◌, List, Result, ok, err, length, ◌≡◌,
  ◌≢◌, refl, arith, inl, inr, Bool-cases, Result-cases,
}
use openstack_osa_office_clu.Logfmt.{
  LogfmtError, Parser, Mode, Step, garbage, in_key, equal, ident_value, quoted_value,
  parse_unicode_sequence, step, out_of_fuel, out_of_range, run, finish, parse_line, parse_escape,
  parse_quoted_value, next, prev, done, cur, rounds, initial, char_at,
}
use openstack_osa_office_clu.Prelude.Text.{Text}
use openstack_osa_office_clu.Logfmt.Unicode.{parse_unicode_sequence-ne-ok}

-- Twice the characters left, and one more in the mode that may not read one.
abbrev pub measure : Mode → Parser → ℕ
measure garbage p = 2 * (length p.line - p.index) + 1
measure _ p = 2 * (length p.line - p.index)

-- A step stays on the line and comes closer to its end.
abbrev pub Nearer : Mode → Parser → Step → Type 0
Nearer m p (ok (m', p')) = (measure m' p' < measure m p) × (p'.line ≡ p.line)
Nearer m p (err e) = (e ≢ out_of_fuel) × (e ≢ out_of_range)

char_at-ok : (line : List ℕ) (i : ℕ) → i < length line → (c : ℕ) × (char_at line i ≡ ok c)
char_at-ok [] i h = absurd (omega arith)
char_at-ok (c ∷ line) zero h = (c, refl)
char_at-ok (c ∷ line) (suc i) h = char_at-ok line i (omega arith)

unicode-IsFine :
    (p : Parser)
    → (parse_unicode_sequence p ≢ err out_of_fuel) × (parse_unicode_sequence p ≢ err out_of_range)
unfolding parse_unicode_sequence
unicode-IsFine p = ((λ h. ground arith), (λ h. ground arith))

parse_escape-Nearer :
    (c : ℕ) (p : Parser) → p.index < length p.line → Nearer quoted_value p (parse_escape c (next p))
unfolding parse_escape
parse_escape-Nearer c p h = elim (Result-cases (parse_unicode_sequence (prev (next p)))) [
  | inl (r, e) ↦ absurd (parse_unicode_sequence-ne-ok _ r e)
  | inr (f, e) ↦ ground (arith, unicode-IsFine (prev (next p)))
]

parse_quoted_value-Nearer :
    (c : ℕ) (p : Parser) → p.index < length p.line → Nearer quoted_value p (parse_quoted_value c p)
unfolding parse_quoted_value
parse_quoted_value-Nearer c p h = elim (Bool-cases (done (next p))) [
  | inl e ↦ ground arith
  | inr e ↦
      let (d, f) = char_at-ok p.line (p.index + 1) (ground arith) in
      ground (arith, parse_escape-Nearer d p h)
]

pub step-Nearer :
    (logrus_mode : Bool) (m : Mode) (c : ℕ) (p : Parser)
    → p.index < length p.line
    → Nearer m p (step logrus_mode m c p)
unfolding step
step-Nearer l garbage c p h = ground arith
step-Nearer l in_key c p h = ground arith
step-Nearer l equal c p h = ground arith
step-Nearer l ident_value c p h = ground arith
step-Nearer l quoted_value c p h = parse_quoted_value-Nearer c p h

-- A result that is no fault of the loop.
abbrev pub IsFine {ℓ} : {A : Type ℓ} → Result LogfmtError A → Type ℓ
IsFine r = (r ≢ err out_of_fuel) × (r ≢ err out_of_range)

err-IsFine {ℓ κ} :
    {A : Type ℓ} {B : Type κ} (x : LogfmtError) → IsFine {A = A} (err x) → IsFine {A = B} (err x)
err-IsFine x h = ((λ k. h.0 (cc)), (λ k. h.1 (cc)))

measure-le : (m : Mode) (p : Parser) → 2 * (length p.line - p.index) ≤ measure m p
measure-le garbage p = omega arith
measure-le _ p = omega arith

pub run_done : (m : Mode) (p : Parser) → measure m p ≤ 0 → done p ≡ true
run_done m p h = let low = measure-le m p in ground arith

run-IsFine :
    (fuel : ℕ) (l : Bool) (m : Mode) (p : Parser) → measure m p ≤ fuel → IsFine (run fuel l m p)
unfolding run
run-IsFine zero l m p h = let e = run_done m p h in ((λ k. ground arith), (λ k. ground arith))
run-IsFine (suc fuel) l m p h = elim (Bool-cases (done p)) [
  | inl e ↦ rw (e, run) ((λ k. ground arith), (λ k. ground arith))
  | inr e ↦
      let (c, f) = char_at-ok p.line p.index (ground arith) in
      let g : cur p ≡ ok c = f in
      rw (e, run)
        (rw (g) (elim (Result-cases (step l m c p)) [
          | inl ((m', p'), k) ↦ rw k (
              run-IsFine fuel l m' p'
                (ground (arith, rw k at (step-Nearer l m c p (ground arith)))))
          | inr (x, k) ↦ rw k (
            (λ z. ground (arith, rw k at (step-Nearer l m c p (ground arith)))),
            (λ z. ground (arith, rw k at (step-Nearer l m c p (ground arith)))),
          )
        ]))
]

finish-IsFine : (l : Bool) (m : Mode) (p : Parser) → IsFine (finish l m p)
unfolding finish
finish-IsFine l garbage p = ((λ h. ground arith), (λ h. ground arith))
finish-IsFine l _ p = ((λ h. ground arith), (λ h. ground arith))

-- `parse_line` always ends with a dict or one of its own exceptions: its loop ends within two
-- rounds for each character and one more, and it never reads outside the line.
pub parse_line-IsFine : (line : Text) (logrus_mode : Bool) → IsFine (parse_line line logrus_mode)
unfolding parse_line
parse_line-IsFine line l = elim (Result-cases (run (rounds line) l garbage (initial line))) [
  | inl ((m, p), e) ↦ rw e (finish-IsFine l m p)
  | inr (x, e) ↦
      rw e
        (err-IsFine x (rw e at (run-IsFine (rounds line) l garbage (initial line) (omega arith))))
]
