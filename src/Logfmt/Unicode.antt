-- ===== src/Logfmt/Unicode.antt =====
-- module_utils/_logfmt.py: `\u` escapes and the loop over their digits.
use openstack_osa_office_clu.Prelude.{
  ℕ, zero, suc, ◌+◌, ◌-◌, ◌<◌, List, [], ◌∷◌, Bool, if◌then◌else◌, some, ok, err, length, get_elem?,
  ltb, ◌≡◌, ◌≢◌, arith,
}
use openstack_osa_office_clu.Logfmt.{
  Parser, quoted_value, no_space_for_unicode, prev, next, parse_unicode_sequence, step,
  bad_unicode_digit,
}

pub get_elem?-lt : (line : List ℕ) (i : ℕ) {c : ℕ} → get_elem? line i ≡ some c → i < length line
get_elem?-lt [] i h = absurd (ground arith)
get_elem?-lt (x ∷ line) zero h = omega arith
get_elem?-lt (x ∷ line) (suc i) h = omega (arith, get_elem?-lt line i h)

-- No `\u` escape is ever decoded: `parse_unicode_sequence` raises on every input.
pub parse_unicode_sequence-ne-ok : (p : Parser) (r : ℕ × Parser) → parse_unicode_sequence p ≢ ok r
unfolding parse_unicode_sequence
parse_unicode_sequence-ne-ok p r h = ground arith

parse_unicode_sequence_at :
    (p : Parser)
    → get_elem? p.line p.index ≡ some b'\\'
    → get_elem? p.line (p.index + 1) ≡ some b'u'
    → parse_unicode_sequence p
      ≡ err (
          if ltb (length p.line) (p.index + 6)
          then no_space_for_unicode
          else bad_unicode_digit b'\\')
unfolding parse_unicode_sequence
parse_unicode_sequence_at p h k = ground arith

-- In a quoted value, a backslash with a `u` behind it is always an error: that the text is too
-- short for four digits, or else that the backslash itself is no hexadecimal digit.
pub step_unicode :
    (logrus_mode : Bool) (p : Parser)
    → get_elem? p.line p.index ≡ some b'\\'
    → get_elem? p.line (p.index + 1) ≡ some b'u'
    → step logrus_mode quoted_value b'\\' p
      ≡ err (
          if ltb (length p.line) (p.index + 6)
          then no_space_for_unicode
          else bad_unicode_digit b'\\')
unfolding step
step_unicode logrus_mode p h k =
    let inside = get_elem?-lt p.line (p.index + 1) k in
    let back : p.index + 1 - 1 ≡ p.index = omega arith in
    ground (arith, parse_unicode_sequence_at (prev (next p)) (rw back h) (rw back k))
