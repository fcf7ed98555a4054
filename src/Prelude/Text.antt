-- ===== src/Prelude/Text.antt =====
-- Texts that the program walks: lists of code points. A native `String` serves where texts are only
-- compared whole.
use Prim.Native.Char.{code}
use Prim.Native.String.{String}
use Prim.Native.Nat.{ℕ, ◌+◌, ◌*◌, ◌-◌}
use mathlib.Core.Path.{◌≡◌, refl}
use mathlib.Core.Bool.{Bool, true, false, ◌||◌, ◌&&◌}
use mathlib.Core.Logic.{◌↔◌, inl, inr}
use mathlib.Core.Option
use mathlib.Core.Option.{Option, none, some}
use mathlib.Core.List.{List, [], ◌∷◌, ◌++◌, map, reverse}
use native.Mathlib.Omega.{arith}
use openstack_osa_office_clu.Prelude.Tests.{if◌then◌else◌, ◌==◌, leb, Option-cases}

abbrev pub Text : Type 0
Text = List ℕ

abbrev pub codes : String → Text
codes String.[] = []
codes (String.◌∷◌ c s) = code c ∷ codes s

abbrev pub within : ℕ → ℕ → ℕ → Bool
within lo hi c = leb lo c && leb c hi

-- `c in s` for a one-character text `c`
unfoldable pub has : ℕ → Text → Bool
has c [] = false
has c (x ∷ xs) = x == c || has c xs

-- `s.split(c, 1)`: the text before and behind the first `c`, `none` where there is none
unfoldable pub split_once : ℕ → Text → Option (Text × Text)
split_once c [] = none
split_once c (x ∷ xs) =
    let rest = split_once c xs in
    if x == c then some ([], xs) else elim rest [ none ↦ none | some (a, b) ↦ some (x ∷ a, b) ]

-- `s.rsplit(c, 1)`: the same at the last `c`
unfoldable pub rsplit_once : ℕ → Text → Option (Text × Text)
rsplit_once c [] = none
rsplit_once c (x ∷ xs) = elim (rsplit_once c xs) [
  | none ↦ if x == c then some ([], xs) else none
  | some (a, b) ↦ some (x ∷ a, b)
]

-- Python's `$` also matches before one newline at the end: the text without it.
unfoldable pub before_newline : Text → Option Text
before_newline [] = none
before_newline (x ∷ xs) = elim xs [
  | [] ↦ if x == b'\n' then some [] else none
  | y ∷ ys ↦ elim (before_newline xs) [ none ↦ none | some t ↦ some (x ∷ t) ]
]

abbrev pub drop_while : (ℕ → Bool) → Text → Text
drop_while p [] = []
drop_while p (x ∷ xs) = if p x then drop_while p xs else x ∷ xs

-- ASCII white space, as `str.strip` and `\s` read it
abbrev pub is_space : ℕ → Bool
is_space c = c == 32 || within 9 13 c || within 28 31 c

-- `s.lstrip()`, `s.rstrip()` and `s.strip()`
abbrev pub lstrip : Text → Text
lstrip = drop_while is_space

abbrev pub rstrip : Text → Text
rstrip s = reverse (drop_while is_space (reverse s))

abbrev pub strip : Text → Text
strip s = rstrip (lstrip s)

-- `s.startswith(p)`: what is left behind the prefix
unfoldable pub strip_prefix : Text → Text → Option Text
strip_prefix [] s = some s
strip_prefix (c ∷ p) [] = none
strip_prefix (c ∷ p) (x ∷ s) = if x == c then strip_prefix p s else none

abbrev pub is_digit : ℕ → Bool
is_digit = within b'0' b'9'

-- `s.lower()` on ASCII
abbrev pub lower_char : ℕ → ℕ
lower_char c = if within b'A' b'Z' c then c + 32 else c

unfoldable pub lower : Text → Text
lower = map lower_char

-- The digits of `int(s)`, with single underscores between digits.
unfoldable pub int_digits : Bool → ℕ → Text → Option ℕ
int_digits after acc [] = if after then some acc else none
int_digits after acc (c ∷ s) =
    let digit = int_digits true (acc * 10 + (c - b'0')) s in
    let under = int_digits false acc s in
    if is_digit c then digit else if after && c == b'_' then under else none

pub data Sign : Type 0 where
  plus minus : Sign

-- `int(s)` on ASCII: a sign and a magnitude, `none` for the `ValueError`
unfoldable pub parse_int : Text → Option (Sign × ℕ)
unfolding int_digits
parse_int s = signed (strip s)
  where
    signed : Text → Option (Sign × ℕ)
    signed [] = none
    signed (c ∷ t) =
        if c == b'-'
        then Option.map (λ n. (minus, n)) (int_digits false 0 t)
        else if c == b'+'
        then Option.map (λ n. (plus, n)) (int_digits false 0 t)
        else Option.map (λ n. (plus, n)) (int_digits false 0 (c ∷ t))

pub has-append : (c : ℕ) (a b : Text) → has c (a ++ b) ≡ (has c a || has c b)
unfolding has
has-append c [] b = refl
has-append c (x ∷ a) b = ground (arith, has-append c a b)

pub split_once-join :
    (c : ℕ) (a b : Text) → has c a ≡ false → split_once c (a ++ c ∷ b) ≡ some (a, b)
unfolding split_once has
split_once-join c [] b h = ground arith
split_once-join c (x ∷ a) b h = ground (arith, split_once-join c a b)

pub split_once-none : (c : ℕ) (s : Text) → has c s ≡ false → split_once c s ≡ none
unfolding split_once has
split_once-none c [] h = refl
split_once-none c (x ∷ s) h = ground (arith, split_once-none c s)

pub rsplit_once-none : (c : ℕ) (s : Text) → has c s ≡ false → rsplit_once c s ≡ none
unfolding rsplit_once has
rsplit_once-none c [] h = refl
rsplit_once-none c (x ∷ s) h = ground (arith, rsplit_once-none c s)

pub rsplit_once-join :
    (c : ℕ) (a b : Text) → has c b ≡ false → rsplit_once c (a ++ c ∷ b) ≡ some (a, b)
unfolding rsplit_once has
rsplit_once-join c [] b h = ground (arith, rsplit_once-none c b)
rsplit_once-join c (x ∷ a) b h = ground (arith, rsplit_once-join c a b)

-- What a split returns joins to the text, and the separator is not in the side that was scanned.
pub split_once-eq-some :
    (c : ℕ) (s : Text) {a b : Text}
    → split_once c s ≡ some (a, b)
    → (s ≡ a ++ c ∷ b) × (has c a ≡ false)
unfolding split_once has
split_once-eq-some c [] h = ground arith
split_once-eq-some c (x ∷ s) {a} {b} h = elim (Option-cases (split_once c s)) [
  | inl e ↦ ground arith
  | inr ((a', b'), e) ↦ ground (arith, split_once-eq-some c s e)
]

pub rsplit_once-eq-none : (c : ℕ) (s : Text) → rsplit_once c s ≡ none → has c s ≡ false
unfolding rsplit_once has
rsplit_once-eq-none c [] h = refl
rsplit_once-eq-none c (x ∷ s) h = ground (arith, rsplit_once-eq-none c s)

pub rsplit_once-eq-some :
    (c : ℕ) (s : Text) {a b : Text}
    → rsplit_once c s ≡ some (a, b)
    → (s ≡ a ++ c ∷ b) × (has c b ≡ false)
unfolding rsplit_once
rsplit_once-eq-some c [] h = ground arith
rsplit_once-eq-some c (x ∷ s) {a} {b} h = elim (Option-cases (rsplit_once c s)) [
  | inl e ↦ ground (arith, rsplit_once-eq-none c s e)
  | inr ((a', b'), e) ↦ ground (arith, rsplit_once-eq-some c s e)
]

pub before_newline_iff : (s t : Text) → (before_newline s ≡ some t) ↔ (s ≡ t ++ b'\n' ∷ [])
unfolding before_newline
before_newline_iff [] [] = ground arith
before_newline_iff [] (y ∷ t) = ground arith
before_newline_iff (x ∷ []) [] = ground arith
before_newline_iff (x ∷ []) (y ∷ []) = ground arith
before_newline_iff (x ∷ []) (y ∷ z ∷ t) = ground arith
before_newline_iff (x ∷ y ∷ s) [] = elim (Option-cases (before_newline (y ∷ s))) [
  | inl e ↦ rw e (ground arith)
  | inr (u, e) ↦ rw e (ground arith)
]
before_newline_iff (x ∷ y ∷ s) (z ∷ t) = elim (Option-cases (before_newline (y ∷ s))) [
  | inl e ↦ rw e (ground (arith, before_newline_iff (y ∷ s) t))
  | inr (u, e) ↦ rw e (ground (arith, before_newline_iff (y ∷ s) t))
]
