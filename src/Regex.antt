-- ===== src/Regex.antt =====
-- The regular expressions of the sources, as a data type with a matcher by derivatives, and the
-- relation that says what an expression matches.
pub mod Sound
pub mod Counted
use openstack_osa_office_clu.Prelude.{
  ℕ, zero, suc, Bool, true, false, ◌&&◌, ◌||◌, List, [], ◌∷◌, ◌++◌, if◌then◌else◌, ◌==◌, some, none,
}
use openstack_osa_office_clu.Prelude.Text.{Text, before_newline}

pub data Regex : Type 0 where
  never : Regex
  empty : Regex
  one : (ℕ → Bool) → Regex
  seq : Regex → Regex → Regex
  alt : Regex → Regex → Regex
  star : Regex → Regex

-- `r+`
abbrev pub plus : Regex → Regex
plus r = seq r (star r)

-- one given character
abbrev pub char : ℕ → Regex
char c = one (λ x. x == c)

-- `r{n}`
abbrev pub times : ℕ → Regex → Regex
times zero r = empty
times (suc n) r = seq r (times n r)

-- `r{0,n}`
abbrev pub up_to : ℕ → Regex → Regex
up_to zero r = empty
up_to (suc n) r = alt empty (seq r (up_to n r))

-- A literal text.
abbrev pub literal : Text → Regex
literal [] = empty
literal (c ∷ s) = seq (char c) (literal s)

pub nullable : Regex → Bool
nullable never = false
nullable empty = true
nullable (one p) = false
nullable (seq r s) = nullable r && nullable s
nullable (alt r s) = nullable r || nullable s
nullable (star r) = true

pub is_never : Regex → Bool
is_never never = true
is_never _ = false

pub is_empty : Regex → Bool
is_empty empty = true
is_empty _ = false

-- Sequence and choice that drop the parts which cannot match.
pub join : Regex → Regex → Regex
join r s = if is_never r then never else if is_empty r then s else seq r s

pub either : Regex → Regex → Regex
either r s = if is_never r then s else if is_never s then r else alt r s

-- What is left to match behind the character `c`.
pub derive : ℕ → Regex → Regex
derive c never = never
derive c empty = never
derive c (one p) = if p c then empty else never
derive c (seq r s) =
    if nullable r then either (join (derive c r) s) (derive c s) else join (derive c r) s
derive c (alt r s) = either (derive c r) (derive c s)
derive c (star r) = join (derive c r) (star r)

-- `re.fullmatch(r, s) is not None`
unfoldable pub full_match : Regex → Text → Bool
unfolding nullable derive join either is_never is_empty
full_match r [] = nullable r
full_match r (c ∷ s) = full_match (derive c r) s

-- `re.match("^r$", s) is not None`: `$` matches at the end, and before a newline at the end.
unfoldable pub line_match : Regex → Text → Bool
unfolding full_match before_newline
line_match r s =
    full_match r s || elim (before_newline s) [ none ↦ false | some t ↦ full_match r t ]
