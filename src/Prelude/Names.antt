-- ===== src/Prelude/Names.antt =====
-- Strings that the program makes: numbers written out, and letters in lower case.
use Prim.Native.Nat.{ℕ, zero, suc, ◌/◌, ◌%◌}
use mathlib.Core.Path.{◌≡◌, refl}
use Prim.Native.Char.{Char, code}
use Prim.Native.String.{String, ◌++◌}
use openstack_osa_office_clu.Prelude.Tests.{◌==◌, ltb, if◌then◌else◌}

-- The character of the second text that stands where `c` stands in the first.
pub exchanged : Char → String → String → Char
exchanged c String.[] to = c
exchanged c (String.◌∷◌ u us) String.[] = c
exchanged c (String.◌∷◌ u us) (String.◌∷◌ l ls) = if code c == code u then l else exchanged c us ls

-- `s.lower()`, for the letters of ASCII
unfoldable pub lower_string : String → String
unfolding exchanged
lower_string String.[] = ""
lower_string (String.◌∷◌ c s) =
    String.◌∷◌ (exchanged c "ABCDEFGHIJKLMNOPQRSTUVWXYZ" "abcdefghijklmnopqrstuvwxyz")
      (lower_string s)

pub digit : ℕ → String
digit n =
    if n == 0
    then "0"
    else if n == 1
    then "1"
    else if n == 2
    then "2"
    else if n == 3
    then "3"
    else if n == 4
    then "4"
    else if n == 5
    then "5"
    else if n == 6
    then "6"
    else if n == 7
    then "7"
    else if n == 8
    then "8"
    else "9"

-- Decimal digits before `rest`. As many rounds as the number serve, since each divides it by ten.
pub write_digits : ℕ → ℕ → String → String
unfolding digit
write_digits zero n rest = digit n ++ rest
write_digits (suc fuel) n rest =
    let longer = write_digits fuel (n / 10) (digit (n % 10) ++ rest) in
    if ltb n 10 then digit n ++ rest else longer

-- `str(n)`
unfoldable pub show : ℕ → String
unfolding write_digits
show n = write_digits n n ""

show_2048 : show 2048 ≡ "2048"
unfolding show
show_2048 = refl
