-- ===== src/Logfmt.antt =====
-- logfmt lines: collections/ansible_collections/community/docker/plugins/module_utils/_logfmt.py.
pub mod Unicode
pub mod Total
pub mod RoundTrip
mod Examples
use openstack_osa_office_clu.Prelude.{
  ℕ, zero, suc, ◌+◌, ◌*◌, ◌-◌, Bool, true, false, not, ◌&&◌, ◌||◌, List, [], ◌∷◌, ◌++◌,
  if◌then◌else◌, ◌==◌, some, none, Option, Result, ok, err, ◌>>=◌, length, get_elem?, leb, ltb,
  list_eq, nat_eq, list_beq,
}
use openstack_osa_office_clu.Prelude.Text.{Text, within}
use openstack_osa_office_clu.Prelude.Dict.{Dict, insert}

-- `InvalidLogFmt`, by its message. `out_of_range` stands for Python's `IndexError`, and
-- `out_of_fuel` for a loop that has used up the rounds that it is given.
pub data LogfmtError : Type 0 where
  no_space_for_unicode bad_unicode_start no_equal unterminated_escape : LogfmtError
  control_character unterminated_string out_of_range out_of_fuel : LogfmtError
  bad_unicode_digit unknown_escape : ℕ → LogfmtError

pub data Mode : Type 0 where
  garbage in_key equal ident_value quoted_value : Mode

-- `_ESCAPE_DICT`
unfoldable pub escape_of : ℕ → Option ℕ
escape_of c =
    if c == b'"' || c == b'\\' || c == b'\'' || c == b'/'
    then some c
    else if c == b'b'
    then some 8
    else if c == b'f'
    then some 12
    else if c == b'n'
    then some 10
    else if c == b'r'
    then some 13
    else if c == b't'
    then some 9
    else none

-- `_HEX_DICT`
unfoldable pub hex_of : ℕ → Option ℕ
hex_of c =
    if within b'0' b'9' c
    then some (c - b'0')
    else if within b'a' b'f' c
    then some (c - b'a' + 10)
    else if within b'A' b'F' c
    then some (c - b'A' + 10)
    else none

abbrev pub is_ident : ℕ → Bool
is_ident c = ltb 32 c && not (c == b'"' || c == b'=')

-- `_Parser`, with the lists `key` and `value` and the dict `result` that `parse_line` keeps.
pub record Parser : Type 0 where
  pub line : Text
  pub index : ℕ
  pub key : Text
  pub value : Text
  pub result : Dict Text (Option Text)

abbrev pub done : Parser → Bool
done p = leb (length p.line) p.index

abbrev pub char_at : Text → ℕ → Result LogfmtError ℕ
char_at line i = elim (get_elem? line i) [ none ↦ err out_of_range | some c ↦ ok c ]

abbrev pub cur : Parser → Result LogfmtError ℕ
cur p = char_at p.line p.index

abbrev pub next : Parser → Parser
next p = record p { index = p.index + 1 }

abbrev pub prev : Parser → Parser
prev p = record p { index = p.index - 1 }

-- `_HEX_DICT[c]`
abbrev pub hex_digit : ℕ → Result LogfmtError ℕ
hex_digit c = elim (hex_of c) [ none ↦ err (bad_unicode_digit c) | some d ↦ ok d ]

-- The loop over the four digits: each round reads the character at `self.index`.
pub hex_rounds : ℕ → Parser → ℕ → Result LogfmtError ℕ
hex_rounds zero p v = ok v
hex_rounds (suc n) p v = do c ← cur p; d ← hex_digit c; hex_rounds n p (v * 16 + d)

-- `self.line[self.index : self.index + 2] != "\\u"`
abbrev pub starts_unicode : Parser → Bool
starts_unicode p = elim (get_elem? p.line p.index) [
  | none ↦ false
  | some c ↦
      c == b'\\' && elim (get_elem? p.line (p.index + 1)) [ none ↦ false | some d ↦ d == b'u' ]
]

unfoldable pub parse_unicode_sequence : Parser → Result LogfmtError (ℕ × Parser)
unfolding hex_rounds hex_of
parse_unicode_sequence p =
    if ltb (length p.line) (p.index + 6)
    then err no_space_for_unicode
    else if not (starts_unicode p)
    then err bad_unicode_start
    else do v ← hex_rounds 4 p 0; ok (v, record p { index = p.index + 6 })

abbrev pub Step : Type 0
Step = Result LogfmtError (Mode × Parser)

abbrev pub handle_kv : Bool → Parser → Parser
handle_kv has_no_value p = record p {
  key = [];
  value = [];
  result = insert p.key (if has_no_value then none else some p.value) p.result;
}

abbrev pub push_value : ℕ → Parser → Parser
push_value c p = record p { value = p.value ++ c ∷ [] }

parse_garbage : ℕ → Parser → Step
parse_garbage c p = if is_ident c then ok (in_key, p) else ok (garbage, next p)

parse_key : Bool → ℕ → Parser → Step
parse_key logrus_mode c p =
    if is_ident c
    then ok (in_key, next (record p { key = p.key ++ c ∷ [] }))
    else if c == b'='
    then ok (equal, next p)
    else if logrus_mode
    then err no_equal
    else ok (garbage, next (handle_kv true p))

parse_equal : ℕ → Parser → Step
parse_equal c p =
    if is_ident c
    then ok (ident_value, next (push_value c p))
    else if c == b'"'
    then ok (quoted_value, next p)
    else ok (garbage, next (handle_kv false p))

parse_ident_value : ℕ → Parser → Step
parse_ident_value c p =
    if is_ident c
    then ok (ident_value, next (push_value c p))
    else ok (garbage, next (handle_kv false p))

-- Behind a backslash, with the parser on the character `c` that follows it.
parse_escape : ℕ → Parser → Step
parse_escape c p = elim (escape_of c) [
  | some d ↦ ok (quoted_value, next (push_value d p))
  | none ↦
      if not (c == b'u')
      then err (unknown_escape c)
      else do r ← parse_unicode_sequence (prev p); ok (quoted_value, next (push_value r.0 r.1))
]

parse_quoted_value : ℕ → Parser → Step
parse_quoted_value c p =
    if c == b'\\'
    then (let q = next p in
        if done q then err unterminated_escape else do d ← cur q; parse_escape d q)
    else if c == b'"'
    then ok (garbage, next (handle_kv false p))
    else if ltb c 32
    then err control_character
    else ok (quoted_value, next (push_value c p))

-- `parsers[mode](parser.cur())`
unfoldable pub step : Bool → Mode → ℕ → Parser → Step
unfolding parse_garbage parse_key parse_equal parse_ident_value parse_escape parse_quoted_value
    parse_unicode_sequence escape_of
step logrus_mode garbage c p = parse_garbage c p
step logrus_mode in_key c p = parse_key logrus_mode c p
step logrus_mode equal c p = parse_equal c p
step logrus_mode ident_value c p = parse_ident_value c p
step logrus_mode quoted_value c p = parse_quoted_value c p

-- `while not parser.done()`
unfoldable pub run : ℕ → Bool → Mode → Parser → Step
unfolding step
run zero logrus_mode m p = if done p then ok (m, p) else err out_of_fuel
run (suc fuel) logrus_mode m p = elim (done p) [
  | true ↦ ok (m, p)
  | false ↦ do c ← cur p; r ← step logrus_mode m c p; run fuel logrus_mode r.0 r.1
]

-- What stands behind the loop.
unfoldable pub finish : Bool → Mode → Parser → Result LogfmtError (Dict Text (Option Text))
finish logrus_mode garbage p = ok p.result
finish logrus_mode in_key p = if logrus_mode then err no_equal else ok (handle_kv true p).result
finish logrus_mode equal p = ok (handle_kv true p).result
finish logrus_mode ident_value p = ok (handle_kv false p).result
finish logrus_mode quoted_value p = err unterminated_string

abbrev pub initial : Text → Parser
initial line = record { line = line; index = 0; key = []; value = []; result = [] }

-- Rounds that suffice: two for each character, and one.
abbrev pub rounds : Text → ℕ
rounds line = 2 * length line + 1

unfoldable pub parse_line : Text → Bool → Result LogfmtError (Dict Text (Option Text))
unfolding run finish insert list_beq
parse_line line logrus_mode = do
  r ← run (rounds line) logrus_mode garbage (initial line)
  finish logrus_mode r.0 r.1
