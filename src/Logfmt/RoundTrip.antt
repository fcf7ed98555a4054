-- ===== src/Logfmt/RoundTrip.antt =====
-- module_utils/_logfmt.py: the parser on lines written with quoted values, followed along the text
-- that is left of them.
use mathlib.Core.List.{append-nil, append_assoc}
use mathlib.Core.Path.{subst}
use openstack_osa_office_clu.Prelude.{
  ℕ, zero, suc, ◌+◌, ◌≤◌, Bool, true, false, ◌||◌, [], ◌∷◌, ◌++◌, List, if◌then◌else◌, ◌==◌, some,
  Option, ok, length, length-append, leb, ◌≡◌, refl, arith, inl, inr, Bool-cases, all, truthy, All,
  nat_eq, list_eq, sym,
}
use openstack_osa_office_clu.Prelude.Text.{Text}
use openstack_osa_office_clu.Prelude.Dict.{Dict, insert}
use openstack_osa_office_clu.Logfmt.{
  Parser, Mode, Step, garbage, in_key, equal, quoted_value, step, run, finish, parse_line, done,
  cur, rounds, initial, char_at, escape_of, next, push_value, is_ident,
}
use openstack_osa_office_clu.Logfmt.Total.{measure, run_done, step-Nearer}

-- `r` is what the loop returns from a state, whatever fuel it has.
data Reads (l : Bool) (r : Step) : Mode → Parser → Type 0 where
  stop : {m : Mode} {p : Parser} → done p ≡ true → ok (m, p) ≡ r → Reads l r m p
  more :
      {m : Mode} {p : Parser} {c : ℕ} {m' : Mode} {p' : Parser}
      → done p ≡ false
      → cur p ≡ ok c
      → step l m c p ≡ ok (m', p')
      → Reads l r m' p'
      → Reads l r m p

run-Reads :
    {l : Bool} {r : Step} (m : Mode) (p : Parser) (fuel : ℕ)
    → Reads l r m p
    → measure m p ≤ fuel
    → run fuel l m p ≡ r
unfolding run
run-Reads m p zero (stop e f) h = ground arith
run-Reads m p (suc fuel) (stop e f) h = rw (e, run) f
run-Reads m p zero (more e f g t) h = absurd (ground (arith, run_done m p h))
run-Reads {l} m p (suc fuel) (more {c} {m'} {p'} e f g t) h =
    rw (e, run)
      (rw f (
        rw g
          (run-Reads m' p' fuel t (ground (arith, rw g at (step-Nearer l m c p (ground arith)))))))

-- The parser behind `before`, with `rest` to read.
abbrev here : Text → Text → Text → Text → Dict Text (Option Text) → Parser
here before rest key value result = record {
  line = before ++ rest;
  index = length before;
  key = key;
  value = value;
  result = result;
}

char_at-here :
    (before : Text) (c : ℕ) (rest : Text) → char_at (before ++ c ∷ rest) (length before) ≡ ok c
char_at-here [] c rest = refl
char_at-here (x ∷ before) c rest = char_at-here before c rest

module _ (before : Text) (c : ℕ) (rest : Text) where
  next-here :
      (key value : Text) (d : Dict Text (Option Text))
      → next (here before (c ∷ rest) key value d) ≡ here (before ++ c ∷ []) rest key value d
  next-here key value d =
      let e : before ++ c ∷ rest ≡ (before ++ c ∷ []) ++ rest =
        sym (append_assoc before (c ∷ []) rest) in
      let f : length before + 1 ≡ length (before ++ c ∷ []) =
        omega (arith, length-append before (c ∷ [])) in
      λ i. record { line = e i; index = f i; key = key; value = value; result = d }

  done-here :
      (k v : Text) (d : Dict Text (Option Text)) → done (here before (c ∷ rest) k v d) ≡ false
  done-here k v d = ground (arith, length-append before (c ∷ rest))

  -- One step over `c`.
  Reads-step :
      (l : Bool) (r : Step) (m m' : Mode) (k v k' v' : Text) (d d' : Dict Text (Option Text))
      → step l m c (here before (c ∷ rest) k v d) ≡ ok (m', next (here before (c ∷ rest) k' v' d'))
      → Reads l r m' (here (before ++ c ∷ []) rest k' v' d')
      → Reads l r m (here before (c ∷ rest) k v d)
  Reads-step l r m m' k v k' v' d d' e t =
      more (done-here k v d) (char_at-here before c rest) e (rw (next-here k' v' d') t)

done-here_nil :
    (before k v : Text) (d : Dict Text (Option Text)) → done (here before [] k v d) ≡ true
done-here_nil before k v d = rw (append-nil before) (ground arith)

-- The writer. A quoted value can hold every character that stands for itself, and those that
-- have an escape.
abbrev pub is_control : ℕ → Bool
is_control c = c == 8 || c == 9 || c == 10 || c == 12 || c == 13

-- The letter that stands for `c` behind a backslash.
unfoldable pub escape_letter : ℕ → ℕ
escape_letter c =
    if c == 8
    then b'b'
    else if c == 9
    then b't'
    else if c == 10
    then b'n'
    else if c == 12
    then b'f'
    else if c == 13
    then b'r'
    else c

abbrev pub is_escaped : ℕ → Bool
is_escaped c = c == b'"' || c == b'\\' || is_control c

unfoldable pub write_char : ℕ → Text
unfolding escape_letter
write_char c = if is_escaped c then b'\\' ∷ escape_letter c ∷ [] else c ∷ []

abbrev pub is_writable : ℕ → Bool
is_writable c = leb 32 c || is_control c

abbrev pub write_value : Text → Text → Text
write_value [] rest = b'"' ∷ rest
write_value (c ∷ v) rest = write_char c ++ write_value v rest

abbrev pub write_pair : Text → Text → Text → Text
write_pair k v rest = k ++ b'=' ∷ b'"' ∷ write_value v (b' ' ∷ rest)

abbrev behind : Text → Text → Text → Text
behind before k v = ((((before ++ k) ++ b'=' ∷ []) ++ b'"' ∷ []) ++ write_value v []) ++ b' ' ∷ []

-- Pairs as `key="value" `, each with a space behind it.
unfoldable pub write_line : List (Text × Text) → Text
unfolding write_char
write_line [] = []
write_line ((k, v) ∷ es) = write_pair k v (write_line es)

abbrev pub IsPair : Text × Text → Type 0
IsPair (k, v) = (truthy k ≡ true) × (all is_ident k ≡ true) × (all is_writable v ≡ true)

-- What the pairs make of a dict.
unfoldable pub add_pairs : List (Text × Text) → Dict Text (Option Text) → Dict Text (Option Text)
add_pairs [] d = d
add_pairs ((k, v) ∷ es) d = add_pairs es (insert k (some v) d)

escape_of-escape_letter : (c : ℕ) → is_escaped c ≡ true → escape_of (escape_letter c) ≡ some c
unfolding escape_of escape_letter
escape_of-escape_letter c h = ground arith

step_escape :
    (l : Bool) (c e : ℕ) (p : Parser)
    → done (next p) ≡ false
    → cur (next p) ≡ ok e
    → escape_of e ≡ some c
    → step l quoted_value b'\\' p ≡ ok (quoted_value, next (push_value c (next p)))
unfolding step
step_escape l c e p h k f = ground arith

module _ (l : Bool) (r : Step) where
  Reads-key :
      (k before rest k' v : Text) (d : Dict Text (Option Text))
      → all is_ident k ≡ true
      → Reads l r in_key (here (before ++ k) rest (k' ++ k) v d)
      → Reads l r in_key (here before (k ++ rest) k' v d)
  unfolding step
  Reads-key [] before rest k' v d h t = rw (append-nil before, append-nil k') at t
  Reads-key (c ∷ k) before rest k' v d h t =
      Reads-step before c (k ++ rest) l r in_key in_key k' v (k' ++ c ∷ []) v d d (ground arith) (
        Reads-key k (before ++ c ∷ []) rest (k' ++ c ∷ []) v d (ground arith)
          (rw (append_assoc before (c ∷ []) k, append_assoc k' (c ∷ []) k) t))

  Reads-escape :
      (c e : ℕ) (before rest k v : Text) (d : Dict Text (Option Text))
      → escape_of e ≡ some c
      → Reads l r quoted_value (here (before ++ b'\\' ∷ e ∷ []) rest k (v ++ c ∷ []) d)
      → Reads l r quoted_value (here before (b'\\' ∷ e ∷ rest) k v d)
  Reads-escape c e before rest k v d h t =
      let b2 = before ++ b'\\' ∷ [] in
      let moved = next-here before b'\\' (e ∷ rest) k v d in
      more (done-here before b'\\' (e ∷ rest) k v d) (char_at-here before b'\\' (e ∷ rest))
        (step_escape l c e (here before (b'\\' ∷ e ∷ rest) k v d)
          (subst (λ q. done q ≡ false) (sym moved) (done-here b2 e rest k v d))
          (subst (λ q. cur q ≡ ok e) (sym moved) (char_at-here b2 e rest)) h)
        (subst (λ q. Reads l r quoted_value (next (push_value c q))) (sym moved)
          (subst (Reads l r quoted_value) (sym (next-here b2 e rest k (v ++ c ∷ []) d))
            (rw (append_assoc before (b'\\' ∷ []) (e ∷ [])) t)))

  -- A character of a value, as it is written.
  Reads-write_char :
      (c : ℕ) (before rest k v : Text) (d : Dict Text (Option Text))
      → is_writable c ≡ true
      → Reads l r quoted_value (here (before ++ write_char c) rest k (v ++ c ∷ []) d)
      → Reads l r quoted_value (here before (write_char c ++ rest) k v d)
  Reads-write_char c before rest k v d h t = elim (Bool-cases (is_escaped c)) [
    | inl e ↦
        let f : write_char c ≡ b'\\' ∷ escape_letter c ∷ [] = unfold write_char in ground arith in
        rw f (
          Reads-escape c (escape_letter c) before rest k v d (escape_of-escape_letter c e)
            (rw f at t))
    | inr e ↦
        let f : write_char c ≡ c ∷ [] = unfold write_char in ground arith in
        rw f (
          Reads-step before c rest l r quoted_value quoted_value k v k (v ++ c ∷ []) d d
            (unfold step in ground arith) (rw f at t))
  ]

  Reads-write_value :
      (u before rest k v : Text) (d : Dict Text (Option Text))
      → all is_writable u ≡ true
      → Reads l r garbage
          (here (before ++ write_value u []) rest [] [] (insert k (some (v ++ u)) d))
      → Reads l r quoted_value (here before (write_value u rest) k v d)
  Reads-write_value [] before rest k v d h t =
      Reads-step before b'"' rest l r quoted_value garbage k v [] [] d (insert k (some v) d)
        (unfold step in refl) (rw (append-nil v) at t)
  Reads-write_value (c ∷ u) before rest k v d h t =
      Reads-write_char c before (write_value u rest) k v d (ground arith) (
        Reads-write_value u (before ++ write_char c) rest k (v ++ c ∷ []) d (ground arith)
          (rw (append_assoc before (write_char c) (write_value u []), append_assoc v (c ∷ []) u) t))

  -- A pair with the space behind it, from the start of its key.
  Reads-pair :
      (k u before rest : Text) (d : Dict Text (Option Text))
      → IsPair (k, u)
      → Reads l r garbage (here (behind before k u) rest [] [] (insert k (some u) d))
      → Reads l r garbage (here before (write_pair k u rest) [] [] d)
  unfolding step
  Reads-pair [] u before rest d h t = absurd (ground arith)
  Reads-pair (c ∷ k) u before rest d h t =
      let keyed = before ++ c ∷ k in
      let eq = keyed ++ b'=' ∷ [] in
      let opened = eq ++ b'"' ∷ [] in
      let tail = b'=' ∷ b'"' ∷ write_value u (b' ' ∷ rest) in
      more (done-here before c (k ++ tail) [] [] d) (char_at-here before c (k ++ tail))
        (ground arith)
        (Reads-key (c ∷ k) before tail [] [] d h.1 (
          Reads-step keyed b'=' _ l r in_key equal (c ∷ k) [] (c ∷ k) [] d d refl (
            Reads-step eq b'"' _ l r equal quoted_value (c ∷ k) [] (c ∷ k) [] d d refl (
              Reads-write_value u opened (b' ' ∷ rest) (c ∷ k) [] d h.2 (
                Reads-step (opened ++ write_value u []) b' ' rest l r garbage garbage [] [] [] [] _
                  _ refl t)))))

-- The whole line, read from behind `before`, leaves every pair in the dict.
Reads-line :
    (l : Bool) (es : List (Text × Text)) (before : Text) (d : Dict Text (Option Text))
    → All IsPair es
    → (b : Text) × Reads l
        (ok (garbage, here b [] [] [] (add_pairs es d)))
        garbage
        (here before (write_line es) [] [] d)
unfolding write_line add_pairs
Reads-line l [] before d h = (before, stop (done-here_nil before [] [] d) refl)
Reads-line l ((k, v) ∷ es) before d h =
    let (b, t) = Reads-line l es (behind before k v) (insert k (some v) d) h.1 in
    (b, Reads-pair l _ k v before (write_line es) d h.0 t)

-- What `write_line` writes, `parse_line` reads back in both modes: the dict that has each key with
-- its value, the last one where a key is given twice. Keys are not empty and hold identifier
-- characters; values hold no control characters but those with an escape.
pub parse_line-write_line :
    (es : List (Text × Text)) (logrus_mode : Bool)
    → All IsPair es
    → parse_line (write_line es) logrus_mode ≡ ok (add_pairs es [])
unfolding parse_line
parse_line-write_line es l h =
    let (b, t) = Reads-line l es [] [] h in
    rw (run-Reads garbage (initial (write_line es)) (rounds (write_line es)) t (omega arith))
      (unfold finish in refl)
