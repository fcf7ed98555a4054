-- ===== src/Regex/Sound.antt =====
-- The matcher against the relation `Matches`, and the characters of a match.
use openstack_osa_office_clu.Prelude.{
  ℕ, Bool, true, [], ◌∷◌, ◌++◌, ◌≡◌, refl, ◌⊎◌, inl, inr, ◌↔◌, arith, Bool-cases, all, all-append,
  sym, ap, ◌∙◌, some, Option-cases,
}
use openstack_osa_office_clu.Prelude.Text.{Text, before_newline}
use openstack_osa_office_clu.Regex.{
  Regex, never, empty, one, seq, alt, star, nullable, is_never, is_empty, join, either, derive,
  full_match, line_match,
}

-- An expression matches a text.
pub data Matches : Regex → Text → Type 0 where
  m_empty : Matches empty []
  m_one : {p : ℕ → Bool} {c : ℕ} → p c ≡ true → Matches (one p) (c ∷ [])
  m_seq :
      {r s : Regex} {a b t : Text} → Matches r a → Matches s b → t ≡ a ++ b → Matches (seq r s) t
  m_left : {r s : Regex} {a : Text} → Matches r a → Matches (alt r s) a
  m_right : {r s : Regex} {a : Text} → Matches s a → Matches (alt r s) a
  m_stop : {r : Regex} → Matches (star r) []
  m_more :
      {r : Regex} {c : ℕ} {a b t : Text}
      → Matches r (c ∷ a)
      → Matches (star r) b
      → t ≡ c ∷ (a ++ b)
      → Matches (star r) t

nullable-Matches : (r : Regex) → nullable r ≡ true → Matches r []
unfolding nullable
nullable-Matches never h = absurd (ground arith)
nullable-Matches empty h = m_empty
nullable-Matches (one p) h = absurd (ground arith)
nullable-Matches (seq r s) h =
    m_seq (nullable-Matches r (ground arith)) (nullable-Matches s (ground arith)) refl
nullable-Matches (alt r s) h = elim (Bool-cases (nullable r)) [
  | inl e ↦ m_left (nullable-Matches r e)
  | inr e ↦ m_right (nullable-Matches s (ground arith))
]
nullable-Matches (star r) h = m_stop

-- Inversions.
Matches-never : {t : Text} → Matches never t → ⊥
Matches-never h = elim h [ ]

pub Matches-empty : {t : Text} → Matches empty t → t ≡ []
Matches-empty m_empty = refl

pub Matches-one :
    {p : ℕ → Bool} {t : Text} → Matches (one p) t → (c : ℕ) × (t ≡ c ∷ []) × (p c ≡ true)
Matches-one (m_one {c} h) = (c, refl, h)

pub Matches-seq :
    {r s : Regex} {t : Text}
    → Matches (seq r s) t
    → (a : Text) × (b : Text) × Matches r a × Matches s b × (t ≡ a ++ b)
Matches-seq (m_seq {a} {b} h k e) = (a, b, h, k, e)

pub Matches-alt : {r s : Regex} {t : Text} → Matches (alt r s) t → Matches r t ⊎ Matches s t
Matches-alt (m_left h) = inl h
Matches-alt (m_right h) = inr h

is_never-eq : (r : Regex) → is_never r ≡ true → r ≡ never
unfolding is_never
is_never-eq never h = refl
is_never-eq _ h = absurd (ground arith)

is_empty-eq : (r : Regex) → is_empty r ≡ true → r ≡ empty
unfolding is_empty
is_empty-eq empty h = refl
is_empty-eq _ h = absurd (ground arith)

Matches-seq_empty : {s : Regex} {t : Text} → Matches (seq empty s) t → Matches s t
Matches-seq_empty {s} h = let (a, b, x, y, e) = Matches-seq h in rw (e, Matches-empty x) y

join-Matches : (r s : Regex) {t : Text} → Matches (join r s) t ↔ Matches (seq r s) t
unfolding join
join-Matches r s {t} = elim (Bool-cases (is_never r)) [
  | inl e ↦ rw e (
      rw (is_never-eq r e)
        ((λ h. absurd (Matches-never h)), λ h. absurd (Matches-never (Matches-seq h).2)))
  | inr e ↦ elim (Bool-cases (is_empty r)) [
    | inl f ↦ rw (e, f) (rw (is_empty-eq r f) ((λ h. m_seq m_empty h refl), Matches-seq_empty))
    | inr f ↦ rw (e, f) (λ h. h, λ h. h)
  ]
]

either-Matches : (r s : Regex) {t : Text} → Matches (either r s) t ↔ Matches (alt r s) t
unfolding either
either-Matches r s {t} = elim (Bool-cases (is_never r)) [
  | inl e ↦ rw e (
      rw (is_never-eq r e)
        (m_right, λ h. elim (Matches-alt h) [ inl k ↦ absurd (Matches-never k) | inr k ↦ k ]))
  | inr e ↦ elim (Bool-cases (is_never s)) [
    | inl f ↦
        rw (e, f)
          (rw (is_never-eq s f)
            (m_left, λ h. elim (Matches-alt h) [ inl k ↦ k | inr k ↦ absurd (Matches-never k) ]))
    | inr f ↦ rw (e, f) ((λ h. h), (λ h. h))
  ]
]

nullable_complete : {r : Regex} {t : Text} → Matches r t → t ≡ [] → nullable r ≡ true
unfolding nullable
nullable_complete m_empty e = refl
nullable_complete (m_one h) e = absurd (ground arith)
nullable_complete (m_seq {a} {b} h k f) e = ground (
  arith,
  nullable_complete h (parts a b (sym f ∙ e)).0,
  nullable_complete k (parts a b (sym f ∙ e)).1,
)
  where
    parts : (a b : Text) → a ++ b ≡ [] → (a ≡ []) × (b ≡ [])
    parts [] b e = (refl, e)
    parts (c ∷ a) b e = absurd (ground arith)
nullable_complete (m_left h) e = ground (arith, nullable_complete h e)
nullable_complete (m_right h) e = ground (arith, nullable_complete h e)
nullable_complete m_stop e = refl
nullable_complete (m_more h k f) e = refl

seq_step :
    (r r' s : Regex) (c : ℕ) {t : Text}
    → ((a : Text) → Matches r' a → Matches r (c ∷ a))
    → Matches (seq r' s) t
    → Matches (seq r s) (c ∷ t)
seq_step r r' s c f h = let (a, b, x, y, e) = Matches-seq h in m_seq (f a x) y (ap (◌∷◌ c) e)

derive_one :
    (c : ℕ) (p : ℕ → Bool) (t : Text) → Matches (derive c (one p)) t ↔ ((p c ≡ true) × (t ≡ []))
unfolding derive
derive_one c p t = elim (Bool-cases (p c)) [
  | inl e ↦ rw e (λ h. (refl, Matches-empty h), λ h. rw (h.1) m_empty)
  | inr e ↦ rw e (λ h. absurd (Matches-never h), λ h. absurd (ground arith))
]

-- What is left of a sequence behind one character.
derive_seq :
    (c : ℕ) (r s : Regex) {t : Text}
    → Matches (derive c (seq r s)) t
      ↔ (Matches (seq (derive c r) s) t ⊎ ((nullable r ≡ true) × Matches (derive c s) t))
unfolding derive
derive_seq c r s {t} =
    let joined = join-Matches (derive c r) s {t = t} in
    let both = either-Matches (join (derive c r) s) (derive c s) {t = t} in
    elim (Bool-cases (nullable r)) [
      | inl e ↦ rw e (
        λ h. elim (Matches-alt (both.0 h)) [ inl k ↦ inl (joined.0 k) | inr k ↦ inr (refl, k) ],
        λ h. both.1 (elim h [ inl k ↦ m_left (joined.1 k) | inr k ↦ m_right k.1 ]),
      )
      | inr e ↦ rw e (
        λ h. inl (joined.0 h),
        λ h. elim h [ inl k ↦ joined.1 k | inr k ↦ absurd (ground arith) ],
      )
    ]

derive_sound : (c : ℕ) (r : Regex) (t : Text) → Matches (derive c r) t → Matches r (c ∷ t)
unfolding derive
derive_sound c never t h = absurd (Matches-never h)
derive_sound c empty t h = absurd (Matches-never h)
derive_sound c (one p) t h = let (e, f) = (derive_one c p t).0 h in rw f (m_one e)
derive_sound c (seq r s) t h = elim ((derive_seq c r s).0 h) [
  | inl k ↦ seq_step r (derive c r) s c (derive_sound c r) k
  | inr (e, k) ↦ m_seq (nullable-Matches r e) (derive_sound c s t k) refl
]
derive_sound c (alt r s) t h = elim (Matches-alt ((either-Matches (derive c r) (derive c s)).0 h)) [
  | inl k ↦ m_left (derive_sound c r t k)
  | inr k ↦ m_right (derive_sound c s t k)
]
derive_sound c (star r) t h =
    let (a, b, x, y, e) = Matches-seq ((join-Matches (derive c r) (star r)).0 h) in
    m_more (derive_sound c r a x) y (ap (◌∷◌ c) e)

star_step :
    {r : Regex} {c : ℕ} {t : Text}
    → Matches (star r) (c ∷ t)
    → (a : Text) × (b : Text) × Matches r (c ∷ a) × Matches (star r) b × (t ≡ a ++ b)
star_step {r} {c} {t} h = go h refl
  where
    go :
        {u : Text}
        → Matches (star r) u
        → u ≡ c ∷ t
        → (a : Text) × (b : Text) × Matches r (c ∷ a) × Matches (star r) b × (t ≡ a ++ b)
    go m_stop e = absurd (ground arith)
    go (m_more {c = d} {a} {b} x y f) e =
        let g : d ∷ (a ++ b) ≡ c ∷ t = sym f ∙ e in
        let head : d ≡ c = cc in let rest : t ≡ a ++ b = cc in (a, b, rw head at x, y, rest)

seq_cases :
    (c : ℕ) (r s : Regex) (t a b : Text)
    → Matches r a
    → Matches s b
    → c ∷ t ≡ a ++ b
    → ((t : Text) → Matches r (c ∷ t) → Matches (derive c r) t)
    → ((t : Text) → Matches s (c ∷ t) → Matches (derive c s) t)
    → Matches (seq (derive c r) s) t ⊎ ((nullable r ≡ true) × Matches (derive c s) t)
seq_cases c r s t [] b x y e left right = inr (nullable_complete x refl, right t (rw e y))
seq_cases c r s t (d ∷ a) b x y e left right =
    let head : d ≡ c = cc in
    let rest : t ≡ a ++ b = cc in inl (m_seq (left a (rw head at x)) y rest)

derive_complete : (c : ℕ) (r : Regex) (t : Text) → Matches r (c ∷ t) → Matches (derive c r) t
unfolding derive
derive_complete c never t h = absurd (Matches-never h)
derive_complete c empty t h = let e = Matches-empty h in absurd (ground arith)
derive_complete c (one p) t h = let (d, e, f) = Matches-one h in (derive_one c p t).1 (ground arith)
derive_complete c (seq r s) t h =
    let (a, b, x, y, e) = Matches-seq h in
    (derive_seq c r s).1 (seq_cases c r s t a b x y e (derive_complete c r) (derive_complete c s))
derive_complete c (alt r s) t h =
    (either-Matches (derive c r) (derive c s)).1 (elim (Matches-alt h) [
      | inl k ↦ m_left (derive_complete c r t k)
      | inr k ↦ m_right (derive_complete c s t k)
    ])
derive_complete c (star r) t h =
    let (a, b, x, y, e) = star_step h in
    (join-Matches (derive c r) (star r)).1 (m_seq (derive_complete c r a x) y e)

-- The matcher decides the relation.
pub full_match_iff : (r : Regex) (t : Text) → (full_match r t ≡ true) ↔ Matches r t
unfolding full_match
full_match_iff r [] = (nullable-Matches r, λ h. nullable_complete h refl)
full_match_iff r (c ∷ t) =
    let ih = full_match_iff (derive c r) t in
    (λ h. derive_sound c r t (ih.0 h), λ h. ih.1 (derive_complete c r t h))

-- Every character that an expression can match satisfies `P`.
abbrev pub Over : (ℕ → Bool) → Regex → Type 0
Over P never = Unit
Over P empty = Unit
Over P (one p) = (c : ℕ) → p c ≡ true → P c ≡ true
Over P (seq r s) = Over P r × Over P s
Over P (alt r s) = Over P r × Over P s
Over P (star r) = Over P r

pub Matches-all : (P : ℕ → Bool) {r : Regex} {t : Text} → Matches r t → Over P r → all P t ≡ true
Matches-all P m_empty o = refl
Matches-all P (m_one {c} h) o = ground (arith, o c h)
Matches-all P (m_seq {a} {b} h k e) o =
    rw (e, all-append P a b) (ground (arith, Matches-all P h o.0, Matches-all P k o.1))
Matches-all P (m_left h) o = Matches-all P h o.0
Matches-all P (m_right h) o = Matches-all P h o.1
Matches-all P m_stop o = refl
Matches-all P (m_more {c} {a} {b} h k e) o =
    rw e (ground (arith, Matches-all P h o, Matches-all P k o, all-append P (c ∷ a) b))

pub full_match-all :
    (P : ℕ → Bool) (r : Regex) (t : Text) → Over P r → full_match r t ≡ true → all P t ≡ true
full_match-all P r t o h = Matches-all P ((full_match_iff r t).0 h) o

-- A line matches as a whole, or without the newline at its end.
pub line_match_iff :
    (r : Regex) (s : Text)
    → (line_match r s ≡ true)
      ↔ (Matches r s ⊎ ((t : Text) × (before_newline s ≡ some t) × Matches r t))
unfolding line_match
line_match_iff r s = elim (Option-cases (before_newline s)) [
  | inl e ↦
      rw (e, line_match)
        (
          λ h. inl ((full_match_iff r s).0 (ground arith)),
          λ h. elim h [
            | inl m ↦ ground (arith, (full_match_iff r s).1 m)
            | inr (t, f, m) ↦ absurd (ground arith)
          ],
        )
  | inr (t, e) ↦
      rw (e, line_match)
        (
          λ h. elim (Bool-cases (full_match r s)) [
            | inl f ↦ inl ((full_match_iff r s).0 f)
            | inr f ↦ inr (t, refl, (full_match_iff r t).0 (ground arith))
          ],
          λ h. elim h [
            | inl m ↦ ground (arith, (full_match_iff r s).1 m)
            | inr (u, f, m) ↦ let g : t ≡ u = cc in ground (arith, (full_match_iff r t).1 (rw g m))
          ],
        )
]
