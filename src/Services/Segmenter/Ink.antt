-- ===== src/Services/Segmenter/Ink.antt =====
-- The characters of a text that are no space, under the cuts of src/orkio_v2/services/realtime_segmenter.py.
use Prim.Native.Char.{Char}
use Prim.Native.String.{String, [], ◌∷◌, ◌++◌ as ◌+++◌}
use text.Mathlib.TextLemmas.{nil-append, cons-append}
use efata_777_backend_premiu.Prelude.{
  ℕ, zero, suc, ◌+◌, ◌-◌, ◌≤◌, ◌<◌, ◌≡◌, refl, sym, ap, ◌∙◌, Bool, true, false, ◌&&◌, ◌⊎◌,
  Bool-cases, inl, inr, Option, none, some, arith, str_eq, eq_iff, if◌then◌else◌,
}
use efata_777_backend_premiu.Prelude.Text.{
  is_space, lstrip, rstrip, strip, text_length, take_text, drop_text,
}
use efata_777_backend_premiu.Services.Segmenter.{
  is_newline, starts_newline, shift, find_paragraph, is_mark, at_word_end, newlines, is_abbreviated,
  safe_from, safe_boundary, at_boundary, at_paragraph, next_cut, limit_cut, of_cut,
}

-- The characters of `s` that are no space, in front of `rest`.
abbrev pub ink : String → String → String
ink [] rest = rest
ink (c ∷ s) rest = let more = ink s rest in if is_space c then more else c ∷ more

pub ink-take_text :
    (n : ℕ) (s rest : String) → ink (take_text n s) (ink (drop_text n s) rest) ≡ ink s rest
unfolding take_text drop_text
ink-take_text zero s rest = refl
ink-take_text (suc n) [] rest = refl
ink-take_text (suc n) (c ∷ s) rest = rw (ink-take_text n s rest) refl

pub ink-lstrip : (s rest : String) → ink (lstrip s) rest ≡ ink s rest
unfolding lstrip
ink-lstrip [] rest = refl
ink-lstrip (c ∷ s) rest = elim (Bool-cases (is_space c)) [
  | inl e ↦ rw e (ink-lstrip s rest)
  | inr e ↦ rw (e, e) refl
]

both : (a b : Bool) → (a && b) ≡ true → (a ≡ true) × (b ≡ true)
both true b h = (refl, h)
both false b h = cc h

pub ink-rstrip : (s rest : String) → ink (rstrip s) rest ≡ ink s rest
unfolding rstrip
ink-rstrip [] rest = refl
ink-rstrip (c ∷ s) rest = elim (Bool-cases (str_eq (rstrip s) "" && is_space c)) [
  | inr e ↦ rw (e, ink-rstrip s rest) refl
  | inl e ↦
      let (empty, space) = both (str_eq (rstrip s) "") (is_space c) e in
      let gone : ink "" rest ≡ ink s rest =
        rw ((eq_iff (rstrip s) "").0 empty) at (ink-rstrip s rest) in
      rw (e, space) gone
]

pub ink-strip : (s rest : String) → ink (strip s) rest ≡ ink s rest
unfolding strip
ink-strip s rest = ink-rstrip (lstrip s) rest ∙ ink-lstrip s rest

pub lstrip_length : (s : String) → text_length (lstrip s) ≤ text_length s
unfolding lstrip text_length
lstrip_length [] = omega arith
lstrip_length (c ∷ s) = elim (Bool-cases (is_space c)) [
  | inl e ↦ rw e (omega (arith, lstrip_length s))
  | inr e ↦ rw e (omega arith)
]

pub drop_text_length : (n : ℕ) (s : String) → text_length (drop_text n s) ≡ text_length s - n
unfolding drop_text text_length
drop_text_length zero s = omega arith
drop_text_length (suc n) [] = omega arith
drop_text_length (suc n) (c ∷ s) = omega (arith, drop_text_length n s)

newline_space : (c : Char) → is_newline c ≡ true → is_space c ≡ true
unfolding is_space
newline_space c h = ground (arith, h)

-- Two line ends are no ink.
two_newlines :
    (c : Char) (s rest : String)
    → is_newline c ≡ true
    → starts_newline s ≡ true
    → ink (drop_text 1 s) rest ≡ ink (c ∷ s) rest
unfolding drop_text
two_newlines c [] rest h h' = cc h'
two_newlines c (d ∷ s) rest h h' = rw (newline_space c h, newline_space d h') refl

shift_cases :
    (o : Option ℕ) (place : ℕ) → shift o ≡ some place → (p : ℕ) × (o ≡ some p) × (place ≡ suc p)
shift_cases none place h = cc h
shift_cases (some p) place h = (p, refl, cc h)

one_later :
    (c : Char) (s rest : String) (p : ℕ)
    → ink (take_text p s) (ink (drop_text (p + 2) s) rest) ≡ ink s rest
    → ink (take_text (suc p) (c ∷ s)) (ink (drop_text (suc p + 2) (c ∷ s)) rest) ≡ ink (c ∷ s) rest
unfolding take_text drop_text
one_later c s rest p h =
    let next : suc p + 2 ≡ suc (p + 2) = omega arith in
    rw next
      (elim (Bool-cases (is_space c)) [ inl e ↦ rw e h | inr e ↦ rw e (ap (λ more. c ∷ more) h) ])

-- A paragraph ends in two line ends, which are no ink.
pub ink-paragraph :
    (s rest : String) (place : ℕ)
    → find_paragraph s ≡ some place
    → ink (take_text place s) (ink (drop_text (place + 2) s) rest) ≡ ink s rest
unfolding find_paragraph take_text drop_text
ink-paragraph [] rest place h = cc h
ink-paragraph (c ∷ s) rest place h = elim (Bool-cases (is_newline c && starts_newline s)) [
  | inl e ↦
      let (here, next) = both (is_newline c) (starts_newline s) e in
      let first : 0 ≡ place = cc (rw e at h) in rw (← first) (two_newlines c s rest here next)
  | inr e ↦
      let (p, found, is_suc) = shift_cases (find_paragraph s) place (rw e at h) in
      rw is_suc (one_later c s rest p (ink-paragraph s rest p found))
]

-- A boundary is behind at least one character.
at_least_one : (n e : ℕ) → suc n ≡ e → 1 ≤ e
at_least_one n e h = omega (arith, h)

safe_from_after :
    (buffer : String) (place skip : ℕ) (s : String) (e : ℕ)
    → safe_from buffer place skip s ≡ some e
    → 1 ≤ e
unfolding safe_from
safe_from_after buffer place skip [] e h = cc h
safe_from_after buffer place (suc skip) (c ∷ s) e h = safe_from_after buffer (suc place) skip s e h
safe_from_after buffer place zero (c ∷ s) e h =
    let later = safe_from_after buffer (suc place) zero s e in
    let behind = safe_from_after buffer (suc place) (newlines s) s e in
    elim (Bool-cases (is_mark c && at_word_end s)) [
      | inl a ↦ elim (Bool-cases (is_abbreviated (take_text (suc place) buffer))) [
        | inl b ↦ later (rw (a, b) at h)
        | inr b ↦
            let same : some (suc place) ≡ some e = rw (a, b) at h in at_least_one place e (cc same)
      ]
      | inr a ↦ elim (Bool-cases (is_newline c && starts_newline s)) [
        | inr b ↦ later (rw (a, b) at h)
        | inl b ↦ elim (Bool-cases (is_abbreviated (take_text (place + suc (newlines s)) buffer))) [
          | inl d ↦ behind (rw (a, b, d) at h)
          | inr d ↦
              let same : some (place + suc (newlines s)) ≡ some e = rw (a, b, d) at h in
              let is_e : place + suc (newlines s) ≡ e = cc same in omega (arith, is_e)
        ]
      ]
    ]

of_cut_cases :
    (o : Option ℕ) (place drop : ℕ) → of_cut o ≡ some (place, drop) → (1 ≤ place) × (drop ≡ 0)
of_cut_cases none place drop h = cc h
of_cut_cases (some zero) place drop h = cc h
of_cut_cases (some (suc cut)) place drop h =
    let is_place : suc cut ≡ place = cc h in
    let is_drop : 0 ≡ drop = cc h in (at_least_one cut place is_place, sym is_drop)

boundary_cases :
    (max : ℕ) (buffer : String) (o : Option ℕ) (place drop : ℕ)
    → ((e : ℕ) → o ≡ some e → 1 ≤ e)
    → at_boundary max buffer o ≡ some (place, drop)
    → (1 ≤ place) × (drop ≡ 0)
boundary_cases max buffer none place drop later h = of_cut_cases (limit_cut max buffer) place drop h
boundary_cases max buffer (some e) place drop later h =
    let is_place : e ≡ place = cc h in
    let is_drop : 0 ≡ drop = cc h in (rw (← is_place) (later e refl), sym is_drop)

-- A cut is behind at least one character, and drops nothing or the two line ends of a paragraph.
pub IsCut : String → ℕ → ℕ → Type 0
IsCut buffer place drop =
    (1 ≤ place) × ((drop ≡ 0) ⊎ ((drop ≡ 2) × (find_paragraph buffer ≡ some place)))

paragraph_cases :
    (max : ℕ) (buffer : String) (o : Option ℕ) (place drop : ℕ)
    → find_paragraph buffer ≡ o
    → at_paragraph max buffer o ≡ some (place, drop)
    → IsCut buffer place drop
unfolding IsCut safe_boundary
paragraph_cases max buffer none place drop e h =
    let (positive, nothing) =
      boundary_cases max buffer (safe_boundary buffer) place drop
        (safe_from_after buffer 0 0 buffer) h in
    (positive, inl nothing)
paragraph_cases max buffer (some zero) place drop e h =
    let (positive, nothing) =
      boundary_cases max buffer (safe_boundary buffer) place drop
        (safe_from_after buffer 0 0 buffer) h in
    (positive, inl nothing)
paragraph_cases max buffer (some (suc p)) place drop e h =
    let is_place : suc p ≡ place = cc h in
    let is_drop : 2 ≡ drop = cc h in
    (at_least_one p place is_place, inr (sym is_drop, rw (← is_place) e))

pub next_cut-IsCut :
    (max : ℕ) (buffer : String) (place drop : ℕ)
    → next_cut max buffer ≡ some (place, drop)
    → IsCut buffer place drop
unfolding next_cut
next_cut-IsCut max buffer place drop h =
    paragraph_cases max buffer (find_paragraph buffer) place drop refl h

pub ink-cut :
    (s rest : String) (place drop : ℕ)
    → IsCut s place drop
    → ink (take_text place s) (ink (drop_text (place + drop) s) rest) ≡ ink s rest
unfolding IsCut
ink-cut s rest place drop (positive, inl nothing) =
    let here : place + drop ≡ place = omega (arith, nothing) in rw here (ink-take_text place s rest)
ink-cut s rest place drop (positive, inr (two, found)) = rw two (ink-paragraph s rest place found)

no_cut : (max : ℕ) → next_cut max "" ≡ none
unfolding next_cut find_paragraph safe_boundary safe_from limit_cut text_length
no_cut max = ground arith

pub cut_nonempty :
    (max : ℕ) (s : String) (place drop : ℕ)
    → next_cut max s ≡ some (place, drop)
    → 1 ≤ text_length s
unfolding text_length
cut_nonempty max [] place drop h = cc (no_cut max, h)
cut_nonempty max (c ∷ s) place drop h = omega arith

-- What stays behind a cut is shorter.
pub cut_shortens :
    (s : String) (place drop : ℕ)
    → IsCut s place drop
    → 1 ≤ text_length s
    → text_length (lstrip (drop_text (place + drop) s)) < text_length s
unfolding IsCut
cut_shortens s place drop (positive, kind) long = omega (
  arith,
  positive,
  long,
  lstrip_length (drop_text (place + drop) s),
  drop_text_length (place + drop) s,
)

pub ink-append : (s t rest : String) → ink (s +++ t) rest ≡ ink s (ink t rest)
ink-append [] t rest = rw (nil-append t) refl
ink-append (c ∷ s) t rest = rw (cons-append c s t, ink-append s t rest) refl
