-- ===== src/Services/Directive/Arguments.antt =====
-- The arguments of a directive of src/orkio_v2/services/audit_invocation_directive.py, against the fields of its operation.
use efata_777_backend_premiu.Prelude.{
  ℕ, ◌≤◌, String, ◌≡◌, refl, sym, Bool, true, false, not, ◌&&◌, Bool-cases, inl, inr, Option, none,
  some, List, [], ◌∷◌, str_eq, eq_iff, leb, find, any, find_holds, any-none, arith,
}
use efata_777_backend_premiu.Prelude.Text.{strip, is_empty}
use efata_777_backend_premiu.Runtime.Contracts.{ok}
use efata_777_backend_premiu.Access.Principal.{includes}
use efata_777_backend_premiu.Services.Directive.Bytes.{utf8_length, has_nul}
use efata_777_backend_premiu.Services.Directive.Contracts.{
  AuditOperationSpec, operation_spec, operation_specs, is_operation, known_or,
}
use efata_777_backend_premiu.Services.Directive.{
  Value, text, natural, negative, other, Field, limit_of, validate_text, validate_limited,
  validate_value, or_error, first_error, is_argument, arguments_of, has_name, has_field, is_missing,
}

-- A required field: a text argument that is not blank, within the limit of its name and without a NUL.
pub record IsText (name : String) (arguments : List Field) : Type 0 where
  pub argument : Field
  pub content : String
  pub limit : ℕ
  pub present : find (has_name name) arguments ≡ some argument
  pub is_text : argument.value ≡ text content
  pub limited : limit_of name ≡ some limit
  pub filled : is_empty (strip content) ≡ false
  pub short : utf8_length content ≤ limit
  pub clean : has_nul content ≡ false

-- A name of a field that is a limited text and no part of the frame.
abbrev is_limited : Option ℕ → Bool
is_limited none = false
is_limited (some limit) = true

abbrev is_text_name : String → Bool
is_text_name name = is_argument name && is_limited (limit_of name)

abbrev is_odd : AuditOperationSpec → Bool
is_odd spec = any (λ name. not (is_text_name name)) spec.required_fields

specs_even : any is_odd operation_specs ≡ false
unfolding any operation_specs limit_of
specs_even = refl

pub any-find :
    {A : Type 0} (p q : A → Bool) (xs : List A) (x : A)
    → any p xs ≡ false
    → find q xs ≡ some x
    → p x ≡ false
unfolding any find
any-find p q [] x h e = cc e
any-find p q (y ∷ ys) x h e = elim (Bool-cases (q y)) [
  | inl hit ↦ let same : y ≡ x = cc (rw hit at e) in rw (sym same) (ground arith)
  | inr miss ↦ any-find p q ys x (ground arith) (rw miss at e)
]

includes-any :
    (p : String → Bool) (names : List String) (name : String)
    → any (λ n. not (p n)) names ≡ false
    → includes name names ≡ true
    → p name ≡ true
unfolding any
includes-any p [] name h e = cc e
includes-any p (n ∷ names) name h e = elim (Bool-cases (str_eq n name)) [
  | inl hit ↦ rw (sym ((eq_iff n name).0 hit)) (ground arith)
  | inr miss ↦ includes-any p names name (ground arith) (rw miss at e)
]

pub arguments_of-any :
    (p : Field → Bool) (fs : List Field) → any p fs ≡ false → any p (arguments_of fs) ≡ false
unfolding any arguments_of
arguments_of-any p [] h = refl
arguments_of-any p (f ∷ fs) h =
    let rest = arguments_of-any p fs (ground arith) in
    elim (Bool-cases (is_argument f.name)) [ inl e ↦ rw e (ground arith) | inr e ↦ rw e rest ]

-- An argument that is allowed in the whole object is one of the operation's own fields.
pub arguments_of-own :
    (names : List String) (fs : List Field)
    → any (λ f. not (includes f.name ("version" ∷ "operation" ∷ names))) fs ≡ false
    → any (λ f. not (includes f.name names)) (arguments_of fs) ≡ false
unfolding any arguments_of
arguments_of-own names [] h = refl
arguments_of-own names (f ∷ fs) h =
    let rest = arguments_of-own names fs (ground arith) in
    elim (Bool-cases (is_argument f.name)) [ inl e ↦ rw e (ground arith) | inr e ↦ rw e rest ]

arguments_of-find :
    (name : String) (fs : List Field) (f : Field)
    → is_argument name ≡ true
    → find (has_name name) fs ≡ some f
    → find (has_name name) (arguments_of fs) ≡ some f
unfolding find arguments_of any
arguments_of-find name [] f a e = cc e
arguments_of-find name (g ∷ fs) f a e = elim (Bool-cases (str_eq g.name name)) [
  | inl hit ↦
      let kept : is_argument g.name ≡ true = rw ((eq_iff g.name name).0 hit) a in
      rw (kept, hit) (rw hit at e)
  | inr miss ↦
      let rest = arguments_of-find name fs f a (rw miss at e) in
      elim (Bool-cases (is_argument g.name)) [
        | inl kept ↦ rw (kept, miss) rest
        | inr dropped ↦ rw dropped rest
      ]
]

both_none : (a b : Option String) → or_error a b ≡ none → (a ≡ none) × (b ≡ none)
both_none none b h = (refl, h)
both_none (some code) b h = cc h

first_error-find :
    (q : Field → Bool) (fs : List Field) (f : Field)
    → first_error fs ≡ none
    → find q fs ≡ some f
    → validate_value f ≡ none
unfolding first_error find
first_error-find q [] f h e = cc e
first_error-find q (g ∷ fs) f h e =
    let (first, rest) = both_none (validate_value g) (first_error fs) h in
    elim (Bool-cases (q g)) [
      | inl hit ↦ let same : g ≡ f = cc (rw hit at e) in rw (sym same) first
      | inr miss ↦ first_error-find q fs f rest (rw miss at e)
    ]

field_of :
    (name : String) (fs : List Field) (o : Option Field)
    → find (has_name name) fs ≡ o
    → has_field fs name ≡ true
    → (f : Field) × (find (has_name name) fs ≡ some f)
field_of name fs none e h = cc (any-none (has_name name) fs e, h)
field_of name fs (some f) e h = (f, e)

valid_text :
    (limit : ℕ) (v : Value)
    → validate_text limit v ≡ none
    → (s : String) × (v ≡ text s)
      × (is_empty (strip s) ≡ false)
      × (utf8_length s ≤ limit)
      × (has_nul s ≡ false)
unfolding validate_text
valid_text limit (natural n) h = cc h
valid_text limit (negative n) h = cc h
valid_text limit other h = cc h
valid_text limit (text s) h = elim (Bool-cases (is_empty (strip s))) [
  | inl e ↦ cc (rw e at h)
  | inr e ↦ elim (Bool-cases (leb (utf8_length s) limit)) [
    | inr l ↦ cc (rw (e, l) at h)
    | inl l ↦ elim (Bool-cases (has_nul s)) [
      | inl n ↦ cc (rw (e, l, n) at h)
      | inr n ↦ (s, refl, e, ground arith, n)
    ]
  ]
]

limited_some : (o : Option ℕ) → is_limited o ≡ true → (limit : ℕ) × (o ≡ some limit)
limited_some none h = cc h
limited_some (some limit) h = (limit, refl)

limit_known :
    (name : String)
    → is_text_name name ≡ true
    → (is_argument name ≡ true) × (limit : ℕ) × (limit_of name ≡ some limit)
limit_known name h =
    let (limit, e) = limited_some (limit_of name) (ground arith) in (ground arith, limit, e)

known_even :
    (operation : String) (spec : AuditOperationSpec)
    → operation_spec operation ≡ ok spec
    → is_odd spec ≡ false
unfolding operation_spec
known_even operation spec h = found_even (find (is_operation operation) operation_specs) refl h
  where
    found_even :
        (o : Option AuditOperationSpec)
        → find (is_operation operation) operation_specs ≡ o
        → known_or o ≡ ok spec
        → is_odd spec ≡ false
    found_even none e k = cc k
    found_even (some found) e k =
        let same : found ≡ spec = cc k in
        rw (sym same) (any-find is_odd (is_operation operation) operation_specs found specs_even e)

pub required-IsText :
    (operation : String) (spec : AuditOperationSpec) (fs : List Field)
    → operation_spec operation ≡ ok spec
    → any (is_missing fs) spec.required_fields ≡ false
    → first_error (arguments_of fs) ≡ none
    → (name : String) → includes name spec.required_fields ≡ true
    → IsText name (arguments_of fs)
unfolding validate_value validate_limited
required-IsText operation spec fs k m v name r =
    let (plain, limit, l) =
      limit_known name
        (includes-any is_text_name spec.required_fields name (known_even operation spec k) r) in
    let (f, found) =
      field_of name fs (find (has_name name) fs) refl
        (includes-any (has_field fs) spec.required_fields name m r) in
    let argument = arguments_of-find name fs f plain found in
    let same = (eq_iff f.name name).0 (find_holds (has_name name) fs f found) in
    let checked = first_error-find (has_name name) (arguments_of fs) f v argument in
    let (content, is_text, filled, short, clean) =
      valid_text limit f.value (rw (same, l) at checked) in
    record {
      argument = f;
      content = content;
      limit = limit;
      present = argument;
      is_text = is_text;
      limited = l;
      filled = filled;
      short = short;
      clean = clean;
    }
