-- ===== src/Services/TargetResolver/Unique.antt =====
-- Which agents of the index the choice of src/orkio_v2/services/target_resolver.py stands for.
use efata_777_backend_premiu.Prelude.{
  String, ◌≡◌, ◌≢◌, refl, Bool, true, false, ◌&&◌, ◌||◌, Bool-cases, inl, inr, List, [], ◌∷◌,
  str_eq, eq_iff, eq_refl, arith, any, ltb, if◌then◌else◌,
}
use efata_777_backend_premiu.Prelude.Text.{is_empty, text_length}
use efata_777_backend_premiu.Access.Principal.{includes}
use efata_777_backend_premiu.Services.TargetResolver.Words.{normalize_target}
use efata_777_backend_premiu.Services.TargetResolver.{
  Entry, one, add_once, exact_slugs, is_named, note_match, matches_from, of_matches, of_exact,
  choose,
}

abbrev has_slug : String → Entry → Bool
has_slug slug e = str_eq e.slug slug

-- Whether an entry names its agent in the request: by the whole key if any entry does, else by a term of it.
abbrev pub names : Bool → String → Entry → Bool
names exact key e = if exact then str_eq e.key key else is_named key e

abbrev pub has_key : String → Entry → Bool
has_key key e = str_eq e.key key

includes-add_once :
    (x y : String) (xs : List String) → includes y (add_once x xs) ≡ (str_eq x y || includes y xs)
unfolding any
includes-add_once x y xs = elim (Bool-cases (includes x xs)) [
  | inr e ↦ rw e (ground arith)
  | inl e ↦ elim (Bool-cases (str_eq x y)) [
    | inl same ↦ rw (e, same) (rw ((eq_iff x y).0 same) at e)
    | inr other ↦ rw (e, other) refl
  ]
]

add_once-full : (x : String) (xs : List String) → add_once x xs ≢ []
unfolding any
add_once-full x [] h = cc h
add_once-full x (y ∷ ys) h = elim (Bool-cases (includes x (y ∷ ys))) [
  | inl e ↦ cc (rw e at h)
  | inr e ↦ cc (rw e at h)
]

exact_slugs-includes :
    (key slug : String) (entries : List Entry)
    → includes slug (exact_slugs key entries)
      ≡ any (λ e. str_eq e.key key && str_eq e.slug slug) entries
unfolding exact_slugs any
exact_slugs-includes key slug [] = refl
exact_slugs-includes key slug (e ∷ entries) = elim (Bool-cases (str_eq e.key key)) [
  | inr miss ↦ rw miss (exact_slugs-includes key slug entries)
  | inl hit ↦
      rw
        (
          hit,
          includes-add_once e.slug slug (exact_slugs key entries),
          exact_slugs-includes key slug entries,
        )
        (ground arith)
]

note_match-any :
    (e : Entry) (found : List Entry) (slug : String)
    → any (has_slug slug) (note_match e found) ≡ (str_eq e.slug slug || any (has_slug slug) found)
unfolding note_match any
note_match-any e [] slug = ground arith
note_match-any e (m ∷ ms) slug = elim (Bool-cases (str_eq m.slug e.slug)) [
  | inr other ↦ rw (other, note_match-any e ms slug) (ground arith)
  | inl same ↦
      let slugs = (eq_iff m.slug e.slug).0 same in
      elim (Bool-cases (ltb (text_length m.key) (text_length e.key))) [
        | inl longer ↦ rw (same, longer, slugs) (ground arith)
        | inr miss ↦ rw (same, miss, slugs) (ground arith)
      ]
]

matches_from-any :
    (key slug : String) (entries found : List Entry)
    → any (has_slug slug) (matches_from key entries found)
      ≡ (any (λ e. is_named key e && str_eq e.slug slug) entries || any (has_slug slug) found)
unfolding matches_from any
matches_from-any key slug [] found = refl
matches_from-any key slug (e ∷ entries) found = elim (Bool-cases (is_named key e)) [
  | inr miss ↦ rw (miss, matches_from-any key slug entries found) refl
  | inl hit ↦
      rw (hit, matches_from-any key slug entries (note_match e found), note_match-any e found slug)
        (ground arith)
]

-- If nothing matches the whole key, no agent does.
no_exact :
    (key : String) (entries : List Entry)
    → exact_slugs key entries ≡ []
    → any (has_key key) entries ≡ false
unfolding exact_slugs any
no_exact key [] h = refl
no_exact key (e ∷ entries) h = elim (Bool-cases (str_eq e.key key)) [
  | inl hit ↦ absurd (add_once-full e.slug (exact_slugs key entries) (rw hit at h))
  | inr miss ↦ rw miss (no_exact key entries (rw miss at h))
]

some_exact :
    (key slug : String) (entries : List Entry)
    → includes slug (exact_slugs key entries) ≡ true
    → any (has_key key) entries ≡ true
unfolding exact_slugs any
some_exact key slug [] h = cc h
some_exact key slug (e ∷ entries) h = elim (Bool-cases (str_eq e.key key)) [
  | inl hit ↦ rw hit refl
  | inr miss ↦ rw miss (some_exact key slug entries (rw miss at h))
]

module _ (key : String) (entries : List Entry) where
  of_matches-one :
      (found : List Entry) (slug k source : String)
      → of_matches found ≡ one slug k source
      → (m : Entry) × (found ≡ m ∷ []) × (m.slug ≡ slug)
  unfolding of_matches
  of_matches-one [] slug k source h = cc h
  of_matches-one (m ∷ []) slug k source h = (m, refl, cc h)
  of_matches-one (m ∷ n ∷ ms) slug k source h = cc h

  of_exact-one :
      (slugs : List String) (slug k source other : String)
      → exact_slugs key entries ≡ slugs
      → of_exact key entries slugs ≡ one slug k source
      → any (λ e. names (any (has_key key) entries) key e && str_eq e.slug other) entries
        ≡ str_eq slug other
  unfolding of_exact any
  of_exact-one [] slug k source other e h =
      let (m, alone, same) = of_matches-one (matches_from key entries []) slug k source h in
      let counted = rw alone at (matches_from-any key other entries []) in
      rw (no_exact key entries e) (ground (arith, counted, same))
  of_exact-one (s ∷ []) slug k source other e h =
      let same : s ≡ slug = cc h in
      let present : includes s (exact_slugs key entries) ≡ true = rw (e, eq_refl s) refl in
      let counted = rw e at (exact_slugs-includes key other entries) in
      rw (some_exact key s entries present) (ground (arith, counted, same))
  of_exact-one (s ∷ t ∷ slugs) slug k source other e h = cc h

-- When the resolver chooses an agent for a request, the entries of its index that name the request, by the whole normalized request if any entry does and else by a term between spaces of it, are entries of exactly that agent: the agent has one, and no other agent has any.
pub choose_unique :
    (entries : List Entry) (requested slug key source : String)
    → choose entries requested ≡ one slug key source
    → (other : String)
    → any
        (λ e.
          names (any (has_key (normalize_target requested)) entries) (normalize_target requested) e
          && str_eq e.slug other)
        entries
      ≡ str_eq slug other
unfolding choose
choose_unique entries requested slug key source h other =
    let k = normalize_target requested in
    elim (Bool-cases (is_empty k)) [
      | inl e ↦ cc (rw e at h)
      | inr e ↦
          of_exact-one k entries (exact_slugs k entries) slug key source other refl (rw e at h)
    ]
