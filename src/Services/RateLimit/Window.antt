-- ===== src/Services/RateLimit/Window.antt =====
-- The directives that `AuditDirectiveAbuseLimiter.consume` accepts, counted in windows.
use efata_777_backend_premiu.Prelude.{
  ℕ, ◌+◌, ◌≤◌, String, ◌≡◌, refl, sym, ap, ◌∙◌, inl, inr, Bool, false, not, ◌&&◌, List, [], ◌∷◌,
  ◌++◌, str_eq, eq_iff, leb, arith, if◌then◌else◌, count_if, count_if-append, length, length-append,
  Bool-cases,
}
use efata_777_backend_premiu.Services.RateLimit.{AbuseLimiter, drop_expired, consume}

-- One request: who, and when.
pub record Attempt : Type 0 where
  pub tenant : String
  pub user : String
  pub now : ℕ

abbrev pub is_by : String → String → Attempt → Bool
is_by t u a = str_eq a.tenant t && str_eq a.user u

-- The limiter after the attempts, with the times of the accepted attempts of one user.
unfoldable pub accepted_times : String → String → AbuseLimiter → List ℕ → List Attempt → List ℕ
accepted_times t u l seen [] = seen
accepted_times t u l seen (a ∷ rest) =
    let (granted, l') = consume a.tenant a.user a.now l in
    accepted_times t u l' (if granted && is_by t u a then seen ++ a.now ∷ [] else seen) rest

-- The clock does not go back, and ends at `last`.
abbrev pub Rises : ℕ → List Attempt → ℕ → Type 0
Rises now [] last = now ≤ last
Rises now (a ∷ rest) last = (now ≤ a.now) × Rises a.now rest last

-- What the deque forgets of the accepted times has expired.
pub record Tracks (window limit now : ℕ) (seen events : List ℕ) : Type 0 where
  pub forgotten : List ℕ
  pub split : seen ≡ forgotten ++ events
  pub expired : count_if (λ e. not (leb (e + window) now)) forgotten ≡ 0
  pub bounded : length events ≤ limit

expired_later :
    (window now later : ℕ) (es : List ℕ)
    → now ≤ later
    → count_if (λ e. not (leb (e + window) now)) es ≡ 0
    → count_if (λ e. not (leb (e + window) later)) es ≡ 0
unfolding count_if
expired_later window now later [] le h = refl
expired_later window now later (e ∷ es) le h = ground (arith, expired_later window now later es le)

count_if-le : (p : ℕ → Bool) (es : List ℕ) → count_if p es ≤ length es
unfolding count_if
count_if-le p [] = omega arith
count_if-le p (e ∷ es) = ground (arith, count_if-le p es)

-- Dropping takes a prefix that has expired.
dropped :
    (window now : ℕ) (es : List ℕ)
    → (front : List ℕ) × (es ≡ front ++ drop_expired window now es)
      × (count_if (λ e. not (leb (e + window) now)) front ≡ 0)
      × (length (drop_expired window now es) ≤ length es)
unfolding drop_expired count_if
dropped window now [] = ([], refl, refl, omega arith)
dropped window now (e ∷ es) =
    let (front, whole, old, short) = dropped window now es in
    elim (Bool-cases (leb (e + window) now)) [
      | inl gone ↦ rw gone (e ∷ front, ap (λ xs. e ∷ xs) whole, rw gone old, omega (arith, short))
      | inr live ↦ rw live ([], refl, refl, omega arith)
    ]

Tracks-later :
    (window limit now later : ℕ) (seen events : List ℕ)
    → now ≤ later
    → Tracks window limit now seen events
    → Tracks window limit later seen events
Tracks-later window limit now later seen events le h = record {
  forgotten = h.forgotten;
  split = h.split;
  expired = expired_later window now later h.forgotten le h.expired;
  bounded = h.bounded;
}

append_assoc : {A : Type 0} (xs ys zs : List A) → (xs ++ ys) ++ zs ≡ xs ++ (ys ++ zs)
append_assoc [] ys zs = refl
append_assoc (x ∷ xs) ys zs = ap (λ w. x ∷ w) (append_assoc xs ys zs)

Tracks-dropped :
    (window limit now : ℕ) (seen events : List ℕ)
    → Tracks window limit now seen events
    → Tracks window limit now seen (drop_expired window now events)
Tracks-dropped window limit now seen events h =
    let (front, whole, old, short) = dropped window now events in
    record {
      forgotten = h.forgotten ++ front;
      split =
          h.split
          ∙ ap (λ xs. h.forgotten ++ xs) whole
          ∙ sym (append_assoc h.forgotten front (drop_expired window now events));
      expired = omega (
        arith,
        count_if-append (λ e. not (leb (e + window) now)) h.forgotten front,
        h.expired,
        old,
      );
      bounded = omega (arith, short, h.bounded);
    }

Tracks-accepted :
    (window limit now : ℕ) (seen events : List ℕ)
    → leb limit (length events) ≡ false
    → Tracks window limit now seen events
    → Tracks window limit now (seen ++ now ∷ []) (events ++ now ∷ [])
Tracks-accepted window limit now seen events free h = record {
  forgotten = h.forgotten;
  split = ap (λ xs. xs ++ now ∷ []) h.split ∙ append_assoc h.forgotten events (now ∷ []);
  expired = h.expired;
  bounded = ground (arith, length-append events (now ∷ []));
}

-- The deque of one user in the limiter.
abbrev Kept : String → String → ℕ → AbuseLimiter → List ℕ → Type 0
Kept t u now l seen = Tracks l.window l.per_user_limit now seen (l.events t u)

consume-Kept :
    (t u : String) (a : Attempt) (l : AbuseLimiter) (seen : List ℕ)
    → Kept t u a.now l seen
    → Kept t u a.now
        (consume a.tenant a.user a.now l).1
        (if (consume a.tenant a.user a.now l).0 && is_by t u a then seen ++ a.now ∷ [] else seen)
unfolding consume
consume-Kept t u a l seen h =
    let live = drop_expired l.window a.now (l.events a.tenant a.user) in
    elim (Bool-cases (is_by t u a)) [
      | inl mine ↦
          let (same_t, same_u) : (a.tenant ≡ t) × (a.user ≡ u) =
            ground (arith, eq_iff a.tenant t, eq_iff a.user u) in
          let kept : Tracks l.window l.per_user_limit a.now seen live =
            rw (same_t, same_u)
              (Tracks-dropped l.window l.per_user_limit a.now seen (l.events t u) h) in
          elim (Bool-cases (leb l.per_user_limit (length live))) [
            | inl full ↦ rw (full, mine) kept
            | inr free ↦
                rw (free, mine)
                  (Tracks-accepted l.window l.per_user_limit a.now seen live free kept)
          ]
      | inr other ↦ elim (Bool-cases (leb l.per_user_limit (length live))) [
        | inl full ↦ rw (full, other) h
        | inr free ↦ rw (free, other) h
      ]
    ]

consume-settings :
    (a : Attempt) (l : AbuseLimiter)
    → ((consume a.tenant a.user a.now l).1.window ≡ l.window)
      × ((consume a.tenant a.user a.now l).1.per_user_limit ≡ l.per_user_limit)
unfolding consume
consume-settings a l =
    elim (Bool-cases
      (leb l.per_user_limit (length (drop_expired l.window a.now (l.events a.tenant a.user))))) [
        | inl full ↦ rw full (refl, refl)
        | inr free ↦ rw free (refl, refl)
      ]

in_window-Tracks :
    (window limit now : ℕ) (seen events : List ℕ)
    → Tracks window limit now seen events
    → count_if (λ e. not (leb (e + window) now)) seen ≤ limit
in_window-Tracks window limit now seen events h = rw h.split (
    omega (
      arith,
      count_if-append (λ e. not (leb (e + window) now)) h.forgotten events,
      h.expired,
      h.bounded,
      count_if-le (λ e. not (leb (e + window) now)) events,
    ))

accepted-Tracks :
    (t u : String) (l : AbuseLimiter) (seen : List ℕ) (as' : List Attempt) (now last : ℕ)
    → Rises now as' last
    → Kept t u now l seen
    → count_if (λ e. not (leb (e + l.window) last)) (accepted_times t u l seen as')
      ≤ l.per_user_limit
unfolding accepted_times
accepted-Tracks t u l seen [] now last rises h =
    in_window-Tracks l.window l.per_user_limit last seen (l.events t u)
      (Tracks-later l.window l.per_user_limit now last seen (l.events t u) rises h)
accepted-Tracks t u l seen (a ∷ rest) now last (le, rises) h =
    let (granted, l') = consume a.tenant a.user a.now l in
    let (same_window, same_limit) = consume-settings a l in
    let later = Tracks-later l.window l.per_user_limit now a.now seen (l.events t u) le h in
    rw (same_window, same_limit) at
      (accepted-Tracks t u l' (if granted && is_by t u a then seen ++ a.now ∷ [] else seen) rest
        a.now last rises (consume-Kept t u a l seen later))

-- From an empty limiter and over any attempts of any users, with a clock that does not go back: at any time from the last attempt on, at most `per_user_limit` of the accepted attempts of one user lie in the window that ends there.
pub accepted_within_limit :
    (t u : String) (l : AbuseLimiter) (attempts : List Attempt) (last : ℕ)
    → l.events t u ≡ []
    → Rises 0 attempts last
    → count_if (λ e. not (leb (e + l.window) last)) (accepted_times t u l [] attempts)
      ≤ l.per_user_limit
unfolding count_if
accepted_within_limit t u l attempts last empty rises =
    accepted-Tracks t u l [] attempts 0 last rises (record {
      forgotten = [];
      split = sym empty;
      expired = refl;
      bounded = rw empty (omega arith);
    })
