-- ===== src/Billing/Checkout/Single.antt =====
-- One request to `create_checkout`: the POSTs it sends, and the keys that checkouts have claimed.
use efata_777_backend_premiu.Prelude.{
  any-none, ℕ, String, ◌≡◌, refl, sym, ap, ◌∙◌, ◌⊎◌, inl, inr, Bool, true, false, not, ◌&&◌, ◌||◌,
  Option, none, some, List, [], ◌∷◌, ◌++◌, arith, find_holds, any, modify_first, Bool-cases,
  Option-cases, ltb, eq_refl,
}
use efata_777_backend_premiu.Prelude.Int.{ℤ}
use efata_777_backend_premiu.Prelude.Text.{truthy, is_empty, text_length}
use efata_777_backend_premiu.Billing.Models.{BillingCheckout, CheckoutMetadata, User, Db}
use efata_777_backend_premiu.Billing.Repository.{checkout_by_idempotency, checkout_has_key}
use efata_777_backend_premiu.Billing.Request.{Result, ok, err}
use efata_777_backend_premiu.Billing.Catalog.{Settings, ◌>>=◌}
use efata_777_backend_premiu.Prelude.Json
use efata_777_backend_premiu.Prelude.Json.{Json}
use efata_777_backend_premiu.Billing.Asaas.{
  BillingProviderError, Provided, got, failure, Answer, LinkRequest, PaymentLink, World,
  create_payment_link, assert_configured, find_payment_link_by_external_reference,
}
use efata_777_backend_premiu.Billing.Webhook.{has_id}
use efata_777_backend_premiu.Billing.Intent.{
  Principal, CheckoutCreate, Commit, committed, integrity_error, Surroundings, Intent, intent_of,
  prepare, add_intent,
}
use efata_777_backend_premiu.Billing.Reconciliation.{
  bind_provider_checkout, is_failed, reconcile_with, reconcile_existing_checkout,
}
use efata_777_backend_premiu.Billing.Checkout.{
  failed_row, record_failure, settle, after_conflict, submit, submit_if, existing_or_new,
  create_checkout,
}

-- Writing back a row that passes the test keeps that some row passes it.
any-modify_row :
    {A : Type 0} (p q : A → Bool) (x : A) (xs : List A)
    → p x ≡ true
    → any p xs ≡ true
    → any p (modify_first q (λ _. x) xs) ≡ true
unfolding any modify_first
any-modify_row p q x [] h a = a
any-modify_row p q x (y ∷ ys) h a = ground (arith, any-modify_row p q x ys h)

any-append_last :
    {A : Type 0} (p : A → Bool) (x : A) (xs : List A) → p x ≡ true → any p (xs ++ x ∷ []) ≡ true
unfolding any
any-append_last p x [] h = ground arith
any-append_last p x (y ∷ ys) h = ground (arith, any-append_last p x ys h)

any-append_left :
    {A : Type 0} (p : A → Bool) (xs ys : List A) → any p xs ≡ true → any p (xs ++ ys) ≡ true
unfolding any
any-append_left p [] ys h = ground arith
any-append_left p (y ∷ xs) ys h = ground (arith, any-append_left p xs ys)

module _ (who : Principal) (key : String) where
  abbrev pub has_key : BillingCheckout → Bool
  has_key = checkout_has_key who.tenant_id who.user_id key

  -- A checkout has the actor's key.
  abbrev pub Claimed : World → Type 0
  Claimed w = any has_key w.db.checkouts ≡ true

  -- No POST, and a claim stays.
  abbrev pub Quiet : World → World → Type 0
  Quiet w w' = (w'.posts ≡ w.posts) × (Claimed w → Claimed w')

  reconcile_with-Quiet :
      (p : Provided (Option PaymentLink)) (actor : String) (now : ℕ) (row : BillingCheckout)
      (w : World)
      → has_key row ≡ true
      → Quiet w (reconcile_with p actor now row w).1
  unfolding reconcile_with bind_provider_checkout
  reconcile_with-Quiet (failure e) actor now row w h = (refl, λ c. c)
  reconcile_with-Quiet (got none) actor now row w h = (refl, λ c. c)
  reconcile_with-Quiet (got (some link)) actor now row w h =
      (refl, any-modify_row has_key (has_id row.id) _ w.db.checkouts h)

  reconcile-Quiet :
      (out : Surroundings) (settings : Settings) (actor : String) (now : ℕ) (row : BillingCheckout)
      (w : World)
      → has_key row ≡ true
      → Quiet w (reconcile_existing_checkout out settings actor now row w).1
  unfolding reconcile_existing_checkout
  reconcile-Quiet out settings actor now row w h =
      elim (Bool-cases (truthy row.provider_checkout_id && truthy row.provider_url)) [
        | inl bound ↦ rw bound (refl, λ c. c)
        | inr unbound ↦ elim (Bool-cases (is_failed row.status)) [
          | inl failed ↦ rw (unbound, failed) (refl, λ c. c)
          | inr live ↦
              rw (unbound, live)
                (reconcile_with-Quiet
                  (find_payment_link_by_external_reference settings out.page row.id) actor now row w
                  h)
        ]
      ]

  failed_row-has_key :
      (e : BillingProviderError) (now : ℕ) (row : BillingCheckout)
      → has_key row ≡ true
      → has_key (failed_row e now row) ≡ true
  failed_row-has_key e now row h = elim (Bool-cases e.outcome_unknown) [
    | inl unknown ↦ rw unknown h
    | inr known ↦ rw known h
  ]

  -- At most one POST, which leaves a claim.
  abbrev pub Once : World → World → Type 0
  Once w w' = Quiet w w' ⊎ ((r : LinkRequest) × (w'.posts ≡ w.posts ++ r ∷ []) × Claimed w')

  settle-Claimed :
      (actor : String) (now : ℕ) (row : BillingCheckout) (o : Provided PaymentLink) (w : World)
      → has_key row ≡ true
      → Claimed w
      → ((settle actor now row (o, w)).1.posts ≡ w.posts) × Claimed (settle actor now row (o, w)).1
  unfolding settle bind_provider_checkout record_failure
  settle-Claimed actor now row (got link) w h c =
      (refl, any-modify_row has_key (has_id row.id) _ w.db.checkouts h c)
  settle-Claimed actor now row (failure e) w h c = (
    refl,
    any-modify_row has_key (has_id (failed_row e now row).id) (failed_row e now row) w.db.checkouts
        (failed_row-has_key e now row h) c,
  )

  -- Sending records the request, or the provider is not configured and nothing is sent.
  sent_cases :
      (settings : Settings) (answer : Answer Json) (r : LinkRequest) (w : World)
      → ((create_payment_link settings answer r w).1.db ≡ w.db)
        × (((create_payment_link settings answer r w).1.posts ≡ w.posts)
            ⊎ ((create_payment_link settings answer r w).1.posts ≡ w.posts ++ r ∷ []))
  unfolding create_payment_link
  sent_cases settings answer r w = elim (Option-cases (assert_configured settings)) [
    | inl configured ↦ rw configured (refl, inr refl)
    | inr (e, refused) ↦ rw refused (refl, inl refl)
  ]

  posted-Once :
      (settings : Settings) (answer : Answer Json) (actor : String) (now : ℕ)
      (row : BillingCheckout) (r : LinkRequest) (w0 w : World)
      → has_key row ≡ true
      → Claimed w
      → w.posts ≡ w0.posts
      → Once w0 (settle actor now row (create_payment_link settings answer r w)).1
  posted-Once settings answer actor now row r w0 w h c same =
      let (p, w1) = create_payment_link settings answer r w in
      let (db, posts) = sent_cases settings answer r w in
      let (kept, claimed) =
        settle-Claimed actor now row p w1 h (rw (ap (λ d. any has_key d.checkouts) db) c) in
      elim posts [
        | inl none_sent ↦ inl (kept ∙ none_sent ∙ same, λ _. claimed)
        | inr sent ↦ inr (r, kept ∙ sent ∙ ap (λ ps. ps ++ r ∷ []) same, claimed)
      ]

  after_conflict-Quiet :
      (o : Option BillingCheckout) (out : Surroundings) (settings : Settings) (actor : String)
      (now : ℕ) (w : World)
      → ((row : BillingCheckout) → o ≡ some row → has_key row ≡ true)
      → Quiet w (after_conflict o out settings actor now w).1
  unfolding after_conflict
  after_conflict-Quiet none out settings actor now w h = (refl, λ c. c)
  after_conflict-Quiet (some row) out settings actor now w h =
      reconcile-Quiet out settings actor now row w (h row refl)

  found-has_key :
      (db : Db) (row : BillingCheckout)
      → checkout_by_idempotency db who.tenant_id who.user_id key ≡ some row
      → has_key row ≡ true
  unfolding checkout_by_idempotency
  found-has_key db row h = find_holds has_key db.checkouts row h

  submit-Once :
      (c : Commit) (out : Surroundings) (settings : Settings) (payload : CheckoutCreate) (now : ℕ)
      (w : World) (intent : Intent)
      → has_key intent.row ≡ true
      → intent.row.idempotency_key ≡ key
      → Once w (submit c out settings who payload now w intent).1
  unfolding submit add_intent
  submit-Once committed out settings payload now w intent h k =
      posted-Once settings out.post who.user_id now intent.row intent.request w
        (record w { db = add_intent who payload intent.row w.db }) h
        (any-append_last has_key intent.row w.db.checkouts h) refl
  submit-Once (integrity_error others) out settings payload now w intent h k =
      let seen = record w.db { checkouts = w.db.checkouts ++ others } in
      let (same, stays) =
        after_conflict-Quiet
          (checkout_by_idempotency seen who.tenant_id who.user_id intent.row.idempotency_key) out
          settings who.user_id now (record w { db = seen })
          (λ row e.
            found-has_key seen row
              (ap (checkout_by_idempotency seen who.tenant_id who.user_id) (sym k) ∙ e)) in
      inl (same, λ c. stays (any-append_left has_key w.db.checkouts others c))

  -- What holds of the value of a result, where it has one.
  OfValue : {A : Type 0} → (A → Type 0) → Result A → Type 0
  OfValue P (ok a) = P a
  OfValue P (err code status) = Unit

  bind-OfValue :
      {A B : Type 0} (P : B → Type 0) (m : Result A) (f : A → Result B)
      → ((a : A) → OfValue P (f a))
      → OfValue P (m >>= f)
  unfolding OfValue ◌>>=◌
  bind-OfValue P (ok a) f h = h a
  bind-OfValue P (err code status) f h = tt

  value_ok : {A : Type 0} (P : A → Type 0) (a : A) → P a → OfValue P (ok a)
  unfolding OfValue
  value_ok P a h = h

  abbrev HasKey : Intent → Type 0
  HasKey intent = (has_key intent.row ≡ true) × (intent.row.idempotency_key ≡ key)

  intent_of-HasKey :
      (id : String) (payload : CheckoutCreate) (now : ℕ) (item : Json.Fields) (user : User)
      (payer callback : String) (brl usd due : ℤ) (metadata : CheckoutMetadata)
      → HasKey (intent_of id who payload key now item user payer callback brl usd due metadata)
  unfolding intent_of
  intent_of-HasKey id payload now item user payer callback brl usd due metadata =
      (rw (eq_refl who.tenant_id, eq_refl who.user_id, eq_refl key) refl, refl)

  prepare-HasKey :
      (out : Surroundings) (settings : Settings) (payload : CheckoutCreate) (now : ℕ) (db : Db)
      → OfValue HasKey (prepare out settings who payload key now db)
  unfolding prepare
  prepare-HasKey out settings payload now db = bind-OfValue HasKey _ _ (λ found.
      bind-OfValue HasKey _ _ (λ item. bind-OfValue HasKey _ _ (λ user.
        bind-OfValue HasKey _ _ (λ payer. bind-OfValue HasKey _ _ (λ callback.
          bind-OfValue HasKey _ _ (λ brl. bind-OfValue HasKey _ _ (λ usd.
            bind-OfValue HasKey _ _ (λ some_price. bind-OfValue HasKey _ _ (λ due.
              bind-OfValue HasKey _ _ (λ credit.
                bind-OfValue HasKey _ _
                  (λ days. value_ok HasKey _ (intent_of-HasKey _ _ _ _ _ _ _ _ _ _ _))))))))))))

  submit_if-Once :
      (r : Result Intent) (out : Surroundings) (settings : Settings) (payload : CheckoutCreate)
      (now : ℕ) (w : World)
      → OfValue HasKey r
      → Once w (submit_if r out settings who payload now w).1
  unfolding submit_if OfValue
  submit_if-Once (err code status) out settings payload now w h = inl (refl, λ c. c)
  submit_if-Once (ok intent) out settings payload now w (h, k) =
      submit-Once out.commit out settings payload now w intent h k

  -- One request: no POST where the key is claimed, otherwise at most one, which claims it.
  abbrev pub OnceIfFree : World → World → Type 0
  OnceIfFree w w' = Quiet w w' ⊎ ((any has_key w.db.checkouts ≡ false) × Once w w')

  existing_or_new-Once :
      (o : Option BillingCheckout) (out : Surroundings) (settings : Settings)
      (payload : CheckoutCreate) (now : ℕ) (w : World)
      → checkout_by_idempotency w.db who.tenant_id who.user_id key ≡ o
      → OnceIfFree w (existing_or_new o out settings who payload key now w).1
  unfolding existing_or_new checkout_by_idempotency
  existing_or_new-Once (some row) out settings payload now w e =
      inl (
        reconcile-Quiet out settings who.user_id now row w
          (find_holds has_key w.db.checkouts row e))
  existing_or_new-Once none out settings payload now w e = inr (
    any-none has_key w.db.checkouts e,
    submit_if-Once (prepare out settings who payload key now w.db) out settings payload now w
        (prepare-HasKey out settings payload now w.db),
  )

  pub create_checkout-Once :
      (out : Surroundings) (settings : Settings) (payload : CheckoutCreate) (now : ℕ) (w : World)
      → OnceIfFree w (create_checkout out settings who payload key now w).1
  unfolding create_checkout
  create_checkout-Once out settings payload now w =
      elim (Bool-cases (not settings.billing_enabled)) [
        | inl off ↦ rw off (inl (refl, λ c. c))
        | inr on ↦ elim (Bool-cases (is_empty key || ltb 128 (text_length key))) [
          | inl bad ↦ rw (on, bad) (inl (refl, λ c. c))
          | inr good ↦
              rw (on, good)
                (existing_or_new-Once (checkout_by_idempotency w.db who.tenant_id who.user_id key)
                  out settings payload now w refl)
        ]
      ]
