-- ===== src/Billing/Checkout/Once.antt =====
-- Requests to `create_checkout` under one idempotency key.
use efata_777_backend_premiu.Prelude.{
  ℕ, String, ◌≡◌, refl, ap, ◌∙◌, ◌⊎◌, inl, inr, List, [], ◌∷◌, ◌++◌,
}
use efata_777_backend_premiu.Billing.Catalog.{Settings}
use efata_777_backend_premiu.Billing.Asaas.{LinkRequest, World}
use efata_777_backend_premiu.Billing.Intent.{Principal, CheckoutCreate, Surroundings}
use efata_777_backend_premiu.Billing.Checkout.{create_checkout}
use efata_777_backend_premiu.Billing.Checkout.Single.{Claimed, create_checkout-Once}

-- One request for a checkout, as it meets the world.
pub record Request : Type 0 where
  pub out : Surroundings
  pub settings : Settings
  pub payload : CheckoutCreate
  pub now : ℕ

-- Requests of one actor with one key, in turn.
unfoldable pub request_all : Principal → String → World → List Request → World
request_all who key w [] = w
request_all who key w (r ∷ rs) =
    request_all who key (create_checkout r.out r.settings who r.payload key r.now w).1 rs

Claimed-posts :
    (who : Principal) (key : String) (w : World) (rs : List Request)
    → Claimed who key w
    → (request_all who key w rs).posts ≡ w.posts
unfolding request_all
Claimed-posts who key w [] c = refl
Claimed-posts who key w (r ∷ rs) c =
    elim (create_checkout-Once who key r.out r.settings r.payload r.now w) [
      | inl (same, stays) ↦
          Claimed-posts who key (create_checkout r.out r.settings who r.payload key r.now w).1 rs
            (stays c)
          ∙ same
      | inr (free, _) ↦ cc (free, c)
    ]

-- However often an actor repeats a request under one idempotency key, whatever the items, the provider's answers, the network failures and the checkouts that other sessions commit in between, at most one POST is sent to the provider, and none at all if a checkout with the key exists already.
pub posted_once :
    (who : Principal) (key : String) (w : World) (rs : List Request)
    → ((request_all who key w rs).posts ≡ w.posts)
      ⊎ ((Claimed who key w → ⊥)
          × ((r : LinkRequest) × ((request_all who key w rs).posts ≡ w.posts ++ r ∷ [])))
unfolding request_all
posted_once who key w [] = inl refl
posted_once who key w (r ∷ rs) =
    let next = (create_checkout r.out r.settings who r.payload key r.now w).1 in
    elim (create_checkout-Once who key r.out r.settings r.payload r.now w) [
      | inl (same, stays) ↦ elim (posted_once who key next rs) [
        | inl kept ↦ inl (kept ∙ same)
        | inr (unclaimed, (q, more)) ↦
            inr (λ c. unclaimed (stays c), (q, more ∙ ap (λ ps. ps ++ q ∷ []) same))
      ]
      | inr (free, inl (same, stays)) ↦ elim (posted_once who key next rs) [
        | inl kept ↦ inl (kept ∙ same)
        | inr (unclaimed, (q, more)) ↦
            inr (λ c. unclaimed (stays c), (q, more ∙ ap (λ ps. ps ++ q ∷ []) same))
      ]
      | inr (free, inr (q, sent, claimed)) ↦
          inr (λ c. cc (free, c), (q, Claimed-posts who key next rs claimed ∙ sent))
    ]
