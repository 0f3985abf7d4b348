-- ===== src/Billing/Views/Overview.antt =====
-- The wallet of `overview` beside the ledger.
use efata_777_backend_premiu.Prelude.{◌≡◌}
use efata_777_backend_premiu.Prelude.Int.{ℤ, pos, ◌+ℤ◌, ◌≤ℤ◌}
use efata_777_backend_premiu.Billing.Views.{WalletView}

-- The columns of the view against the sums of credits, debits and unrecovered amounts.
pub record Shows (v : WalletView) (c d q : ℤ) : Type 0 where
  pub credited : v.lifetime_credited_usd ≡ c
  pub debited : v.lifetime_debited_usd ≡ d
  pub quarantined : v.quarantined_usd ≡ q
  pub balance : v.balance_usd +ℤ d ≡ c
  pub nonneg : pos 0 ≤ℤ v.balance_usd
