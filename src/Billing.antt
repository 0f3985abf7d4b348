-- ===== src/Billing.antt =====
-- The billing component: src/orkio_v2/billing and its tables in src/orkio_v2/models.py.
pub mod Models
pub mod Repository
pub mod Transition
pub mod Audit
pub mod Wallets
pub mod Entitlements
pub mod Transactions
pub mod Request
pub mod Webhook
pub mod Frames
pub mod Catalog
pub mod Asaas
pub mod Intent
pub mod Reconciliation
pub mod Checkout
pub mod Views
pub mod Tests
