-- ===== src/Lib.antt =====
-- Verification of the Efata 777 backend (src/orkio_v2): its billing service, the contracts of its
-- agent runtime, its knowledge documents, its native authentication and invitations, and the
-- services that authorize users, find the agent that a request names, cut speech and guard audits.
--
-- Parts and their interplay. The shop creates a checkout (billing/service.py, create_checkout) by
-- one POST to the payment provider (billing/asaas_client.py); the provider later delivers webhook
-- events (billing/routes.py, process_asaas_webhook), which move the checkout through its states
-- and post to wallets, the ledger, transactions and entitlements (billing/repository.py,
-- models.py). A chat turn has an envelope with one owner (runtime/contracts.py,
-- runtime/identity.py), an execution record (runtime/execution_record.py), collected consults
-- (runtime/orchestration.py) and a stream of events (runtime/events.py); a spoken turn has a
-- receipt (services/realtime_bridge.py) and its text is cut into segments
-- (services/realtime_segmenter.py). Users come in by native login with a second factor
-- (services/native_auth.py, auth_routes.py) or an invitation (services/invitations.py) and are
-- provisioned principals (services/identity.py, authorization.py). Managers upload, version,
-- publish, revoke and delete documents (services/knowledge_repository.py, knowledge_policy.py),
-- whose blobs a clean-up takes away after them.
--
-- Files. Prelude: shared names, Boolean tests, lists, integers, texts, JSON values; Prelude/Http
-- has the three ways in which a handler ends. Billing/Models: the tables as records and the rows
-- that a session sees. Billing/Repository: the queries. Billing/Transition: _billing_transition,
-- with the state diagram in Transition/Edges. Billing/Audit, Wallets, Entitlements, Transactions:
-- the helpers of service.py; Wallets/Books and Preservation have the double entry, Wallets/Credits
-- counts credits, Wallets/Effects says what a credit and a reversal do, Entitlements/Term what a
-- plan gives. Billing/Request and Webhook: process_asaas_webhook with its route; Webhook/Steps has
-- the deliveries as a step relation, and Books, Status, History, Once, Redelivery and Payment the
-- properties. Billing/Catalog: catalog.py, with decimals in Catalog/Money. Billing/Asaas: the
-- provider client. Billing/Intent, Reconciliation and Checkout: create_checkout, with
-- Checkout/Single and Checkout/Returned on one request and Checkout/Once on many. Billing/Views:
-- the read-only views. Runtime: one module for each file of runtime/. Services/Authorization:
-- authorization.py. Services/RateLimit: audit_invocation_rate_limit.py. Services/RealtimeBridge:
-- realtime_bridge.py. Services/Segmenter: realtime_segmenter.py, its cuts, with push and flush in
-- Segmenter/Loop. Services/TargetResolver: target_resolver.py and the lookup of
-- agents/registry.py, with its texts in TargetResolver/Words. Services/AuditPath:
-- audit_path_policy.py, with the parts of a path in AuditPath/Parts and the theorems in
-- AuditPath/Roots and Verified. Services/Directive: audit_invocation_directive.py, with the
-- operations of audit_invocation_contracts.py in Directive/Contracts. Services/Capabilities:
-- capability_registry.py.
--
-- Knowledge/Tables and Storage: the rows of documents, audits and clean-up tasks, and the blobs.
-- Knowledge/Policy: knowledge_policy.py. Knowledge/Repository, Versions, Supersede and Cleanup:
-- the operations of knowledge_repository.py. Knowledge/Operations and Requests: the operations as
-- a step relation and their sequences; Terms, Rows, Backing, Current, Visibility and Cleanup/Drain
-- reason about them. Access/Principal: the principal of auth.py. Access/Native: native_auth.py,
-- with its tables, sessions, passwords, challenges, login, second factor and first owner in a
-- module each; Access/Invitations: invitations.py; Access/Identity: identity.py.
--
-- Correspondence. A database session is a record of the lists of rows, in the order of insertion;
-- db.scalar is the first row that passes, an assignment to a row's attributes rewrites that row, a
-- rollback returns the rows that the transaction started from. What other sessions commit is an
-- argument wherever the code catches IntegrityError, and so is the outcome of a commit wherever
-- the code handles its failure; a commit that the code does not guard is taken to succeed. An
-- exception is a value of a result type, or an outcome that keeps the rows where the code has
-- changed them. The clock is an argument, read once for a request. USD amounts are integers of
-- 1/10000 (Numeric(18, 4)), BRL amounts of 1/100. The JSON decoder, SHA-256, the password hash,
-- the encryption and the one-time codes, drawn tokens and identifiers, Decimal(str), int(), the
-- URL builder, the network, the blob storage and the file system are parameters. str.upper and
-- str.lower are those of the ASCII letters, and so is the normalization of a target. Clean-up
-- tasks are taken in the order of their creation.
--
-- Bounds. The segmenter's cutting loop has fuel, one more than the length of the buffer, which is
-- enough because every cut takes a character; all other loops run over lists. Decimals are below
-- the 28 digits of Python's context; the amount in USD of a checkout is stored at four places,
-- ties to even. Times are natural numbers of seconds, or of equal ticks in the rate limits.
--
-- Not modelled. The constant attempt_count of the provider operation, the unused
-- _provider_operation_state, the page of admin_transactions, the metadata of documents and the
-- order of their listing, the settings' loading from the environment, logging, headers and
-- timeouts; the components that are I/O or glue: model providers, media, document extraction,
-- artifacts, HTTP wiring, the settings' own validation, migrations, tools; and team turns,
-- realtime sessions, the retrieval of documents, the availability of agents and the rest of the
-- audit capability plane.
pub mod Prelude
pub mod Billing
pub mod Runtime
pub mod Services
pub mod Access
pub mod Knowledge
