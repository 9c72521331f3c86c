-- ===== src/Lib.antt =====
-- Verification of backend-core: payments, subscriptions, orders, tenants, accounts, plans, messages.
--
-- The parts of the program and the files that model them:
--
--   shared/errors.py, shared/service.py (the unit of work)      Shared/Errors
--   shared/context.py, core/auth/guard.py, access_service.py    Shared/Context
--   Python's UTC datetime, as far as it is used                 Shared/Clock
--   shared/resilience.py                                        Shared/Resilience
--   core/billing/state_machine.py                               Billing/State
--   core/billing/periods.py                                     Billing/Periods
--   core/billing/models.py and the unique indexes               Billing/Models, Billing/Store
--   core/billing/service.py, PaymentService                     Billing/Payments, Billing/Finalize
--   core/billing/service.py, BillingService                     Billing/Subscriptions
--   core/billing/webhooks.py, core/billing/ports.py             Billing/Webhooks
--   core/billing/jobs.py                                        Billing/Jobs
--   core/billing/adapters/payme.py, click.py                    Billing/Adapters/Payme, Click
--   core/billing/adapters/__init__.py                           Billing/Adapters/Registry
--   Python's JSON, decimals and texts for the adapters          Billing/Adapters/Python, Key
--   modules/commerce/{products,orders,cart} (tables)            Commerce/Store
--   modules/commerce/orders/service.py, subscribers.py          Commerce/Orders
--   modules/commerce/cart/service.py                            Commerce/Cart
--   core/tenants/models.py, service.py                          Tenants/Models, Store, Service
--   core/auth/models.py, repository.py, rate_limit.py           Auth/Store, Auth/Redis
--   core/auth/service.py, security/                             Auth/Sessions, Factors, Accounts
--   core/auth/router.py                                         Auth/Requests
--   core/notifications/models.py, sms_cap.py                    Notifications/Outbox
--   core/notifications/dispatcher.py                            Notifications/Dispatcher
--   modules/saas/entitlements                                   Saas/Entitlements
--   modules/saas/metering                                       Saas/Metering
--   modules/loader.py                                           Modules/Loader
--
-- The other files hold proofs. Common/Table is the generic table: rows with an identity, unique
-- indexes given as a symmetric relation of rows that clash, lookup, insertion and replacement.
-- In Billing, Installs and Activation are about `_activate_subscription`, Success about
-- `mark_succeeded`, Opening about `create_payment`, Consistency about the unique indexes, Ledger
-- and Redelivery about repeated callbacks, Intake about what a callback may cause, Rolling about
-- the loop of `close_ended_period`, Mismatch about a callback's amount. In Commerce, Pricing is about `place_order`, Items about `add_item`,
-- Checkout about the cart's checkout and Following about the subscribers of the payment's events.
-- In Tenants, Requests puts the operations together, Owners and Owned are about the last owner,
-- Access about permissions, Joining and Inviting about invitations, Clashes about an address that is
-- taken.
-- In Auth, Families counts usable tokens, Rotation, Renewal, Serving and Served carry the counts
-- through every request (with the triples of Shared/Triples), Replay is about a token presented
-- twice, Passwords about new passwords, Logins, Lockout, Codes and Challenges about the two steps of
-- a login.
-- In Notifications, Rows, Delivery and Pass are about one row of the outbox among the others in a
-- pass, Passes about it over repeated passes, Unresolved about one whose channel cannot be built, Caps
-- about the daily cap. In Modules, Order, Parts and Sorted are
-- about the installation order. In Billing/Adapters, Sums is about amounts and the registry, Forged
-- about requests that are not the provider's, Replies about answers.
-- In Saas, Coverage is about a plan under billing's events, Usage about totals. Tests holds runs on concrete data.
--
-- State. A service call is an `Action`: it takes the rows that its session sees and gives a result
-- or an error, with the rows as they then are; `unit_of_work` rolls an error back. `Db` holds the
-- billing tables with the clock, the next id, the events queued by `emit` (newest first) and the
-- audit records; `Shop` holds the commerce tables and, since they share the transaction, a `Db`.
-- `Auth` holds the tables of accounts, what is committed of them and Redis, which no rollback touches.
-- `Tenancy` holds the tenants' tables, `Dispatch` the outbox of notifications and Redis's counters.
-- A function of the code is the definition of the same name, without its leading underscore; where
-- a function looks a row up and then acts, the part that acts is a definition of its own
-- (`activate_found`, `drop_found`, `close_due`, `pay_by_status`). Fields have the code's names.
--
-- Concurrency. Where the code reads, then inserts under a unique index, and catches the violation
-- (`create_payment`, `start_subscription`), what other transactions commit in between is an
-- arbitrary function on the tables. Where a caller holds a row lock, the row that it passes is the
-- stored one. Callbacks of one delivery key are ordered by the ledger's unique index. The requests
-- to the tenants' service run one after another, and so do the dispatcher's passes: no other worker
-- holds a row.
--
-- Conventions. Amounts are natural numbers of minor units. UUIDs, codes, currencies, transaction
-- ids and other texts that the code only compares are numbers, 0 being the empty text. A currency
-- other than the empty text is taken to be well formed. The clock is read as one value within a
-- transaction. Texts that the code takes apart have a data type: the purpose, the reference, the
-- idempotency key, the failure code and the ledger's dedup key. Datetimes have no largest year.
--
-- Bounds. The loop of `close_ended_period` runs on `rolls now end` rounds, one more than the months
-- from the period's end to now; each round moves the end by a month at least. The other recursions
-- are on lists. The sweeps take 500 rows at most, as the code does. The installation order runs on one
-- round for each feature, which is proved to be enough.
--
-- Parameters. The processor takes the adapters (`parse_webhook`, `build_webhook_response`) and the
-- services the ports (`create_checkout`); Payme's and Click's fill both, Stripe's port is an argument.
-- JSON decoding, decimals, UUID texts and digests are the record `Python` of functions, and lower
-- case, tokens and their hashes the record `Texts`; those of accounts, with argon2, JWT, TOTP and
-- encryption, the record `Crypto`. The hash of a refused request, Python's tables
-- of white space and printable characters, `urlsplit` (which may raise), a person's permissions in
-- billing, the mailer of invitations, the rendering of templates, the channels and the calls of
-- foreign services are arguments of the definitions that use them.
--
-- Not modelled: the adapter of Stripe (core/billing/adapters/stripe.py), HTTP routes and start-up
-- (app), the publication of events after the commit and their handlers' retries, the writing of
-- notifications to the outbox and receipts, the reading of access tokens, the guards of
-- core/auth/deps.py, the lists of tenants
-- and members, the synchronisation of system roles, the reading of manifests from disk, files,
-- audit queries, modules/saas/onboarding, modules/crm, modules/commerce/product_images, migrations and tools.
pub mod Common
pub mod Shared
pub mod Billing
pub mod Commerce
pub mod Tenants
pub mod Notifications
pub mod Auth
pub mod Modules
pub mod Saas
