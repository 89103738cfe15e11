-- ===== src/Lib.antt =====
-- The verification library of Nexora AI, an enterprise platform whose backend (backend/app) keeps
-- one company's books, stock and documents in a database, one tenant at a time.
--
-- The parts and how they interact. Every business module opens a transaction, does its own writes
-- and calls two others inside it: `NumberAllocator.allocate` for the number of the document, and
-- `AccountingService.post` for the journal entry, whose lines `posting_rules.py` makes.
-- What this library models:
--
--   Session      backend/app/core/errors.py, core/context.py, db/session.py and the calls of
--                modules/audit/service.py: results, the caller, and the transaction as a state that
--                an exception throws away. `Session.Keeps` has the rules for invariants.
--   Decimal      backend/app/modules/sales/money.py and vat/pricing.py: ROUND_HALF_UP on integers
--                that count units of a power of ten.
--   Numbering    modules/numbering/service.py: the counters and `allocate`.
--   Accounting   modules/accounting: `PostingRules` is posting_rules.py; `Model` the rows of
--                models.py, the queries of repository.py and the constraints of
--                alembic/versions/0017_phase_5_accounting.py; `Bootstrap` is `_bootstrap`;
--                `Post` is `post`; `Service` the accounts, periods, manual entries and reversals;
--                `Reports` the trial balance, the profit and loss report, the balance sheet and the
--                general ledger;
--                `Requests` the calls one after another.
--   Inventory    modules/inventory: `Model` the rows of models.py, their constraints and the queries
--                of repository.py; `Movement` is `_post_movement` and what it calls; `Operations`
--                receipts, issues, reservations and adjustments; `Expiry` the expiry of
--                reservations; `Transfers` the transfers between warehouses; `Reconcile` the
--                comparison of movements and balances; `Requests` all of them, one after another.
--   Vat          modules/vat: `Pricing` is pricing.py and `line_totals` of sales/money.py; `Model`
--                the rows of models.py; `Register` and `Returns` the methods of service.py;
--                `Grouping` is `group_taxable_lines`; `Requests` the calls one after another.
--   Company      what a module's transaction sees of the other services: books, stock, register.
--   Sales        modules/sales: `Model` the rows of models.py, their constraints and the queries of
--                repository.py; `Quotations`, `Orders`, `Fulfil`, `Invoices`, `Payments` and
--                `CreditNotes` the methods of service.py, each with its calls of the other services;
--                `Requests` all of them, with those of the services, one after another.
--   Documents    modules/documents/chunking.py: `Chunking` is `chunk_pages`, where the regular
--                expressions and the white space of Unicode are parameters.
--   Idempotency  modules/idempotency, with the way that `record_payment` of modules/sales/service.py
--                guards its work; the work, the hash and the search for the result are parameters.
--   Outbox       modules/outbox: the staging of rows and the drain, where mail server and task queue
--                are parameters.
--
-- How state and numbers correspond. The rows that a transaction sees are a record of lists, in the
-- order of insertion; a SELECT of one row is the first that passes its WHERE. An identifier that
-- `uuid7` draws, the clock and today's date come from `Env`, so a theorem holds for every value
-- they take. An amount is an integer that counts units: 10 ^ -4 in a stored money column, 10 ^ -12
-- in a posting line, the exact product of a price of six places and a quantity of six. Quantities,
-- unit costs and rates count 10 ^ -6 and are taken to come with six places at most. Storing an
-- amount rounds half up, as PostgreSQL does on NUMERIC(18,4). Overflow of NUMERIC(18,4) and the 28
-- significant digits of a `Decimal` quotient are not modelled: a quotient is exact, then rounded.
-- Every loop of the code runs over a list and takes no fuel, but the `while` of `chunk_pages`, which
-- has the length of the block as its fuel.
--
-- What is taken from the database: row-level security shows one tenant's rows, and a deferred
-- trigger sees what it would see at commit. A constraint is tested where the row is added, while
-- the session of the code flushes at the latest on commit: where several things are wrong at once,
-- the exception may be another one. Requests run one after another, as row locks make them; rows
-- that another worker holds (SKIP LOCKED) are not modelled. `allow_negative_inventory` is one value
-- throughout. A client's idempotency key is not of the form that a transfer makes of its own.
-- Descriptions, metadata, currencies and timestamps that no test reads are left out, and so are
-- listings and the report on receivables. Purchasing, the point of sale, the catalog, roles and
-- sessions, the interfaces over HTTP, the workers, the AI and the analytics modules, and the front
-- end are not modelled.
pub mod Prelude
pub mod Decimal
pub mod Session
pub mod Numbering
pub mod Vat
pub mod Company
pub mod Sales
pub mod Documents
pub mod Accounting
pub mod Idempotency
pub mod Inventory
pub mod Outbox
