-- ===== src/Lib.antt =====
-- The QRIS wallet: a model of src/engine, the part of the server that takes a payment from its
-- quote to the settled merchant, of the parser of QRIS codes, of the HTTP routes, of the funding leg
-- on the chain, of the web pages that pay and keep the key, and of the operator's scripts, with the
-- theorems on them.
--
-- The program. A payment is a row of payment_intents that moves along the edges of
-- src/engine/states.ts. `createQuote` (src/engine/quote.ts) checks the caps and stores the payment
-- with its quote. `authorize` locks the rate; `execute` (src/engine/service.ts) broadcasts the
-- funding transaction, waits for its confirmations, runs the off-ramp conversion and settles with
-- the merchant. Each move goes through `transition` (src/engine/store.ts), which writes one audit
-- row, and money is booked by `postEntries` (src/engine/ledger.ts). Webhooks, operator tasks,
-- refunds and reviews complete or unwind a payment. `parseQris` (src/qris/parse.ts) reads the
-- merchant's code, the routes of src/api call the engine under an idempotency key or an operator's
-- signature, and `reconcileAll` (src/engine/reconcile.ts) checks what the engine has left. The
-- pages of web call the routes and keep the key in the browser.
--
-- The files.
-- Common: the shared names; native numbers, bigints (ℤ), lists, texts as lists of UTF-16 code
-- units, and what the source's regular expressions and string methods do with decimals.
-- States: src/engine/states.ts. Graph has `EDGES`, `canTransition`, `TERMINAL` and the dwell
-- limits, Paths the paths through the diagram.
-- Db: src/db/schema.ts. Tables has one record for the rows of each table and `World`, the database
-- with the clock, the uuids to be drawn and a log of the calls that left the program. Monad has the
-- actions on it: a function of the source that may throw is a function from the state to a result
-- and a state, what was written before a throw stays, and `transaction` takes it back. Effects has
-- the relations between the states before and after an action, with a rule for each way to build
-- one.
-- Store: src/engine/store.ts; Transition says what `transition` does on each branch.
-- Ledger: src/engine/ledger.ts; Balance says when a posting is accepted and that books stay
-- balanced.
-- Engine: the rest of src/engine. Config is config.ts, Providers is providers.ts, Mock is
-- providers.mock.ts, Quote is quote.ts (Quote.Pricing: the ceiling and the caps; Quote.Outcome: all
-- branches). service.ts is cut into Settlement (`beginSettlement`, `completeSettlement`),
-- Conversion (`runConversionLeg`), Funding (`executeFresh`, `resumeFunding`, `waitConfirmations`),
-- Execute (`execute` and the other resumes), Payment (`authorize`, `cancel`, `refund`,
-- `resolveReview`), Webhook (`handleWebhook`) and Operator (`completeOperatorTask`). Tasks is
-- tasks.ts, Manual is providers.manual.ts, Faulty is providers.faulty.ts, Real is
-- providers.real.ts, Env has `providersFromEnv` and `manualRef6`, Reconcile is reconcile.ts and
-- alert.ts, Lock is `withPaymentLock` as a step relation, Quote.Display has `formatMicros`.
-- Wallet: Networks is src/chain/config.ts, Usdc is src/wallet/usdc.ts, Keystore is
-- src/wallet/keystore.ts, Browser is web/lib/keystore.ts and web/lib/chain.ts.
-- Qris: src/qris/parse.ts. Reader has `parseTLVs`, the CRC and `wholeRupiah`, Code has `parseQris`.
-- Api: src/api and the routes of src/app.ts. Idempotency is the middleware of idempotency.ts over
-- the database and its table of keys; Payments, Operator and Callbacks have the handlers, Server
-- the routes with their middlewares. WalletReads has src/wallet/routes.ts and the health checks.
-- Effects reads off each call the request to the engine that it stands for, Refines compares the
-- two, and Once, Reach, Trail and Books carry over to calls, quotes included, what holds of the
-- engine's writes.
-- Web: the browser application. Client is web/lib/api.ts, ScanPage is web/app/(app)/scan/page.tsx
-- and WalletPage is web/app/(app)/wallet/page.tsx. A page is a record of its state; a press is
-- one step, which may start a job, and the end of a job is another, so that what the user does
-- while a call is under way comes between. Session has the steps: those of the payment page are
-- taken over the model of the server, and the network may lose a call or its answer; those of the
-- wallet page are taken over the browser's storage, which may refuse, and the key functions. Calm
-- has the payment page's invariant, Waiting and Jobs what it waits for, and Paid what comes before an
-- execution.
-- Scripts: Operator is scripts/operator.ts (Accepted compares it with the server), Reconcile is
-- scripts/reconcile.ts.
-- Engine.Changes: each function of service.ts, for any relation on states that its writes respect.
-- Engine.Serve: sequences of requests to the payments there are (`createQuote`, which stores a new
-- one, is a call of Api), and the relations that hold across them. A request that
-- throws leaves what it wrote, and the next one goes on from there.
-- Tests: a sample state, runs of the engine on it, and the theorems applied at it.
--
-- Conventions. The names of the source are kept in snake case. A column that may be null is an
-- `Option`; `where` clauses are tests on rows, `update … set` changes every row that passes the
-- test. The texts of audit reasons are constructors that carry what their templates insert. A table
-- that the source reads without an order is read in the order of insertion.
--
-- Fuel. The loop of `beginSettlement` runs `settlePolls` times, so it needs none. The loop of
-- `waitConfirmations` has no bound in the source; it sleeps two seconds a round, so the model gives
-- it half the timeout in seconds and two rounds more, and where the clock does not turn back that
-- is enough. The reader of tagged fields takes four code units or more a round and gets one round
-- more than the text has units, which is enough. Running out of it would be the fault
-- `out_of_fuel`, which no source function throws.
--
-- Providers. The off-ramp, the merchant settlement and the chain are parameters: any actions that
-- return or throw. Theorems on sequences of requests assume of them what the contracts say: a call
-- leaves the payments, the trail, the quotes and the ledger alone; it may read the clock, let time
-- pass and file an operator task.
--
-- Libraries. The Ethereum library, the parser of addresses, the hash functions, key derivation and
-- cipher, the JSON text of a key file and the request of the alert are parameters. A handler that
-- throws is answered with status 500 in plain text, as the web framework documents; a body is
-- malformed, null, or an object whose fields are texts or missing.
--
-- Not modelled. The types and most foreign keys of the database: a query by a text that is no uuid,
-- which throws in Postgres, finds nothing here, and a quote for a user that is in no table is stored
-- here. The foreign key of ledger_entries and the throw on an insert of no rows are modelled. The
-- order of the fields in the JSON text of an operator's result, which decides whether a repeated
-- result is the same. The interleaving of requests: each runs to its end before the next begins,
-- which `withPaymentLock` gives for calls of `execute` on one payment. Calls with one idempotency
-- key at the same time. Logging and cross-origin headers, the markup of the pages, the camera, the
-- pages that only show what the client returns, the mobile application and the other scripts.
pub mod Common
pub mod States
pub mod Db
pub mod Store
pub mod Ledger
pub mod Engine
pub mod Wallet
pub mod Qris
pub mod Api
pub mod Web
pub mod Scripts
pub mod Tests
