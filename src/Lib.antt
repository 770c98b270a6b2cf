-- ===== src/Lib.antt =====
-- The API proxy: a client asks the API to run a two-step workflow (enrich,
-- then finalize against an external provider); the API answers at once or
-- waits for a moment, and queues carry the work between the tasks.
--
-- The parts. `packages/contracts` declares the records and the validation of
-- all that crosses a boundary. `packages/persistence` keeps four kinds of
-- item in one DynamoDB table (workflow, step, event of the outbox,
-- idempotency mapping) and writes them in conditional transactions.
-- `packages/messaging` runs a batch of a queue with partial failures.
-- `apps/api` creates workflows, `apps/outbox-publisher` and `apps/reconciler`
-- put pending events on a queue, `apps/worker-a` runs the enrich step, and
-- `apps/finalizer` runs the finalize step, which calls the provider. All of
-- them meet in the table alone.
--
-- The files.
--   Base: Boolean tests, lists, texts, and `Exec W E A`, a program on a world
--     `W` that ends with a value or an exception and leaves a new world.
--   Contracts: `packages/contracts/src`; Errors is errors.ts, Ids ids.ts,
--     Workflow workflow.ts, Domain domain.ts and provider.ts, Messages
--     messages.ts and outbox.ts (Messages/Unknown a message of type
--     `unknown`), Http http.ts, Json the JSON values of all of them and,
--     below it, `JSON.parse`.
--   Idempotency: `packages/idempotency/src/fingerprint.ts`; the identifiers
--     that it derives, Canonical its canonical form and fingerprint, Order
--     what is proved of the order of keys.
--   Persistence: `packages/persistence/src`; Keys is keys.ts (Apart,
--     Injective, Chrono and Shards what is proved of the keys), Items
--     items.ts, Failures errors.ts, Dynamo what is used of DynamoDB.
--   Repository: `packages/persistence/src/workflow-repository.ts`. Writes has
--     the writes and their conditions, Methods the methods (`createWorkflow`
--     is `create_workflow`, and so on), Sweep the queries on the sparse
--     indexes, Commit the committed transactions as a relation between tables
--     with the invariants, Safety relates the methods to it, Outcomes is
--     about their answers.
--   Messaging: `packages/messaging/src`; Batch is batch.ts (its runners as
--     turns on a shared pool, Complete and Ends their proofs), Publisher
--     publisher.ts, Parse parse.ts.
--   Worker: `apps/worker-a/src`; Enrich is enrich.ts, Handler handler.ts,
--     Safety relates it to the transitions, Acknowledged is about the release
--     of a message, Valid about the event that it stores.
--   Finalizer: `apps/finalizer/src`; Provider is provider-client.ts, Handler
--     handler.ts, Safety and Acknowledged as for the worker, Reconcile is
--     about a resumed attempt.
--   Outbox: `apps/outbox-publisher/src/handler.ts`; Handler the batch of
--     stream records, Delivery is about what was sent, Safety as above.
--   Reconciler: `apps/reconciler/src/handler.ts`; Republish and Sweep are
--     about its loop and the whole sweep.
--   Lifecycle: `apps/api/src/lifecycle.ts`.
--   Config: `packages/config/src/config.ts`; Fields are its validators,
--     Checks the tests between values, Load the loading, Accessors the
--     getters and environments of the tasks; Ladder and Roles are about them.
--   Waiter: `packages/persistence/src/waiter.ts`; Poll is the loop, Told and
--     Found are about its result, Ends and Safety about its end and writes.
--   Api: `apps/api/src`; KeyStore is auth/api-key-store.ts (Index, Store and
--     Steps the store over time, the others what is proved of it), Problems
--     is errors.ts, App is app.ts (Replies and Routes the handlers, the
--     others what is proved of them), Composition is composition.ts.
--   Tests: runs on a table in memory.
--
-- The world. Tasks run at the same time, so a method never owns the table. A
-- service (Repository/Service) is any world with a table in which each
-- request to DynamoDB sees the table after an arbitrary sequence of other
-- tasks' committed transitions, applies as documented (all conditions hold
-- and all effects happen, or none), and may fail with any error. A method is
-- one task's part in such an interleaving.
--
-- Parameters. SHA-256 and the UUID test of zod are fields of `Platform`;
-- DynamoDB is the service, with the documented meaning of UpdateItem,
-- TransactWriteItems and GetItem as laws, and Indexes, whose queries return
-- items that have stood in the table and no more than `Limit`; axios is
-- `Http`, whose calls leave the table to the other tasks; the clock is
-- `Clock`, any sequence of readings; Unicode's upper-casing is `CaseMapping`,
-- known on ASCII; SQS is `Sqs`, which keeps what it has accepted. zod's
-- coercion of a text to a number is an argument of the loading of the
-- configuration. The fractions, the random source and the timer of the waiter
-- are Floats and Timer, with the law that a timer takes a millisecond at
-- least and the clock does not go back. Secrets Manager and the event loop of
-- the key store are `Process`, with a relation between a document that was
-- returned and the time read next; Fastify's router and its parser of bodies have
-- filled the fields of `Request`. Tests fills them.
--
-- Bounds. The publisher walks its batch as a list, and the batch runner is a
-- relation with a measure that each turn makes smaller. The loop of the
-- waiter is on fuel, one round for each turn: a round takes a millisecond at
-- least, so that one round more than the milliseconds left before the
-- deadline is enough. The digits of `String(n)` are on fuel, of which n + 1
-- are enough. `JSON.parse` is a fold over the characters with a stack.
-- Numbers are natural numbers: times are milliseconds since 1970 and attempts
-- are small, far below the exact range of a JavaScript number. The sweep's
-- subtraction of an age from the time stops at 0, where the source's goes
-- below: the clock is far past any age. A number in JSON is kept exactly.
--
-- Not modelled: the expiry of items by DynamoDB's time to live, so that a
-- workflow once stored stays; logging, metrics and correlation (output only);
-- the wiring in the entry points; the cloud resources under `infrastructure`;
-- the emulators of `packages/testing`; the texts of zod's issues. The fake
-- provider has no file here; of the API's timer for the whole request only
-- the reply is modelled.

pub mod Base
pub mod Contracts
pub mod Idempotency
pub mod Persistence
pub mod Repository
pub mod Messaging
pub mod Worker
pub mod Finalizer
pub mod Outbox
pub mod Reconciler
pub mod Lifecycle
pub mod Config
pub mod Waiter
pub mod Api
mod Tests
