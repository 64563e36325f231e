-- ===== src/Lib.antt =====
-- The NestJS enterprise starter: what its services do to their stored state, and what holds of it.
--
-- Parts. A request acts on behalf of a billing subject, a user or an organization
-- (Organizations/Subject: src/modules/organizations/billing-subject.ts). The ledger of credits,
-- the plans and the usage counters are kept per subject. The usage counters ask the plans for
-- their ceilings; all services throw the exceptions of src/common/errors.
--
-- Prelude: Boolean tests, lists over native numbers, integers, keys compared by `===`.
-- Common: the errors (src/common/errors), methods that change a state and may throw (Exec: the
--   state comes back with an error too, so what was written before a throw stays written),
--   JavaScript objects and maps, and the interfaces to what is stored: Table and Rows (tables of
--   PostgreSQL, by key and as a list), Expiring (SET with EX, GET and DEL of Redis), Counters
--   (INCR, DECR, EXPIRE and MGET) and Timed (INCR, PTTL, PEXPIRE and SET PX, with deadlines). Each
--   interface states laws that are documented behaviour, and has an instance that the examples run
--   on.
-- Credits: src/modules/credits/credit.service.ts. Model has the rows of prisma/schema.prisma and
--   the inputs; Credits has the methods (grant, spend, refund, adjust, all by `apply`) with the
--   transaction, the replay check, the events and the metrics. Effect, Trace, Replay, Balance and
--   Signals reason about sequences of calls, Fresh, Once and Recorded about what a call leaves
--   behind; Race is about transactions of concurrent calls, as a step relation whose steps are the
--   lookup of a key and the locked rest of the transaction.
-- Auth/Lockout: src/modules/auth/account-lockout.service.ts: `check`, `recordFailure` and `clear`
--   over a record that expires. Delay, Wait and Count reason about them.
-- Auth/SignIn: the hooks around a sign-in of src/modules/auth/auth.factory.ts, which call the lockout.
--   Locked is about the attempts on a locked account.
-- Organizations/Members: src/modules/organizations/organizations.service.ts: the two tables, the
--   checks of roles and the changes of members. Access and Owners reason about them.
-- Organizations/Billing: src/modules/organizations/organization-context.guard.ts and
--   billing-subject.resolver.ts: the organization that a request is bound to, and the subject that it
--   is billed to, from the members, the organizations and a flag.
-- FeatureFlags: src/modules/feature-flags/feature-flags.service.ts: the lookup of a flag and the
--   writes of its overrides. Scopes reasons about them.
-- Idempotency: src/common/idempotency/idempotency.interceptor.ts: a keyed request, with its row, its
--   handler and the faults of the database. Rows and Retry reason about requests one after the
--   other; Race is a step relation of requests that run at the same time.
-- Charging: src/modules/credits/credits.guard.ts and credits-refund.interceptor.ts, the queue and
--   the worker of src/modules/queues/credit-compensation*.ts, and the id of a request of
--   src/common/context/request-id.ts. It calls the ledger of Credits; Compensation and Guarded
--   follow a request through the guard, the refund and the worker, Unqueued what the custom id of
--   the job does to it, Repeated requests that share an id.
-- Topup: src/modules/billing/stripe-topup.service.ts with the packs of src/config/stripe.config.ts
--   and src/config/env.schema.ts: the checkout and the webhook, which credits by Credits. Packs is
--   about the configuration; Delivered and Bought follow the events of a session.
-- Authorization: src/modules/authorization: the resolver with its versioned cache
--   (permission-resolver.service.ts, permission-cache-version.ts) and the guard
--   (permissions.guard.ts). Granted relates the guard to the roles of the database; Steps is the step
--   relation of requests, changes and announcements, Coherence its invariant, Current what follows;
--   Stale is about announcements that fail.
-- ApiKeys: src/modules/api-keys/api-key.service.ts: the keys of agents, whose principal has the access
--   that Authorization resolves. Held follows one key's row through each change, Lifetime through
--   all of them.
-- ErrorFilter: src/common/filters/all-exceptions.filter.ts with the paths of src/common/http: what a
--   client is told of an exception. Hidden is about what it is not told.
-- Plans: src/modules/plans/plan-resolution.service.ts and entitlements.ts: the cached catalogue
--   and the effective plan. Matrix and Entitled reason about them; Guard is
--   src/modules/plans/entitlements.guard.ts.
-- Usage: src/modules/usage-limits/usage-limits.service.ts and usage-features.ts: `check` and
--   `consume`, with the memo of plans and the list of increments to undo. Undo and Consume follow
--   the counters through a call, Tightest and Refusal the ceilings; Window is about the time to live,
--   Sweep about the snapshots of a user and the stamps of weeks.
-- Throttling: src/modules/throttling: the storage of the counters and blocks of requests
--   (redis-throttler.storage.ts), and the guard with its policies and keys
--   (app-throttler.guard.ts). Keys tells the keys apart, Counted is the count that the storage is
--   compared with, Effects and Windows follow one request, Refined a sequence of them.
-- Mcp: src/modules/mcp: the throttle of tool calls (Throttle: mcp-throttle.service.ts; Stuck is about
--   its counters) and the stages of a call (Pipeline: agent-pipeline.service.ts and
--   mcp-invocation-log.service.ts), which calls Plans, Usage and Credits. Stages, Admitted, Reported,
--   Costs and Sibling follow a call through them.
-- Admin: src/modules/admin/admin-billing.controller.ts and audit-log.service.ts: changes of credits by
--   an administrator, through Credits, and their audit rows. Settled follows one call,
--   Audited and Unaudited reason about them.
-- Seed: prisma/seed.ts: `seedAccessControl`, which upserts the permissions, the roles and the grants
--   that Authorization reads (Settled and Baseline are about what it establishes, Again and Through
--   about a second run); `seedPlans` with src/modules/plans/plan-seeds.ts (Plans, whose Values and
--   Upserted follow one plan, Seeded all of them); and `seed`, which calls both, then
--   `invalidate` of Authorization (Whole).
-- Environment: the refinement of src/config/env.schema.ts, and what src/config/auth.config.ts and
--   throttle.config.ts make of the environment. Groups and Accepted reason about it.
--
-- Time is a number of milliseconds since 1970, and each reading of a clock is an argument. The loops
-- run over lists and need no fuel; only the digits of a number (Prelude/Decimal) have fuel, one more
-- than the number, which each division makes smaller. Amounts of credits are integers and counters natural
-- numbers; neither is bounded, as the sources compute with JavaScript numbers below 2 ^ 53.
--
-- Assumed: a transaction whose body throws is rolled back as a whole; BullMQ refuses a custom id with
-- a colon, as it documents, where a result says so; a command of Redis that is rejected changes
-- nothing; no usage counter expires during a call, and the marker of Authorization is not lost; a
-- user's roles are read at one time; hashes and the texts of dates are parameters. A call whose
-- outcome is lost is modelled where it says so (Reply in Common/Exec). Logging is left out.
-- Left to itself, a call of Credits throws only what its own checks throw.
--
-- The commands that one throttled request sends run in the same millisecond. The better-auth, zod,
-- BullMQ and throttler libraries, the parser of URLs and the calendar are parameters where they are used.
--
-- Not modelled: reads that only list rows; the HTTP layer, the other guards and interceptors; the
-- storage and the middleware of the authentication library; and the wiring of libraries, which has
-- no behaviour of its own.
pub mod Admin
pub mod ApiKeys
pub mod Auth
pub mod Authorization
pub mod Charging
pub mod Common
pub mod Credits
pub mod Environment
pub mod ErrorFilter
pub mod FeatureFlags
pub mod Idempotency
pub mod Mcp
pub mod Organizations
pub mod Plans
pub mod Prelude
pub mod Seed
pub mod Throttling
pub mod Topup
pub mod Usage
