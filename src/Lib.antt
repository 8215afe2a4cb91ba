-- ===== src/Lib.antt =====
-- AllService-API: the rules that its services enforce, modelled from the TypeScript sources.
--
-- The program is a NestJS service that keeps its state in PostgreSQL tables behind Prisma and in
-- short-lived Redis keys. The modelled parts:
--
-- - Common: shared library names, Boolean tests, `All`, and the monad `M S A = S → Result A × S` that
--   the handlers run in: `err` is a thrown exception, and a throw keeps the changes made before it
--   unless a `transaction` takes them back. ErrorCode is src/common/constants/error-codes.ts.
-- - Prisma: the database client, a parameter. A table is a list of rows; the laws are what the client
--   documents of findFirst, create, update, updateMany, deleteMany and count. `list_client` keeps them.
--   Prisma.Keys has the lemmas on tables whose rows have a unique key.
-- - Redis: the server, a parameter with the laws of SET, GET, DEL and SCAN; `map_server` keeps them. The
--   key templates are src/common/constants/redis-keys.ts. A key that expired is one that is absent.
-- - Careers: src/modules/careers. Status and State are the tables and the transition table, Posting is
--   posting.service.ts (Slug its slug), CustomFields is validateCustomResponses, ApplicantToken is
--   applicant-token.service.ts, and Application is application.service.ts: submit, changeStatus,
--   bulkChangeStatus, withdraw and pruneDraftApplications under their names. Application.Trail says what a
--   history is, Steps, Moves, Evolution and Submission follow each operation, and Pipeline is the step
--   relation over all of them. Application uses Posting and ApplicantToken as the services do.
-- - Auth: src/modules/auth. State is the data; Session is session.service.ts: create, refresh, revoke,
--   revokeAll, revokeAllExcept, listSessions, updateLastActive. Rotation and Revocation are about refresh
--   and about the operations that end sessions. Credentials has the configuration and the libraries'
--   functions; Password, Token and Mfa are the services of those names; Strategy is jwt.strategy.ts and
--   user-events.listener.ts, Accepts and Closing below it say which tokens are accepted and what closing
--   an account does. Response has what its handlers take and
--   answer; SignIn is register, login, refresh and logout of auth.service.ts, with Lockout,
--   Guessing and GuessBound on wrong passwords and Success on right ones; Recovery is its verified
--   addresses, password resets and MFA switches; Controller is how auth.controller.ts delivers tokens.
-- - Users: src/modules/user. State is the data, the mapper and the searches; Profile is list, create,
--   adminCreate, updateProfile and adminUpdate of user.service.ts, Account its other operations, RoleList
--   its rolesEqual, with Sorting on what sort() promises, Bag on lists up to order and a sort, Insertion. Rows says how an update acts on one row, Lifecycle has the invariant of the table with
--   a rule for each way to build a handler, Sound applies the rules to each operation, Authority is
--   about adminUpdate, and Controller is user.controller.ts. Auth uses Users as the services do.
-- - Webhook: src/modules/webhook and src/queue/processors/webhook.processor.ts. State is the data;
--   CircuitBreaker, Service, Signing and Delivery are the services of those names, Listener is
--   webhook-events.listener.ts, which turns domain events into jobs, and Processor is the processor of the queue's jobs, which calls all of them. What a request answered, its latency and the
--   random part of a delay are arguments; HMAC, parseInt, toString, slice and text lengths are fields of
--   SigningEnv and WebhookEnv.
-- - Access: src/common/constants/role-permissions.ts (Roles) and the permissions, roles and internal-api
--   guards of src/common/guards (Guards), on what they read of a request. Own says without the code what
--   a request on the caller's own things is.
--
-- Conventions. Times are milliseconds as natural numbers; random tokens, generated identifiers and the
-- clock are arguments, and one call reads one clock. SHA-256 and encodeURIComponent are parameters. The
-- read replica and the primary are one table. Loops are structural recursion on the list they run over,
-- so nothing here runs on fuel. A response is a text, a natural number or a truth value.
--
-- Not modelled: the careers and webhook controllers and the routes of the auth controller that only pass
-- a request on, the other guards, listings of the webhook and careers services and analytics (queries
-- with no effect), logging, metrics, mails and events beyond the fact that they were sent, file storage
-- (what it answers is an argument), the other queue processors, and the React SDK. A create that a unique
-- index refuses is modelled for users only: other rows are appended. What the network, the JWT library,
-- argon2 and otplib answer are arguments or fields of SignInEnv.
pub mod Common
pub mod Prisma
pub mod Redis
pub mod Careers
pub mod Auth
pub mod Webhook
pub mod Access
pub mod Users
