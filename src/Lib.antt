-- ===== src/Lib.antt =====
-- BearLink: a URL shortener of several Node services, and what they promise each other.
--
-- The URL service (services/url) keeps links and answers visits. Each change writes a row to an
-- outbox table in the same transaction. A poller (services/shared/utils/outboxPoller.js) in each
-- service forwards the rows to the audit service (services/audit), which stores them.
--
-- Prelude: tests, lists, texts, and `Exec`, the code that keeps a state and may throw.
-- Shared.Json: JSON values and what JavaScript takes for true. Shared.Validation:
--   services/shared/utils/validation.js.
-- Outbox: the OutboxEvent table as an interface (`OutboxTable`, with the laws of its calls in
--   `IsLawful`) and, in Outbox.Poller, one round of `poll` as `poll`, in the stages that its awaits
--   divide. Outbox.Timer: its start and stop. Outbox.Memory is a table in memory that has the laws.
-- Audit: ingestAuditEvents and requireAuditSecret of services/audit over `AuditTable`; queryAuditLog in
--   Audit.Query.
-- Delivery: an outbox and the audit log together. `Step` has a step for each stage of a round and
--   for a new row, so that rounds overlap, requests are lost or repeated and acknowledgements fail. A
--   batch above the body limit of services/audit/app.js, a parameter, is refused before the route.
-- Url.Record: the rows of services/url/prisma/schema.prisma. Url.Platform: what the service calls
--   and does not implement (Prisma, Redis, the message channel, bcrypt, HMAC, URL, JSON), a record
--   of functions that each may fail. Url.Tables: the two tables of the service, and in `DbModel`
--   what an array transaction of Prisma does to them. Url.Memory is a platform in memory.
-- Url.Cache, Url.Page, Url.Redirect: services/url/controllers/redirect.controller.js. findUrl is
--   `find_url`, isUniqueClick `is_unique_click`, buildRedirectUrl `build_redirect_url`, and the
--   handlers `redirect`, `unlock` and `qr` run over `World`. Their early returns are in `refuse` and
--   `unlock_protected`, the click transaction in `record_click`.
-- Url.Manage: services/url/controllers/urls.controller.js. `Services` is what it calls beside the
--   platform, with the laws of Prisma and PostgreSQL in `IsLawful`; `in_transaction` is an
--   interactive transaction. createUrl is `create_url`, with its checks in `draft_of` and its retries
--   in `attempts`; updateUrl is `update_url`, deleteUrl `delete_url`, createUrlsBulk
--   `create_urls_bulk` (its items run in their order; nanoid gives each call an id of its own number) and signUrlEndpoint `sign_url_endpoint`.
--   listUrls is `list_urls` in Url.Manage.Listing, over the pages of Shared.Paging.
-- Url.Domain: services/url/services/domainFilter.service.js. Url.Preview: the consumer of the preview
--   results in services/url/index.js.
-- Auth.Record, Auth.Platform, Auth.Tables: the rows of services/auth/prisma/schema.prisma, what the
--   accounts' handlers call and do not implement (`Accounts`, with a store of failed logins,
--   `AttemptStore`), and in `IsLawful` what Prisma and PostgreSQL do to the three tables: `apply` is one
--   operation of an array transaction. Auth.Memory has the laws.
-- Auth.Session, Auth.Reset: services/auth/controllers/auth.controller.js (`register`, `login`,
--   `get_csrf_token`, `forgot_password`, `reset_password`). Auth.Users: users.controller.js beside it.
--   Auth.Access: services/shared/middlewares/auth.js and the routes of services/auth/routes that it
--   guards, `users_routes`. Auth.Effects: what a handler does to the tables is nothing or one
--   transaction (`EffectAt`), the step that the proofs about handlers share.
-- Auth.LoginAttempts: services/auth/services/loginAttempts.js, its Map as a function; Auth.Attempts is
--   the store that the handlers are given. Auth.RedisAttempts: redisLoginAttemptStore.js beside it.
--   Auth.Csrf: services/auth/middlewares/csrf.js and services/auth/services/csrf.service.js.
--   Shared.Hex: buffers of hexadecimal texts.
-- Shared.Events: services/shared/events/publisher.js. Messaging: consumer.js beside it, the attempts of
--   services/shared/utils/rabbitmq.js, and the e-mail sender of services/notification. Analytics:
--   services/analytics, its event handler behind the consumer, its clean-up and its counts;
--   Analytics.Sending and the modules after it follow the messages of the URL service's handlers.
--   Messaging.Tracing: the context that a message carries. Shared.Health: the readiness handler and
--   the CORS origins. Shared.RequestContext: services/shared/middlewares/correlationId.js.
-- Url.Signed: services/url/services/signedUrl.service.js.
--
-- Times are milliseconds since 1970, as natural numbers; a number that JavaScript may see as no
-- natural number is a `Number`. An interactive transaction runs alone, as a serial one does. No
-- function needs fuel but `show`, which is given more than the digits of its number, and
-- `try_to_connect`, which is given its 30 attempts. A test that compares buffers in constant time
-- compares them; time itself is not modelled, and a handler reads the clock once, at the start. Case
-- mapping is the ASCII one.
--
-- Not modelled: Express, its routing outside the users' routes, rate limits, log output, how async
-- storage carries a request's context, the start-up of the services, the Python preview worker, the
-- front end and the deployment files.
pub mod Prelude
pub mod Shared
pub mod Outbox
pub mod Audit
pub mod Auth
pub mod Messaging
pub mod Analytics
pub mod Delivery
pub mod Url
