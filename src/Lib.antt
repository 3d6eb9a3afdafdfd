-- ===== src/Lib.antt =====
-- The LuxLedger demo: an HTTP API in front of a double-entry ledger, with a web client. This
-- library models the program's own logic, which stands around the ledger package: who may call
-- the API and how often, what it answers to errors, what it counts, and what the web client reads
-- from a statement file, how it shows amounts, and what it records.
--
-- A request passes three hooks in turn. The rate limiter looks at the method, the path and the
-- client's address; the authentication hook asks for an API key at the token endpoint and for a
-- bearer token elsewhere below /v1/; the sandbox hook refuses the keys of expired sessions. What a
-- hook throws goes to the error handler. A last hook counts each response.
--
-- Files and sources:
-- - Common: texts as lists of UTF-16 code units (`===` is `text_eq`), a Map as an association
--   list, integers, JSON values, decimal numbers, and trim, split, join and startsWith.
-- - Config: apps/api/src/utils/parse-integer-with-range.ts and results of reading settings.
-- - RateLimit.Limiter: apps/api/src/api/rate-limit/fixed-window-limiter.ts. The map of buckets is
--   passed from call to call, and the clock is an argument, in milliseconds.
-- - RateLimit.Policy: apps/api/src/api/rate-limit/policy.ts.
-- - Auth.Jwt: apps/api/src/api/auth/jwt.ts. `verifyAccessToken` is cut into `verify_split`,
--   `verify_parts`, `verify_decoded`, `check_signature` and `check_times`, one for each group of
--   its early exits; the call back is a field of the result.
-- - Auth.Base64url and Auth.Policy: apps/api/src/api/auth/policy.ts.
-- - Api.Errors: apps/api/src/api/errors/send-domain-error.ts and rate-limit-exceeded-error.ts,
--   and the error handler of apps/api/src/api/server.ts.
-- - Api.Server: the request hooks of apps/api/src/api/server.ts and the request hook of
--   apps/api/src/demo/sandbox.ts, as functions that return or throw.
--   Api.Server.Info: its identifiers of requests, log lines, readiness and documents. Api.Docs: the
--   interceptors of the documentation's page that it holds as a text.
-- - Api.Token: the handler of the token endpoint of apps/api/src/api/server.ts.
-- - Start: the settings of the process in apps/api/src/index.ts; Start.Shutdown: its shutdown, as
--   steps over what it waits for; Start.Run: its start, of which the settings are kept.
--   Start.Scripts: apps/api/src/reset-demo.ts, seed-demo.ts and bootstrap-admin-key.ts.
--   Start.Migrations: scripts/migrate-local.mjs and scripts/migration-history.mjs.
-- - Observability.Metrics: apps/api/src/api/observability/metrics.ts and the response hook of
--   apps/api/src/api/server.ts.
-- - Web.Csv: apps/web/src/csv.ts, the scanner as a state machine over the characters.
-- - Demo.Service, Demo.Input and Demo.Routes: apps/api/src/demo/demo-service.ts and routes.ts.
--   Each method is an action on the state of the database, in `do` blocks; an error leaves what
--   was written before it. Demo.Service.Reset: the promise that calls of `reset` share, as steps of
--   calls that wait. Demo.Routes.Route: all routes, the reset among them. Demo.Contract
--   describes what may be written. Demo.Sandbox: the sessions, the cookie, which is set before the
--   rest of the answer, and the page of holds of apps/api/src/demo/sandbox.ts; Demo.Sandbox.Provisioned
--   describes a complete sandbox.
-- - Web.Requests and Web.Amounts: apps/web/src/api.ts. Web.Display:
--   apps/web/src/ledger-display.ts. Web.Operations: apps/web/src/operations.ts, each operation as
--   the request that it builds, with the time as an argument; Web.Operations.Contract: the types of
--   their requests in apps/web/src/generated-contract.ts. Web.Requests.Sending: `request` and the
--   journal of requests.
-- - Web.App: the handlers of apps/web/src/App.tsx. `refresh` and `inspectTransaction` are cut at
--   their awaits into steps over the page's state, which may come in any order (Common.Steps);
--   `execute` is an action. Web.App.Balance: the effect that reads the selected balance, its cleanup
--   and its AbortController. Web.App.Guide: the workbench and the guided scenarios. Web.App.More:
--   the buttons that load further pages. Web.App.Upload: the file input of the workbench.
--
-- Parameters stand for what is not in the repository: `Platform` (HMAC-SHA256, JSON text over
-- base64url, the names of the roles) with its laws in `IsPlatform`; `Services` (the database's
-- answers about keys and sessions, the errors of the ledger package); `Backend` (what the demo asks
-- of the ledger package and its database, and writes there, with no law); `Locale` and `Schema`
-- (Unicode tables, and the web framework's validation); `Host` (what the sandbox asks of its
-- database and the ledger package); Number of a text, Date.parse
-- with toISOString, and localeCompare. The sample platform in Auth.Jwt.Sample meets the laws.
--
-- Bounds: numbers of milliseconds, requests and seconds are natural numbers, without the rounding
-- of doubles; where a token holds a number it is an exact one, below 2 ^ 53. Durations are whole
-- nanoseconds, where the program divides them to seconds and rounds. Every function is total: all
-- recursion is structural but for the printing of a number, whose fuel, the number and one, is
-- shown to be enough.
--
-- The two loops over pages take fuel, and more than the number of items is shown to be enough.
--
-- Not modelled: Fastify's routing, schemas and logging; SQL, but for the page of holds; calls of
-- the demo that run at the same time, so that a call is one step, but for the calls of `reset`;
-- what React renders, and the state that is only typed in; the types of the API's answers; fetch,
-- the URL of the browser and JSON.parse, which are arguments; the scripts that only start other
-- programs.
pub mod Common
pub mod Config
pub mod RateLimit
pub mod Auth
pub mod Api
pub mod Observability
pub mod Web
pub mod Start
pub mod Demo
