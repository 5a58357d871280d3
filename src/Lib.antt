-- ===== src/Lib.antt =====
-- The administrator login of the control plane: a browser starts a login with a return path, the
-- OIDC provider authenticates the user, the callback consumes the stored attempt, authorizes the
-- user by the configured identities and establishes a server-side session, and every later request
-- resolves that session again and is rejected once it has expired, was revoked or has lost its
-- authorizer.
--
-- Paths are relative to apps/control-plane/src/pullfrog_azure_api.
--   Auth/Domain, Values       auth/domain.py: references, error codes, exceptions; Python objects
--   Auth/Policy               auth/policy.py: validate_return_to, select_authorizer
--   Auth/Tokens               auth/tokens.py: digest_token, csrf_matches
--   Models                    models/*.py: the rows of the three tables, and the database
--   Repositories/*            repositories/*.py: one transaction per method, over Repositories/Table
--   Providers/EntraOidc       providers/entra_oidc.py: the checks of MSAL's answers
--   Providers/EntraClient     providers/entra_oidc.py: what the adapter takes from the settings
--   Migrations                ../../alembic/versions/*.py: the statements of the revisions
--   Services/Authentication   services/authentication.py: the operations of the login
--   Services/Readiness        services/readiness.py, repositories/database_health.py
--   Config                    config.py: the settings and their validators
--   Api/AuthCookies           api/auth_cookies.py: Set-Cookie headers, and a browser's jar
--   Api/Dependencies          api/dependencies.py: the service of the settings, the administrators
--   Api/Routes, Api/Health    api/routes/*.py: the routes and the error handler
--   Api/QueryRedaction        api/query_redaction.py: the middleware
--   App                       app.py, container.py, api/router.py: a request to its response
--   App/Http                  app.py, api/router.py, api/routes/*.py: the paths of the routes
--   App/Forged                a logout without the proof of its session
--   App/LogoutAnswer          the answers of a logout, by what its cookie and header present
--   App/Isolation             a session or a started login, and the requests of other browsers
--   App/Visit                 a browser's requests from the login to the logout
-- Prelude, Outcome, Exec and Platform hold what these share; Tests runs the theorems at concrete
-- inputs.
--
-- A function that may raise returns a `Result`; a method that uses the database is an `Exec`, which
-- takes the committed tables and gives the result or the exception beside the tables it left. Each
-- repository method is one transaction, and a refused statement leaves the tables as they were.
-- `AdminSessionStore` of Repositories/AdminSessions/Store is the protocol that the service asks for;
-- the repository and an abstract store, a function from digests to sessions, both fill it.
-- Requests interleave at transactions: `Reach` of Repositories/AdminSessions/Lifetime is any sequence
-- of them, in which a new session's idle expiry is not later than its absolute one; `Served` of
-- App/Served is any sequence of whole requests, and each of them is such a sequence of transactions.
-- `Elsewhere` of App/Isolation is any sequence of requests that do not present a given cookie; what
-- they keep is proved over `Frame` of Services/Authentication/Isolation, which says what the calls of
-- the repositories keep.
-- An instant or a duration is a number of microseconds, a UUID its 128-bit number, a digest the number
-- of its 32 bytes, and a text the native text, whose length counts code points. Sets of references and
-- groups are lists, of which only membership counts. Every loop is a structural recursion over a list
-- or a text, so that there is no fuel.
--
-- `Operations` of Migrations stands for what Alembic and PostgreSQL do with a statement; its laws say
-- that dropping a table or an index right after its creation restores the schema.
-- `Platform` stands for SHA-256, the parser of UUIDs, percent decoding and the host checks of
-- `urlsplit`; `Msal` for what awaiting MSAL comes back with, the operation timeout included. Random
-- tokens, fresh row ids, the clock and the rows that other transactions have locked are arguments.
-- Nothing is assumed of them but what a theorem names; where two tokens have one digest, the theorems
-- speak of the digest.
--
-- A setting that is a float is its IEEE 754 bit pattern; pydantic refuses one that compares as too
-- small or too large, and NaN compares as neither. What pydantic reads from the environment and
-- from a URL is the argument `RawSettings`. A `Response` holds the arguments of its construction, the
-- `url` of a redirect before Starlette quotes it.
--
-- Not modelled: the database engine below the queries, the parsing and validation of requests by
-- FastAPI, MSAL itself, Alembic's environment, the export of the OpenAPI document, the
-- rows of the deployment settings, which no code uses, and the TypeScript applications.
pub mod Prelude
pub mod Outcome
pub mod Exec
pub mod Platform
pub mod Values
pub mod Auth
pub mod Models
pub mod Repositories
pub mod Providers
pub mod Services
pub mod Migrations
pub mod Config
pub mod Api
pub mod App
pub mod Tests
