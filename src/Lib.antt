-- ===== src/Lib.antt =====
-- authx: an authorization server (OAuth 2.0, OpenID Connect, hosted sign-in, two-factor
-- authentication), modelled from its TypeScript sources. All paths are from the repository's root.
--
-- The program. A request of the token endpoint or of the hosted pages calls a service
-- (src/modules/auth/auth.service.ts, src/modules/mfa/totp.service.ts), which works on repositories, one
-- per table, and on libraries (src/lib). Accounts sign in and get a session; a session gets an
-- authorization code; a code or a refresh token gets tokens; a token that comes twice ends all tokens
-- of its account.
--
-- The files.
--   Prelude            library names, texts, maps and sets as the source's Map and Set keep them
--     (Prelude.Map: association lists in insertion order), a table with one unique index
--     (Prelude.Map.Index).
--   Errors, Collation  src/lib/errors.ts and src/lib/inmemory.ts.
--   Lockout, RateLimit, Totp, Oidc  src/lib/login-attempts.ts; src/lib/rate-limit-store.ts with
--     clientKey of src/middleware/rate-limit.ts; src/lib/totp.ts; src/lib/oidc.ts.
--   Repo.*             the in-memory repositories: Tokens, Sessions, Codes, Social
--     (src/modules/auth/*.repository.ts), Verifications, Users, Orgs, Rbac, Totp and Passkeys (the
--     repository file of their module under src/modules).
--   Service            what the services share: the settings, the runtime, the database as a record
--     of tables, a call as state with exceptions (M), the payloads of src/lib/jwt.ts.
--     Service.Tables lifts the repositories to calls.
--   Mfa                src/modules/mfa/totp.service.ts.
--   Auth               src/modules/auth/auth.service.ts: Auth has its helpers, Auth.Grants the token
--     endpoint's grants, Auth.Exchange the authorization code flow, Auth.Login the sign-ins and
--     sessions. The children of these hold the theorems.
--   Webauthn           src/modules/passkeys/passkey.service.ts.
--   Admin              src/modules/admin/admin.service.ts; Admin.Routes, src/modules/admin/admin.routes.ts.
--   TokenEndpoint      the token and revocation endpoints of src/modules/auth/auth.routes.ts, from the
--     request as it arrives to the response; TokenParams reads it, with the schemas of
--     src/modules/auth/auth.schema.ts.
--   Hosted             src/modules/auth/hosted.ts; Hosted.Flow has the authorize, second factor, logout
--     and Google routes of src/modules/auth/auth.routes.ts, Hosted.Passkey those of the hosted pages in
--     src/modules/passkeys/passkey.routes.ts.
--   Passwords, Verification, Accounts, Authorize  src/lib/password-policy.ts;
--     src/modules/verification/verification.service.ts; src/modules/users/users.service.ts;
--     src/middleware/auth.ts with src/middleware/authorize.ts.
--   UserRoutes, MfaRoutes, LinkRoutes  src/modules/users/users.routes.ts and
--     src/modules/mfa/totp.routes.ts, without their rate limiters;
--     src/modules/verification/verification.routes.ts with src/modules/oidc/userinfo.routes.ts.
--   Pruning            src/db/prune.ts, over the in-memory tables.
--   Tests              a small installation, and each theorem at an input of it.
--
-- How code corresponds. A function keeps its name in snake case. An `await` is a bind; `throw
-- AppError.of(code)` ends the call with that error, and what was written before stays written. A call
-- takes the clock's reading in milliseconds and the random values it draws as arguments. A call is
-- one step: other requests come between calls, not inside one, but that the binding of a Google account
-- (Auth.Login.link_google_amid) has whatever others do between its link and its patch as an argument.
-- `emailVerified`, which may be absent in the source, is a Bool here, false where absent, as every
-- reader takes it.
--
-- Parameters. The collation, SHA-256, bcrypt, HMAC, AES-GCM, base64, JWT signing and the exchange of a
-- Google code are fields of Runtime (and of Totp.Seal.Cipher); a theorem that needs one of them to
-- behave says how (Collates: the collation is an equivalence; IsCipher: decryption undoes encryption,
-- an encoded text has no colon).
--
-- The WebAuthn package is Webauthn.Package, with its settings that never change; Asks says that it
-- verifies a response only where the function that it was handed accepts the response's challenge.
-- TokenParams.Web has the regular expressions on a header, base64 and percent-decoding;
-- Hosted.Flow.Challenger signs and reads the challenge between the two factors; the check of a JWT is
-- a function to its claims.
--
-- Responses. A page is the data that it shows; a cookie is its name and value, its attributes left
-- out; so are the cookies of a response to a request that ends in an error. A route has its query or
-- its form as the schema left it, except at the token endpoints, where the schemas are modelled.
--
-- Bounds. Numbers are natural numbers: times and counters are far below the limits of a double. The
-- decimal digits of a one-time code are drawn with fuel for one digit fewer than the code has, and one
-- digit is drawn without; that is enough, since the number is below that power of ten (Totp.Codes).
-- All other recursion is structural.
--
-- Not modelled: the MySQL repositories (their in-memory twins are); the middleware around a rate
-- limiter of a package; the discovery documents, HTML and email; configuration; seeding and
-- migrations.
pub mod Prelude
pub mod Auth
pub mod Collation
pub mod Errors
pub mod Lockout
pub mod Pruning
pub mod RateLimit
pub mod Totp
pub mod Mfa
pub mod Oidc
pub mod Repo
pub mod Service
pub mod Tests
pub mod Passwords
pub mod Verification
pub mod Accounts
pub mod Authorize
pub mod UserRoutes
pub mod LinkRoutes
pub mod MfaRoutes
pub mod Webauthn
pub mod Admin
pub mod TokenParams
pub mod TokenEndpoint
pub mod Hosted
