-- ===== src/Service/Tables.antt =====
-- The repositories as calls on the database: each works on one table. A call that throws leaves the
-- table alone.
use authx.Errors.{Result, ok, err}
use authx.Lockout
use authx.Repo.Users
use authx.Repo.Tokens
use authx.Repo.Sessions
use authx.Repo.Codes
use authx.Repo.Verifications
use authx.Repo.Social
use authx.Repo.Orgs
use authx.Repo.Rbac
use authx.Repo.Totp
use authx.Repo.Passkeys
use authx.Service.{Db, M}

-- A write that cannot throw, and one that answers too.
abbrev write : {T : Type 0} → (Db → T) → (T → Db → Db) → (T → T) → M (Unit {0})
write table put f db = (ok tt, put (f (table db)) db)

abbrev ask : {A T : Type 0} → (Db → T) → (T → Db → Db) → (T → A × T) → M A
ask table put f db = let (a, t) = f (table db) in (ok a, put t db)

-- An insert, which may throw.
abbrev attempt : {T : Type 0} → (Db → T) → (T → Db → Db) → (T → Result T) → M (Unit {0})
attempt table put f db = elim (f (table db)) [ ok t ↦ (ok tt, put t db) | err e ↦ (err e, db) ]

-- A conditional write that may throw.
abbrev attempt_ask : {A T : Type 0} → (Db → T) → (T → Db → Db) → (T → Result (A × T)) → M A
attempt_ask table put f db = elim (f (table db)) [
  | ok (a, t) ↦ (ok a, put t db)
  | err e ↦ (err e, db)
]

abbrev pub put_users : Users.Users → Db → Db
put_users t db = record db { users = t }

abbrev pub users_write : (Users.Users → Users.Users) → M (Unit {0})
users_write = write (λ d. d.users) put_users

abbrev pub users_ask : {A : Type 0} → (Users.Users → A × Users.Users) → M A
users_ask = ask (λ d. d.users) put_users

abbrev pub users_attempt : (Users.Users → Result Users.Users) → M (Unit {0})
users_attempt = attempt (λ d. d.users) put_users

abbrev pub users_attempt_ask : {A : Type 0} → (Users.Users → Result (A × Users.Users)) → M A
users_attempt_ask = attempt_ask (λ d. d.users) put_users

abbrev pub put_tokens : Tokens.Table → Db → Db
put_tokens t db = record db { tokens = t }

abbrev pub tokens_write : (Tokens.Table → Tokens.Table) → M (Unit {0})
tokens_write = write (λ d. d.tokens) put_tokens

abbrev pub tokens_attempt : (Tokens.Table → Result Tokens.Table) → M (Unit {0})
tokens_attempt = attempt (λ d. d.tokens) put_tokens

abbrev pub tokens_attempt_ask : {A : Type 0} → (Tokens.Table → Result (A × Tokens.Table)) → M A
tokens_attempt_ask = attempt_ask (λ d. d.tokens) put_tokens

abbrev pub tokens_ask : {A : Type 0} → (Tokens.Table → A × Tokens.Table) → M A
tokens_ask = ask (λ d. d.tokens) put_tokens

abbrev pub put_sessions : Sessions.Table → Db → Db
put_sessions t db = record db { sessions = t }

abbrev pub sessions_write : (Sessions.Table → Sessions.Table) → M (Unit {0})
sessions_write = write (λ d. d.sessions) put_sessions

abbrev pub sessions_attempt : (Sessions.Table → Result Sessions.Table) → M (Unit {0})
sessions_attempt = attempt (λ d. d.sessions) put_sessions

abbrev pub sessions_ask : {A : Type 0} → (Sessions.Table → A × Sessions.Table) → M A
sessions_ask = ask (λ d. d.sessions) put_sessions

abbrev pub put_codes : Codes.Table → Db → Db
put_codes t db = record db { codes = t }

abbrev pub codes_ask : {A : Type 0} → (Codes.Table → A × Codes.Table) → M A
codes_ask = ask (λ d. d.codes) put_codes

abbrev pub codes_attempt : (Codes.Table → Result Codes.Table) → M (Unit {0})
codes_attempt = attempt (λ d. d.codes) put_codes

abbrev pub put_verifications : Verifications.Table → Db → Db
put_verifications t db = record db { verifications = t }

abbrev pub verifications_ask : {A : Type 0} → (Verifications.Table → A × Verifications.Table) → M A
verifications_ask = ask (λ d. d.verifications) put_verifications

abbrev pub verifications_attempt : (Verifications.Table → Result Verifications.Table) → M (Unit {0})
verifications_attempt = attempt (λ d. d.verifications) put_verifications

abbrev pub put_social : Social.Table → Db → Db
put_social t db = record db { social = t }

abbrev pub social_attempt : (Social.Table → Result Social.Table) → M (Unit {0})
social_attempt = attempt (λ d. d.social) put_social

abbrev pub social_ask : {A : Type 0} → (Social.Table → A × Social.Table) → M A
social_ask = ask (λ d. d.social) put_social

abbrev pub put_orgs : Orgs.Orgs → Db → Db
put_orgs t db = record db { orgs = t }

abbrev pub orgs_write : (Orgs.Orgs → Orgs.Orgs) → M (Unit {0})
orgs_write = write (λ d. d.orgs) put_orgs

abbrev pub orgs_ask : {A : Type 0} → (Orgs.Orgs → A × Orgs.Orgs) → M A
orgs_ask = ask (λ d. d.orgs) put_orgs

abbrev pub orgs_attempt : (Orgs.Orgs → Result Orgs.Orgs) → M (Unit {0})
orgs_attempt = attempt (λ d. d.orgs) put_orgs

abbrev pub put_rbac : Rbac.Rbac → Db → Db
put_rbac t db = record db { rbac = t }

abbrev pub rbac_write : (Rbac.Rbac → Rbac.Rbac) → M (Unit {0})
rbac_write = write (λ d. d.rbac) put_rbac

abbrev pub rbac_attempt : (Rbac.Rbac → Result Rbac.Rbac) → M (Unit {0})
rbac_attempt = attempt (λ d. d.rbac) put_rbac

abbrev pub put_totps : Totp.Totps → Db → Db
put_totps t db = record db { totps = t }

abbrev pub totps_ask : {A : Type 0} → (Totp.Totps → A × Totp.Totps) → M A
totps_ask = ask (λ d. d.totps) put_totps

abbrev pub totps_attempt : (Totp.Totps → Result Totp.Totps) → M (Unit {0})
totps_attempt = attempt (λ d. d.totps) put_totps

abbrev pub put_passkeys : Passkeys.Passkeys → Db → Db
put_passkeys t db = record db { passkeys = t }

abbrev pub passkeys_write : (Passkeys.Passkeys → Passkeys.Passkeys) → M (Unit {0})
passkeys_write = write (λ d. d.passkeys) put_passkeys

abbrev pub passkeys_ask : {A : Type 0} → (Passkeys.Passkeys → A × Passkeys.Passkeys) → M A
passkeys_ask = ask (λ d. d.passkeys) put_passkeys

abbrev pub passkeys_attempt : (Passkeys.Passkeys → Result Passkeys.Passkeys) → M (Unit {0})
passkeys_attempt = attempt (λ d. d.passkeys) put_passkeys

abbrev pub put_failures : Lockout.Failures → Db → Db
put_failures t db = record db { failures = t }

abbrev pub failures_write : (Lockout.Failures → Lockout.Failures) → M (Unit {0})
failures_write = write (λ d. d.failures) put_failures

abbrev pub failures_ask : {A : Type 0} → (Lockout.Failures → A × Lockout.Failures) → M A
failures_ask = ask (λ d. d.failures) put_failures
