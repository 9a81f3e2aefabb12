-- ===== src/Hosted/Redirects.antt =====
-- Where the codes of the hosted sign-in go.
use authx.Prelude.{
  ℕ, String, Bool, true, Option, none, some, ◌≡◌, refl, sym, subst, inl, inr, arith, Bool-cases,
  Option-cases, [], includes, ◌==◌, not, ◌||◌,
}
use authx.Errors.{ErrorCode, Result, ok, err}
use authx.Repo.Orgs.{AppService, find_service_by_client_id}
use authx.Service.{Config, Runtime, Db, M, ◌>>=◌, pure, throw, some_or_throw}
use authx.Auth.Exchange.{validate_authorize_request}
use authx.Auth.Login.{NewIds, login_create_session}
use authx.Webauthn.{Package, Settings, enabled}
use authx.Hosted.{
  AuthorizeQuery, LoginMethod, Browser, csrf_matches, Reply, Response, csrf_refused, unless_refused,
  render_login, finish_hosted_login, csrf_message,
}
use authx.Hosted.Flow.{
  Challenger, Draws, asked_step, session_of, session_reply, password_step, code_step, google_step,
  LoginForm, CodeForm, Profile, submit_login, submit_code, authorize, finish_google, validate,
  after_login, login_failed, identified,
}
use authx.Hosted.Passkey.{PasskeyForm, submit_passkey, passkey_failed, passkey_step, sign_in}
use authx.Hosted.Replies.{
  HomeReply, Home, bind-rule, guard-rule, attempt-rule, finish-Home, after_login-Home,
  login_failed-Home, passkey_failed-Home, session_reply-Home, code_reply-Home, google_reply-Home,
}

-- The visits that may end with a code.
pub data Visit : Type 0 where
  asks : AuthorizeQuery → Visit
  login : LoginForm → Visit
  code : CodeForm → Visit
  passkey : PasskeyForm → Visit
  google : Profile → NewIds → Visit

-- The authorize request that a visit is part of.
abbrev pub query_of : Browser → Visit → Option AuthorizeQuery
query_of b (asks q) = some q
query_of b (login f) = some f.query
query_of b (code f) = some f.query
query_of b (passkey f) = some f.query
query_of b (google p ids) = b.google_authorize

module _ (rt : Runtime) (cfg : Config) (web : Settings) (pkg : Package) (mfa : Challenger)
    (parses : String → Bool) where
  pub visit : Browser → Visit → Draws → ℕ → M Response
  visit b (asks q) d now = authorize rt cfg web pkg mfa b q d.code now
  visit b (login f) d now = submit_login rt cfg web pkg mfa b f d now
  visit b (code f) d now = submit_code rt cfg web pkg mfa b f d now
  visit b (passkey f) d now = submit_passkey rt cfg web pkg mfa parses b f d now
  visit b (google p ids) d now = finish_google rt cfg web pkg mfa b p ids d now

  -- The client of the request is registered, and so is the address, as one of its own.
  abbrev pub Registered : AuthorizeQuery → String → Db → Type 0
  Registered q uri db =
      (service : AppService) × (find_service_by_client_id rt.same q.client_id db.orgs
        ≡ some service)
      × (includes uri service.redirect_uris ≡ true)

  -- A code goes to a registered address of the request's client, with the request's state.
  abbrev pub GoesReply : Option AuthorizeQuery → Db → Reply → Type 0
  GoesReply none db (Reply.to_client uri issued state) = ⊥
  GoesReply (some q) db (Reply.to_client uri issued state) = Registered q uri db × (state ≡ q.state)
  GoesReply o db _ = Unit

  abbrev pub Goes : Option AuthorizeQuery → Db → Result Response → Type 0
  Goes o db (err e) = Unit
  Goes o db (ok r) = GoesReply o db r.reply

  validate-ok :
      (q : AuthorizeQuery) (service : AppService) (db db' : Db)
      → validate rt cfg web pkg mfa q db ≡ (ok service, db')
      → Registered q q.redirect_uri db × (db' ≡ db)
  unfolding validate_authorize_request
  validate-ok q service db db' h =
      elim (Option-cases (find_service_by_client_id rt.same q.client_id db.orgs)) [
        | inl e ↦ absurd (ground arith)
        | inr (v, e) ↦ elim (Bool-cases (includes q.redirect_uri v.redirect_uris)) [
          | inr foreign ↦ absurd (ground arith)
          | inl own ↦
              elim (Bool-cases
                (not (q.code_challenge_method == "S256") || q.code_challenge == "")) [
                  | inl bad ↦ absurd (ground arith)
                  | inr good ↦ ((v, e, own), ground arith)
                ]
        ]
      ]

  reply-goes :
      (q : AuthorizeQuery) (db : Db) (r : Reply)
      → Registered q q.redirect_uri db
      → HomeReply q r
      → GoesReply (some q) db r
  reply-goes q db (Reply.to_client uri issued state) g h =
      let (v, found, own) = g in
      ((v, found, subst (λ u. includes u v.redirect_uris ≡ true) (sym h.0) own), h.1)
  reply-goes q db (Reply.html p) g h = tt
  reply-goes q db (Reply.to_authorize a) g h = tt
  reply-goes q db Reply.to_google g h = tt
  reply-goes q db (Reply.options o) g h = tt
  reply-goes q db (Reply.registration o) g h = tt
  reply-goes q db Reply.no_content g h = tt

  -- A reply that goes home goes to a registered address, once the request is validated.
  Home-Goes :
      (q : AuthorizeQuery) (db : Db) (r : Result Response)
      → Registered q q.redirect_uri db
      → Home q r
      → Goes (some q) db r
  Home-Goes q db (err e) g h = tt
  Home-Goes q db (ok r) g h = reply-goes q db r.reply g h

  validated-Goes :
      (q : AuthorizeQuery) (k : AppService → M Response) (db : Db)
      → ((service : AppService) (db' : Db) → Home q (k service db').0)
      → Goes (some q) db ((validate rt cfg web pkg mfa q >>= k) db).0
  validated-Goes q k db h =
      bind-rule (Goes (some q) db) (validate rt cfg web pkg mfa q) k db (λ e. tt)
        (λ service db' e.
          Home-Goes q db (k service db').0 (validate-ok q service db db' e).0 (h service db'))

  -- A form's handler: a refusal, or the request validated and what follows it.
  form-Goes :
      (b : Browser) (q : AuthorizeQuery) (token : Option String) (k : AppService → M Response)
      (db : Db)
      → ((service : AppService) (db' : Db) → Home q (k service db').0)
      → Goes
          (some q)
          db
          ((csrf_refused rt cfg web b q token >>= λ refused.
              unless_refused rt cfg web refused (validate rt cfg web pkg mfa q >>= k))
            db).0
  unfolding csrf_refused render_login
  form-Goes b q token k db h = elim (Bool-cases (csrf_matches b token)) [
    | inl good ↦
        let e : csrf_refused rt cfg web b q token ≡ pure none = rw (csrf_refused, good) refl in
        rw e (validated-Goes q k db h)
    | inr bad ↦ elim (Bool-cases b.html) [
      | inr script ↦
          let e : csrf_refused rt cfg web b q token ≡ throw ErrorCode.csrf_token_invalid =
            rw (csrf_refused, bad, script) refl in
          rw e tt
      | inl page ↦
          let e : csrf_refused rt cfg web b q token
              ≡ pure (some (render_login rt cfg web b q (some csrf_message) 403)) =
            rw (csrf_refused, bad, page) refl in
          rw e tt
    ]
  ]

  google-Goes :
      (b : Browser) (p : Profile) (ids : NewIds) (d : Draws) (now : ℕ)
      (asked : Option AuthorizeQuery) (db : Db)
      → Goes asked db
          ((some_or_throw ErrorCode.authorize_request_expired asked >>= λ q.
              validate rt cfg web pkg mfa q >>= google_step rt cfg web pkg mfa b p ids d now q)
            db).0
  google-Goes b p ids d now none db = tt
  google-Goes b p ids d now (some q) db =
      validated-Goes q (google_step rt cfg web pkg mfa b p ids d now q) db (λ service.
        google_reply-Home rt cfg web pkg mfa parses b p ids d now q service
          (identified rt cfg web pkg mfa p))

  -- Whatever the hosted pages are asked, and whatever state they are asked in, a code leaves authx
  -- only for an address that the client of the request has registered, with the state that the
  -- request brought. That holds for a visit with a session, the login form, the second factor, a
  -- passkey, and the return from Google.
  pub visit-Goes :
      (b : Browser) (v : Visit) (d : Draws) (now : ℕ) (db : Db)
      → Goes (query_of b v) db (visit b v d now db).0
  unfolding visit authorize submit_login submit_code submit_passkey finish_google
  visit-Goes b (asks q) d now db =
      validated-Goes q (asked_step rt cfg web pkg mfa b q d.code now) db (λ service db'.
        bind-rule (Home q) (session_of rt cfg web pkg mfa b q now)
          (session_reply rt cfg web pkg mfa b q d.code now service) db' (λ e. tt)
          (λ s db'' e. session_reply-Home rt cfg web pkg mfa parses b q d.code now service s db''))
  visit-Goes b (login f) d now db =
      form-Goes b f.query f.csrf_token (password_step rt cfg web pkg mfa b f d now) db
        (λ service db'.
          attempt-rule (Home f.query) (login_create_session rt cfg f.email f.password d.session now)
            (login_failed rt cfg web pkg mfa b f.query)
            (after_login rt cfg web pkg mfa b f.query service LoginMethod.password [] d.code now)
            db' (login_failed-Home rt cfg web pkg mfa parses b f.query)
            (after_login-Home rt cfg web pkg mfa parses b f.query service LoginMethod.password []
              d.code now))
  visit-Goes b (code f) d now db =
      form-Goes b f.query f.csrf_token (code_step rt cfg web pkg mfa b f d now) db (λ service.
        code_reply-Home rt cfg web pkg mfa parses b f d now service
          (mfa.verify (elim b.mfa [ none ↦ "" | some t ↦ t ]) now))
  visit-Goes b (passkey f) d now db =
      guard-rule (Goes (some f.query) db) (not (enabled rt pkg web))
        ErrorCode.passkey_not_configured
        (λ u. csrf_refused rt cfg web b f.query f.csrf_token >>= λ refused.
          unless_refused rt cfg web refused (
            validate rt cfg web pkg mfa f.query
            >>= passkey_step rt cfg web pkg mfa parses b f d now))
        db (λ e. tt)
        (form-Goes b f.query f.csrf_token (passkey_step rt cfg web pkg mfa parses b f d now) db
          (λ service db'.
            attempt-rule (Home f.query) (sign_in rt cfg web pkg mfa parses f d now)
              (passkey_failed rt cfg web pkg mfa parses b f.query)
              (λ s.
                finish_hosted_login rt cfg web pkg b f.query service s LoginMethod.passkey [] d.code
                  now)
              db' (passkey_failed-Home rt cfg web pkg mfa parses b f.query)
              (λ s.
                finish-Home rt cfg web pkg mfa parses b f.query service s LoginMethod.passkey []
                  d.code now)))
  visit-Goes b (google p ids) d now db =
      guard-rule (Goes b.google_authorize db) (cfg.google_client_id == "")
        ErrorCode.google_login_disabled
        (λ u. some_or_throw ErrorCode.authorize_request_expired b.google_authorize >>= λ q.
          validate rt cfg web pkg mfa q >>= google_step rt cfg web pkg mfa b p ids d now q)
        db (λ e. tt) (google-Goes b p ids d now b.google_authorize db)
