-- ===== src/Hosted/Csrf.antt =====
-- Forms without the token of the browser's cookie.
use authx.Prelude.{
  ℕ, String, Bool, true, false, Option, some, ◌≡◌, refl, inl, inr, arith, Bool-cases, any, ◌||◌,
  ◌⊎◌, ◌==◌,
}
use authx.Errors.{ErrorCode, Failure, Result, ok, err}
use authx.Service.{Config, Runtime, Db, M}
use authx.Webauthn.{Package, Settings}
use authx.Hosted.{
  AuthorizeQuery, Browser, Cookie, Reply, Response, csrf_matches, csrf_refused, render_login,
  csrf_message,
}
use authx.Hosted.Flow.{Challenger, Draws, LoginForm, CodeForm, submit_login, submit_code}
use authx.Hosted.Passkey.{
  PasskeyForm, submit_passkey, passkey_options, register_options, submit_registration,
}

-- The forms of the hosted pages, and of their scripts.
pub data Form : Type 0 where
  login : LoginForm → Form
  code : CodeForm → Form
  passkey : PasskeyForm → Form
  sign_in_options : Option String → String → Form
  registration_options : Option String → String → Form
  registration : Option String → String → String → Form

abbrev pub token_of : Form → Option String
token_of (login f) = f.csrf_token
token_of (code f) = f.csrf_token
token_of (passkey f) = f.csrf_token
token_of (sign_in_options token challenge) = token
token_of (registration_options token challenge) = token
token_of (registration token credential id) = token

abbrev pub is_session : Cookie → Bool
is_session (Cookie.session t) = true
is_session _ = false

abbrev pub has_code : Reply → Bool
has_code (Reply.to_client uri issued state) = true
has_code _ = false

-- The response sets a session, or takes a code to a client.
abbrev pub signs_in : Result Response → Bool
signs_in (err e) = false
signs_in (ok r) = any is_session r.cookies || has_code r.reply

module _ (rt : Runtime) (cfg : Config) (web : Settings) (pkg : Package) (mfa : Challenger)
    (parses : String → Bool) where
  pub submit : Browser → Form → Draws → ℕ → M Response
  submit b (login f) d now = submit_login rt cfg web pkg mfa b f d now
  submit b (code f) d now = submit_code rt cfg web pkg mfa b f d now
  submit b (passkey f) d now = submit_passkey rt cfg web pkg mfa parses b f d now
  submit b (sign_in_options token challenge) d now =
      passkey_options rt cfg web pkg mfa parses b token challenge now
  submit b (registration_options token challenge) d now =
      register_options rt cfg web pkg mfa parses b token challenge now
  submit b (registration token credential id) d now =
      submit_registration rt cfg web pkg mfa parses b token credential id now

  csrf_refused-unmatched :
      (b : Browser) (q : AuthorizeQuery) (token : Option String) (db : Db)
      → csrf_matches b token ≡ false
      → (csrf_refused rt cfg web b q token db
          ≡ (err (Failure.app ErrorCode.csrf_token_invalid), db))
        ⊎ (csrf_refused rt cfg web b q token db
            ≡ (ok (some (render_login rt cfg web b q (some csrf_message) 403)), db))
  unfolding csrf_refused
  csrf_refused-unmatched b q token db n = elim (Bool-cases b.html) [
    | inl page ↦ inr (rw (n, csrf_refused, page) refl)
    | inr script ↦ inl (rw (n, csrf_refused, script) refl)
  ]

  -- A form whose token is not that of the browser's CSRF cookie, or that comes without such a cookie,
  -- changes nothing and signs nobody in: nothing is written, the response sets no session cookie, and
  -- it takes no code to a client. That holds for the login form, the second factor, sign-in with a
  -- passkey, and the calls of the passkey scripts.
  pub submit-unmatched :
      (b : Browser) (form : Form) (d : Draws) (now : ℕ) (db : Db)
      → csrf_matches b (token_of form) ≡ false
      → ((submit b form d now db).1 ≡ db) × (signs_in (submit b form d now db).0 ≡ false)
  unfolding submit submit_login submit_code submit_passkey passkey_options register_options
      submit_registration render_login
  submit-unmatched b (login f) d now db n =
      elim (csrf_refused-unmatched b f.query f.csrf_token db n) [
        | inl e ↦ ground arith
        | inr e ↦ ground arith
      ]
  submit-unmatched b (code f) d now db n =
      elim (csrf_refused-unmatched b f.query f.csrf_token db n) [
        | inl e ↦ ground arith
        | inr e ↦ ground arith
      ]
  submit-unmatched b (passkey f) d now db n = elim (Bool-cases (web.rp_id == "")) [
    | inl off ↦ ground arith
    | inr on ↦ elim (csrf_refused-unmatched b f.query f.csrf_token db n) [
      | inl e ↦ ground arith
      | inr e ↦ ground arith
    ]
  ]
  submit-unmatched b (sign_in_options token challenge) d now db n =
      elim (Bool-cases (web.rp_id == "")) [ inl off ↦ ground arith | inr on ↦ ground arith ]
  submit-unmatched b (registration_options token challenge) d now db n =
      elim (Bool-cases (web.rp_id == "")) [ inl off ↦ ground arith | inr on ↦ ground arith ]
  submit-unmatched b (registration token credential id) d now db n =
      elim (Bool-cases (web.rp_id == "")) [ inl off ↦ ground arith | inr on ↦ ground arith ]
