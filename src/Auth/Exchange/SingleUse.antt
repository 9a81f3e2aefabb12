-- ===== src/Auth/Exchange/SingleUse.antt =====
-- What the exchange of an authorization code demands, and that a code is good for one exchange:
-- auth.service.ts `exchangeAuthorizationCode`.
use authx.Prelude.{
  ℕ, String, Bool, true, false, Option, none, some, ◌≡◌, ◌⊎◌, inl, inr, arith, Option-cases,
  Bool-cases, ◌&&◌, is_some, ltb, leb, ◌==◌, includes, [], ◌∷◌,
}
use authx.Prelude.Text.{join}
use authx.Errors.{ErrorCode, Failure, ok, err}
use authx.Oidc.{granted_oidc_scopes}
use authx.Repo.Users
use authx.Repo.Orgs.{AppService}
use authx.Repo.Orgs
use authx.Repo.Codes.{AuthCode}
use authx.Repo.Codes
use authx.Service.{Config, Runtime, Db}
use authx.Service.Laws.{call-cases}
use authx.Service.Tables.{put_codes}
use authx.Auth.{TokenPair, Drawn, client_secret_ok, issue_tokens_for_service}
use authx.Auth.Issue.{Issues, issue-Issues}
use authx.Auth.Exchange.{
  ExchangeInput, exchange_authorization_code, redeem, check_code, refuse_replay, mint,
  with_id_token,
}

module _ (rt : Runtime) (cfg : Config) where
  -- The code is known, and the client names the service that it was issued to.
  pub record Names (input : ExchangeInput) (db : Db) : Type 0 where
    pub code : AuthCode
    pub service : AppService
    pub found : Codes.find_by_code_hash rt.same (rt.hash_token input.code) db.codes ≡ some code
    pub owner : Orgs.find_service_by_id code.app_service_id db.orgs ≡ some service
    pub client : (service.client_id == input.client_id) ≡ true

  -- The checks of an unconsumed code: it has not expired, the redirect URI is the one of the request,
  -- the client proves itself, and the verifier matches the challenge.
  abbrev pub redeemable : ExchangeInput → AuthCode → AppService → ℕ → Bool
  redeemable input code service now =
      ltb now code.expires_at
      && (code.redirect_uri == input.redirect_uri)
      && client_secret_ok rt cfg service input.client_secret
      && (rt.s256 input.code_verifier == code.code_challenge)

  -- The scope that the tokens carry of an OIDC request.
  abbrev pub granted : AuthCode → Option String
  granted code = elim (granted_oidc_scopes code.scope) [
    | [] ↦ none
    | s ∷ ss ↦ some (join " " (s ∷ ss))
  ]

  pub check_code-cases :
      (input : ExchangeInput) (code : AuthCode) (service : AppService) (now : ℕ) (db : Db)
      → ((redeemable input code service now ≡ true)
          × (check_code rt cfg input code service now db ≡ (ok tt, db)))
        ⊎ ((redeemable input code service now ≡ false)
            × ((e : Failure) × (check_code rt cfg input code service now db ≡ (err e, db))))
  unfolding check_code
  check_code-cases input code service now db = elim (Bool-cases (leb code.expires_at now)) [
    | inl a ↦ inr (ground arith, (Failure.app ErrorCode.invalid_grant, ground arith))
    | inr a ↦ elim (Bool-cases (code.redirect_uri == input.redirect_uri)) [
      | inr b ↦ inr (ground arith, (Failure.app ErrorCode.invalid_grant, ground arith))
      | inl b ↦ elim (Bool-cases (client_secret_ok rt cfg service input.client_secret)) [
        | inr q ↦ inr (ground arith, (Failure.app ErrorCode.invalid_client, ground arith))
        | inl q ↦ elim (Bool-cases (rt.s256 input.code_verifier == code.code_challenge)) [
          | inr v ↦ inr (ground arith, (Failure.app ErrorCode.invalid_grant, ground arith))
          | inl v ↦ inl (ground arith, ground arith)
        ]
      ]
    ]
  ]

  -- The two ways of a call: the code and its service are there, or nothing is written.
  pub exchange_cases :
      (input : ExchangeInput) (d : Drawn) (now : ℕ) (db : Db)
      → ((p : Names input db) × (exchange_authorization_code rt cfg input d now db
            ≡ redeem rt cfg input p.code p.service d now db))
        ⊎ ((e : Failure) × (exchange_authorization_code rt cfg input d now db ≡ (err e, db)))
  unfolding exchange_authorization_code
  exchange_cases input d now db =
      elim (Option-cases (Codes.find_by_code_hash rt.same (rt.hash_token input.code) db.codes)) [
        | inl e ↦ inr (Failure.app ErrorCode.invalid_grant, ground arith)
        | inr (code, e) ↦
            elim (Option-cases (Orgs.find_service_by_id code.app_service_id db.orgs)) [
              | inl e' ↦ inr (Failure.app ErrorCode.invalid_grant, ground arith)
              | inr (service, e') ↦ elim (Bool-cases (service.client_id == input.client_id)) [
                | inr f ↦ inr (Failure.app ErrorCode.invalid_grant, ground arith)
                | inl t ↦ inl (
                  record { code = code; service = service; found = e; owner = e'; client = t },
                  ground arith,
                )
              ]
            ]
      ]

  -- The code names what it grants; the OIDC half adds an id token and writes nothing.
  mint-Issues :
      (input : ExchangeInput) (code : AuthCode) (service : AppService) (d : Drawn) (now : ℕ)
      (db db' : Db) (pair : TokenPair)
      → mint rt cfg input code service d now db ≡ (ok pair, db')
      → (plain : TokenPair) × Issues rt cfg code.user_id service.audience
          (granted code)
          (some code.auth_time)
          d
          now
          db
          plain
          db'
        × (pair.access_token ≡ plain.access_token)
        × (pair.refresh_token ≡ plain.refresh_token)
        × (is_some pair.id_token ≡ includes "openid" (granted_oidc_scopes code.scope))
  unfolding mint with_id_token
  mint-Issues input code service d now db db' pair r =
      elim (call-cases (
        issue_tokens_for_service rt cfg code.user_id service.audience (granted code)
          (some code.auth_time) d now db)) [
            | inr (e, db'', x) ↦ absurd (ground arith)
            | inl (plain, db'', x) ↦
                let i =
                  issue-Issues rt cfg code.user_id service.audience (granted code)
                    (some code.auth_time) d now db db'' plain x in
                let live : Users.find_by_id code.user_id db''.users ≡ some i.user =
                  rw i.after i.live in
                elim (Bool-cases (includes "openid" (granted_oidc_scopes code.scope))) [
                  | inl o ↦
                      let same : db' ≡ db'' = ground arith in
                      rw same (plain, i, ground arith, ground arith, ground arith)
                  | inr o ↦
                      let same : db' ≡ db'' = ground arith in
                      rw same (plain, i, ground arith, ground arith, ground arith)
                ]
          ]

  -- What an exchange demands, and what it writes and answers: the code is consumed and the tokens are
  -- issued.
  pub record Redeems (input : ExchangeInput) (code : AuthCode) (service : AppService) (d : Drawn)
      (now : ℕ) (db : Db) (pair : TokenPair) (db' : Db) : Type 0 where
    pub unspent : code.consumed_at ≡ none
    pub allowed : redeemable input code service now ≡ true
    pub codes : Codes.Table
    pub consumed : Codes.consume code.id now db.codes ≡ (true, codes)
    pub plain : TokenPair
    pub issues :
        Issues rt cfg code.user_id service.audience
          (granted code)
          (some code.auth_time)
          d
          now
          (put_codes codes db)
          plain
          db'
    pub same_access : pair.access_token ≡ plain.access_token
    pub same_refresh : pair.refresh_token ≡ plain.refresh_token
    pub id_token : is_some pair.id_token ≡ includes "openid" (granted_oidc_scopes code.scope)

  redeem-Redeems :
      (input : ExchangeInput) (code : AuthCode) (service : AppService) (d : Drawn) (now : ℕ)
      (db db' : Db) (pair : TokenPair)
      → redeem rt cfg input code service d now db ≡ (ok pair, db')
      → Redeems input code service d now db pair db'
  unfolding redeem refuse_replay
  redeem-Redeems input code service d now db db' pair r =
      elim (check_code-cases input code service now db) [
        | inr (bad, (e, x)) ↦ absurd (ground arith)
        | inl (good, x) ↦
            let (plain, i, a, b, c) =
              mint-Issues input code service d now
                (put_codes (Codes.consume code.id now db.codes).1 db) db' pair (ground arith) in
            record {
              unspent = ground arith;
              allowed = good;
              codes = (Codes.consume code.id now db.codes).1;
              consumed = ground arith;
              plain = plain;
              issues = i;
              same_access = a;
              same_refresh = b;
              id_token = c;
            }
      ]

  -- An exchange succeeds only for a stored code that is not consumed and not expired, with the client
  -- id, the redirect URI, the client's secret (or a public client) and the PKCE verifier that belong to
  -- it, and for an account that may have tokens for the audience. It has then consumed the code, and
  -- answers with an id token exactly where the code grants `openid`.
  pub exchange-ok :
      (input : ExchangeInput) (d : Drawn) (now : ℕ) (db db' : Db) (pair : TokenPair)
      → exchange_authorization_code rt cfg input d now db ≡ (ok pair, db')
      → (p : Names input db) × Redeems input p.code p.service d now db pair db'
  exchange-ok input d now db db' pair r = elim (exchange_cases input d now db) [
    | inr (e, x) ↦ absurd (ground arith)
    | inl (p, x) ↦ (p, redeem-Redeems input p.code p.service d now db db' pair (ground arith))
  ]
