-- ===== src/Auth/Exchange/Replay.antt =====
-- An authorization code presented again, and one presented wrongly: auth.service.ts
-- `exchangeAuthorizationCode`.
use authx.Prelude.{ℕ, String, true, false, Option, none, some, ◌≡◌, refl, inl, inr, arith, is_some}
use authx.Prelude.Map.{get, count_where}
use authx.Prelude.Map.Index.{Collates}
use authx.Errors.{ErrorCode, Failure, ok, err}
use authx.Repo.Codes.{AuthCode}
use authx.Repo.Codes
use authx.Repo.Orgs.{AppService}
use authx.Repo.Codes.Laws.{IsTable, consume-found, spent_row}
use authx.Repo.Tokens.{RefreshToken}
use authx.Repo.Tokens
use authx.Repo.Tokens.Laws.{create-row, revoke_all-none_active, revoke_all-own, active_of}
use authx.Service.{Config, Runtime, Db}
use authx.Service.Tables.{put_tokens}
use authx.Auth.{TokenPair, Drawn, new_refresh}
use authx.Auth.Issue.{Issues}
use authx.Auth.Exchange.{ExchangeInput, exchange_authorization_code, redeem, refuse_replay}
use authx.Auth.Exchange.SingleUse.{Names, Redeems, redeemable, check_code-cases, exchange-ok}

module _ (rt : Runtime) (cfg : Config) where
  -- A consumed code, from the client that it names.
  pub exchange-consumed :
      (input : ExchangeInput) (d : Drawn) (now : ℕ) (db : Db) (p : Names rt cfg input db)
      → is_some p.code.consumed_at ≡ true
      → exchange_authorization_code rt cfg input d now db ≡ (
        err (Failure.app ErrorCode.invalid_grant),
        put_tokens (Tokens.revoke_all_for_user p.code.user_id now db.tokens) db,
      )
  unfolding exchange_authorization_code redeem refuse_replay
  exchange-consumed input d now db p spent = ground arith

  -- A code that fails a check is not consumed: nothing is written, and the code can still be redeemed
  -- rightly.
  pub exchange_refused :
      (input : ExchangeInput) (d : Drawn) (now : ℕ) (db : Db) (p : Names rt cfg input db)
      → p.code.consumed_at ≡ none
      → redeemable rt cfg input p.code p.service now ≡ false
      → (e : Failure) × (exchange_authorization_code rt cfg input d now db ≡ (err e, db))
  unfolding exchange_authorization_code redeem
  exchange_refused input d now db p u bad =
      elim (check_code-cases rt cfg input p.code p.service now db) [
        | inl (good, x) ↦ absurd (ground arith)
        | inr (b, (e, x)) ↦ (e, ground arith)
      ]

  -- The refresh row that an issue inserts.
  issued-row :
      (user_id audience : String) (scope : Option String) (auth_time : Option ℕ) (d : Drawn)
      (now : ℕ) (db db' : Db) (pair : TokenPair)
      → Issues rt cfg user_id audience scope auth_time d now db pair db'
      → (t : RefreshToken) × (get d.id db'.tokens ≡ some t) × (t.user_id ≡ user_id)
  issued-row user_id audience scope auth_time d now db db' pair i = rw i.after (
    _,
    create-row rt.same (new_refresh rt cfg d user_id i.service now) db.tokens i.table i.created,
    refl,
  )

  -- The tables that an exchange leaves: of codes and of services.
  same_codes :
      (input : ExchangeInput) (code : AuthCode) (service : AppService) (d : Drawn) (now : ℕ)
      (db db' : Db) (pair : TokenPair)
      → Redeems rt cfg input code service d now db pair db'
      → db'.codes ≡ (Codes.consume code.id now db.codes).1
  same_codes input code service d now db db' pair f = rw (f.issues.after, f.consumed) refl

  same_orgs :
      (input : ExchangeInput) (code : AuthCode) (service : AppService) (d : Drawn) (now : ℕ)
      (db db' : Db) (pair : TokenPair)
      → Redeems rt cfg input code service d now db pair db'
      → db'.orgs ≡ db.orgs
  same_orgs input code service d now db db' pair f = rw f.issues.after refl

  -- After an exchange, the same code and client id find the code consumed.
  spent-Names :
      (input again : ExchangeInput) (now later : ℕ) (db db' : Db) (p : Names rt cfg input db)
      → Collates rt.same
      → IsTable rt.same db.codes
      → p.code.consumed_at ≡ none
      → again.code ≡ input.code
      → again.client_id ≡ input.client_id
      → db'.codes ≡ (Codes.consume p.code.id now db.codes).1
      → db'.orgs ≡ db.orgs
      → (q : Names rt cfg again db') × (q.code ≡ spent_row now p.code)
  spent-Names input again now later db db' p c i u same_code same_client codes orgs =
      let (won, i', found) =
        consume-found rt.same c (rt.hash_token input.code) p.code now db.codes i p.found u in
      (
        record {
          code = spent_row now p.code;
          service = p.service;
          found = rw (codes, won, same_code) found;
          owner = rw orgs p.owner;
          client = rw same_client p.client;
        },
        refl,
      )

  -- An authorization code is good for one exchange. After one has succeeded, every later call with the
  -- same code and client id fails with invalid_grant, whatever verifier, redirect URI or secret it has;
  -- and it revokes every refresh token of the account: none of them is active then, and the one that
  -- the first call issued is there, and revoked. The code table is well formed, and its collation an
  -- equivalence.
  pub exchange_replay :
      (input again : ExchangeInput) (d d' : Drawn) (now later : ℕ) (db db' : Db) (pair : TokenPair)
      → Collates rt.same
      → IsTable rt.same db.codes
      → again.code ≡ input.code
      → again.client_id ≡ input.client_id
      → exchange_authorization_code rt cfg input d now db ≡ (ok pair, db')
      → (p : Names rt cfg input db) × (issued : RefreshToken) × (get d.id db'.tokens ≡ some issued)
        × (issued.user_id ≡ p.code.user_id)
        × (let dead = Tokens.revoke_all_for_user p.code.user_id later db'.tokens in
            (exchange_authorization_code rt cfg again d' later db'
              ≡ (err (Failure.app ErrorCode.invalid_grant), put_tokens dead db'))
            × (count_where (active_of p.code.user_id) dead ≡ 0)
            × (get d.id dead ≡ some (Tokens.revoked_row later issued)))
  exchange_replay input again d d' now later db db' pair c i same_code same_client r =
      let (p, f) = exchange-ok rt cfg input d now db db' pair r in
      let q =
        spent-Names input again now later db db' p c i f.unspent same_code same_client
          (same_codes input p.code p.service d now db db' pair f)
          (same_orgs input p.code p.service d now db db' pair f) in
      let x = exchange-consumed again d' later db' q.0 (rw q.1 refl) in
      let (t, at, own) =
        issued-row p.code.user_id p.service.audience _ _ d now _ db' f.plain f.issues in
      let same_user : q.0.code.user_id ≡ p.code.user_id = rw q.1 refl in
      (
        p,
        t,
        at,
        own,
        (
          rw (x, same_user) refl,
          revoke_all-none_active p.code.user_id later db'.tokens,
          revoke_all-own p.code.user_id later d.id t db'.tokens at own,
        ),
      )
