-- ===== src/Webauthn/Register.antt =====
-- Registration of a passkey (passkey.service.ts `register`): what it demands and what it writes.
use authx.Prelude.{
  ℕ, String, true, false, some, ◌≡◌, inl, inr, arith, [], ◌∷◌, ◌++◌, ◌==◌, ◌<◌, any, length,
  Bool-cases, leb,
}
use authx.Errors.{ok, Result-cases}
use authx.Repo.Passkeys.{
  Passkey, Passkeys, register, has_credential, list_for_user, create, consume_challenge,
  find_by_credential_id_hash,
}
use authx.Service.{Runtime, Db}
use authx.Service.Laws.{call-cases}
use authx.Service.Tables.{put_passkeys}
use authx.Webauthn.{
  Package, Settings, unverified, verified, RegistrationInfo, consume, add_passkey, new_passkey,
  already, max_passkeys, register_passkey,
}
use authx.Webauthn.SignIn.{Asks, challenged, consumed, consume-won}

module _ (rt : Runtime) (w : Package) (cfg : Settings) where
  pub record Registers (user_id response id : String) (now : ℕ) (db db' : Db) : Type 0 where
    pub info : RegistrationInfo
    pub on : (cfg.rp_id == "") ≡ false
    pub open_challenge : challenged rt w cfg response register (some user_id) now db ≡ true
    pub room : length (list_for_user user_id db.passkeys) < max_passkeys
    pub unknown : already rt w cfg info db ≡ false
    pub after :
        let spent = (consumed rt w cfg response register (some user_id) now db).passkeys in
        db'
        ≡ put_passkeys
            (record spent { rows = spent.rows ++ new_passkey rt w cfg id user_id info now ∷ [] })
            db

  create-appends :
      (p : Passkey) (s t : Passkeys)
      → create rt.same p s ≡ ok t
      → t ≡ record s { rows = s.rows ++ p ∷ [] }
  unfolding create
  create-appends p s t h =
      elim (Bool-cases (any (has_credential rt.same p.credential_id_hash) s.rows)) [
        | inl taken ↦ absurd (ground arith)
        | inr free ↦ elim (Bool-cases (any (λ r. r.id == p.id) s.rows)) [
          | inl old ↦ absurd (ground arith)
          | inr new ↦ ground arith
        ]
      ]

  add_passkey-ok :
      (user_id id : String) (info : RegistrationInfo) (now : ℕ) (db db' : Db)
      → add_passkey rt w cfg user_id id info now db ≡ (ok tt, db')
      → (length (list_for_user user_id db.passkeys) < max_passkeys)
        × (already rt w cfg info db ≡ false)
        × (db'
            ≡ put_passkeys
                (record db.passkeys {
                  rows = db.passkeys.rows ++ new_passkey rt w cfg id user_id info now ∷ [];
                })
                db)
  unfolding add_passkey
  add_passkey-ok user_id id info now db db' h =
      elim (Bool-cases (leb max_passkeys (length (list_for_user user_id db.passkeys)))) [
        | inl full ↦ absurd (ground arith)
        | inr room ↦ elim (Bool-cases (already rt w cfg info db)) [
          | inl taken ↦ absurd (ground arith)
          | inr free ↦
              elim (Result-cases
                (create rt.same (new_passkey rt w cfg id user_id info now) db.passkeys)) [
                  | inl (t, made) ↦ (
                    ground arith,
                    free,
                    let e = create-appends (new_passkey rt w cfg id user_id info now) _ t made in
                        ground arith,
                  )
                  | inr (e, clash) ↦ absurd (ground arith)
                ]
        ]
      ]

  -- A registration succeeds only where passkeys are on, the package verifies the response, its
  -- challenge was opened for a registration by this very account and is neither used nor expired, the
  -- account has room for another passkey, and no account has the passkey already. All it writes is
  -- that the challenge is consumed and the account's new passkey.
  pub register_passkey-ok :
      Asks w
      → (user_id response id : String) (now : ℕ) (db db' : Db)
      → register_passkey rt w cfg user_id response id now db ≡ (ok tt, db')
      → Registers user_id response id now db db'
  unfolding register_passkey consume_challenge list_for_user find_by_credential_id_hash
  register_passkey-ok asks user_id response id now db db' h = elim (Bool-cases (cfg.rp_id == "")) [
    | inl off ↦ absurd (ground arith)
    | inr on ↦
        elim (call-cases (
          w.verify_registration (consume rt w cfg register (some user_id) now)
            (record {
              response = response;
              expected_origin = cfg.origin;
              expected_rp_id = cfg.rp_id;
            })
            db)) [
              | inr (x, d, refused) ↦ absurd (ground arith)
              | inl (unverified, d, bad) ↦ absurd (ground arith)
              | inl (verified info, d, good) ↦
                  let asked = asks.reg_asks _ _ info db d good in
                  let (open_challenge, wrote) =
                    consume-won rt w cfg response register (some user_id) now db d asked in
                  let (room, unknown, after) =
                    add_passkey-ok user_id id info now
                      (consumed rt w cfg response register (some user_id) now db) db'
                      (rw (← wrote) (ground arith)) in
                  record {
                    info = info;
                    on = on;
                    open_challenge = open_challenge;
                    room = room;
                    unknown = unknown;
                    after = after;
                  }
            ]
  ]
