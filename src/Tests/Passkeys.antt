-- ===== src/Tests/Passkeys.antt =====
-- Sign-in with a passkey, at the small installation.
use authx.Prelude.{ℕ, Bool, true, false, none, some, ◌≡◌, refl, arith, List, [], ◌∷◌}
use authx.Errors.{ErrorCode, Failure, Result, ok, err}
use authx.Repo.Passkeys.{
  Passkey, Challenge, authenticate, consume_challenge, consume_first, find_by_credential_id_hash,
  record_use, use_row,
}
use authx.Repo.Passkeys.Challenges.{Call, run}
use authx.Service.{Db}
use authx.Service.Tables.{put_passkeys}
use authx.Webauthn.{
  Package, Settings, Credential, RegistrationInfo, Verdict, unverified, verified, consume,
  verify_sign_in,
}
use authx.Webauthn.SignIn.{Asks, SignsIn, verify_sign_in-ok, sign_in_once}
use authx.Tests.World.{rt, db, same_text, same_text-Collates}

-- A package that verifies whatever answers an accepted challenge, with the counter one, and in which
-- every response signs the same challenge.
abbrev verdict : {A : Type 0} → A → Result Bool × Db → Result (Verdict A) × Db
verdict a (ok true, d) = (ok (verified a), d)
verdict a (ok false, d) = (ok unverified, d)
verdict a (err e, d) = (err e, d)

abbrev credential : Credential
credential = record { id = "cred"; public_key = 7 ∷ []; counter = 1; transports = [] }

abbrev info : RegistrationInfo
info = record { credential = credential; aaguid = "aa"; credential_backed_up = false }

abbrev pub trusting : Package
trusting = record {
  id_of = λ response. some response;
  challenge_of = λ response. "challenge";
  verify_authentication = λ accepts input d. verdict 1 (accepts "challenge" d);
  verify_registration = λ accepts input d. verdict info (accepts "challenge" d);
  to_buffer = λ s. [];
  from_buffer = λ bs. "key";
}

verdict-accepted :
    {A : Type 0} (a b : A) (x : Result Bool × Db) (d : Db)
    → verdict a x ≡ (ok (verified b), d)
    → x ≡ (ok true, d)
verdict-accepted a b (ok true, e) d h = ground arith
verdict-accepted a b (ok false, e) d h = absurd (ground arith)
verdict-accepted a b (err e, f) d h = absurd (ground arith)

trusting-Asks : Asks trusting
trusting-Asks = record {
  auth_asks =
      λ accepts input counter d d' h. verdict-accepted 1 counter (accepts "challenge" d) d' h;
  reg_asks = λ accepts input i d d' h. verdict-accepted info i (accepts "challenge" d) d' h;
}

abbrev pub settings : Settings
settings = record { rp_id = "authx"; origin = "https://auth" }

abbrev pub passkey : Passkey
passkey = record {
  id = "p1";
  user_id = "u1";
  credential_id = "cred";
  credential_id_hash = "cred";
  public_key = "key";
  counter = 0;
  transports = [];
  aaguid = "aa";
  backed_up = false;
  created_at = 0;
  last_used_at = none;
}

abbrev challenge : Challenge
challenge = record {
  challenge_hash = "challenge";
  purpose = authenticate;
  user_id = none;
  expires_at = 5000;
  consumed_at = none;
}

abbrev pub db_passkey : Db
db_passkey = record db { passkeys = record { rows = passkey ∷ []; challenges = challenge ∷ [] } }

abbrev entered : Db
entered = (verify_sign_in rt trusting settings "cred" 1000 db_passkey).1

enters : verify_sign_in rt trusting settings "cred" 1000 db_passkey ≡ (ok "u1", entered)
unfolding verify_sign_in consume consume_challenge consume_first find_by_credential_id_hash
    record_use use_row
enters = refl

verify_sign_in-ok_example : SignsIn rt trusting settings "cred" "u1" 1000 db_passkey entered
verify_sign_in-ok_example =
    verify_sign_in-ok rt trusting settings trusting-Asks "cred" "u1" 1000 db_passkey entered enters

-- Between the two, the challenge is tried once more and another passkey is removed.
abbrev calls : List (ℕ × Call)
calls = (1500, Call.consumes "challenge" authenticate none) ∷ (1600, Call.deletes "u1" "p2") ∷ []

sign_in_once_example :
    (verify_sign_in rt trusting settings "other" 2000
      (put_passkeys (run same_text calls entered.passkeys) entered)).0
    ≡ err (Failure.app ErrorCode.passkey_invalid)
sign_in_once_example =
    sign_in_once rt trusting settings trusting-Asks same_text-Collates "cred" "other" "u1" 1000 2000
      calls db_passkey entered (put_passkeys (run same_text calls entered.passkeys) entered)
      (refl, tt) enters (refl, (refl, tt)) refl refl
