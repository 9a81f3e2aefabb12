-- ===== src/Tests/World.antt =====
-- A small installation: one organization with one confidential service, and two accounts.
use Prim.Native.Char.{code}
use authx.Prelude.{
  ℕ, zero, suc, ◌+◌, String, Bool, true, Option, none, some, ◌≡◌, ◌≢◌, refl, arith, ◌==◌, ==-refl,
  ==-sym, ==→eq, eq_iff, List, [], ◌∷◌, ◌++◌, ◌∙◌, nat_eq, if◌then◌else◌,
}
use authx.Prelude.Map.{get}
use authx.Prelude.Map.Index.{Collates, Indexed}
use authx.Repo.Users.{User}
use authx.Repo.Orgs.{AppService}
use authx.Repo.Tokens.{RefreshToken}
use authx.Repo.Codes.{AuthCode}
use authx.Auth.Exchange.{ExchangeInput}
use authx.Repo.Totp
use authx.Totp.Seal.{Cipher, IsCipher}
use authx.Totp.Seal
use authx.Service.{Config, Runtime, Db}
use authx.Auth.{Client, Drawn}

abbrev pub same_text : String → String → Bool
same_text a b = a == b

pub same_text-Collates : Collates same_text
same_text-Collates = record {
  same_refl = ==-refl;
  same_sym = λ a b h. ==-sym b a ∙ h;
  same_trans = λ a b c h k. rw (==→eq a b h) k;
}

-- A table of one row is well formed.
pub one-Indexed :
    {V : Type 0} (ident key : V → String) (same : String → String → Bool) (v : V)
    → Indexed ident key same ((ident v, v) ∷ [])
unfolding get
one-Indexed ident key same v = record {
  distinct = (refl, tt);
  keyed = λ k w e. ground (arith, eq_iff (ident v) k);
  unique = λ j k a b ea eb s. ground (arith, eq_iff (ident v) j, eq_iff (ident v) k);
}

-- Bytes as runs of `i`, each with a full stop after it.
abbrev pub run : ℕ → String → String
run zero s = String.◌∷◌ "." s
run (suc n) s = String.◌∷◌ "i" (run n s)

abbrev pub encode : List ℕ → String
encode [] = ""
encode (b ∷ bs) = run b (encode bs)

abbrev pub decode : ℕ → String → Option (List ℕ)
decode n String.[] = some []
decode n (String.◌∷◌ c s) =
    if nat_eq (code c) b'i'
    then decode (suc n) s
    else elim (decode 0 s) [ none ↦ none | some bs ↦ some (n ∷ bs) ]

abbrev pub cipher : Cipher
cipher = record {
  encrypt = λ key iv secret. 0 ∷ secret;
  decrypt = λ key iv ct. elim ct [ [] ↦ none | b ∷ bs ↦ some bs ];
  encode = encode;
  decode = decode 0;
}

suc-shift : (n b : ℕ) → n + suc b ≡ suc n + b
suc-shift n b = omega arith

decode-run :
    (n b : ℕ) (s : String) (bs : List ℕ)
    → decode 0 s ≡ some bs
    → decode n (run b s) ≡ some ((n + b) ∷ bs)
decode-run n zero s bs h = ground (arith, h)
decode-run n (suc b) s bs h = rw (suc-shift n b) (decode-run (suc n) b s bs h)

decode-encode : (bs : List ℕ) → decode 0 (encode bs) ≡ some bs
decode-encode [] = refl
decode-encode (b ∷ bs) = ground (arith, decode-run 0 b (encode bs) bs (decode-encode bs))

run-NoColon : (b : ℕ) (s : String) → Seal.NoColon s → Seal.NoColon (run b s)
run-NoColon zero s h = (omega arith, h)
run-NoColon (suc b) s h = (omega arith, run-NoColon b s h)

encode-NoColon : (bs : List ℕ) → Seal.NoColon (encode bs)
encode-NoColon [] = tt
encode-NoColon (b ∷ bs) = run-NoColon b (encode bs) (encode-NoColon bs)

run_nonempty : (b : ℕ) (s : String) → run b s ≢ ""
run_nonempty zero s e = absurd (cc)
run_nonempty (suc b) s e = absurd (cc)

encode_nonempty : (bs : List ℕ) → bs ≢ [] → encode bs ≢ ""
encode_nonempty [] ne = absurd (ne refl)
encode_nonempty (b ∷ bs) ne = run_nonempty b (encode bs)

pub cipher-IsCipher : IsCipher cipher
cipher-IsCipher = record {
  encode-NoColon = encode-NoColon;
  encode_nonempty = encode_nonempty;
  decode-encode = decode-encode;
  decrypt-encrypt = λ key iv secret. refl;
  encrypt_nonempty = λ key iv secret e. absurd (cc);
}

-- Hashes are the texts themselves, a password is verified against itself, and a digest repeats the
-- message three times.
abbrev pub rt : Runtime
rt = record {
  same = same_text;
  lower = λ s. s;
  hash_token = λ s. s;
  s256 = λ s. s;
  hash_password = λ s. s;
  verify_password = λ p h. p == h;
  dummy_hash = "dummy";
  trim = λ s. s;
  upper = λ s. s;
  base32 = encode;
  hmac = λ k m. m ++ m ++ m;
  cipher = cipher;
  sign_access = λ p. p.sub;
  sign_id = λ p. p.sub;
  exchange_google = λ c. some (record { sub = "g9"; email = "g@x"; email_verified = true });
}

abbrev pub cfg : Config
cfg = record {
  issuer = "https://auth";
  access_token_ttl = 900;
  refresh_token_ttl = 86400;
  refresh_token_reuse_grace = 10;
  sso_session_ttl = 3600;
  auth_code_ttl = 60;
  email_verification_ttl = 3600;
  require_email_verification = true;
  allow_password_grant = true;
  totp_key = some (1 ∷ 2 ∷ []);
  google_client_id = "id";
  google_client_secret = "secret";
  login_throttle = record { max_failures = 3; lockout_ms = 1000 };
}

abbrev pub ann : User
ann = record {
  id = "u1";
  email = some "ann@x";
  username = none;
  password_hash = some "pw";
  created_at = 0;
  updated_at = 0;
  email_verified = true;
  name = none;
  given_name = none;
  family_name = none;
  picture = none;
  deleted_at = none;
}

-- An account without an address, and with two-factor authentication.
abbrev pub bob : User
bob = record ann { id = "u2"; email = none; username = some "bob" }

abbrev pub service : AppService
service = record {
  id = "s1";
  org_id = "o1";
  client_id = "c1";
  client_secret_hash = some "shh";
  name = "Service";
  slug = "service";
  audience = "aud";
  kind = "confidential";
  redirect_uris = "https://app/cb" ∷ [];
  guests_enabled = none;
  created_at = 0;
}

abbrev pub token : RefreshToken
token = record {
  id = "t1";
  user_id = "u1";
  app_service_id = "s1";
  token_hash = "rt1";
  expires_at = 50000;
  revoked_at = none;
  replaced_by = none;
}

abbrev pub authenticator : Totp.TotpRecord
authenticator = record {
  user_id = "u2";
  secret = "v1:i.:.i.ii.";
  enabled_at = some 5;
  last_step = 0;
}

abbrev pub recovery : Totp.RecoveryCode
recovery = record { id = "r1"; user_id = "u2"; code_hash = "spare"; used_at = none }

abbrev pub db : Db
db = record {
  users = record { by_id = ("u1", ann) ∷ ("u2", bob) ∷ []; user_role_names = [] };
  tokens = ("t1", token) ∷ [];
  sessions = [];
  codes = [];
  verifications = [];
  social = [];
  orgs = record { orgs = []; services = ("s1", service) ∷ []; members = "u1:o1" ∷ "u2:o1" ∷ [] };
  rbac = record {
    roles = [];
    perms = [];
    role_perms = [];
    user_role_ids = [];
    client_role_ids = [];
  };
  totps = record { totp = ("u2", authenticator) ∷ []; codes = recovery ∷ [] };
  passkeys = record { rows = []; challenges = [] };
  failures = [];
  mails = [];
}

abbrev pub client : Client
client = record { id = some "c1"; secret = some "shh" }

abbrev pub drawn : Drawn
drawn = record { id = "d1"; token = "new1" }

abbrev pub drawn_again : Drawn
drawn_again = record { id = "d2"; token = "new2" }

abbrev pub code_row : AuthCode
code_row = record {
  id = "k1";
  code_hash = "code1";
  user_id = "u1";
  app_service_id = "s1";
  redirect_uri = "https://app/cb";
  code_challenge = "verifier";
  code_challenge_method = "S256";
  scope = "openid email";
  nonce = none;
  auth_time = 500;
  expires_at = 60000;
  consumed_at = none;
}

abbrev pub db_code : Db
db_code = record db { codes = ("k1", code_row) ∷ [] }

abbrev pub exchange_input : ExchangeInput
exchange_input = record {
  code = "code1";
  redirect_uri = "https://app/cb";
  code_verifier = "verifier";
  client_id = "c1";
  client_secret = some "shh";
}
