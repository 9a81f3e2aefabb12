-- ===== src/MfaRoutes.antt =====
-- modules/mfa/totp.routes.ts: the routes of two-factor authentication, without the rate limiters of a
-- package.
use authx.Prelude.{ℕ, String, Option, List}
use authx.Service.{Config, Runtime, M, ◌>>=◌, ◌>>◌, pure}
use authx.Mfa.{start_setup, confirm, disable, reset}
use authx.Authorize.{Claims, require_auth, require_permission}

-- The body of DELETE /me/totp, which has one of the two.
pub data Proof : Type 0 where
  code recovery_code : String → Proof

-- The random values of a setup are its secret and its nonce, those of a confirmation the recovery
-- codes with the ids of their rows.
pub data Route : Type 0 where
  post_totp : Option String → List ℕ → List ℕ → Route
  post_confirm : String → List (String × String) → Route
  delete_totp : Proof → Route
  delete_user_totp : String → Route

pub data Answer : Type 0 where
  secret : String → Answer
  recovery_codes : List String → Answer
  no_content : Answer

abbrev pub text_of : Proof → String
text_of (code s) = s
text_of (recovery_code s) = s

module _ (rt : Runtime) (cfg : Config) where
  unfoldable pub serve : (String → Option Claims) → Option String → Route → ℕ → M Answer
  serve verify bearer (post_totp password bytes iv) now = do
    caller ← require_auth verify bearer
    s ← start_setup rt cfg caller.id password caller.auth_time bytes iv now
    pure (secret s)
  serve verify bearer (post_confirm text drawn) now = do
    caller ← require_auth verify bearer
    cs ← confirm rt cfg caller.id text drawn now
    pure (recovery_codes cs)
  serve verify bearer (delete_totp proof) now = do
    caller ← require_auth verify bearer
    disable rt cfg caller.id (text_of proof) now
    pure no_content
  serve verify bearer (delete_user_totp id) now = do
    caller ← require_auth verify bearer
    require_permission "users:update:any" caller
    reset rt cfg id
    pure no_content
