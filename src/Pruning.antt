-- ===== src/Pruning.antt =====
-- db/prune.ts: the rows that expired long enough ago are deleted, and the accounts that were deleted
-- are erased. A cutoff before the epoch is the epoch: no row is older than either.
pub mod Detection
use authx.Prelude.{ℕ, String, Bool, ◌-◌, ◌*◌}
use authx.Repo.Tokens
use authx.Repo.Sessions
use authx.Repo.Codes
use authx.Repo.Verifications
use authx.Repo.Passkeys
use authx.Service.{Config, Runtime, M, ◌>>=◌, pure}
use authx.Service.Tables.{tokens_ask, sessions_ask, codes_ask, verifications_ask, passkeys_ask}
use authx.Accounts.{purge_deleted_before}

pub record PruneCounts : Type 0 where
  pub refresh_tokens : ℕ
  pub sessions : ℕ
  pub authorization_codes : ℕ
  pub email_verification_tokens : ℕ
  pub webauthn_challenges : ℕ

-- The five deletions of `Promise.all`, in order; they work on different tables.
unfoldable pub prune_expired : ℕ → ℕ → M PruneCounts
prune_expired cutoff now = do
  tokens ← tokens_ask (Tokens.delete_expired_before cutoff)
  sessions ← sessions_ask (Sessions.delete_expired_before cutoff)
  codes ← codes_ask (Codes.delete_expired_before cutoff)
  links ← verifications_ask (Verifications.delete_expired_before cutoff)
  challenges ← passkeys_ask (Passkeys.delete_expired_challenges_before now)
  pure (record {
    refresh_tokens = tokens;
    sessions = sessions;
    authorization_codes = codes;
    email_verification_tokens = links;
    webauthn_challenges = challenges;
  })

-- The command: `retention` and `grace` are the settings pruneRetention and accountPurgeGrace.
unfoldable pub prune_command : Runtime → Config → (String → Bool) → ℕ → ℕ → ℕ → M (ℕ × PruneCounts)
unfolding prune_expired
prune_command rt cfg common retention grace now = do
  purged ← purge_deleted_before rt cfg common (now - grace * 1000)
  counts ← prune_expired (now - retention * 1000) now
  pure (purged, counts)
