-- ===== src/Pruning/Detection.antt =====
-- What a prune leaves to the detection of a stolen token or code.
use authx.Prelude.{ℕ, String, true, ◌≡◌, refl, arith, is_some, if◌then◌else◌, ◌≤◌}
use authx.Prelude.Map.{count_where}
use authx.Prelude.Map.Index.{Collates, find_value-delete_where}
use authx.Errors.{ErrorCode, Failure, err}
use authx.Repo.Tokens
use authx.Repo.Codes
use authx.Repo.Codes.Laws
use authx.Repo.Tokens.Laws.{IsTable, revoke_all-none_active, active_of}
use authx.Service.{Config, Runtime, Db}
use authx.Service.Tables.{put_tokens}
use authx.Auth.{Client, Drawn, just_rotated}
use authx.Auth.Grants.{refresh_grant}
use authx.Auth.Grants.Refresh.{Presents, refresh_grant-revoked}
use authx.Auth.Exchange.{ExchangeInput, exchange_authorization_code}
use authx.Auth.Exchange.SingleUse.{Names}
use authx.Auth.Exchange.Replay.{exchange-consumed}
use authx.Pruning.{prune_expired}

abbrev pub pruned : ℕ → ℕ → Db → Db
pruned cutoff now db = (prune_expired cutoff now db).1

module _ (rt : Runtime) (cfg : Config) where
  -- A presented token whose row expires at the cutoff or later is still there.
  pruned-Presents :
      (token : String) (client : Client) (cutoff now : ℕ) (db : Db)
      → Collates rt.same
      → IsTable rt.same db.tokens
      → (p : Presents rt cfg token client db) → cutoff ≤ p.old.expires_at
      → (q : Presents rt cfg token client (pruned cutoff now db)) × (q.old ≡ p.old)
  unfolding prune_expired Tokens.find_by_hash Tokens.delete_expired_before
  pruned-Presents token client cutoff now db c i p late = (
    record {
      old = p.old;
      service = p.service;
      found =
          find_value-delete_where (λ t. t.id) (λ t. t.token_hash) rt.same
            (Tokens.expired_before cutoff) (rt.hash_token token) p.old db.tokens c i p.found
            (ground arith);
      owner = p.owner;
      client_ok = p.client_ok;
    },
    refl,
  )

  -- Pruning keeps the detection of a stolen refresh token. A revoked token whose row expires at the
  -- cutoff or later, presented by its client after the prune, is answered as it would have been before:
  -- refused inside the grace period of its rotation, and else answered with refresh_token_reuse, after
  -- which no refresh token of the account that the prune left is active. The token table is well formed,
  -- and its collation an equivalence.
  pub prune-keeps_detection :
      (token : String) (client : Client) (d : Drawn) (cutoff now later : ℕ) (db : Db)
      → Collates rt.same
      → IsTable rt.same db.tokens
      → (p : Presents rt cfg token client db) → is_some p.old.revoked_at ≡ true
      → cutoff ≤ p.old.expires_at
      → let left = pruned cutoff now db in
        let dead = Tokens.revoke_all_for_user p.old.user_id later left.tokens in
        (refresh_grant rt cfg token client d later left ≡ (
          if just_rotated rt cfg p.old later
          then (err (Failure.app ErrorCode.invalid_refresh_token), left)
          else (err (Failure.app ErrorCode.refresh_token_reuse), put_tokens dead left)))
        × (count_where (active_of p.old.user_id) dead ≡ 0)
  prune-keeps_detection token client d cutoff now later db c i p revoked late =
      let (q, e) = pruned-Presents token client cutoff now db c i p late in
      let left = pruned cutoff now db in
      let x = refresh_grant-revoked rt cfg token client d later left q (rw e revoked) in
      (rw (x, e) refl, revoke_all-none_active p.old.user_id later left.tokens)

  -- A consumed authorization code whose row expires at the cutoff or later is refused after the prune,
  -- and the account's tokens are revoked.
  prune-keeps_code_detection :
      (input : ExchangeInput) (d : Drawn) (cutoff now later : ℕ) (db : Db)
      → Collates rt.same
      → Laws.IsTable rt.same db.codes
      → (p : Names rt cfg input db) → is_some p.code.consumed_at ≡ true
      → cutoff ≤ p.code.expires_at
      → let left = pruned cutoff now db in
        let dead = Tokens.revoke_all_for_user p.code.user_id later left.tokens in
        (exchange_authorization_code rt cfg input d later left
          ≡ (err (Failure.app ErrorCode.invalid_grant), put_tokens dead left))
        × (count_where (active_of p.code.user_id) dead ≡ 0)
  unfolding prune_expired Codes.find_by_code_hash Codes.delete_expired_before
  prune-keeps_code_detection input d cutoff now later db c i p spent late =
      let left = pruned cutoff now db in
      let found =
        find_value-delete_where (λ r. r.id) (λ r. r.code_hash) rt.same (Codes.expired_before cutoff)
          (rt.hash_token input.code) p.code db.codes c i p.found (ground arith) in
      let q : Names rt cfg input left = record {
        code = p.code;
        service = p.service;
        found = found;
        owner = p.owner;
        client = p.client;
      } in
      (
        exchange-consumed rt cfg input d later left q spent,
        revoke_all-none_active p.code.user_id later left.tokens,
      )
