-- ===== src/Tests/Pruning.antt =====
-- A prune of the small installation, and a stolen token after it.
use authx.Prelude.{some, ◌≡◌, refl, arith, [], ◌∷◌, if◌then◌else◌}
use authx.Prelude.Map.{get, find_value, count_where}
use authx.Errors.{ErrorCode, Failure, err}
use authx.Repo.Tokens.{RefreshToken}
use authx.Repo.Tokens
use authx.Repo.Tokens.Laws.{active_of}
use authx.Repo.Orgs.{find_service_by_id}
use authx.Service.{Db}
use authx.Service.Tables.{put_tokens}
use authx.Auth.{client_secret_ok, just_rotated}
use authx.Auth.Grants.{refresh_grant}
use authx.Auth.Grants.Refresh.{Presents}
use authx.Pruning.Detection.{pruned, prune-keeps_detection}
use authx.Tests.World.{
  rt, cfg, db, token, service, client, drawn, same_text, same_text-Collates, one-Indexed,
}

-- The token was rotated long ago.
abbrev rotated : RefreshToken
rotated = record token { revoked_at = some 1000; replaced_by = some "t2" }

abbrev db_rotated : Db
db_rotated = record db { tokens = ("t1", rotated) ∷ [] }

presents : Presents rt cfg "rt1" client db_rotated
unfolding Tokens.find_by_hash find_value find_service_by_id get client_secret_ok
presents = record { old = rotated; service = service; found = refl; owner = refl; client_ok = refl }

prune-keeps_detection_example :
    let left = pruned 40000 45000 db_rotated in
    let dead = Tokens.revoke_all_for_user "u1" 46000 left.tokens in
    (refresh_grant rt cfg "rt1" client drawn 46000 left ≡ (
      if just_rotated rt cfg rotated 46000
      then (err (Failure.app ErrorCode.invalid_refresh_token), left)
      else (err (Failure.app ErrorCode.refresh_token_reuse), put_tokens dead left)))
    × (count_where (active_of "u1") dead ≡ 0)
unfolding presents
prune-keeps_detection_example =
    prune-keeps_detection rt cfg "rt1" client drawn 40000 45000 46000 db_rotated same_text-Collates
      (one-Indexed (λ t. t.id) (λ t. t.token_hash) same_text rotated) presents refl (omega arith)
