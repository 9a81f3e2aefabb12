-- ===== src/Auth/Grants/Replay.antt =====
-- A refresh token presented twice: refresh-token reuse detection of auth.service.ts `refreshGrant`.
use authx.Prelude.{
  ℕ, String, true, some, ◌≡◌, refl, ap, subst, arith, if◌then◌else◌, ◌+◌, ◌*◌, ◌≤◌, ltb,
}
use authx.Prelude.Map.{get, count_where}
use authx.Prelude.Map.Search.{find_value-some}
use authx.Prelude.Map.Index.{Collates}
use authx.Errors.{ErrorCode, Failure, ok, err}
use authx.Repo.Tokens.{RefreshToken}
use authx.Repo.Tokens
use authx.Repo.Tokens.Laws.{
  IsTable, rotate-IsTable, find_by_hash-row, revoke_all-none_active, revoke_all-own, active_of,
}
use authx.Repo.Tokens.Rotation.{rotate_wins}
use authx.Service.{Config, Runtime, Db}
use authx.Service.Tables.{put_tokens}
use authx.Auth.{TokenPair, Client, Drawn, new_refresh, just_rotated}
use authx.Auth.Grants.{refresh_grant}
use authx.Auth.Grants.Refresh.{
  presented, Presents, Refreshes, refresh_grant-ok, refresh_grant-revoked,
}

module _ (rt : Runtime) (cfg : Config) where
  -- A presented token stands under its own id.
  presented-at :
      (token : String) (db : Db) (old : RefreshToken)
      → IsTable rt.same db.tokens
      → presented rt cfg token db ≡ some old
      → (get old.id db.tokens ≡ some old) × (rt.same old.token_hash (rt.hash_token token) ≡ true)
  unfolding Tokens.find_by_hash
  presented-at token db old i e =
      let (k, at, s) = find_value-some _ old db.tokens i.distinct e in
      let o = i.keyed k old at in (ground arith, s)

  abbrev pub retired : RefreshToken → String → ℕ → RefreshToken
  retired old id now = record old { revoked_at = some now; replaced_by = some id }

  -- After a refresh, the same token finds its own row, retired in favour of the new one.
  refreshed-Presents :
      (token : String) (client : Client) (d : Drawn) (now : ℕ) (db db' : Db) (pair : TokenPair)
      → Collates rt.same
      → IsTable rt.same db.tokens
      → (p : Presents rt cfg token client db) → Refreshes rt cfg p.old p.service d now db pair db'
      → (q : Presents rt cfg token client db') × (q.old ≡ retired p.old d.id now)
        × (get d.id db'.tokens
            ≡ some (Tokens.active_row (new_refresh rt cfg d p.old.user_id p.service now)))
  refreshed-Presents token client d now db db' pair c i p f =
      let t = new_refresh rt cfg d p.old.user_id p.service now in
      let (here, s) = presented-at token db p.old i p.found in
      let (old, at, live, left, new, rest) =
        rotate_wins rt.same p.old.id t now db.tokens i (ap Tokens.won f.rotated) in
      let i' : IsTable rt.same f.table =
        subst (IsTable rt.same) (ap (Tokens.after_rotate db.tokens) f.rotated)
          (rotate-IsTable rt.same c p.old.id t now db.tokens i) in
      let at' : get p.old.id f.table ≡ some (retired p.old d.id now) = ground arith in
      rw f.after (
        record {
          old = retired p.old d.id now;
          service = p.service;
          found =
              find_by_hash-row rt.same c (rt.hash_token token) (retired p.old d.id now) f.table i'
                at' s;
          owner = p.owner;
          client_ok = p.client_ok;
        },
        refl,
        ground arith,
      )

  rotated-grace :
      (old t : RefreshToken) (id : String) (now later : ℕ)
      → t ≡ retired old id now
      → now ≤ later
      → just_rotated rt cfg t later ≡ ltb later (now + cfg.refresh_token_reuse_grace * 1000)
  unfolding just_rotated
  rotated-grace old t id now later e le = ground arith

  -- A refresh token that was rotated and comes again, from its client. Inside the grace period the
  -- second call is refused and writes nothing. From the end of the grace period on, it is answered with
  -- refresh_token_reuse, and every refresh token of the account is revoked: none of them is active
  -- then, and the one that the first call issued is there, and revoked. The token table is well formed,
  -- and its collation an equivalence.
  pub refresh_replay :
      (token : String) (client : Client) (d d' : Drawn) (now later : ℕ) (db db' : Db)
      (pair : TokenPair)
      → Collates rt.same
      → IsTable rt.same db.tokens
      → now ≤ later
      → refresh_grant rt cfg token client d now db ≡ (ok pair, db')
      → (old issued : RefreshToken) × (presented rt cfg token db ≡ some old)
        × (get d.id db'.tokens ≡ some issued)
        × (issued.user_id ≡ old.user_id)
        × (let dead = Tokens.revoke_all_for_user old.user_id later db'.tokens in
            (refresh_grant rt cfg token client d' later db' ≡ (
              if ltb later (now + cfg.refresh_token_reuse_grace * 1000)
              then (err (Failure.app ErrorCode.invalid_refresh_token), db')
              else (err (Failure.app ErrorCode.refresh_token_reuse), put_tokens dead db')))
            × (count_where (active_of old.user_id) dead ≡ 0)
            × (get d.id dead ≡ some (Tokens.revoked_row later issued)))
  refresh_replay token client d d' now later db db' pair c i le r =
      let (p, f) = refresh_grant-ok rt cfg token client d now db db' pair r in
      let (q, e, new) = refreshed-Presents token client d now db db' pair c i p f in
      let x = refresh_grant-revoked rt cfg token client d' later db' q (rw e refl) in
      let own : q.old.user_id ≡ p.old.user_id = rw e refl in
      (
        p.old,
        _,
        p.found,
        new,
        refl,
        (
          rw (x, rotated-grace p.old q.old d.id now later e le, own) refl,
          revoke_all-none_active p.old.user_id later db'.tokens,
          revoke_all-own p.old.user_id later d.id _ db'.tokens new refl,
        ),
      )
