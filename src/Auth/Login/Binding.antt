-- ===== src/Auth/Login/Binding.antt =====
-- The binding of a Google account to an account: auth.service.ts `linkGoogleToUser`.
use authx.Prelude.{String, true, Option, none, some, ◌≡◌, ◌⊎◌}
use authx.Prelude.Map.{get}
use authx.Errors.{ok}
use authx.Repo.Users.{User}
use authx.Repo.Users
use authx.Repo.Social
use authx.Service.{Config, Runtime, Db, GoogleIdentity}
use authx.Service.Tables.{put_social}

-- Each account stands under its id.
abbrev pub IsKeyed : Users.Users → Type 0
IsKeyed s = (k : String) (u : User) → get k s.by_id ≡ some u → u.id ≡ k

module _ (rt : Runtime) (cfg : Config) where
  -- The patch that makes Google's address the account's.
  abbrev pub google_patch : String → Users.Patch
  google_patch email = record Users.empty_patch {
    email = some (some email);
    email_verified = some true;
  }

  abbrev pub google_link : String → User → GoogleIdentity → Social.SocialAccount
  google_link id user identity = record {
    id = id;
    user_id = user.id;
    provider = "google";
    provider_account_id = identity.sub;
  }

  -- How a binding fails. Before the link, the table of links is as it was. After it, if this call
  -- made the link, all links of the account are gone; if the link was there before, it is left.
  abbrev pub Unbinds : (Db → Db) → User → GoogleIdentity → Option String → String → Db → Db → Type 0
  Unbinds others user identity linked link_id db db' =
      (db'.social ≡ db.social)
      ⊎ (((linked ≡ none)
            × ((m : Social.Table) × (Social.link rt.lower (google_link link_id user identity)
                    db.social
                  ≡ ok m)
                × (db'.social
                    ≡ (Social.delete_all_for_user user.id (others (put_social m db)).social).1)))
          ⊎ ((linked ≡ some user.id) × (db'.social ≡ (others db).social)))
