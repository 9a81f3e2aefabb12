-- ===== src/Auth/Login/Google.antt =====
-- Signing in with Google: auth.service.ts `loginWithGoogle`, and the binding of a Google account in
-- `linkGoogleToUser`.
use authx.Prelude.{
  ℕ, String, true, Option, none, some, ◌≡◌, refl, ◌⊎◌, inl, inr, arith, Option-cases, is_some,
}
use authx.Errors.{ok, Result-cases}
use authx.Repo.Users.{User}
use authx.Repo.Users
use authx.Repo.Social
use authx.Service.{Config, Runtime, Db}
use authx.Service.Tables.{put_social, put_users}
use authx.Auth.{LoginResult, Drawn, subject_exists}
use authx.Auth.Login.Factors.{Finishes, finish_login-Finishes}
use authx.Auth.Login.{
  GoogleProfile, NewIds, login_with_google, first_google_login, linked_login, register_google,
  adopt_google, link_google, google_account,
}

module _ (rt : Runtime) (cfg : Config) where
  abbrev pub linked_to : GoogleProfile → Db → Option String
  linked_to profile db =
      Social.find_by_provider_account rt.lower "google" profile.provider_account_id db.social

  abbrev pub link_row : String → String → GoogleProfile → Social.SocialAccount
  link_row id user_id profile = record {
    id = id;
    user_id = user_id;
    provider = "google";
    provider_account_id = profile.provider_account_id;
  }

  -- The Google account is linked to the account, which is there.
  abbrev pub Linked : GoogleProfile → Db → String → Db → Type 0
  Linked profile db user_id before =
      (linked_to profile db ≡ some user_id)
      × (is_some (Users.find_by_id user_id db.users) ≡ true)
      × (before ≡ db)

  -- No account, deleted ones included, has the address: it becomes that of a new one.
  abbrev pub Registered : GoogleProfile → NewIds → ℕ → Db → String → Db → Type 0
  Registered profile ids now db user_id before =
      (user_id ≡ ids.user_id)
      × (Users.find_any_by_email rt.same profile.email db.users ≡ none)
      × ((users : Users.Users) × (social : Social.Table) × (Users.create rt.same
              (google_account rt cfg ids.user_id profile.email now) db.users
            ≡ ok users)
          × (Social.link rt.lower (link_row ids.link_id ids.user_id profile) db.social ≡ ok social)
          × (before ≡ put_social social (put_users users db)))

  -- The address is that of an account without a password, and verified here too: it is linked.
  abbrev pub Adopted : GoogleProfile → NewIds → Db → String → Db → Type 0
  Adopted profile ids db user_id before =
      (user : User) × (Users.find_by_email rt.same profile.email db.users ≡ some user)
      × (user.id ≡ user_id)
      × (user.password_hash ≡ none)
      × (user.email_verified ≡ true)
      × ((social : Social.Table) × (Social.link rt.lower (link_row ids.link_id user.id profile)
              db.social
            ≡ ok social)
          × (before ≡ put_social social db))

  -- A Google sign-in enters an account only in one of three ways: the Google account is linked to it;
  -- or Google has verified the address, which no account has, and the account is new; or Google has
  -- verified the address, and it is that of an account without a password whose address is verified
  -- here too. The sign-in then ends as any other does, the second factor included.
  pub login_with_google-ok :
      (profile : GoogleProfile) (ids : NewIds) (d : Drawn) (now : ℕ) (db db' : Db) (r : LoginResult)
      → login_with_google rt cfg profile ids d now db ≡ (ok r, db')
      → (user_id : String) × (before : Db) × (Linked profile db user_id before
          ⊎ ((linked_to profile db ≡ none)
              × (profile.email_verified ≡ true)
              × (Registered profile ids now db user_id before
                  ⊎ Adopted profile ids db user_id before)))
        × Finishes rt cfg user_id d now before r db'
  unfolding login_with_google linked_login first_google_login subject_exists register_google
      adopt_google link_google
  login_with_google-ok profile ids d now db db' r h = elim (Option-cases (linked_to profile db)) [
    | inr (user_id, e) ↦ (
      user_id,
      db,
      inl (e, ground arith, refl),
      finish_login-Finishes rt cfg user_id d now db db' r (ground arith),
    )
    | inl e ↦ elim (Option-cases (Users.find_by_email rt.same profile.email db.users)) [
      | inl new ↦
          elim (Result-cases
            (Users.create rt.same (google_account rt cfg ids.user_id profile.email now) db.users)) [
              | inr (x, bad) ↦ absurd (ground arith)
              | inl (users, made) ↦
                  elim (Result-cases
                    (Social.link rt.lower (link_row ids.link_id ids.user_id profile) db.social)) [
                      | inr (x, bad) ↦ absurd (ground arith)
                      | inl (social, linked) ↦ (
                        ids.user_id,
                        put_social social (put_users users db),
                        inr (
                          e,
                          ground arith,
                          inl (refl, ground arith, (users, social, made, linked, refl)),
                        ),
                        finish_login-Finishes rt cfg ids.user_id d now _ db' r (ground arith),
                      )
                    ]
            ]
      | inr (user, found) ↦
          elim (Result-cases
            (Social.link rt.lower (link_row ids.link_id user.id profile) db.social)) [
              | inr (x, bad) ↦ absurd (ground arith)
              | inl (social, linked) ↦ (
                user.id,
                put_social social db,
                inr (
                  e,
                  ground arith,
                  inr (user, found, refl, ground arith, ground arith, (social, linked, refl)),
                ),
                finish_login-Finishes rt cfg user.id d now _ db' r (ground arith),
              )
            ]
    ]
  ]
