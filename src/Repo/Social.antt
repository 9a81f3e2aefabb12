-- ===== src/Repo/Social.antt =====
-- modules/auth/social.repository.ts: which local account a provider's account belongs to. `lower`
-- stands for the runtime's `toLowerCase`.
use Prim.Native.String
use authx.Prelude.{String, Bool, Option, none, some, ◌==◌, if◌then◌else◌, ℕ}
use authx.Prelude.Map.{Map, get, set, first_error, delete_where, count_where}
use authx.Errors.{Failure, Result, ok, err}
use authx.Collation.{duplicate}

-- A row of `byKey`, which is keyed by the provider and the provider's account id.
pub record Link : Type 0 where
  pub id : String
  pub user_id : String

pub record SocialAccount : Type 0 where
  pub id : String
  pub user_id : String
  pub provider : String
  pub provider_account_id : String

abbrev pub Table : Type 0
Table = Map Link

abbrev pub owned_by : String → Link → Bool
owned_by user_id l = l.user_id == user_id

abbrev pub id_clash : String → Link → Option Failure
id_clash id existing =
    if existing.id == id then duplicate "social_accounts" "PRIMARY" (some id) else none

module _ (lower : String → String) where
  abbrev pub key_of : String → String → String
  key_of provider account_id = lower (String.◌++◌ provider (String.◌++◌ ":" account_id))

  unfoldable pub find_by_provider_account : String → String → Table → Option String
  find_by_provider_account provider account_id by_key =
      elim (get (key_of provider account_id) by_key) [ none ↦ none | some row ↦ some row.user_id ]

  unfoldable pub link : SocialAccount → Table → Result Table
  link a by_key = elim (get (key_of a.provider a.provider_account_id) by_key) [
    | some taken ↦ err (
        Failure.duplicate_key "social_accounts" "provider_provider_account_id"
          (some a.provider_account_id))
    | none ↦ elim (first_error (id_clash a.id) by_key) [
      | some e ↦ err e
      | none ↦ ok (
          set (key_of a.provider a.provider_account_id) (record { id = a.id; user_id = a.user_id })
            by_key)
    ]
  ]

unfoldable pub delete_all_for_user : String → Table → ℕ × Table
delete_all_for_user user_id by_key =
    (count_where (owned_by user_id) by_key, delete_where (owned_by user_id) by_key)
