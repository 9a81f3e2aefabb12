-- ===== src/Repo/Passkeys.antt =====
-- modules/passkeys/passkey.repository.ts: the passkeys of the accounts, and the challenges that are
-- out, each good for one ceremony.
pub mod Challenges
use authx.Prelude.{
  ℕ, String, Bool, true, false, Option, none, some, ◌==◌, if◌then◌else◌, List, [], ◌∷◌, ◌++◌, keep,
  any, find?, not, ◌&&◌, is_some, ltb, leb, length, ◌+◌, ◌-◌,
}
use authx.Errors.{Failure, Result, ok, err}
use authx.Collation.{ci_equals}

pub record Passkey : Type 0 where
  pub id : String
  pub user_id : String
  pub credential_id : String
  pub credential_id_hash : String
  pub public_key : String
  pub counter : ℕ
  pub transports : List String
  pub aaguid : String
  pub backed_up : Bool
  pub created_at : ℕ
  pub last_used_at : Option ℕ

pub data ChallengePurpose : Type 0 where
  register authenticate : ChallengePurpose

abbrev pub purpose_eq : ChallengePurpose → ChallengePurpose → Bool
purpose_eq register register = true
purpose_eq authenticate authenticate = true
purpose_eq _ _ = false

pub record Challenge : Type 0 where
  pub challenge_hash : String
  pub purpose : ChallengePurpose
  pub user_id : Option String
  pub expires_at : ℕ
  pub consumed_at : Option ℕ

pub record Passkeys : Type 0 where
  pub rows : List Passkey
  pub challenges : List Challenge

-- `===` on `string | null`.
abbrev pub owner_eq : Option String → Option String → Bool
owner_eq none none = true
owner_eq (some a) (some b) = a == b
owner_eq _ _ = false

abbrev pub owned_by : String → Passkey → Bool
owned_by user_id r = r.user_id == user_id

abbrev pub challenge_of : String → Challenge → Bool
challenge_of user_id c = owner_eq c.user_id (some user_id)

module _ (same : String → String → Bool) where
  abbrev pub has_credential : String → Passkey → Bool
  has_credential hash r = ci_equals same (some r.credential_id_hash) (some hash)

  unfoldable pub create : Passkey → Passkeys → Result Passkeys
  create row s =
      if any (has_credential row.credential_id_hash) s.rows
      then err (Failure.duplicate_key "passkeys" "credential_id_hash" (some row.credential_id_hash))
      else if any (λ r. r.id == row.id) s.rows
      then err (Failure.duplicate_key "passkeys" "PRIMARY" (some row.id))
      else ok (record s { rows = s.rows ++ row ∷ [] })

  unfoldable pub find_by_credential_id_hash : String → Passkeys → Option Passkey
  find_by_credential_id_hash hash s = find? (has_credential hash) s.rows

  abbrev pub has_challenge : String → Challenge → Bool
  has_challenge hash c = ci_equals same (some c.challenge_hash) (some hash)

  unfoldable pub create_challenge : Challenge → Passkeys → Result Passkeys
  create_challenge c s =
      if any (has_challenge c.challenge_hash) s.challenges
      then err
          (Failure.duplicate_key "webauthn_challenges" "challenge_hash" (some c.challenge_hash))
      else ok (record s { challenges = s.challenges ++ record c { consumed_at = none } ∷ [] })

  abbrev pub redeemable : String → ChallengePurpose → Option String → ℕ → Challenge → Bool
  redeemable hash purpose user_id now c =
      has_challenge hash c
      && purpose_eq c.purpose purpose
      && owner_eq c.user_id user_id
      && not (is_some c.consumed_at)
      && ltb now c.expires_at

  -- `challenges.find(…)`, and `c.consumedAt = now` on the row found.
  unfoldable pub consume_first :
      String → ChallengePurpose → Option String → ℕ → List Challenge → Bool × List Challenge
  consume_first hash purpose user_id now [] = (false, [])
  consume_first hash purpose user_id now (c ∷ cs) =
      let (done, rest) = consume_first hash purpose user_id now cs in
      if redeemable hash purpose user_id now c
      then (true, record c { consumed_at = some now } ∷ cs)
      else (done, c ∷ rest)

  unfoldable pub consume_challenge :
      String → ChallengePurpose → Option String → ℕ → Passkeys → Bool × Passkeys
  unfolding consume_first
  consume_challenge hash purpose user_id now s =
      let (done, challenges) = consume_first hash purpose user_id now s.challenges in
      (done, record s { challenges = challenges })

unfoldable pub list_for_user : String → Passkeys → List Passkey
list_for_user user_id s = keep (owned_by user_id) s.rows

-- `rows.find(r => r.id === id)`, then `Object.assign` on it.
unfoldable pub use_row : String → ℕ → ℕ → List Passkey → List Passkey
use_row id counter at [] = []
use_row id counter at (r ∷ rs) =
    if r.id == id
    then record r { counter = counter; last_used_at = some at } ∷ rs
    else r ∷ use_row id counter at rs

unfoldable pub record_use : String → ℕ → ℕ → Passkeys → Passkeys
unfolding use_row
record_use id counter at s = record s { rows = use_row id counter at s.rows }

abbrev pub is_row : String → String → Passkey → Bool
is_row user_id id r = r.id == id && r.user_id == user_id

unfoldable pub delete : String → String → Passkeys → Bool × Passkeys
delete user_id id s =
    let rows = keep (λ r. not (is_row user_id id r)) s.rows in
    (ltb (length rows) (length s.rows), record s { rows = rows })

unfoldable pub delete_expired_challenges_before : ℕ → Passkeys → ℕ × Passkeys
delete_expired_challenges_before cutoff s =
    let challenges = keep (λ c. leb cutoff c.expires_at) s.challenges in
    (length s.challenges - length challenges, record s { challenges = challenges })

unfoldable pub delete_all_for_user : String → Passkeys → ℕ × Passkeys
delete_all_for_user user_id s =
    let rows = keep (λ r. not (owned_by user_id r)) s.rows in
    let challenges = keep (λ c. not (challenge_of user_id c)) s.challenges in
    (
      length s.rows + length s.challenges - length rows - length challenges,
      record { rows = rows; challenges = challenges },
    )

unfoldable pub delete_all_passkeys_for_user : String → Passkeys → ℕ × Passkeys
delete_all_passkeys_for_user user_id s =
    let rows = keep (λ r. not (owned_by user_id r)) s.rows in
    (length s.rows - length rows, record s { rows = rows })
