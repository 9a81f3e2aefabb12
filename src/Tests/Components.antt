-- ===== src/Tests/Components.antt =====
-- The components at small inputs.
use authx.Prelude.{
  ℕ, String, Bool, true, false, Option, none, some, ◌≡◌, ◌≢◌, ◌↔◌, refl, arith, List, [], ◌∷◌, ◌++◌,
  ◌+◌, ◌-◌, ◌%◌, ◌^◌, ◌≤◌, ◌⊎◌, if◌then◌else◌, ltb, length, All, ◌==◌, eq_iff,
}
use authx.Prelude.Map.{get}
use authx.Repo.Tokens.{
  RefreshToken, NewRefreshToken, revokes, rotates, rotate, step, after_rotate, won,
}
use authx.Repo.Tokens.Laws.{IsTable, step-IsTable}
use authx.Repo.Tokens.Rotation.{rotate_once, run}
use authx.Lockout.{Options, Failures, is_locked, record_failure, failed}
use authx.Lockout.Laws.{fail_at, locked_at_limit, lockout_ends}
use authx.RateLimit.{Store, client_key}
use authx.RateLimit
use authx.RateLimit.Laws.{increments, window_counts, client_key-spoofed}
use authx.Totp.{hotp, match_step, all_digits, truncate, be_bytes, codes}
use authx.Totp.Codes.{read, hotp_shape, match_step_exact}
use authx.Totp.Seal.{seal_secret, open_secret, open-seal}
use authx.Tests.World.{token, same_text, same_text-Collates, one-Indexed, cipher, cipher-IsCipher}

abbrev next : NewRefreshToken
next = record {
  id = "t2";
  user_id = "u1";
  app_service_id = "s1";
  token_hash = "rt2";
  expires_at = 90000;
}

abbrev third : NewRefreshToken
third = record next { id = "t3"; token_hash = "rt3" }

abbrev one : List (String × RefreshToken)
one = ("t1", token) ∷ []

one-IsTable : IsTable same_text one
one-IsTable = one-Indexed (λ t. t.id) (λ t. t.token_hash) same_text token

rotate_once_example :
    won (
      rotate same_text "t1" third 3000 (
        run same_text
          ((2000, revokes "t2") ∷ [])
          (after_rotate one (rotate same_text "t1" next 1000 one))))
    ≡ false
unfolding rotate get authx.Prelude.Map.first_error
rotate_once_example =
    rotate_once same_text same_text-Collates "t1" next third 1000 3000 ((2000, revokes "t2") ∷ [])
      one one-IsTable ((λ e. absurd (cc)), tt) refl

step-IsTable_example : IsTable same_text (step same_text (1000, rotates "t1" next) one)
step-IsTable_example =
    step-IsTable same_text same_text-Collates (1000, rotates "t1" next) one one-IsTable

abbrev three : Options
three = record { max_failures = 3; lockout_ms = 1000 }

locked_at_limit_example :
    ((is_locked "a" 500 (fail_at three "a" (10 ∷ []) [])).0 ≡ false)
    × ((is_locked "a" 500 (record_failure three "a" 30 (fail_at three "a" (10 ∷ 20 ∷ []) []))).0
        ≡ ltb 500 (30 + 1000))
unfolding get
locked_at_limit_example =
    locked_at_limit three "a" (10 ∷ []) (10 ∷ 20 ∷ []) 30 500 [] refl (omega arith) refl

abbrev locked : Failures
locked = ("a", record { count = 3; locked_until = 1030 }) ∷ []

lockout_ends_example :
    ((is_locked "a" 2000 locked).0 ≡ false)
    × (get "a" (is_locked "a" 2000 locked).1 ≡ none)
    × (get "a" (record_failure three "a" 2000 locked)
        ≡ some (failed three 2000 (record { count = 0; locked_until = 0 })))
unfolding get
lockout_ends_example =
    lockout_ends three "a" (record { count = 3; locked_until = 1030 }) 2000 locked (refl, tt) refl
      (omega arith) (omega arith)

window_counts_example :
    (get "a" (increments "a" (10 ∷ 20 ∷ 30 ∷ []) RateLimit.empty).hits
      ≡ some (record { count = 1 + 2; reset_at = 10 + 60000 }))
    × (get "b" (increments "a" (10 ∷ 20 ∷ 30 ∷ []) RateLimit.empty).hits
        ≡ get "b" RateLimit.empty.hits)
unfolding get
window_counts_example =
    window_counts "a" "b" 10 (20 ∷ 30 ∷ []) RateLimit.empty refl (omega arith, (omega arith, tt))
      (λ e. absurd (ground (arith, eq_iff "a" "b")))

client_key-spoofed_example :
    client_key (λ s. s) none 1 (some (("6.6.6.6" ∷ []) ++ "1.2.3.4" ∷ [])) (some "10.0.0.1")
    ≡ client_key (λ s. s) none 1 (some ("1.2.3.4" ∷ [])) (some "10.0.0.1")
client_key-spoofed_example =
    client_key-spoofed (λ s. s) none (some "10.0.0.1") 1 ("6.6.6.6" ∷ []) ("1.2.3.4" ∷ [])
      (omega arith) (omega arith)

abbrev thrice : List ℕ → List ℕ → List ℕ
thrice k m = m ++ m ++ m

match_step_exact_example :
    ((s : ℕ) × (match_step thrice [] "000000" 2 ≡ some s)
      × (hotp thrice [] s 6 ≡ codes "000000")
      × (2 ≤ s + 1)
      × (s ≤ 2 + 1))
    ⊎ ((match_step thrice [] "000000" 2 ≡ none)
        × All (λ s. hotp thrice [] s 6 ≢ codes "000000") (1 ∷ 2 ∷ 3 ∷ []))
match_step_exact_example = match_step_exact thrice [] "000000" 2

hotp_shape_example :
    (length (hotp thrice [] 7 6) ≡ 6)
    × (all_digits (hotp thrice [] 7 6) ≡ true)
    × (read 0 (hotp thrice [] 7 6) ≡ truncate (thrice [] (be_bytes 8 7)) % 10 ^ 6)
hotp_shape_example = hotp_shape thrice [] 7 6

open-seal_example :
    open_secret cipher (1 ∷ []) (seal_secret cipher (1 ∷ []) (5 ∷ []) (7 ∷ 8 ∷ []))
    ≡ some (7 ∷ 8 ∷ [])
open-seal_example =
    open-seal cipher cipher-IsCipher (1 ∷ []) (5 ∷ []) (7 ∷ 8 ∷ []) (λ e. absurd (cc))
