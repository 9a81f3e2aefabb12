-- ===== src/Repo/Passkeys/Challenges.antt =====
-- The calls of the passkey tables as steps, and the challenges that are still open.
use authx.Prelude.{
  ℕ, String, Bool, true, false, Option, none, ◌≡◌, refl, inl, inr, arith, List, [], ◌∷◌, ◌++◌, any,
  All, keep, not, ◌&&◌, ◌||◌, is_some, Bool-cases, leb,
}
use authx.Prelude.Map.Index.{Collates}
use authx.Errors.{Result, ok, err}
use authx.Repo.Passkeys.{
  Passkey, Passkeys, Challenge, ChallengePurpose, has_challenge, redeemable, consume_first,
  consume_challenge, create, create_challenge, record_use, delete, delete_expired_challenges_before,
  delete_all_for_user, delete_all_passkeys_for_user, challenge_of,
}

-- The calls that change the tables.
pub data Call : Type 0 where
  creates : Passkey → Call
  opens : Challenge → Call
  consumes : String → ChallengePurpose → Option String → Call
  uses : String → ℕ → Call
  deletes : String → String → Call
  prunes : ℕ → Call
  deletes_all deletes_passkeys : String → Call

abbrev or_same : Passkeys → Result Passkeys → Passkeys
or_same s (ok t) = t
or_same s (err e) = s

-- An unconsumed challenge with that hash.
abbrev pub open_with : (String → String → Bool) → String → Challenge → Bool
open_with same h c = has_challenge same h c && not (is_some c.consumed_at)

or-false : (a b : Bool) → (a || b) ≡ false → (a ≡ false) × (b ≡ false)
or-false a b e = (ground arith, ground arith)

module _ (same : String → String → Bool) where
  pub step : ℕ × Call → Passkeys → Passkeys
  step (now, creates p) s = or_same s (create same p s)
  step (now, opens c) s = or_same s (create_challenge same c s)
  step (now, consumes h purpose owner) s = (consume_challenge same h purpose owner now s).1
  step (now, uses id counter) s = record_use id counter now s
  step (now, deletes user_id id) s = (delete user_id id s).1
  step (now, prunes cutoff) s = (delete_expired_challenges_before cutoff s).1
  step (now, deletes_all user_id) s = (delete_all_for_user user_id s).1
  step (now, deletes_passkeys user_id) s = (delete_all_passkeys_for_user user_id s).1

  unfoldable pub run : List (ℕ × Call) → Passkeys → Passkeys
  run [] s = s
  run (c ∷ cs) s = run cs (step c s)

  -- No two challenges have hashes that the collation identifies.
  abbrev pub Unique : List Challenge → Type 0
  Unique [] = Unit
  Unique (c ∷ cs) = (any (has_challenge same c.challenge_hash) cs ≡ false) × Unique cs

  -- The call opens a challenge with that hash.
  abbrev pub reopens : String → Call → Bool
  reopens h (opens c) = has_challenge same h c
  reopens h _ = false

  -- Whether a challenge is consumed says whether a redeemable one was there.
  pub consume_first-any :
      (h : String) (purpose : ChallengePurpose) (owner : Option String) (now : ℕ)
      (cs : List Challenge)
      → (consume_first same h purpose owner now cs).0 ≡ any (redeemable same h purpose owner now) cs
  unfolding consume_first
  consume_first-any h purpose owner now [] = refl
  consume_first-any h purpose owner now (c ∷ cs) =
      ground (arith, consume_first-any h purpose owner now cs)

  redeemable-has :
      (h : String) (purpose : ChallengePurpose) (owner : Option String) (now : ℕ)
      (cs : List Challenge)
      → any (redeemable same h purpose owner now) cs ≡ true
      → any (has_challenge same h) cs ≡ true
  redeemable-has h purpose owner now [] e = absurd (cc)
  redeemable-has h purpose owner now (c ∷ cs) e =
      ground (arith, redeemable-has h purpose owner now cs)

  module _ (col : Collates same) where
    -- A hash that collates with another is in the same challenges.
    has-collates :
        (g h : String) (cs : List Challenge)
        → same g h ≡ true
        → any (has_challenge same g) cs ≡ false
        → any (has_challenge same h) cs ≡ false
    has-collates g h [] s e = refl
    has-collates g h (c ∷ cs) s e = elim (Bool-cases (same c.challenge_hash h)) [
      | inl hit ↦
          let back = col.same_trans c.challenge_hash h g hit (col.same_sym g h s) in
          absurd (ground arith)
      | inr miss ↦ ground (arith, has-collates g h cs s)
    ]

    open-has :
        (h : String) (cs : List Challenge)
        → any (has_challenge same h) cs ≡ false
        → any (open_with same h) cs ≡ false
    open-has h [] e = refl
    open-has h (c ∷ cs) e = ground (arith, open-has h cs)

    -- After a challenge was consumed, none is open under its hash.
    pub consume_first-closes :
        (h : String) (purpose : ChallengePurpose) (owner : Option String) (now : ℕ)
        (cs : List Challenge)
        → Unique cs
        → (consume_first same h purpose owner now cs).0 ≡ true
        → any (open_with same h) (consume_first same h purpose owner now cs).1 ≡ false
    unfolding consume_first
    consume_first-closes h purpose owner now [] u e = absurd (cc)
    consume_first-closes h purpose owner now (c ∷ cs) u e =
        elim (Bool-cases (redeemable same h purpose owner now c)) [
          | inl hit ↦
              let s : same c.challenge_hash h ≡ true = ground arith in
              rw hit (ground (arith, open-has h cs (has-collates c.challenge_hash h cs s u.0)))
          | inr miss ↦
              let won : (consume_first same h purpose owner now cs).0 ≡ true = ground arith in
              let there =
                redeemable-has h purpose owner now cs
                  (ground (arith, consume_first-any h purpose owner now cs)) in
              let shut = consume_first-closes h purpose owner now cs u.1 won in
              elim (Bool-cases (same c.challenge_hash h)) [
                | inl s ↦ let none_left = has-collates c.challenge_hash h cs s u.0 in absurd (cc)
                | inr other ↦ rw miss (ground arith)
              ]
        ]

  consume_first-closed :
      (g h : String) (purpose : ChallengePurpose) (owner : Option String) (now : ℕ)
      (cs : List Challenge)
      → any (open_with same h) cs ≡ false
      → any (open_with same h) (consume_first same g purpose owner now cs).1 ≡ false
  unfolding consume_first
  consume_first-closed g h purpose owner now [] e = refl
  consume_first-closed g h purpose owner now (c ∷ cs) e =
      let (here, rest) = or-false (open_with same h c) (any (open_with same h) cs) e in
      elim (Bool-cases (redeemable same g purpose owner now c)) [
        | inl hit ↦ rw hit (ground arith)
        | inr miss ↦
            let ih = consume_first-closed g h purpose owner now cs rest in rw (miss, here, ih)
      ]

  keep-closed :
      (h : String) (p : Challenge → Bool) (cs : List Challenge)
      → any (open_with same h) cs ≡ false
      → any (open_with same h) (keep p cs) ≡ false
  keep-closed h p [] e = refl
  keep-closed h p (c ∷ cs) e = ground (arith, keep-closed h p cs)

  append-closed :
      (h : String) (cs : List Challenge) (c : Challenge)
      → any (open_with same h) cs ≡ false
      → has_challenge same h c ≡ false
      → any (open_with same h) (cs ++ c ∷ []) ≡ false
  append-closed h [] c e n = ground arith
  append-closed h (d ∷ cs) c e n = ground (arith, append-closed h cs c)

  -- Under any call that opens no challenge with that hash, none becomes open.
  step-closed :
      (h : String) (c : ℕ × Call) (s : Passkeys)
      → reopens h c.1 ≡ false
      → any (open_with same h) s.challenges ≡ false
      → any (open_with same h) (step c s).challenges ≡ false
  unfolding step create create_challenge record_use delete delete_expired_challenges_before
      delete_all_for_user delete_all_passkeys_for_user consume_challenge
  step-closed h (now, creates p) s r e = ground arith
  step-closed h (now, opens c) s r e =
      elim (Bool-cases (any (has_challenge same c.challenge_hash) s.challenges)) [
        | inl taken ↦ rw taken e
        | inr free ↦ rw free (append-closed h s.challenges (record c { consumed_at = none }) e r)
      ]
  step-closed h (now, consumes g purpose owner) s r e =
      consume_first-closed g h purpose owner now s.challenges e
  step-closed h (now, uses id counter) s r e = e
  step-closed h (now, deletes user_id id) s r e = e
  step-closed h (now, prunes cutoff) s r e =
      keep-closed h (λ c. leb cutoff c.expires_at) s.challenges e
  step-closed h (now, deletes_all user_id) s r e =
      keep-closed h (λ c. not (challenge_of user_id c)) s.challenges e
  step-closed h (now, deletes_passkeys user_id) s r e = e

  pub run-closed :
      (h : String) (cs : List (ℕ × Call)) (s : Passkeys)
      → All (λ c. reopens h c.1 ≡ false) cs
      → any (open_with same h) s.challenges ≡ false
      → any (open_with same h) (run cs s).challenges ≡ false
  unfolding run
  run-closed h [] s r e = e
  run-closed h (c ∷ cs) s r e = run-closed h cs (step c s) r.1 (step-closed h c s r.0 e)

  -- Where none is open under a hash, none is redeemed.
  pub closed-refuses :
      (h : String) (purpose : ChallengePurpose) (owner : Option String) (now : ℕ)
      (cs : List Challenge)
      → any (open_with same h) cs ≡ false
      → any (redeemable same h purpose owner now) cs ≡ false
  closed-refuses h purpose owner now [] e = refl
  closed-refuses h purpose owner now (c ∷ cs) e =
      ground (arith, closed-refuses h purpose owner now cs)
