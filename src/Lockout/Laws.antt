-- ===== src/Lockout/Laws.antt =====
-- The limit counts consecutive failures, and a lockout ends by itself.
use authx.Prelude.{
  ℕ, suc, ◌+◌, ◌≤◌, ◌<◌, String, true, false, Bool-cases, Option-cases, inl, inr, ◌&&◌, not, nat_eq,
  leb, none, some, ◌≡◌, ◌==◌, ◌≢◌, if◌then◌else◌, ltb, List, [], ◌∷◌, arith, eq_iff, length,
  ==-refl,
}
use authx.Prelude.Map.{get, delete}
use authx.Prelude.Map.Laws.{Distinct, get-set_self, get-delete, set-Distinct, delete-Distinct}
use authx.Lockout.{
  Options, Entry, Failures, live, is_locked, record_failure, clear, failed, entry_or_new,
}

-- Failures of one account at the given times, the first one first.
unfoldable pub fail_at : Options → String → List ℕ → Failures → Failures
fail_at opts id [] m = m
fail_at opts id (t ∷ ts) m = fail_at opts id ts (record_failure opts id t m)

module _ (opts : Options) (id : String) where
  -- A run short of the limit: the account counts `n` failures and no lockout.
  abbrev pub Counting : ℕ → Failures → Type 0
  Counting n m = entry_or_new (get id m) ≡ record { count = n; locked_until = 0 }

  live-Counting : (n t : ℕ) (m : Failures) → Counting n m → live id t m ≡ (get id m, m)
  unfolding live
  live-Counting n t m c = ground arith

  fail-set :
      (n t : ℕ) (m : Failures)
      → Counting n m
      → get id (record_failure opts id t m)
        ≡ some (failed opts t (record { count = n; locked_until = 0 }))
  unfolding record_failure
  fail-set n t m c =
      rw (live-Counting n t m c, c)
        (get-set_self id (failed opts t (record { count = n; locked_until = 0 })) m)

  pub fail-Counting :
      (n t : ℕ) (m : Failures)
      → n + 1 < opts.max_failures
      → Counting n m
      → Counting (n + 1) (record_failure opts id t m)
  fail-Counting n t m h c = ground (arith, fail-set n t m c)

  pub is_locked-Counting : (n t : ℕ) (m : Failures) → Counting n m → is_locked id t m ≡ (false, m)
  unfolding is_locked
  is_locked-Counting n t m c = ground (arith, live-Counting n t m c)

  pub fail_at-Counting :
      (n : ℕ) (ts : List ℕ) (m : Failures)
      → n + length ts < opts.max_failures
      → Counting n m
      → Counting (n + length ts) (fail_at opts id ts m)
  unfolding fail_at
  fail_at-Counting n [] m h c = ground arith
  fail_at-Counting n (t ∷ ts) m h c =
      let e : n + 1 + length ts ≡ n + suc (length ts) = omega arith in
      rw (← e) (fail_at-Counting (n + 1) ts _ (omega arith) (fail-Counting n t m (omega arith) c))

  -- From an account with no failures, any number of failures below the limit locks nothing, at any
  -- later time. The one that reaches the limit locks the account for exactly the lockout time from then
  -- on. The failures may come at any times.
  pub locked_at_limit :
      (us ts : List ℕ) (t now : ℕ) (m : Failures)
      → get id m ≡ none
      → length us < opts.max_failures
      → length ts + 1 ≡ opts.max_failures
      → ((is_locked id now (fail_at opts id us m)).0 ≡ false)
        × ((is_locked id now (record_failure opts id t (fail_at opts id ts m))).0
            ≡ ltb now (t + opts.lockout_ms))
  unfolding is_locked
  locked_at_limit us ts t now m h few e =
      let c : Counting (0 + length us) (fail_at opts id us m) =
        fail_at-Counting 0 us m (omega arith) (rw h) in
      let d : Counting (0 + length ts) (fail_at opts id ts m) =
        fail_at-Counting 0 ts m (omega arith) (rw h) in
      (
        ground (arith, live-Counting (0 + length us) now _ c),
        ground (arith, fail-set (0 + length ts) t _ d),
      )

  -- The entry that the failure at the limit leaves.
  pub locked_out :
      (ts : List ℕ) (t : ℕ) (m : Failures)
      → get id m ≡ none
      → length ts + 1 ≡ opts.max_failures
      → get id (record_failure opts id t (fail_at opts id ts m))
        ≡ some (record { count = opts.max_failures; locked_until = t + opts.lockout_ms })
  locked_out ts t m h e =
      let c : Counting (0 + length ts) (fail_at opts id ts m) =
        fail_at-Counting 0 ts m (omega arith) (rw h) in
      ground (arith, fail-set (0 + length ts) t _ c)

  -- A lockout changes nothing while it lasts, and is forgotten once it is over.
  pub is_locked_entry :
      (e : Entry) (now : ℕ) (m : Failures)
      → get id m ≡ some e
      → e.locked_until ≢ 0
      → is_locked id now m ≡ (if ltb now e.locked_until then (true, m) else (false, clear id m))
  unfolding is_locked live clear
  is_locked_entry e now m at ne = elim (Bool-cases (ltb now e.locked_until)) [
    | inl early ↦ ground arith
    | inr late ↦ ground arith
  ]

  pub is_locked-none : (now : ℕ) (m : Failures) → get id m ≡ none → is_locked id now m ≡ (false, m)
  unfolding is_locked live
  is_locked-none now m h = ground arith

  pub get-clear : (m : Failures) → Distinct m → get id (clear id m) ≡ none
  unfolding clear
  get-clear m d = ground (arith, get-delete id id m d, ==-refl id)

  live-Distinct : (t : ℕ) (m : Failures) → Distinct m → Distinct (live id t m).1
  unfolding live
  live-Distinct t m d = elim (Option-cases (get id m)) [
    | inl e ↦ rw (live, e) d
    | inr (entry, e) ↦
        elim (Bool-cases (not (nat_eq entry.locked_until 0) && leb entry.locked_until t)) [
          | inl over ↦ rw (live, e, over) (delete-Distinct id m d)
          | inr stays ↦ rw (live, e, stays) d
        ]
  ]

  record_failure-Distinct :
      (t : ℕ) (m : Failures) → Distinct m → Distinct (record_failure opts id t m)
  unfolding record_failure
  record_failure-Distinct t m d = set-Distinct id _ _ (live-Distinct t m d)

  fail_at-Distinct : (ts : List ℕ) (m : Failures) → Distinct m → Distinct (fail_at opts id ts m)
  unfolding fail_at
  fail_at-Distinct [] m d = d
  fail_at-Distinct (t ∷ ts) m d = fail_at-Distinct ts _ (record_failure-Distinct t m d)

  pub locked_out-Distinct :
      (ts : List ℕ) (t : ℕ) (m : Failures)
      → Distinct m
      → Distinct (record_failure opts id t (fail_at opts id ts m))
  locked_out-Distinct ts t m d = record_failure-Distinct t _ (fail_at-Distinct ts m d)

  -- Once a lockout is over, the account is unlocked and its next failure is counted as the first.
  pub lockout_ends :
      (e : Entry) (now : ℕ) (m : Failures)
      → Distinct m
      → get id m ≡ some e
      → e.locked_until ≢ 0
      → e.locked_until ≤ now
      → ((is_locked id now m).0 ≡ false)
        × (get id (is_locked id now m).1 ≡ none)
        × (get id (record_failure opts id now m)
            ≡ some (failed opts now (record { count = 0; locked_until = 0 })))
  unfolding is_locked record_failure
  lockout_ends e now m d at ne over = ground (
    arith,
    get-delete id id m d,
    ==-refl id,
    get-set_self id (failed opts now (record { count = 0; locked_until = 0 })) (delete id m),
  )

  -- A completed sign-in forgets the account's failures, and no other account's.
  pub clear_forgets :
      (other : String) (now : ℕ) (m : Failures)
      → Distinct m
      → (get other (clear id m) ≡ (if other == id then none else get other m))
        × ((is_locked id now (clear id m)).0 ≡ false)
  unfolding clear is_locked
  clear_forgets other now m d = (
    ground (arith, get-delete other id m d, eq_iff id other, eq_iff other id),
    ground (arith, get-delete id id m d, ==-refl id),
  )
