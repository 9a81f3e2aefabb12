-- ===== src/Repo/Totp/Laws.antt =====
-- The authenticators' table: accepted steps, and recovery codes that are used up.
use authx.Prelude.{
  ℕ, ◌+◌, ◌≤◌, String, Bool, some, ◌≡◌, refl, inl, inr, arith, Option-cases, Bool-cases, ltb, leb,
  ◌==◌, eq_iff, ==→eq, ap, List, [], ◌∷◌, count, if◌then◌else◌,
}
use authx.Prelude.Map.{get}
use authx.Prelude.Map.Laws.{get-set}
use authx.Repo.Totp.{TotpRecord, RecoveryCode, Totps, find, advance_step, usable, use_first}

-- The row that a later one of the same enrolment has come from: the same secret and confirmation, and
-- a step that is no earlier.
pub record Later (row row' : TotpRecord) : Type 0 where
  pub same_secret : row'.secret ≡ row.secret
  pub same_enabled : row'.enabled_at ≡ row.enabled_at
  pub no_earlier : row.last_step ≤ row'.last_step

abbrev pub Later-refl : (row : TotpRecord) → Later row row
Later-refl row = record { same_secret = refl; same_enabled = refl; no_earlier = omega arith }

pub Later-trans : (a b c : TotpRecord) → Later a b → Later b c → Later a c
Later-trans a b c p q = record {
  same_secret = ground arith;
  same_enabled = ground arith;
  no_earlier = ground arith;
}

-- Accepting a step keeps every account's enrolment, and the step is later than the last one.
pub advance_step-Later :
    (other user_id : String) (step : ℕ) (row : TotpRecord) (s : Totps)
    → find other s ≡ some row
    → (row' : TotpRecord) × (find other (advance_step user_id step s).1 ≡ some row')
      × Later row row'
unfolding find advance_step
advance_step-Later other user_id step row s h = elim (Option-cases (get user_id s.totp)) [
  | inl e ↦ (row, ground arith, Later-refl row)
  | inr (r, e) ↦ elim (Bool-cases (leb step r.last_step)) [
    | inl old ↦ (row, ground arith, Later-refl row)
    | inr new ↦ elim (Bool-cases (other == user_id)) [
      | inl own ↦
          let o = ap (λ x. get x s.totp) (==→eq other user_id own) in
          (
            record r { last_step = step },
            ground (
              arith,
              get-set other user_id (record r { last_step = step }) s.totp,
              eq_iff other user_id,
              eq_iff user_id other,
            ),
            record {
              same_secret = ground arith;
              same_enabled = ground arith;
              no_earlier = ground arith;
            },
          )
      | inr apart ↦ (
        row,
        ground (
          arith,
          get-set other user_id (record r { last_step = step }) s.totp,
          eq_iff other user_id,
          eq_iff user_id other,
        ),
        Later-refl row,
      )
    ]
  ]
]

module _ (same : String → String → Bool) where
  -- A recovery code is accepted exactly while one is left with its hash, and each acceptance uses up
  -- one.
  pub use_first-counts :
      (user_id code_hash : String) (now : ℕ) (cs : List RecoveryCode)
      → ((use_first same user_id code_hash now cs).0
          ≡ ltb 0 (count (usable same user_id code_hash) cs))
        × (count (usable same user_id code_hash) (use_first same user_id code_hash now cs).1
              + (if (use_first same user_id code_hash now cs).0 then 1 else 0)
            ≡ count (usable same user_id code_hash) cs)
  unfolding use_first
  use_first-counts user_id code_hash now [] = (refl, refl)
  use_first-counts user_id code_hash now (c ∷ cs) =
      let (a, b) = use_first-counts user_id code_hash now cs in
      elim (Bool-cases (usable same user_id code_hash c)) [
        | inl u ↦ (ground arith, ground arith)
        | inr n ↦ (ground arith, ground arith)
      ]
