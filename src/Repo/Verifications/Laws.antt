-- ===== src/Repo/Verifications/Laws.antt =====
-- The table of mailed links: a link is consumed once, and found by its hash.
use authx.Prelude.{
  ℕ, String, Bool, true, none, some, ◌≡◌, refl, inl, inr, arith, Bool-cases, is_some, List,
}
use authx.Prelude.Map.{get, set, count_where}
use authx.Prelude.Map.Laws.{get-set_self, get-update_where, count_where-update_where}
use authx.Prelude.Map.Search.{find_value-some}
use authx.Prelude.Map.Index.{
  Collates, Indexed, replace-Indexed, update_where-Indexed, find_value-key,
}
use authx.Repo.Verifications.{
  VerificationToken, Table, TokenPurpose, consume, consume_all_for_user, find_by_hash, consumed_row,
  outstanding,
}

abbrev pub IsTable : (String → String → Bool) → Table → Type 0
IsTable same = Indexed (λ t. t.id) (λ t. t.token_hash) same

module _ (same : String → String → Bool) where
  pub find_by_hash-at :
      (h : String) (t : VerificationToken) (m : Table)
      → IsTable same m
      → find_by_hash same h m ≡ some t
      → (get t.id m ≡ some t) × (same t.token_hash h ≡ true)
  unfolding find_by_hash
  find_by_hash-at h t m i e =
      let (k, at, s) = find_value-some _ t m i.distinct e in
      let o = i.keyed k t at in (ground arith, s)

  found-at :
      Collates same
      → (h : String) (t : VerificationToken) (m : Table) → IsTable same m
      → get t.id m ≡ some t
      → same t.token_hash h ≡ true
      → find_by_hash same h m ≡ some t
  unfolding find_by_hash
  found-at c h t m i at s = find_value-key (λ r. r.id) (λ r. r.token_hash) same h t m c i at s

  -- Consuming an unconsumed link wins, and the same hash then finds it consumed.
  pub consume-found :
      Collates same
      → (h : String) (t : VerificationToken) (now : ℕ) (m : Table) → IsTable same m
      → find_by_hash same h m ≡ some t
      → t.consumed_at ≡ none
      → (consume t.id now m ≡ (true, set t.id (consumed_row now t) m))
        × IsTable same (set t.id (consumed_row now t) m)
        × (find_by_hash same h (set t.id (consumed_row now t) m) ≡ some (consumed_row now t))
  unfolding consume
  consume-found c h t now m i e u =
      let (at, s) = find_by_hash-at h t m i e in
      let i' =
        replace-Indexed (λ r. r.id) (λ r. r.token_hash) same t.id t (consumed_row now t) m i at refl
          refl in
      (
        ground arith,
        i',
        found-at c h (consumed_row now t) _ i' (get-set_self t.id (consumed_row now t) m) s,
      )

  -- Consuming an account's links leaves a consumed one as it is.
  pub consume_all-found :
      Collates same
      → (h user_id : String) (purposes : List TokenPurpose) (now : ℕ) (t : VerificationToken)
        (m : Table)
      → IsTable same m
      → find_by_hash same h m ≡ some t
      → is_some t.consumed_at ≡ true
      → find_by_hash same h (consume_all_for_user user_id purposes now m).1 ≡ some t
  unfolding consume_all_for_user
  consume_all-found c h user_id purposes now t m i e u =
      let (at, s) = find_by_hash-at h t m i e in
      let i' =
        update_where-Indexed (λ r. r.id) (λ r. r.token_hash) same (outstanding user_id purposes)
          (consumed_row now) m (λ v. (refl, refl)) i in
      found-at c h t _ i'
        (ground (arith, get-update_where (outstanding user_id purposes) (consumed_row now) t.id m))
        s

-- It leaves none of them outstanding.
pub consume_all-none_outstanding :
    (user_id : String) (purposes : List TokenPurpose) (now : ℕ) (m : Table)
    → count_where (outstanding user_id purposes) (consume_all_for_user user_id purposes now m).1 ≡ 0
unfolding consume_all_for_user
consume_all-none_outstanding user_id purposes now m =
    count_where-update_where (outstanding user_id purposes) (outstanding user_id purposes)
      (consumed_row now) m
      (λ v. elim (Bool-cases (outstanding user_id purposes v)) [
        | inl a ↦ ground arith
        | inr b ↦ ground arith
      ])
