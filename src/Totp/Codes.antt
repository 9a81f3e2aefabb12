-- ===== src/Totp/Codes.antt =====
-- A one-time code has six digits and is accepted for its own step and the two beside it only.
use authx.Prelude.{
  ℕ, zero, suc, ◌+◌, ◌-◌, ◌*◌, ◌/◌, ◌%◌, ◌^◌, ◌≤◌, ◌<◌, String, true, false, none, some, ltb,
  nat_eq, List, [], ◌∷◌, ◌++◌, length, ◌≡◌, refl, ◌↔◌, arith, length-append, ◌⊎◌, inl, inr,
  Bool-cases, Option-cases, ap, ◌∙◌, ◌≢◌, any, All, if◌then◌else◌,
}
use Prim.Native.Nat.{bit_or, bit_xor}
use native.Mathlib.Nat.{pow-suc, mod-lt}
use authx.Totp.{
  codes, decimal, zeros, pad_start, timing_diff, timing_safe_equal, all_digits, six_digits, hotp,
  match_any, match_step, truncate, be_bytes,
}
use authx.Totp.Bits.{bit_or-eq-zero_iff, bit_xor-eq-zero_iff}

timing_diff-zero :
    (xs bs : List ℕ) (d : ℕ)
    → length xs ≡ length bs
    → (timing_diff xs bs d ≡ 0) ↔ ((d ≡ 0) × (xs ≡ bs))
unfolding timing_diff
timing_diff-zero [] [] d e = (λ h. (h, refl), λ h. h.0)
timing_diff-zero [] (b ∷ bs) d e = absurd (omega arith)
timing_diff-zero (a ∷ xs) [] d e = absurd (omega arith)
timing_diff-zero (a ∷ xs) (b ∷ bs) d e =
    let (to, from) = timing_diff-zero xs bs (bit_or d (bit_xor a b)) (omega arith) in
    let (or_to, or_from) = bit_or-eq-zero_iff d (bit_xor a b) in
    let (xor_to, xor_from) = bit_xor-eq-zero_iff a b in
    (
      λ h. let t = to h in let o = or_to t.0 in let x = xor_to o.1 in (o.0, ground arith),
      λ h.
          let ha : a ≡ b = ground arith in
          let ht : xs ≡ bs = ground arith in from (or_from (h.0, xor_from ha), ht),
    )

-- The comparison without early exit says exactly whether the two texts are equal.
pub timing_safe_equal_iff : (a b : List ℕ) → (timing_safe_equal a b ≡ true) ↔ (a ≡ b)
unfolding timing_safe_equal
timing_safe_equal_iff a b = (
  λ h.
      (let e : length a ≡ length b = ground arith in (timing_diff-zero a b 0 e).0 (ground arith)).1,
  λ h.
      let e : length a ≡ length b = ap length h in
      let z = (timing_diff-zero a b 0 e).1 (refl, h) in ground arith,
)

length-zeros : (n : ℕ) → length (zeros n) ≡ n
unfolding zeros
length-zeros zero = refl
length-zeros (suc n) = ap suc (length-zeros n)

all_digits-zeros : (n : ℕ) → all_digits (zeros n) ≡ true
unfolding zeros
all_digits-zeros zero = refl
all_digits-zeros (suc n) = all_digits-zeros n

all_digits-append :
    (xs ys : List ℕ) → all_digits xs ≡ true → all_digits ys ≡ true → all_digits (xs ++ ys) ≡ true
all_digits-append [] ys h k = k
all_digits-append (x ∷ xs) ys h k = ground (arith, all_digits-append xs ys)

decimal-digits :
    (fuel n : ℕ)
    → (1 ≤ length (decimal fuel n))
      × (length (decimal fuel n) ≤ fuel + 1)
      × (all_digits (decimal fuel n) ≡ true)
unfolding decimal
decimal-digits zero n = ground arith
decimal-digits (suc fuel) n = ground (
  arith,
  decimal-digits fuel (n / 10),
  length-append (decimal fuel (n / 10)) ((48 + n % 10) ∷ []),
  all_digits-append (decimal fuel (n / 10)) ((48 + n % 10) ∷ []),
)

-- The number that a text of digits spells.
unfoldable pub read : ℕ → List ℕ → ℕ
read acc [] = acc
read acc (c ∷ cs) = read (acc * 10 + (c - b'0')) cs

read-append : (acc : ℕ) (xs ys : List ℕ) → read acc (xs ++ ys) ≡ read (read acc xs) ys
unfolding read
read-append acc [] ys = refl
read-append acc (x ∷ xs) ys = read-append (acc * 10 + (x - b'0')) xs ys

read-decimal : (fuel n : ℕ) → n < 10 ^ suc fuel → read 0 (decimal fuel n) ≡ n
unfolding read decimal
read-decimal zero n h = omega (arith, pow-suc 10 0)
read-decimal (suc fuel) n h = elim (Bool-cases (ltb n 10)) [
  | inl small ↦ rw small (omega arith)
  | inr large ↦
      rw (large, read-append 0 (decimal fuel (n / 10)) ((48 + n % 10) ∷ []))
        (omega (arith, read-decimal fuel (n / 10), pow-suc 10 (suc fuel)))
]

read-zeros : (n : ℕ) (xs : List ℕ) → read 0 (zeros n ++ xs) ≡ read 0 xs
unfolding read zeros
read-zeros zero xs = refl
read-zeros (suc n) xs = read-zeros n xs

pow-pos : (n : ℕ) → 0 < 10 ^ n
pow-pos zero = omega arith
pow-pos (suc n) = omega (arith, pow-suc 10 n, pow-pos n)

below_fuel : (n digits : ℕ) → n < 10 ^ digits → n < 10 ^ suc (digits - 1)
below_fuel n zero h = omega (arith, pow-suc 10 0)
below_fuel n (suc digits) h = let e : suc (suc digits - 1) ≡ suc digits = omega arith in rw e h

module _ (hmac : List ℕ → List ℕ → List ℕ) (secret : List ℕ) where
  -- A code has exactly the digits asked for (one, where none is asked for), no other character, and
  -- spells the truncated digest's last digits.
  pub hotp_shape :
      (counter digits : ℕ)
      → (length (hotp hmac secret counter digits) ≡ (if nat_eq digits 0 then 1 else digits))
        × (all_digits (hotp hmac secret counter digits) ≡ true)
        × (read 0 (hotp hmac secret counter digits)
            ≡ truncate (hmac secret (be_bytes 8 counter)) % 10 ^ digits)
  unfolding hotp pad_start
  hotp_shape counter digits =
      let n = truncate (hmac secret (be_bytes 8 counter)) % 10 ^ digits in
      let text = decimal (digits - 1) n in
      let d = decimal-digits (digits - 1) n in
      let w = digits - length text in
      let below : n < 10 ^ digits = mod-lt _ (pow-pos digits) in
      (
        ground (arith, length-append (zeros w) text, length-zeros w, d.0, d.1),
        all_digits-append (zeros w) text (all_digits-zeros w) d.2,
        rw (read-zeros w text) (read-decimal (digits - 1) n (below_fuel n digits below)),
      )

  hotp-six_digits : (s : ℕ) → six_digits (hotp hmac secret s 6) ≡ true
  unfolding six_digits
  hotp-six_digits s = ground (arith, hotp_shape s 6)

  match_any_sound :
      (cs ss : List ℕ) (s : ℕ)
      → match_any hmac secret cs ss ≡ some s
      → (any (λ t. nat_eq t s) ss ≡ true) × (hotp hmac secret s 6 ≡ cs)
  unfolding match_any
  match_any_sound cs [] s h = absurd (cc)
  match_any_sound cs (t ∷ ss) s h =
      ground (arith, match_any_sound cs ss s, timing_safe_equal_iff (hotp hmac secret t 6) cs)

  match_any_complete :
      (cs ss : List ℕ)
      → match_any hmac secret cs ss ≡ none
      → All (λ t. hotp hmac secret t 6 ≢ cs) ss
  unfolding match_any
  match_any_complete cs [] h = tt
  match_any_complete cs (t ∷ ss) h = (
    (λ e. let q = (timing_safe_equal_iff (hotp hmac secret t 6) cs).1 e in absurd (ground arith)),
    match_any_complete cs ss (ground (arith, timing_safe_equal_iff (hotp hmac secret t 6) cs)),
  )

  abbrev near : ℕ → List ℕ
  near step = (step - 1) ∷ step ∷ (step + 1) ∷ []

  near-step :
      (s step : ℕ) → any (λ t. nat_eq t s) (near step) ≡ true → (step ≤ s + 1) × (s ≤ step + 1)
  near-step s step h = ground arith

  match_step-six :
      (text : String) (step : ℕ)
      → six_digits (codes text) ≡ true
      → match_step hmac secret text step ≡ match_any hmac secret (codes text) (near step)
  unfolding match_step
  match_step-six text step h = rw h refl

  match_step-other :
      (text : String) (step : ℕ)
      → six_digits (codes text) ≡ false
      → match_step hmac secret text step ≡ none
  unfolding match_step
  match_step-other text step h = rw h refl

  no_code :
      (text : String) (s : ℕ) → six_digits (codes text) ≡ false → hotp hmac secret s 6 ≢ codes text
  no_code text s bad e =
      let q : six_digits (codes text) ≡ true = rw (← e) (hotp-six_digits s) in absurd (cc)

  -- A code is accepted for a step exactly if it is that step's code and the step is the clock's or a
  -- neighbour of it: what is accepted is such a code, and what is refused is the code of none of the
  -- three steps.
  pub match_step_exact :
      (text : String) (step : ℕ)
      → ((s : ℕ) × (match_step hmac secret text step ≡ some s)
          × (hotp hmac secret s 6 ≡ codes text)
          × (step ≤ s + 1)
          × (s ≤ step + 1))
        ⊎ ((match_step hmac secret text step ≡ none)
            × All (λ s. hotp hmac secret s 6 ≢ codes text) ((step - 1) ∷ step ∷ (step + 1) ∷ []))
  match_step_exact text step = elim (Bool-cases (six_digits (codes text))) [
    | inr bad ↦ inr (
      match_step-other text step bad,
      (no_code text (step - 1) bad, (no_code text step bad, (no_code text (step + 1) bad, tt))),
    )
    | inl six ↦ elim (Option-cases (match_any hmac secret (codes text) (near step))) [
      | inl missed ↦ inr (
        match_step-six text step six ∙ missed,
        match_any_complete (codes text) (near step) missed,
      )
      | inr (s, found) ↦
          let sound = match_any_sound (codes text) (near step) s found in
          let (low, high) = near-step s step sound.0 in
          inl (s, match_step-six text step six ∙ found, sound.1, low, high)
    ]
  ]
