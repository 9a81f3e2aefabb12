-- ===== src/Totp.antt =====
-- lib/totp.ts: one-time codes. `hmac key message` stands for HMAC-SHA-1 of the runtime, and gives the
-- bytes of the digest. A code is a text; its characters are read as the numbers `charCodeAt` gives.
mod Bits
pub mod Codes
pub mod Seal
use Prim.Native.Char.{code}
use Prim.Native.Nat.{bit_and, bit_or, bit_xor}
use authx.Prelude.{
  ℕ, zero, suc, ◌+◌, ◌-◌, ◌*◌, ◌/◌, ◌%◌, ◌^◌, String, Bool, true, false, Option, none, some, ◌&&◌,
  not, if◌then◌else◌, ltb, leb, nat_eq, List, [], ◌∷◌, ◌++◌, length,
}

abbrev pub step_seconds : ℕ
step_seconds = 30

unfoldable pub current_step : ℕ → ℕ
current_step now_ms = now_ms / 1000 / step_seconds

-- The character codes of a text.
abbrev pub codes : String → List ℕ
codes String.[] = []
codes (String.◌∷◌ c s) = code c ∷ codes s

-- `n` bytes of a counter, the highest first: what `setBigUint64` writes.
unfoldable pub be_bytes : ℕ → ℕ → List ℕ
be_bytes zero counter = []
be_bytes (suc n) counter = be_bytes n (counter / 256) ++ (counter % 256) ∷ []

abbrev pub byte_at : List ℕ → ℕ → ℕ
byte_at [] i = 0
byte_at (b ∷ bs) zero = b
byte_at (b ∷ bs) (suc i) = byte_at bs i

-- The dynamic truncation of RFC 4226.
unfoldable pub truncate : List ℕ → ℕ
truncate mac =
    let off = bit_and (byte_at mac (length mac - 1)) 0x0f in
    bit_or
      (bit_or (bit_or (bit_and (byte_at mac off) 0x7f * 2 ^ 24) (byte_at mac (off + 1) * 2 ^ 16))
        (byte_at mac (off + 2) * 2 ^ 8))
      (byte_at mac (off + 3))

-- `String(n)` of a number below `10 ^ (fuel + 1)`: at least one digit, and `fuel` more at most.
unfoldable pub decimal : ℕ → ℕ → List ℕ
decimal zero n = (b'0' + n % 10) ∷ []
decimal (suc fuel) n =
    let front = decimal fuel (n / 10) in
    if ltb n 10 then (b'0' + n) ∷ [] else front ++ (b'0' + n % 10) ∷ []

unfoldable pub zeros : ℕ → List ℕ
zeros zero = []
zeros (suc n) = b'0' ∷ zeros n

-- `s.padStart(width, '0')`
unfoldable pub pad_start : ℕ → List ℕ → List ℕ
unfolding zeros
pad_start width s = zeros (width - length s) ++ s

unfoldable pub timing_diff : List ℕ → List ℕ → ℕ → ℕ
timing_diff [] bs diff = diff
timing_diff (a ∷ xs) [] diff = diff
timing_diff (a ∷ xs) (b ∷ bs) diff = timing_diff xs bs (bit_or diff (bit_xor a b))

unfoldable pub timing_safe_equal : List ℕ → List ℕ → Bool
unfolding timing_diff
timing_safe_equal a b = if nat_eq (length a) (length b) then nat_eq (timing_diff a b 0) 0 else false

abbrev pub is_digit : ℕ → Bool
is_digit c = leb b'0' c && leb c b'9'

abbrev pub all_digits : List ℕ → Bool
all_digits [] = true
all_digits (c ∷ cs) = is_digit c && all_digits cs

-- `/^\d{6}$/`
unfoldable pub six_digits : List ℕ → Bool
six_digits cs = nat_eq (length cs) 6 && all_digits cs

module _ (hmac : List ℕ → List ℕ → List ℕ) where
  unfoldable pub hotp : List ℕ → ℕ → ℕ → List ℕ
  unfolding be_bytes truncate decimal pad_start
  hotp secret counter digits =
      pad_start digits
        (decimal (digits - 1) (truncate (hmac secret (be_bytes 8 counter)) % 10 ^ digits))

  -- The loop over `[step - 1, step, step + 1]`.
  unfoldable pub match_any : List ℕ → List ℕ → List ℕ → Option ℕ
  unfolding hotp timing_safe_equal
  match_any secret cs [] = none
  match_any secret cs (s ∷ ss) =
      if timing_safe_equal (hotp secret s 6) cs then some s else match_any secret cs ss

  -- At step 0, the first half minute of 1970, the source tries -1 where this tries 0 twice.
  unfoldable pub match_step : List ℕ → String → ℕ → Option ℕ
  unfolding six_digits match_any
  match_step secret text step =
      if not (six_digits (codes text))
      then none
      else match_any secret (codes text) ((step - 1) ∷ step ∷ (step + 1) ∷ [])
