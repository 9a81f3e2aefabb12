-- ===== src/Passwords.antt =====
-- lib/password-policy.ts: which passwords a person may choose.
use Prim.Native.Char.{code}
use authx.Prelude.{ℕ, ◌+◌, max, String, Bool, if◌then◌else◌, ltb}
use authx.Errors.{ErrorCode, Failure, Result, ok, err}

-- The bytes of a character in UTF-8, and its units in UTF-16.
abbrev pub utf8_size : ℕ → ℕ
utf8_size c = if ltb c 0x80 then 1 else if ltb c 0x800 then 2 else if ltb c 0x10000 then 3 else 4

abbrev pub utf16_size : ℕ → ℕ
utf16_size c = if ltb c 0x10000 then 1 else 2

-- `new TextEncoder().encode(s).length`
unfoldable pub byte_length : String → ℕ
byte_length String.[] = 0
byte_length (String.◌∷◌ c s) = utf8_size (code c) + byte_length s

-- `s.length`
unfoldable pub unit_length : String → ℕ
unit_length String.[] = 0
unit_length (String.◌∷◌ c s) = utf16_size (code c) + unit_length s

abbrev pub max_bytes : ℕ
max_bytes = 72

abbrev pub min_length : ℕ
min_length = 8

-- `common` tells whether the lowercased text is in the list of common passwords.
unfoldable pub assert_acceptable_password : (String → Bool) → String → ℕ → Result (Unit {0})
unfolding byte_length unit_length
assert_acceptable_password common password minimum =
    if ltb max_bytes (byte_length password)
    then err (Failure.app ErrorCode.password_too_long)
    else if ltb (unit_length password) (max minimum min_length)
    then err (Failure.app ErrorCode.weak_password)
    else if common password
    then err (Failure.app ErrorCode.weak_password)
    else ok tt
