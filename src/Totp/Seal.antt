-- ===== src/Totp/Seal.antt =====
-- `sealSecret` and `openSecret` of lib/totp.ts: a TOTP secret at rest, encrypted under the key
-- generation that its first part names. AES-GCM and base64 are the runtime's.
use text.Mathlib.TextLemmas.{nil-append, cons-append}
use authx.Prelude.Text.{split, ◌⧺◌, Free, split-append, split-whole}
use authx.Prelude.{
  ℕ, String, Option, none, some, if◌then◌else◌, List, [], ◌∷◌, ◌==◌, ◌≡◌, ◌≢◌, arith, eq_iff, not,
  ◌||◌,
}

-- What the code calls: bytes are lists of numbers. `decrypt` gives none where the authentication tag
-- does not fit, `decode` where the text is no base64; both throw there.
pub record Cipher : Type 0 where
  pub encrypt : List ℕ → List ℕ → List ℕ → List ℕ
  pub decrypt : List ℕ → List ℕ → List ℕ → Option (List ℕ)
  pub encode : List ℕ → String
  pub decode : String → Option (List ℕ)

module _ (cipher : Cipher) where
  -- `iv` is the random initialisation vector that a call draws.
  unfoldable pub seal_secret : List ℕ → List ℕ → List ℕ → String
  seal_secret key iv secret =
      "v1" ⧺ ":" ⧺ cipher.encode iv ⧺ ":" ⧺ cipher.encode (cipher.encrypt key iv secret)

  unfoldable pub open_parts : List ℕ → String → String → String → Option (List ℕ)
  open_parts key version iv ct =
      if not (version == "v1") || iv == "" || ct == "" then none else elim (cipher.decode iv) [
        | none ↦ none
        | some iv_bytes ↦ elim (cipher.decode ct) [
          | none ↦ none
          | some ct_bytes ↦ cipher.decrypt key iv_bytes ct_bytes
        ]
      ]

  -- `const [version, iv, ct] = sealed.split(':')`, a missing part being undefined; none where the
  -- source throws.
  unfoldable pub open_secret : List ℕ → String → Option (List ℕ)
  unfolding split open_parts
  open_secret key sealed = elim (split b':' sealed) [
    | version ∷ iv ∷ ct ∷ rest ↦ open_parts key version iv ct
    | _ ↦ none
  ]

abbrev pub NoColon : String → Type 0
NoColon = Free b':'

-- What base64 and AES-GCM document: an encoded text holds no colon and is empty only for no bytes,
-- decoding undoes encoding, and decryption under the same key and vector undoes encryption; a vector
-- of twelve bytes and a ciphertext with its tag are not empty.
pub record IsCipher (cipher : Cipher) : Type 0 where
  pub encode-NoColon : (b : List ℕ) → NoColon (cipher.encode b)
  pub encode_nonempty : (b : List ℕ) → b ≢ [] → cipher.encode b ≢ ""
  pub decode-encode : (b : List ℕ) → cipher.decode (cipher.encode b) ≡ some b
  pub decrypt-encrypt :
      (key iv secret : List ℕ) → cipher.decrypt key iv (cipher.encrypt key iv secret) ≡ some secret
  pub encrypt_nonempty : (key iv secret : List ℕ) → cipher.encrypt key iv secret ≢ []

split-part : (s t : String) → NoColon s → split b':' (s ⧺ ":" ⧺ t) ≡ s ∷ split b':' t
split-part s t h = rw (cons-append, nil-append) (split-append _ s t h)

module _ (cipher : Cipher) (laws : IsCipher cipher) (key : List ℕ) where
  split-seal :
      (iv secret : List ℕ)
      → split b':' (seal_secret cipher key iv secret)
        ≡ "v1" ∷ cipher.encode iv ∷ cipher.encode (cipher.encrypt key iv secret) ∷ []
  unfolding seal_secret
  split-seal iv secret =
      let ct = cipher.encode (cipher.encrypt key iv secret) in
      rw (
        split-part "v1" (cipher.encode iv ⧺ ":" ⧺ ct) (omega arith),
        split-part (cipher.encode iv) ct (laws.encode-NoColon iv),
        split-whole b':' ct (laws.encode-NoColon _),
      )

  -- A sealed secret opens under the key that sealed it, and gives the secret back; the vector is not
  -- empty, and the cipher keeps what its documentation says.
  pub open-seal :
      (iv secret : List ℕ)
      → iv ≢ []
      → open_secret cipher key (seal_secret cipher key iv secret) ≡ some secret
  unfolding open_secret
  open-seal iv secret ne =
      let ct = cipher.encrypt key iv secret in
      rw (split-seal iv secret, open_secret)
        (ground (
          arith,
          laws.encode_nonempty iv ne,
          laws.encode_nonempty ct (laws.encrypt_nonempty key iv secret),
          laws.decode-encode iv,
          laws.decode-encode ct,
          laws.decrypt-encrypt key iv secret,
          eq_iff (cipher.encode iv) "",
          eq_iff (cipher.encode ct) "",
        ))

-- A value under any other key generation never opens.
pub open_unknown_version :
    (cipher : Cipher) (key : List ℕ) (version rest : String)
    → NoColon version
    → version ≢ "v1"
    → open_secret cipher key (version ⧺ ":" ⧺ rest) ≡ none
unfolding open_secret open_parts
open_unknown_version cipher key version rest h ne =
    rw (split-part version rest h, open_secret) (ground (arith, eq_iff version "v1"))
