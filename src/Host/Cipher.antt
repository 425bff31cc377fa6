-- ===== src/Host/Cipher.antt =====
-- internal/host/secret_cipher.go. The AEAD of `crypto/cipher` is a parameter, with the law that
-- opening what was sealed under the same nonce gives the plain text back.
use hosthalla.Base.{
  ℕ, suc, ◌≡◌, refl, ap, List, [], ◌∷◌, ◌++◌, Option, none, some, failed, Result, ok, err, length,
  take, drop, ltb, if◌then◌else◌, ◌==◌, nat_eq, arith, length-append, Option-cases, inl, inr, not,
  ◌≤◌,
}

-- `crypto/rand` as a function of the size asked for; `io.ReadFull` fills the whole buffer.
abbrev pub FillsBuffer : (ℕ → Option (List ℕ)) → Type 0
FillsBuffer random = (size : ℕ) (bytes : List ℕ) → random size ≡ some bytes → length bytes ≡ size

-- The interface `SecretCipher`, with what its clients rely on.
pub record SecretCipher : Type 0 where
  pub encrypt : (ℕ → Option (List ℕ)) → List ℕ → Result (List ℕ)
  pub decrypt : List ℕ → Result (List ℕ)
  pub decrypt-encrypt :
      (random : ℕ → Option (List ℕ)) (plain sealed : List ℕ)
      → FillsBuffer random
      → encrypt random plain ≡ ok sealed
      → decrypt sealed ≡ ok plain

pub record Aead : Type 0 where
  pub nonce_size : ℕ
  pub seal : List ℕ → List ℕ → List ℕ
  pub unseal : List ℕ → List ℕ → Option (List ℕ)
  pub unseal-seal : (nonce plain : List ℕ) → unseal nonce (seal nonce plain) ≡ some plain

abbrev pub secret_cipher_key_size : ℕ
secret_cipher_key_size = 32

-- `NewAESGCMSecretCipher`, given how `crypto/aes` and `crypto/cipher` make an AEAD of a key.
unfoldable pub new_cipher : (List ℕ → Result Aead) → List ℕ → Result Aead
new_cipher make key =
    if not (length key == secret_cipher_key_size)
    then err (failed "invalid secret encryption key length: expected 32 bytes")
    else make key

module _ (aead : Aead) where
  sealed_with : List ℕ → Option (List ℕ) → Result (List ℕ)
  sealed_with plain none = err (failed "generate nonce")
  sealed_with plain (some nonce) = ok (nonce ++ aead.seal nonce plain)

  unfoldable pub encrypt : (ℕ → Option (List ℕ)) → List ℕ → Result (List ℕ)
  unfolding sealed_with
  encrypt random plain = sealed_with plain (random aead.nonce_size)

  opened : Option (List ℕ) → Result (List ℕ)
  opened none = err (failed "decrypt payload")
  opened (some plain) = ok plain

  unfoldable pub decrypt : List ℕ → Result (List ℕ)
  unfolding opened
  decrypt sealed =
      if ltb (length sealed) aead.nonce_size
      then err (failed "invalid ciphertext payload")
      else opened (aead.unseal (take aead.nonce_size sealed) (drop aead.nonce_size sealed))

  take-append : (xs ys : List ℕ) → take (length xs) (xs ++ ys) ≡ xs
  take-append [] ys = refl
  take-append (x ∷ xs) ys = ap (λ r. x ∷ r) (take-append xs ys)

  drop-append : (xs ys : List ℕ) → drop (length xs) (xs ++ ys) ≡ ys
  drop-append [] ys = refl
  drop-append (x ∷ xs) ys = drop-append xs ys

  decrypt-append :
      (nonce plain : List ℕ)
      → length nonce ≡ aead.nonce_size
      → decrypt (nonce ++ aead.seal nonce plain) ≡ ok plain
  unfolding decrypt
  decrypt-append nonce plain h =
      rw (← h, take-append, drop-append, aead.unseal-seal)
        (ground (arith, length-append nonce (aead.seal nonce plain)))

  -- What Encrypt returns, Decrypt turns back into the plain text, where random reads fill their
  -- buffers.
  pub decrypt-encrypt :
      (random : ℕ → Option (List ℕ)) (plain sealed : List ℕ)
      → FillsBuffer random
      → encrypt random plain ≡ ok sealed
      → decrypt sealed ≡ ok plain
  unfolding encrypt
  decrypt-encrypt random plain sealed full e = elim (Option-cases (random aead.nonce_size)) [
    | inl lost ↦ cc
    | inr (nonce, got) ↦
        let same : nonce ++ aead.seal nonce plain ≡ sealed = ground arith in
        rw (← same) (decrypt-append nonce plain (full aead.nonce_size nonce got))
  ]

  -- A payload that is shorter than a nonce is refused before the AEAD is asked.
  pub decrypt_short :
      (sealed : List ℕ)
      → suc (length sealed) ≤ aead.nonce_size
      → decrypt sealed ≡ err (failed "invalid ciphertext payload")
  unfolding decrypt
  decrypt_short sealed h = ground arith

  -- `AESGCMSecretCipher` implements the interface.
  abbrev pub aes_gcm_cipher : SecretCipher
  aes_gcm_cipher = record {
    encrypt = encrypt;
    decrypt = decrypt;
    decrypt-encrypt = decrypt-encrypt;
  }
