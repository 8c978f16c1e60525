-- ===== src/Node/Cipher.antt =====
-- trihard/node/Enclave/ENode.cpp: encryption. AES-256-GCM of libsodium is a parameter.
pub mod Nonce
use tri_ha_rd_higher_resilie.Base.{
  ℕ, zero, [], ◌∷◌, Bool, true, false, List, Option, none, some, replicate, if◌then◌else◌,
}
use tri_ha_rd_higher_resilie.Base.Int.{ℤ, pos, negsuc}
use tri_ha_rd_higher_resilie.Node.{Status, success, decryption_failed}

-- The calls of libsodium, by key and nonce. `rejected` is the output, by the length that is written,
-- of a decryption that fails.
pub record Aead : Type 0 where
  pub seal : List ℕ → List ℕ → List ℕ → List ℕ
  pub unseal : List ℕ → List ℕ → List ℕ → Option (List ℕ)
  pub rejected : List ℕ → List ℕ

-- `nonce`, `key`, and the static variable of `incrementNonce`.
pub record Cipher : Type 0 where
  pub nonce : List ℕ
  pub key : List ℕ
  pub init : Bool

unfoldable pub increment_nonce : Cipher → Cipher
increment_nonce c = if c.init then c else record c { nonce = replicate 12 0; init = true }

module _ (A : Aead) where
  open A use {seal, unseal, rejected}

  unfoldable pub encrypt : List ℕ → Cipher → Cipher × List ℕ
  unfolding increment_nonce
  encrypt plaintext c = let next = increment_nonce c in (next, seal next.key next.nonce plaintext)

  abbrev opened : List ℕ → Option (List ℕ) → ℤ × List ℕ
  opened ciphertext none = (negsuc 0, rejected ciphertext)
  opened ciphertext (some plaintext) = (pos 0, plaintext)

  -- The result and what the caller finds in its buffer.
  unfoldable pub decrypt : List ℕ → Cipher → ℤ × List ℕ
  decrypt ciphertext c = opened ciphertext (unseal c.key c.nonce ciphertext)

  abbrev tested : ℤ → Status
  tested (pos zero) = success
  tested _ = decryption_failed

  unfoldable pub test_encdec : Cipher → Cipher × Status
  unfolding encrypt decrypt
  test_encdec c =
      let hello = b'H' ∷ b'e' ∷ b'l' ∷ b'l' ∷ b'o' ∷ b'!' ∷ 0 ∷ [] in
      let (next, ciphertext) = encrypt hello c in (next, tested (decrypt ciphertext next).0)
