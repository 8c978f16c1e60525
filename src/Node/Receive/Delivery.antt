-- ===== src/Node/Receive/Delivery.antt =====
-- ENode.cpp, the encryption of one node and the decryption of another.
use tri_ha_rd_higher_resilie.Base.{ℕ, ◌≡◌, refl, List, some}
use tri_ha_rd_higher_resilie.Node.{Datagram}
use tri_ha_rd_higher_resilie.Node.Cipher.{Aead, Cipher, encrypt, decrypt}

-- A sealed message opens, under its key and nonce.
abbrev pub Opens : Aead → Type 0
Opens A = (key nonce p : List ℕ) → A.unseal key nonce (A.seal key nonce p) ≡ some p

-- The datagram that a sender's call puts on its socket, and that an arrival brings.
abbrev pub sealed : Aead → Datagram → Cipher → Datagram
sealed A d c = record d { payload = (encrypt A d.payload c).1 }

pub decrypt-sealed :
    (A : Aead) (d : Datagram) (c k : Cipher)
    → Opens A
    → k.key ≡ (encrypt A d.payload c).0.key
    → k.nonce ≡ (encrypt A d.payload c).0.nonce
    → (decrypt A (sealed A d c).payload k).1 ≡ d.payload
unfolding decrypt encrypt
decrypt-sealed A d c k opens same_key same_nonce = rw (same_key, same_nonce, opens _ _ _) refl
