-- ===== src/Node/Cipher/Nonce.antt =====
-- ENode.cpp: the nonce of the messages of a node.
use tri_ha_rd_higher_resilie.Base.{◌≡◌, refl, ◌∙◌, ap, arith, List, [], ◌∷◌}
use tri_ha_rd_higher_resilie.Node.Cipher.{Aead, Cipher, increment_nonce, encrypt}
use tri_ha_rd_higher_resilie.Base.{ℕ}

-- The cipher after a list of messages.
unfoldable pub encrypt_all : Aead → List (List ℕ) → Cipher → Cipher
encrypt_all A [] c = c
encrypt_all A (p ∷ ps) c = encrypt_all A ps (encrypt A p c).0

increment_nonce_idem : (c : Cipher) → increment_nonce (increment_nonce c) ≡ increment_nonce c
unfolding increment_nonce
increment_nonce_idem c = ground arith

encrypt_all-increment_nonce :
    (A : Aead) (ps : List (List ℕ)) (c : Cipher)
    → increment_nonce (encrypt_all A ps c) ≡ increment_nonce c
unfolding encrypt_all encrypt
encrypt_all-increment_nonce A [] c = refl
encrypt_all-increment_nonce A (p ∷ ps) c =
    encrypt_all-increment_nonce A ps (increment_nonce c) ∙ increment_nonce_idem c

-- However many messages a node has encrypted, the next one is sealed with the key and the nonce that
-- the first one is sealed with: equal plaintexts give equal ciphertexts.
pub encrypt-encrypt_all :
    (A : Aead) (ps : List (List ℕ)) (p : List ℕ) (c : Cipher)
    → (encrypt A p (encrypt_all A ps c)).1 ≡ (encrypt A p c).1
unfolding encrypt
encrypt-encrypt_all A ps p c = ap (λ k. A.seal k.key k.nonce p) (encrypt_all-increment_nonce A ps c)
