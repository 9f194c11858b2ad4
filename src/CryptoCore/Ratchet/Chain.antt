-- ===== src/CryptoCore/Ratchet/Chain.antt =====
-- The symmetric chain: the key after some messages, the message keys, and what it takes for a
-- ciphertext to open under one. About kdfChain, deriveCipherParams and the two halves of
-- Encrypt and Decrypt in services/crypto-core/ratchet.go.
use secu_msg_server.Common.{ℕ, zero, suc, ◌+◌, refl, ap, arith, ◌≡◌, true, false, [], arith, ok}
use secu_msg_server.Bytes.{Bytes}
use secu_msg_server.CryptoCore.Types.{SessionState, MessageHeader}
use secu_msg_server.CryptoCore.Primitives.{Primitives, Laws}
use secu_msg_server.CryptoCore.Random.{Run}
use secu_msg_server.CryptoCore.Ratchet.{
  kdf_chain, derive_cipher_params, open_message, is_zero_key, associated_data, hkdf_info_aead,
}

-- The chain key after a number of messages.
unfoldable pub chain_after : Primitives → ℕ → Bytes → Bytes
chain_after p zero ck = ck
chain_after p (suc k) ck = chain_after p k (kdf_chain p ck).0

-- The key of the message of that number, counted from the chain key.
unfoldable pub message_key : Primitives → ℕ → Bytes → Bytes
message_key p k ck = (kdf_chain p (chain_after p k ck)).1

-- The ciphertext with its header opens under the message key to the text, in every session.
abbrev pub Opens : Primitives → Bytes → Bytes → MessageHeader → Bytes → Type 0
Opens p mk ciphertext h text = (s : SessionState) → open_message p mk ciphertext h s ≡ (ok text, s)

module _ (p : Primitives) (laws : Laws p) where
  -- What `seal` made from the parameters of a message key, that key opens.
  pub Opens-seal :
      (mk text dh : Bytes) (pn n : ℕ)
      → (key : Bytes) × (nonce : Bytes) × ((r : Run SessionState)
          → derive_cipher_params p mk r ≡ (ok (key, nonce), r))
        × (p.aead_new key ≡ true)
        × (let h : MessageHeader = record { dh_public = dh; pn = pn; n = n; nonce = nonce } in
            Opens p mk (p.seal key nonce text (associated_data h)) h text)
  unfolding derive_cipher_params open_message
  Opens-seal mk text dh pn n =
      let (key, ek, lk) = laws.hkdf_total mk [] hkdf_info_aead 0 32 (omega arith) in
      let (nonce, en, ln) = laws.hkdf_total mk [] hkdf_info_aead 32 12 (omega arith) in
      let fits = laws.aead_new-key key lk in
      let h : MessageHeader = record { dh_public = dh; pn = pn; n = n; nonce = nonce } in
      (
        key,
        nonce,
        (λ r. rw (ek, en)),
        fits,
        λ s. rw (ek, en, fits, laws.unseal-seal key nonce text (associated_data h)),
      )

-- None of the next chain keys is the zero key, at which `Encrypt` turns the ratchet.
abbrev pub NeverZero : Primitives → ℕ → Bytes → Type 0
NeverZero p zero ck = Unit
NeverZero p (suc k) ck = (is_zero_key ck ≡ false) × NeverZero p k (kdf_chain p ck).0

-- The chain after k messages more.
pub chain_after-add :
    (p : Primitives) (m k : ℕ) (ck : Bytes)
    → chain_after p k (chain_after p m ck) ≡ chain_after p (m + k) ck
unfolding chain_after
chain_after-add p zero k ck = let e : 0 + k ≡ k = omega arith in rw e
chain_after-add p (suc m) k ck =
    let e : suc m + k ≡ suc (m + k) = omega arith in
    rw (e, chain_after) (chain_after-add p m k (kdf_chain p ck).0)

pub chain_after-suc :
    (p : Primitives) (k : ℕ) (ck : Bytes)
    → (kdf_chain p (chain_after p k ck)).0 ≡ chain_after p (suc k) ck
unfolding chain_after
chain_after-suc p zero ck = refl
chain_after-suc p (suc k) ck = chain_after-suc p k (kdf_chain p ck).0

pub message_key-add :
    (p : Primitives) (m k : ℕ) (ck : Bytes)
    → message_key p k (chain_after p m ck) ≡ message_key p (m + k) ck
unfolding message_key
message_key-add p m k ck = ap (λ c. (kdf_chain p c).1) (chain_after-add p m k ck)

pub message_key-zero : (p : Primitives) (ck : Bytes) → message_key p 0 ck ≡ (kdf_chain p ck).1
unfolding message_key chain_after
message_key-zero p ck = refl

pub message_key-suc :
    (p : Primitives) (k : ℕ) (ck : Bytes)
    → message_key p k (kdf_chain p ck).0 ≡ message_key p (suc k) ck
unfolding message_key chain_after
message_key-suc p k ck = refl
