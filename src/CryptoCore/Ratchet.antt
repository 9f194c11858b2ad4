-- ===== src/CryptoCore/Ratchet.antt =====
-- The Double Ratchet of services/crypto-core/ratchet.go, function by function. Each call changes
-- the session in place and may fail half-way: what it wrote before the error stays written.
pub mod Chain
pub mod Sending
pub mod Skipped
pub mod Skipping
pub mod Receiving
pub mod Delivery
pub mod AnyOrder
pub mod Turn
pub mod Headers
pub mod Replay
pub mod Faults
use secu_msg_server.Common.{
  ℕ, zero, suc, ◌-◌, ◌%◌, if◌then◌else◌, ltb, leb, length, get_elem?, not, Option, none, some, Map,
  lookup, insert, delete, [], ◌∷◌, ◌++◌, Bool, true, false, ◌==◌, list_eq, Action, ok, pure,
  raise_if, or_raise, get, modify, ◌>>=◌, ◌>>◌,
}
use secu_msg_server.Bytes.{Bytes, array, zero_array, utf8, inc32, put_uint32}
use secu_msg_server.CryptoCore.Types.{
  SessionState, MessageHeader, CryptoError, invalid_remote_key, duplicate_message,
  decryption_failed, x25519_failed, hkdf_failed, aead_failed,
}
use secu_msg_server.CryptoCore.Primitives.{Primitives}
use secu_msg_server.CryptoCore.Random.{Run, at_random, at_state, generate_x25519_key_pair}

abbrev pub hkdf_info_ratchet : Bytes
hkdf_info_ratchet = utf8 "SecuMSG-DR"

abbrev pub hkdf_info_aead : Bytes
hkdf_info_aead = utf8 "SecuMSG-AEAD"

abbrev pub max_skipped_message_keys : ℕ
max_skipped_message_keys = 64

unfoldable pub is_zero_key : Bytes → Bool
is_zero_key k = k == zero_array 32

-- The root key and the chain key, 32 bytes each of one HKDF stream.
unfoldable pub kdf_root :
    {S : Type 0} → Primitives → Bytes → Bytes → Action S CryptoError (Bytes × Bytes)
kdf_root p root dh = do
  new_root ← or_raise (p.hkdf_read dh root hkdf_info_ratchet 0 32) hkdf_failed
  chain ← or_raise (p.hkdf_read dh root hkdf_info_ratchet 32 32) hkdf_failed
  pure (new_root, chain)

-- The next chain key and the message key.
unfoldable pub kdf_chain : Primitives → Bytes → Bytes × Bytes
kdf_chain p chain =
    (array 32 (p.hmac_sha256 chain (1 ∷ [])), array 32 (p.hmac_sha256 chain (2 ∷ [])))

unfoldable pub derive_cipher_params :
    {S : Type 0} → Primitives → Bytes → Action S CryptoError (Bytes × Bytes)
derive_cipher_params p mk = do
  key ← or_raise (p.hkdf_read mk [] hkdf_info_aead 0 32) hkdf_failed
  nonce ← or_raise (p.hkdf_read mk [] hkdf_info_aead 32 12) hkdf_failed
  pure (key, nonce)

unfoldable pub associated_data : MessageHeader → Bytes
associated_data h = array 32 h.dh_public ++ (put_uint32 h.pn ++ put_uint32 h.n)

unfoldable pub skipped_key : Bytes → ℕ → Bytes
skipped_key pub_key index = array 32 pub_key ++ put_uint32 index

-- The loop that deletes the first key of the range and breaks.
unfoldable pub evict : Primitives → Map Bytes Bytes → Map Bytes Bytes
evict p m = elim (get_elem? m (p.range_start m % length m)) [ none ↦ m | some (k, _) ↦ delete k m ]

unfoldable pub store_skipped_key : Primitives → Bytes → ℕ → Bytes → SessionState → SessionState
unfolding evict
store_skipped_key p pub_key index key s =
    let m =
      if leb max_skipped_message_keys (length s.skipped) then evict p s.skipped else s.skipped in
    record s { skipped = insert (skipped_key pub_key index) key m }

unfoldable pub consume_skipped : MessageHeader → Action SessionState CryptoError (Option Bytes)
consume_skipped h s = elim (lookup (skipped_key h.dh_public h.n) s.skipped) [
  | none ↦ (ok none, s)
  | some mk ↦ (ok (some mk), record s { skipped = delete (skipped_key h.dh_public h.n) s.skipped })
]

unfoldable pub rotate_ratchet_on_send :
    Primitives → Action (Run SessionState) CryptoError (Unit {0})
rotate_ratchet_on_send p = do
  r ← get
  raise_if (is_zero_key r.state.remote_ratchet) invalid_remote_key
  kp ← at_random (generate_x25519_key_pair p)
  dh ← or_raise (p.x25519 kp.private r.state.remote_ratchet) x25519_failed
  (root, send) ← kdf_root p r.state.root_key dh
  at_state (
      modify (λ s. record s {
        root_key = root;
        pn = s.send_chain.index;
        send_chain = record { key = send; index = 0 };
        ratchet_private = kp.private;
        ratchet_public = kp.public;
      }))

unfoldable pub rotate_ratchet_on_recv :
    Primitives → MessageHeader → Action SessionState CryptoError (Unit {0})
rotate_ratchet_on_recv p h s =
    if h.dh_public == s.remote_ratchet
    then (ok tt, s)
    else (do
      dh ← or_raise (p.x25519 s.ratchet_private h.dh_public) x25519_failed
      (root, recv) ← kdf_root p s.root_key dh
      modify (λ t. record t {
        root_key = root;
        remote_ratchet = h.dh_public;
        recv_chain = record { key = recv; index = 0 };
        send_chain = record { key = zero_array 32; index = 0 };
        pn = h.pn;
      }))
        s

-- Derives the message key, advances the sending chain.
unfoldable pub next_send_key : Primitives → Action SessionState CryptoError (Bytes × ℕ)
next_send_key p s =
    let (new_ck, mk) = kdf_chain p s.send_chain.key in
    (
      ok (mk, s.send_chain.index),
      record s { send_chain = record { key = new_ck; index = inc32 s.send_chain.index } },
    )

-- `Encrypt` once there is a sending chain.
unfoldable pub encrypt_next :
    Primitives → Bytes → Action (Run SessionState) CryptoError (Bytes × MessageHeader)
encrypt_next p plaintext = do
  (mk, n) ← at_state (next_send_key p)
  (key, nonce) ← derive_cipher_params p mk
  raise_if (not (p.aead_new key)) aead_failed
  r ← get
  let header : MessageHeader = record {
    dh_public = r.state.ratchet_public;
    pn = r.state.pn;
    n = n;
    nonce = nonce;
  }
  pure (p.seal key nonce plaintext (associated_data header), header)

unfoldable pub encrypt :
    Primitives → Bytes → Action (Run SessionState) CryptoError (Bytes × MessageHeader)
encrypt p plaintext = do
  r ← get
  if is_zero_key r.state.send_chain.key then rotate_ratchet_on_send p else pure tt
  encrypt_next p plaintext

-- The opening of a ciphertext by its message key, which `Decrypt` has twice.
unfoldable pub open_message :
    {S : Type 0} → Primitives → Bytes → Bytes → MessageHeader → Action S CryptoError Bytes
open_message p mk ciphertext h = do
  (key, nonce) ← derive_cipher_params p mk
  raise_if (not (p.aead_new key)) aead_failed
  or_raise (p.unseal key nonce ciphertext (associated_data h)) decryption_failed

-- One round of the loop that skips message keys.
unfoldable pub skip_key : Primitives → SessionState → SessionState
skip_key p s =
    let (new_ck, mk) = kdf_chain p s.recv_chain.key in
    let t = store_skipped_key p s.remote_ratchet s.recv_chain.index mk s in
    record t { recv_chain = record { key = new_ck; index = inc32 s.recv_chain.index } }

-- `for session.RecvChain.Index < header.N`, on fuel.
unfoldable pub skip_to : Primitives → ℕ → ℕ → SessionState → SessionState
skip_to p zero n s = s
skip_to p (suc fuel) n s = elim (ltb s.recv_chain.index n) [
  | true ↦ skip_to p fuel n (skip_key p s)
  | false ↦ s
]

unfoldable pub next_recv_key : Primitives → Action SessionState CryptoError Bytes
next_recv_key p s =
    let (new_ck, mk) = kdf_chain p s.recv_chain.key in
    (ok mk, record s { recv_chain = record { key = new_ck; index = inc32 s.recv_chain.index } })

-- `Decrypt` once the ratchet key is the header's. The loop is given as many rounds as it can take.
unfoldable pub decrypt_current :
    Primitives → Bytes → MessageHeader → Action SessionState CryptoError Bytes
decrypt_current p ciphertext h = do
  s ← get
  raise_if (ltb h.n s.recv_chain.index) duplicate_message
  modify (skip_to p (h.n - s.recv_chain.index) h.n)
  mk ← next_recv_key p
  open_message p mk ciphertext h

-- `Decrypt` with the skipped key of the header, if there is one.
unfoldable pub decrypt_found :
    Primitives → Bytes → MessageHeader → Option Bytes → Action SessionState CryptoError Bytes
decrypt_found p ciphertext h (some mk) = open_message p mk ciphertext h
decrypt_found p ciphertext h none = rotate_ratchet_on_recv p h >> decrypt_current p ciphertext h

unfoldable pub decrypt : Primitives → Bytes → MessageHeader → Action SessionState CryptoError Bytes
decrypt p ciphertext h = consume_skipped h >>= decrypt_found p ciphertext h
