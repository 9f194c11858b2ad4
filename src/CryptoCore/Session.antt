-- ===== src/CryptoCore/Session.antt =====
-- The X3DH handshake of services/crypto-core/session.go.
pub mod Handshake
pub mod Agreement
pub mod OneTime
use secu_msg_server.Common.{
  ℕ, ◌==◌, nat_eq, not, length, get_elem?, Option, none, some, [], ◌++◌, lookup, delete, Action, ok,
  err, pure, raise_if, or_raise, get, ◌>>=◌, ◌>>◌,
}
use secu_msg_server.Bytes.{Bytes, zero_array, utf8}
use secu_msg_server.CryptoCore.Types.{
  Device, KeyPair, PrekeyBundle, OneTimePrekey, HandshakeMessage, SessionState, initiator,
  responder, CryptoError, invalid_prekey_signature, missing_one_time_key, x25519_failed,
}
use secu_msg_server.CryptoCore.Primitives.{Primitives}
use secu_msg_server.CryptoCore.Random.{generate_x25519_key_pair}

abbrev pub hkdf_info_x3dh : Bytes
hkdf_info_x3dh = utf8 "SecuMSG-X3DH"

-- ed25519.PublicKeySize
abbrev pub public_key_size : ℕ
public_key_size = 32

unfoldable pub verify_prekey_bundle :
    {S : Type 0} → Primitives → PrekeyBundle → Action S CryptoError (Unit {0})
verify_prekey_bundle p b = do
  raise_if (not (length b.identity_signature_key == public_key_size)) invalid_prekey_signature
  raise_if (not (p.verify b.identity_signature_key b.signed_prekey b.signed_prekey_sig))
      invalid_prekey_signature

-- The fourth exchange, with the one-time prekey, where there is one.
abbrev append_exchange :
    {S : Type 0} → Primitives → Option (Bytes × Bytes) → Bytes → Action S CryptoError Bytes
append_exchange p none secret = pure secret
append_exchange p (some (scalar, point)) secret = do
  dh4 ← or_raise (p.x25519 scalar point) x25519_failed
  pure (secret ++ dh4)

abbrev initiator_exchange : KeyPair → Option OneTimePrekey → Option (Bytes × Bytes)
initiator_exchange eph none = none
initiator_exchange eph (some otk) = some (eph.private, otk.public)

abbrev responder_exchange : HandshakeMessage → Option KeyPair → Option (Bytes × Bytes)
responder_exchange msg none = none
responder_exchange msg (some otk) = some (otk.private, msg.ephemeral_key)

unfoldable pub derive_shared_secret_initiator :
    {S : Type 0}
    → Primitives
    → Device
    → PrekeyBundle
    → KeyPair
    → Option OneTimePrekey
    → Action S CryptoError Bytes
derive_shared_secret_initiator p d b eph otk = do
  dh1 ← or_raise (p.x25519 d.identity.dh_private b.signed_prekey) x25519_failed
  dh2 ← or_raise (p.x25519 eph.private b.identity_key) x25519_failed
  dh3 ← or_raise (p.x25519 eph.private b.signed_prekey) x25519_failed
  append_exchange p (initiator_exchange eph otk) ((dh1 ++ dh2) ++ dh3)

unfoldable pub derive_shared_secret_responder :
    {S : Type 0}
    → Primitives
    → Device
    → HandshakeMessage
    → Option KeyPair
    → Action S CryptoError Bytes
derive_shared_secret_responder p d msg otk = do
  dh1 ← or_raise (p.x25519 d.signed_prekey.private msg.identity_key) x25519_failed
  dh2 ← or_raise (p.x25519 d.identity.dh_private msg.ephemeral_key) x25519_failed
  dh3 ← or_raise (p.x25519 d.signed_prekey.private msg.ephemeral_key) x25519_failed
  append_exchange p (responder_exchange msg otk) ((dh1 ++ dh2) ++ dh3)

-- Zero keys if HKDF fails.
unfoldable pub derive_initial_keys : Primitives → Bytes → Bytes × Bytes
derive_initial_keys p secret = elim (p.hkdf_read secret [] hkdf_info_x3dh 0 32) [
  | none ↦ (zero_array 32, zero_array 32)
  | some root ↦ elim (p.hkdf_read secret [] hkdf_info_x3dh 32 32) [
    | none ↦ (zero_array 32, zero_array 32)
    | some chain ↦ (root, chain)
  ]
]

abbrev otk_id : Option OneTimePrekey → Option ℕ
otk_id none = none
otk_id (some k) = some k.id

unfoldable pub init_session :
    Primitives → Device → PrekeyBundle → Action Bytes CryptoError (SessionState × HandshakeMessage)
init_session p d b = do
  verify_prekey_bundle p b
  ephemeral ← generate_x25519_key_pair p
  let otk = get_elem? b.one_time_prekeys 0
  secret ← derive_shared_secret_initiator p d b ephemeral otk
  let (root, chain) = derive_initial_keys p secret
  let session : SessionState = record {
    root_key = root;
    send_chain = record { key = chain; index = 0 };
    recv_chain = record { key = zero_array 32; index = 0 };
    ratchet_private = ephemeral.private;
    ratchet_public = ephemeral.public;
    remote_ratchet = b.signed_prekey;
    remote_identity = b.identity_key;
    remote_signature = b.identity_signature_key;
    pn = 0;
    role = initiator;
    pending_prekey = otk_id otk;
    skipped = [];
  }
  let msg : HandshakeMessage = record {
    identity_key = d.identity.dh_public;
    identity_signature_key = d.identity.signing_public;
    ephemeral_key = ephemeral.public;
    one_time_prekey_id = otk_id otk;
  }
  pure (session, msg)

-- The lookup of the one-time prekey that the handshake names; it leaves the map.
unfoldable pub take_one_time_key : Option ℕ → Action Device CryptoError (Option KeyPair)
take_one_time_key none d = (ok none, d)
take_one_time_key (some id) d = elim (lookup id d.one_time) [
  | none ↦ (err missing_one_time_key, d)
  | some entry ↦ (ok (some entry.key), record d { one_time = delete id d.one_time })
]

unfoldable pub accept_session :
    Primitives → HandshakeMessage → Action Device CryptoError SessionState
accept_session p msg = do
  otk ← take_one_time_key msg.one_time_prekey_id
  d ← get
  secret ← derive_shared_secret_responder p d msg otk
  let (root, chain) = derive_initial_keys p secret
  pure (record {
    root_key = root;
    send_chain = record { key = zero_array 32; index = 0 };
    recv_chain = record { key = chain; index = 0 };
    ratchet_private = d.signed_prekey.private;
    ratchet_public = d.signed_prekey.public;
    remote_ratchet = msg.ephemeral_key;
    remote_identity = msg.identity_key;
    remote_signature = msg.identity_signature_key;
    pn = 0;
    role = responder;
    pending_prekey = msg.one_time_prekey_id;
    skipped = [];
  })
