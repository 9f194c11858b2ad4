-- ===== src/CryptoCore/Types.antt =====
-- The data of services/crypto-core/types.go and errors.go. A [32]byte is a byte list (its length
-- stands in the invariants), a *uint32 is an optional number, and a nil map is an empty one.
use secu_msg_server.Common.{ℕ, Option, List, Map, String}
use secu_msg_server.Bytes.{Bytes}

pub data SessionRole : Type 0 where
  initiator responder : SessionRole

pub record KeyPair : Type 0 where
  pub private : Bytes
  pub public : Bytes

pub record IdentityKeyPair : Type 0 where
  pub signing_public : Bytes
  pub signing_private : Bytes
  pub dh_private : Bytes
  pub dh_public : Bytes

pub record OneTimeEntry : Type 0 where
  pub key : KeyPair

pub record Device : Type 0 where
  pub identity : IdentityKeyPair
  pub signed_prekey : KeyPair
  pub signed_sig : Bytes
  pub one_time : Map ℕ OneTimeEntry
  pub next_otk_id : ℕ

pub record OneTimePrekey : Type 0 where
  pub id : ℕ
  pub public : Bytes

pub record PrekeyBundle : Type 0 where
  pub identity_key : Bytes
  pub identity_signature_key : Bytes
  pub signed_prekey : Bytes
  pub signed_prekey_sig : Bytes
  pub one_time_prekeys : List OneTimePrekey

pub record HandshakeMessage : Type 0 where
  pub identity_key : Bytes
  pub identity_signature_key : Bytes
  pub ephemeral_key : Bytes
  pub one_time_prekey_id : Option ℕ

pub record ChainState : Type 0 where
  pub key : Bytes
  pub index : ℕ

pub record SessionState : Type 0 where
  pub root_key : Bytes
  pub send_chain : ChainState
  pub recv_chain : ChainState
  pub ratchet_private : Bytes
  pub ratchet_public : Bytes
  pub remote_ratchet : Bytes
  pub remote_identity : Bytes
  pub remote_signature : Bytes
  pub pn : ℕ
  pub role : SessionRole
  pub pending_prekey : Option ℕ
  pub skipped : Map Bytes Bytes

pub record MessageHeader : Type 0 where
  pub dh_public : Bytes
  pub pn : ℕ
  pub n : ℕ
  pub nonce : Bytes

-- The sentinel errors, the `errors.New` texts for nil arguments, and the errors that the
-- primitives, the random source and the decoder hand up. `decode` carries what was decoded.
pub data CryptoError : Type 0 where
  invalid_prekey_signature missing_one_time_key invalid_remote_key : CryptoError
  duplicate_message decryption_failed : CryptoError
  nil_device nil_bundle nil_handshake nil_session nil_header : CryptoError
  nil_device_state nil_session_snapshot : CryptoError
  random_failed x25519_failed hkdf_failed aead_failed : CryptoError
  decode : String → CryptoError
