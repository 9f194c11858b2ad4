-- ===== src/CryptoCore/Device.antt =====
-- The device of services/crypto-core/core.go: its identity, its signed prekey and the one-time
-- prekeys that it has published.
pub mod Publish
pub mod Identity
use secu_msg_server.Common.{
  ℕ, zero, suc, ℤ, clip, if◌then◌else◌, ◌==◌, nat_eq, length, take, List, [], ◌∷◌, insert, Action,
  ok, err, pure, or_raise, get, modify, ◌>>=◌, ◌>>◌,
}
use secu_msg_server.Bytes.{Bytes, array, clamp, inc32}
use secu_msg_server.CryptoCore.Types.{
  Device, PrekeyBundle, OneTimePrekey, CryptoError, x25519_failed,
}
use secu_msg_server.CryptoCore.Primitives.{Primitives}
use secu_msg_server.CryptoCore.Random.{
  Run, at_random, at_state, read_random, generate_x25519_key_pair,
}

unfoldable pub ed25519_priv_to_curve25519 : Primitives → Bytes → Bytes
ed25519_priv_to_curve25519 p priv = array 32 (take 32 (clamp (p.sha512 (p.seed_of priv))))

unfoldable pub rotate_signed_prekey : Primitives → Action (Run Device) CryptoError (Unit {0})
rotate_signed_prekey p = do
  kp ← at_random (generate_x25519_key_pair p)
  at_state (
      modify (λ d. record d {
        signed_prekey = kp;
        signed_sig = p.sign d.identity.signing_private kp.public;
      }))

-- The device that `rotateSignedPrekey` has worked on, or its error.
abbrev start_device : Primitives → Device → Action Bytes CryptoError Device
start_device p d src =
    let (done, r) = rotate_signed_prekey p (record { state = d; random = src }) in
    (elim done [ ok _ ↦ ok r.state | err e ↦ err e ], r.random)

unfoldable pub generate_identity_keypair : Primitives → Action Bytes CryptoError Device
generate_identity_keypair p = do
  seed ← read_random 32
  let priv = p.key_from_seed seed
  let dh_priv = ed25519_priv_to_curve25519 p priv
  dh_pub ← or_raise (p.x25519 dh_priv p.basepoint) x25519_failed
  start_device p (record {
    identity = record {
      signing_public = p.public_of priv;
      signing_private = priv;
      dh_private = dh_priv;
      dh_public = array 32 dh_pub;
    };
    signed_prekey = record { private = array 32 []; public = array 32 [] };
    signed_sig = [];
    one_time = [];
    next_otk_id = 1;
  })

-- One round of the loop that makes one-time prekeys.
unfoldable pub add_one_time_key : Primitives → Action (Run Device) CryptoError OneTimePrekey
add_one_time_key p = do
  kp ← at_random (generate_x25519_key_pair p)
  r ← get
  let id = r.state.next_otk_id
  at_state (
      modify (λ d. record d {
        next_otk_id = inc32 id;
        one_time = insert id (record { key = kp }) d.one_time;
      }))
  pure (record { id = id; public = kp.public })

unfoldable pub add_one_time_keys :
    Primitives → ℕ → Action (Run Device) CryptoError (List OneTimePrekey)
add_one_time_keys p zero = pure []
add_one_time_keys p (suc count) = do
  k ← add_one_time_key p
  ks ← add_one_time_keys p count
  pure (k ∷ ks)

-- `len(d.signedPrekey.Public) == 0` is tested as the code has it; the key is an array of 32 bytes.
unfoldable pub publish_prekey_bundle : Primitives → ℤ → Action (Run Device) CryptoError PrekeyBundle
publish_prekey_bundle p one_time_count = do
  r ← get
  if length r.state.signed_prekey.public == 0 then rotate_signed_prekey p else pure tt
  r' ← get
  keys ← add_one_time_keys p (clip one_time_count)
  pure (record {
    identity_key = r'.state.identity.dh_public;
    identity_signature_key = r'.state.identity.signing_public;
    signed_prekey = r'.state.signed_prekey.public;
    signed_prekey_sig = r'.state.signed_sig;
    one_time_prekeys = keys;
  })

-- `IdentityPublic` of a device that is there.
unfoldable pub identity_public : Device → Bytes × Bytes
identity_public d = (d.identity.dh_public, d.identity.signing_public)
