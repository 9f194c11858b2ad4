-- ===== src/CryptoCore/Device/Identity.antt =====
-- What GenerateIdentityKeypair and rotateSignedPrekey of services/crypto-core/core.go make.
use secu_msg_server.Common.{◌≤◌, ◌≡◌, refl, [], length, take, drop, length-drop, arith, ok}
use secu_msg_server.Bytes.{Bytes, array, array_self, length-array, clamp}
use secu_msg_server.CryptoCore.Types.{Device, KeyPair}
use secu_msg_server.CryptoCore.Primitives.{Primitives, Laws}
use secu_msg_server.CryptoCore.Random.{Run, generate_x25519_key_pair}
use secu_msg_server.CryptoCore.Random.Keys.{generate_total, read_random_total}
use secu_msg_server.CryptoCore.Device.{
  ed25519_priv_to_curve25519, rotate_signed_prekey, generate_identity_keypair,
}
use secu_msg_server.CryptoCore.Session.Handshake.{IsDevice}

module _ (p : Primitives) (laws : Laws p) where
  dh_size : (priv : Bytes) → length (ed25519_priv_to_curve25519 p priv) ≡ 32
  unfolding ed25519_priv_to_curve25519
  dh_size priv = length-array 32 (take 32 (clamp (p.sha512 (p.seed_of priv))))

  rotate_lem :
      (r : Run Device) (kp : KeyPair) (rest : Bytes)
      → generate_x25519_key_pair p r.random ≡ (ok kp, rest)
      → rotate_signed_prekey p r ≡ (
        ok tt,
        record {
          state = record r.state {
            signed_prekey = kp;
            signed_sig = p.sign r.state.identity.signing_private kp.public;
          };
          random = rest;
        },
      )
  unfolding rotate_signed_prekey
  rotate_lem r kp rest made = ground arith

  -- With 64 bytes of randomness a device is made: its identity and its signed prekey are key pairs,
  -- it has signed the prekey with the key whose public half it shows, and it has no one-time
  -- prekeys yet. The random source has 64 bytes less.
  pub generate_identity_keypair-IsDevice :
      (src : Bytes)
      → 64 ≤ length src
      → (d : Device) × (generate_identity_keypair p src ≡ (ok d, drop 32 (drop 32 src)))
        × IsDevice p d
        × (d.one_time ≡ [])
        × (d.next_otk_id ≡ 1)
  unfolding generate_identity_keypair
  generate_identity_keypair-IsDevice src enough =
      let seed = take 32 src in
      let priv = p.key_from_seed seed in
      let dh_priv = ed25519_priv_to_curve25519 p priv in
      let size : length dh_priv ≡ 32 = dh_size priv in
      let (dh_pub, value, public_size) = laws.x25519_base dh_priv size in
      let (kp, made, pair) =
        generate_total p laws (drop 32 src) (omega (arith, length-drop 32 src)) in
      let d : Device = record {
        identity = record {
          signing_public = p.public_of priv;
          signing_private = priv;
          dh_private = dh_priv;
          dh_public = dh_pub;
        };
        signed_prekey = record { private = array 32 []; public = array 32 [] };
        signed_sig = [];
        one_time = [];
        next_otk_id = 1;
      } in
      (
        record d { signed_prekey = kp; signed_sig = p.sign priv kp.public },
        ground (
          arith,
          read_random_total 32 src (omega arith),
          array_self 32 dh_pub public_size,
          rotate_lem (record { state = d; random = drop 32 src }) kp (drop 32 (drop 32 src)) made,
        ),
        record {
          seed = seed;
          identity = record { size = size; value = value; public_size = public_size };
          prekey = pair;
          signing_private = refl;
          signing_public = refl;
          signature = refl;
        },
        refl,
        refl,
      )
