-- ===== src/CryptoCore/Session/Handshake.antt =====
-- The two sides of the handshake of services/crypto-core/session.go derive the same keys.
use secu_msg_server.Common.{
  ℕ, ◌≡◌, refl, none, some, ◌++◌, Option, lookup, nat_eq, list_eq, get_elem?, ap, sym, ◌∙◌, ok,
}
use secu_msg_server.Bytes.{Bytes}
use secu_msg_server.CryptoCore.Types.{
  Device, KeyPair, OneTimeEntry, OneTimePrekey, PrekeyBundle, HandshakeMessage,
}
use secu_msg_server.CryptoCore.Primitives.{Primitives, Laws}
use secu_msg_server.CryptoCore.Random.Keys.{IsKeyPair}
use secu_msg_server.CryptoCore.Session.{
  verify_prekey_bundle, derive_shared_secret_initiator, derive_shared_secret_responder,
}

-- A device's identity and signed prekey are key pairs, and it has signed the prekey.
pub record IsDevice (p : Primitives) (d : Device) : Type 0 where
  pub seed : Bytes
  pub identity : IsKeyPair p d.identity.dh_private d.identity.dh_public
  pub prekey : IsKeyPair p d.signed_prekey.private d.signed_prekey.public
  pub signing_private : d.identity.signing_private ≡ p.key_from_seed seed
  pub signing_public : d.identity.signing_public ≡ p.public_of (p.key_from_seed seed)
  pub signature : d.signed_sig ≡ p.sign (p.key_from_seed seed) d.signed_prekey.public

-- The device has the key pair of a one-time prekey.
abbrev pub Holds : Primitives → Device → OneTimePrekey → Type 0
Holds p d k =
    (entry : OneTimeEntry) × (lookup k.id d.one_time ≡ some entry)
    × IsKeyPair p entry.key.private k.public

-- The bundle is the device's own: its public keys and signature, and the first one-time prekey, if
-- there is one, is held by the device.
pub record Offers (p : Primitives) (d : Device) (b : PrekeyBundle) : Type 0 where
  pub identity : b.identity_key ≡ d.identity.dh_public
  pub signing : b.identity_signature_key ≡ d.identity.signing_public
  pub prekey : b.signed_prekey ≡ d.signed_prekey.public
  pub signature : b.signed_prekey_sig ≡ d.signed_sig
  pub first : (k : OneTimePrekey) → get_elem? b.one_time_prekeys 0 ≡ some k → Holds p d k

module _ (p : Primitives) (laws : Laws p) where
  -- Two key pairs give one secret, whichever side computes it.
  pub exchange :
      (a a' b b' : Bytes)
      → IsKeyPair p a a'
      → IsKeyPair p b b'
      → (s : Bytes) × (p.x25519 a b' ≡ some s) × (p.x25519 b a' ≡ some s)
  exchange a a' b b' ka kb =
      let (s, e, _) = laws.x25519_public a b ka.size kb.value in
      (s, e, sym (laws.x25519_comm a b ka.value kb.value) ∙ e)

  pub verify_own :
      (d : Device) (b : PrekeyBundle) (src : Bytes)
      → IsDevice p d
      → Offers p d b
      → verify_prekey_bundle p b src ≡ (ok tt, src)
  unfolding verify_prekey_bundle
  verify_own d b src device offers =
      let key : b.identity_signature_key ≡ p.public_of (p.key_from_seed device.seed) =
        offers.signing ∙ device.signing_public in
      let sig : b.signed_prekey_sig ≡ p.sign (p.key_from_seed device.seed) b.signed_prekey =
        offers.signature
        ∙ device.signature
        ∙ ap (p.sign (p.key_from_seed device.seed)) (sym offers.prekey) in
      rw (key, sig, laws.length-public_of device.seed, laws.verify-sign device.seed b.signed_prekey)
        refl

  -- The message that the initiator with the device d and the ephemeral key pair sends.
  abbrev pub handshake : Device → KeyPair → Option ℕ → HandshakeMessage
  handshake d eph id = record {
    identity_key = d.identity.dh_public;
    identity_signature_key = d.identity.signing_public;
    ephemeral_key = eph.public;
    one_time_prekey_id = id;
  }

  -- The responder's key for the one-time prekey that the initiator took.
  abbrev pub Matching : Option OneTimePrekey → Option KeyPair → Type 0
  Matching none none = Unit
  Matching none (some kp) = ⊥
  Matching (some k) none = ⊥
  Matching (some k) (some kp) = IsKeyPair p kp.private k.public

  pub secret_agrees :
      (a d : Device) (b : PrekeyBundle) (eph : KeyPair) (otk : Option OneTimePrekey)
      (held : Option KeyPair) (id : Option ℕ)
      → IsDevice p a
      → IsDevice p d
      → Offers p d b
      → IsKeyPair p eph.private eph.public
      → Matching otk held
      → (secret : Bytes) × ((src : Bytes)
          → derive_shared_secret_initiator p a b eph otk src ≡ (ok secret, src))
        × ((s : Device)
            → derive_shared_secret_responder p d (handshake a eph id) held s ≡ (ok secret, s))
  unfolding derive_shared_secret_initiator derive_shared_secret_responder
  secret_agrees a d b eph none (some kp) id da dd offers pair match = absurd match
  secret_agrees a d b eph (some k) none id da dd offers pair match = absurd match
  secret_agrees a d b eph none none id da dd offers pair match =
      let (s1, i1, r1) =
        exchange a.identity.dh_private a.identity.dh_public d.signed_prekey.private
          d.signed_prekey.public da.identity dd.prekey in
      let (s2, i2, r2) =
        exchange eph.private eph.public d.identity.dh_private d.identity.dh_public pair
          dd.identity in
      let (s3, i3, r3) =
        exchange eph.private eph.public d.signed_prekey.private d.signed_prekey.public pair
          dd.prekey in
      (
        (s1 ++ s2) ++ s3,
        (λ src. rw (offers.prekey, offers.identity, i1, i2, i3) refl),
        λ s. rw (r1, r2, r3) refl,
      )
  secret_agrees a d b eph (some k) (some kp) id da dd offers pair match =
      let (s1, i1, r1) =
        exchange a.identity.dh_private a.identity.dh_public d.signed_prekey.private
          d.signed_prekey.public da.identity dd.prekey in
      let (s2, i2, r2) =
        exchange eph.private eph.public d.identity.dh_private d.identity.dh_public pair
          dd.identity in
      let (s3, i3, r3) =
        exchange eph.private eph.public d.signed_prekey.private d.signed_prekey.public pair
          dd.prekey in
      let (s4, i4, r4) = exchange eph.private eph.public kp.private k.public pair match in
      (
        ((s1 ++ s2) ++ s3) ++ s4,
        (λ src. rw (offers.prekey, offers.identity, i1, i2, i3, i4) refl),
        λ s. rw (r1, r2, r3, r4) refl,
      )
