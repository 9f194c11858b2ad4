-- ===== src/CryptoCore/Session/Agreement.antt =====
-- InitSession against AcceptSession of services/crypto-core/session.go: the session that the one
-- opens and the session that the other accepts fit together.
use secu_msg_server.Common.{
  ℕ, ◌≡◌, refl, true, false, none, some, [], Option, Map, delete, nat_eq, get_elem?, arith, ◌∙◌, ok,
}
use secu_msg_server.Bytes.{Bytes, zero_array}
use secu_msg_server.CryptoCore.Types.{
  Device, KeyPair, OneTimeEntry, OneTimePrekey, PrekeyBundle, HandshakeMessage, SessionState,
  initiator, responder,
}
use secu_msg_server.CryptoCore.Primitives.{Primitives, Laws}
use secu_msg_server.CryptoCore.Random.{generate_x25519_key_pair}
use secu_msg_server.CryptoCore.Random.Keys.{generate-IsKeyPair}
use secu_msg_server.CryptoCore.Session.{
  verify_prekey_bundle, derive_shared_secret_initiator, derive_shared_secret_responder,
  derive_initial_keys, init_session, accept_session, take_one_time_key, otk_id,
}
use secu_msg_server.CryptoCore.Session.Handshake.{
  IsDevice, Offers, Holds, verify_own, handshake, Matching, secret_agrees,
}
use secu_msg_server.CryptoCore.Ratchet.{is_zero_key}
use secu_msg_server.CryptoCore.Ratchet.AnyOrder.{InSync}
use secu_msg_server.CryptoCore.Ratchet.Turn.{CanTurn}

-- The session that the initiator opens with an ephemeral key pair and the derived keys.
abbrev opened : PrekeyBundle → KeyPair → Option ℕ → Bytes → Bytes → SessionState
opened b eph id root chain = record {
  root_key = root;
  send_chain = record { key = chain; index = 0 };
  recv_chain = record { key = zero_array 32; index = 0 };
  ratchet_private = eph.private;
  ratchet_public = eph.public;
  remote_ratchet = b.signed_prekey;
  remote_identity = b.identity_key;
  remote_signature = b.identity_signature_key;
  pn = 0;
  role = initiator;
  pending_prekey = id;
  skipped = [];
}

abbrev accepted : Device → HandshakeMessage → Bytes → Bytes → SessionState
accepted d msg root chain = record {
  root_key = root;
  send_chain = record { key = zero_array 32; index = 0 };
  recv_chain = record { key = chain; index = 0 };
  ratchet_private = d.signed_prekey.private;
  ratchet_public = d.signed_prekey.public;
  remote_ratchet = msg.ephemeral_key;
  remote_identity = msg.identity_key;
  remote_signature = msg.identity_signature_key;
  pn = 0;
  role = responder;
  pending_prekey = msg.one_time_prekey_id;
  skipped = [];
}

module _ (p : Primitives) (laws : Laws p) where
  -- The one-time prekey that the initiator took is found, and is gone afterwards.
  take_held :
      (d : Device) (otk : Option OneTimePrekey)
      → ((k : OneTimePrekey) → otk ≡ some k → Holds p d k)
      → (held : Option KeyPair) × (left : Map ℕ OneTimeEntry) × Matching p laws otk held
        × (take_one_time_key (otk_id otk) d ≡ (ok held, record d { one_time = left }))
  unfolding take_one_time_key
  take_held d none has = (none, d.one_time, tt, refl)
  take_held d (some k) has =
      let (entry, found, pair) = has k refl in
      (some entry.key, delete k.id d.one_time, pair, rw (found, take_one_time_key) refl)

  init_lem :
      (a : Device) (b : PrekeyBundle) (src rest : Bytes) (eph : KeyPair) (secret : Bytes)
      → verify_prekey_bundle p b src ≡ (ok tt, src)
      → generate_x25519_key_pair p src ≡ (ok eph, rest)
      → derive_shared_secret_initiator p a b eph (get_elem? b.one_time_prekeys 0) rest
        ≡ (ok secret, rest)
      → let id = otk_id (get_elem? b.one_time_prekeys 0) in
        let (root, chain) = derive_initial_keys p secret in
        init_session p a b src ≡ (ok (opened b eph id root chain, handshake p laws a eph id), rest)
  unfolding init_session
  init_lem a b src rest eph secret verified made derived = ground arith

  accept_lem :
      (d d' : Device) (msg : HandshakeMessage) (held : Option KeyPair) (secret : Bytes)
      → take_one_time_key msg.one_time_prekey_id d ≡ (ok held, d')
      → derive_shared_secret_responder p d' msg held d' ≡ (ok secret, d')
      → let (root, chain) = derive_initial_keys p secret in
        accept_session p msg d ≡ (ok (accepted d' msg root chain), d')
  unfolding accept_session
  accept_lem d d' msg held secret taken derived = ground arith

  -- The one-time prekeys have no part in the responder's exchanges but through the held key.
  derive_responder_left :
      (d : Device) (left : Map ℕ OneTimeEntry) (msg : HandshakeMessage) (held : Option KeyPair)
      (s : Device)
      → derive_shared_secret_responder p (record d { one_time = left }) msg held s
        ≡ derive_shared_secret_responder p d msg held s
  unfolding derive_shared_secret_responder
  derive_responder_left d left msg held s = refl

  -- A device with a bundle that the other device offers: if it can make an ephemeral key pair,
  -- `InitSession` succeeds, and `AcceptSession` of its message succeeds at the other device. The
  -- two sessions have one root key, are in sync from the initiator to the responder, and the
  -- responder has no sending chain and can turn the ratchet towards the initiator (if the
  -- ephemeral key is not zero). Neither has a skipped key.
  pub handshake_agrees :
      (a d : Device) (b : PrekeyBundle) (src : Bytes) (eph : KeyPair) (rest : Bytes)
      → IsDevice p a
      → IsDevice p d
      → Offers p d b
      → generate_x25519_key_pair p src ≡ (ok eph, rest)
      → is_zero_key eph.public ≡ false
      → (sa : SessionState) × (msg : HandshakeMessage) × (sd : SessionState) × (d' : Device)
        × (init_session p a b src ≡ (ok (sa, msg), rest))
        × (accept_session p msg d ≡ (ok sd, d'))
        × InSync sa sd
        × CanTurn p sd sa
        × (sa.remote_ratchet ≡ sd.ratchet_public)
        × (is_zero_key sd.send_chain.key ≡ true)
        × (sa.skipped ≡ [])
        × (sd.skipped ≡ [])
  unfolding is_zero_key
  handshake_agrees a d b src eph rest da dd offers made live =
      let otk = get_elem? b.one_time_prekeys 0 in
      let pair = generate-IsKeyPair p laws src rest eph made in
      let (held, left, match, taken) = take_held d otk offers.first in
      let d' : Device = record d { one_time = left } in
      let msg = handshake p laws a eph (otk_id otk) in
      let (secret, ours, theirs) =
        secret_agrees p laws a d b eph otk held (otk_id otk) da dd offers pair match in
      let (root, chain) = derive_initial_keys p secret in
      (
        opened b eph (otk_id otk) root chain,
        msg,
        accepted d' msg root chain,
        d',
        init_lem a b src rest eph secret (verify_own p laws d b src dd offers) made (ours rest),
        accept_lem d d' msg held secret taken
            (derive_responder_left d left msg held d' ∙ theirs d'),
        record { ratchet = refl; key = refl; index = refl },
        record { root = refl; remote = refl; pair = pair; live = live },
        offers.prekey,
        refl,
        refl,
        refl,
      )
