-- ===== src/CryptoCore/Ratchet/Turn.antt =====
-- A turn of the Diffie-Hellman ratchet of services/crypto-core/ratchet.go: what RotateRatchetOnSend
-- derives on one side, RotateRatchetOnRecv derives on the other.
use secu_msg_server.Common.{
  ◌≤◌, ◌≡◌, ◌≢◌, refl, true, false, none, some, lookup, list_eq, length, arith, ap, sym, ◌∙◌, ok,
  drop, ==_of_ne, >>=-ok,
}
use secu_msg_server.Bytes.{Bytes, zero_array}
use secu_msg_server.CryptoCore.Types.{KeyPair, SessionState, MessageHeader}
use secu_msg_server.CryptoCore.Primitives.{Primitives, Laws}
use secu_msg_server.CryptoCore.Random.{Run, generate_x25519_key_pair}
use secu_msg_server.CryptoCore.Random.Keys.{IsKeyPair, generate_total}
use secu_msg_server.CryptoCore.Ratchet.{
  kdf_root, is_zero_key, rotate_ratchet_on_send, rotate_ratchet_on_recv, encrypt, encrypt_next,
  decrypt, hkdf_info_ratchet, skipped_key,
}
use secu_msg_server.CryptoCore.Ratchet.Chain.{chain_after, message_key-zero}
use secu_msg_server.CryptoCore.Ratchet.Sending.{advance_send, encrypt_next_lem}
use secu_msg_server.CryptoCore.Ratchet.Receiving.{
  advance_recv, decrypt_ahead, decrypt-turn, rotate_ratchet_on_recv_same,
}
use secu_msg_server.CryptoCore.Ratchet.AnyOrder.{InSync}

-- Two ends of a session that can turn the ratchet from a to b: they share the root key, and what a
-- holds for the remote ratchet key is the public value of b's ratchet scalar.
pub record CanTurn (p : Primitives) (a b : SessionState) : Type 0 where
  pub root : a.root_key ≡ b.root_key
  pub remote : a.remote_ratchet ≡ b.ratchet_public
  pub pair : IsKeyPair p b.ratchet_private b.ratchet_public
  pub live : is_zero_key a.remote_ratchet ≡ false

module _ (p : Primitives) (laws : Laws p) where
  kdf_root_total :
      (root dh : Bytes)
      → (r : Bytes) × (c : Bytes) × (p.hkdf_read dh root hkdf_info_ratchet 0 32 ≡ some r)
        × (p.hkdf_read dh root hkdf_info_ratchet 32 32 ≡ some c)
  kdf_root_total root dh =
      let (r, er, _) = laws.hkdf_total dh root hkdf_info_ratchet 0 32 (omega arith) in
      let (c, ec, _) = laws.hkdf_total dh root hkdf_info_ratchet 32 32 (omega arith) in
      (r, c, er, ec)

  -- The sender after a turn.
  abbrev turned : Run SessionState → KeyPair → Bytes → Bytes → Run SessionState
  turned r kp root send = record {
    state = record r.state {
      root_key = root;
      pn = r.state.send_chain.index;
      send_chain = record { key = send; index = 0 };
      ratchet_private = kp.private;
      ratchet_public = kp.public;
    };
    random = drop 32 r.random;
  }

  -- What a turn at the sender computes.
  turn_parts :
      (r : Run SessionState) (b : SessionState)
      → CanTurn p r.state b
      → 32 ≤ length r.random
      → (kp : KeyPair) × (dh : Bytes) × (root : Bytes) × (send : Bytes) × IsKeyPair p kp.private
          kp.public
        × (generate_x25519_key_pair p r.random ≡ (ok kp, drop 32 r.random))
        × (p.x25519 kp.private b.ratchet_public ≡ some dh)
        × (p.hkdf_read dh r.state.root_key hkdf_info_ratchet 0 32 ≡ some root)
        × (p.hkdf_read dh r.state.root_key hkdf_info_ratchet 32 32 ≡ some send)
        × (rotate_ratchet_on_send p r ≡ (ok tt, turned r kp root send))
  unfolding rotate_ratchet_on_send kdf_root
  turn_parts r b can enough =
      let (kp, made, pair) = generate_total p laws r.random enough in
      let (dh, edh, _) = laws.x25519_public kp.private b.ratchet_private pair.size can.pair.value in
      let (root, send, er, es) = kdf_root_total r.state.root_key dh in
      (kp, dh, root, send, pair, made, edh, er, es, ground arith)

  -- The receiver after a turn.
  abbrev received : SessionState → MessageHeader → Bytes → Bytes → SessionState
  received b h root recv = record b {
    root_key = root;
    remote_ratchet = h.dh_public;
    recv_chain = record { key = recv; index = 0 };
    send_chain = record { key = zero_array 32; index = 0 };
    pn = h.pn;
  }

  receive_parts :
      (b : SessionState) (h : MessageHeader) (dh root recv : Bytes)
      → h.dh_public ≢ b.remote_ratchet
      → p.x25519 b.ratchet_private h.dh_public ≡ some dh
      → p.hkdf_read dh b.root_key hkdf_info_ratchet 0 32 ≡ some root
      → p.hkdf_read dh b.root_key hkdf_info_ratchet 32 32 ≡ some recv
      → rotate_ratchet_on_recv p h b ≡ (ok tt, received b h root recv)
  unfolding rotate_ratchet_on_recv kdf_root
  receive_parts b h dh root recv new edh er es =
      rw (==_of_ne h.dh_public b.remote_ratchet new) (ground arith)

  -- Both halves of a turn.
  both_turn :
      (r : Run SessionState) (b : SessionState)
      → CanTurn p r.state b
      → 32 ≤ length r.random
      → (kp : KeyPair) × (root : Bytes) × (chain : Bytes) × IsKeyPair p kp.private kp.public
        × (generate_x25519_key_pair p r.random ≡ (ok kp, drop 32 r.random))
        × (rotate_ratchet_on_send p r ≡ (ok tt, turned r kp root chain))
        × ((h : MessageHeader)
            → h.dh_public ≡ kp.public
            → h.dh_public ≢ b.remote_ratchet
            → rotate_ratchet_on_recv p h b ≡ (ok tt, received b h root chain))
  both_turn r b can enough =
      let (kp, dh, root, chain, pair, made, edh, er, es, done) = turn_parts r b can enough in
      (
        kp,
        root,
        chain,
        pair,
        made,
        done,
        λ h carried new.
            receive_parts b h dh root chain new
              (ap (p.x25519 b.ratchet_private) carried
                ∙ sym (laws.x25519_comm kp.private b.ratchet_private pair.value can.pair.value)
                ∙ edh)
              (ap (λ x. p.hkdf_read dh x hkdf_info_ratchet 0 32) (sym can.root) ∙ er)
              (ap (λ x. p.hkdf_read dh x hkdf_info_ratchet 32 32) (sym can.root) ∙ es),
      )

  generated_once :
      (r : Run SessionState) (kp kp' : KeyPair) (rest : Bytes)
      → generate_x25519_key_pair p r.random ≡ (ok kp, rest)
      → generate_x25519_key_pair p r.random ≡ (ok kp', drop 32 r.random)
      → kp' ≡ kp
  generated_once r kp kp' rest h k = cc

  -- Where the two ends can turn the ratchet and the sender has 32 bytes of randomness, the sender's
  -- turn succeeds. If its new ratchet key is not the one that the receiver holds, a header with
  -- that key turns the ratchet at the receiver: then both have one root key, the receiving chain
  -- is the sending chain, the receiver's next message turns the ratchet the other way, the new
  -- ratchet key is a key pair's, and the store of skipped keys is what it was.
  pub turn_agrees :
      (r : Run SessionState) (b : SessionState) (h : MessageHeader) (kp : KeyPair) (rest : Bytes)
      → CanTurn p r.state b
      → 32 ≤ length r.random
      → generate_x25519_key_pair p r.random ≡ (ok kp, rest)
      → h.dh_public ≡ kp.public
      → h.dh_public ≢ b.remote_ratchet
      → (r' : Run SessionState) × (b' : SessionState) × (rotate_ratchet_on_send p r ≡ (ok tt, r'))
        × (rotate_ratchet_on_recv p h b ≡ (ok tt, b'))
        × InSync r'.state b'
        × (r'.state.root_key ≡ b'.root_key)
        × (r'.state.ratchet_public ≡ b'.remote_ratchet)
        × IsKeyPair p r'.state.ratchet_private r'.state.ratchet_public
        × (is_zero_key b'.send_chain.key ≡ true)
        × (b'.skipped ≡ b.skipped)
  unfolding is_zero_key
  turn_agrees r b h kp rest can enough made carried new =
      let (kp', root, chain, pair, made', sent, receives) = both_turn r b can enough in
      let same = generated_once r kp kp' rest made made' in
      let carried' : h.dh_public ≡ kp'.public = carried ∙ ap (λ k. k.public) (sym same) in
      (
        turned r kp' root chain,
        received b h root chain,
        sent,
        receives h carried' new,
        record { ratchet = carried'; key = refl; index = refl },
        refl,
        sym carried',
        pair,
        refl,
        refl,
      )

  -- Without a sending chain the ratchet is turned before the message.
  encrypt-turn :
      (text : Bytes) (r r' : Run SessionState)
      → is_zero_key r.state.send_chain.key ≡ true
      → rotate_ratchet_on_send p r ≡ (ok tt, r')
      → encrypt p text r ≡ encrypt_next p text r'
  unfolding encrypt
  encrypt-turn text r r' silent turn =
      rw silent (>>=-ok (rotate_ratchet_on_send p) (λ _. encrypt_next p text) r r' tt turn)

  -- The first message of a turn: where the two ends share the root key, the sender's remote
  -- ratchet key is the public half of the receiver's ratchet key pair and is not zero, the
  -- sender's sending chain key is zero, the sender has 32 bytes of randomness, and the ratchet
  -- key that it generates is neither the one that the receiver holds nor one that the receiver
  -- has a skipped key for under the number 0: Encrypt succeeds and Decrypt at the other end
  -- gives the text. Afterwards the ends are in sync and share the root key. The primitives
  -- behave as documented.
  pub reply_decrypts :
      (text : Bytes) (r : Run SessionState) (b : SessionState) (kp : KeyPair) (rest : Bytes)
      → CanTurn p r.state b
      → is_zero_key r.state.send_chain.key ≡ true
      → 32 ≤ length r.random
      → generate_x25519_key_pair p r.random ≡ (ok kp, rest)
      → kp.public ≢ b.remote_ratchet
      → lookup (skipped_key kp.public 0) b.skipped ≡ none
      → (ct : Bytes) × (h : MessageHeader) × (r' : Run SessionState) × (b' : SessionState)
        × (encrypt p text r ≡ (ok (ct, h), r'))
        × (decrypt p ct h b ≡ (ok text, b'))
        × InSync r'.state b'
        × (r'.state.root_key ≡ b'.root_key)
  unfolding chain_after
  reply_decrypts text r b kp rest can silent enough made new absent =
      let (kp', root, chain, pair, made', sent, receives) = both_turn r b can enough in
      let same : kp'.public ≡ kp.public =
        ap (λ k. k.public) (generated_once r kp kp' rest made made') in
      let (ct, nonce, encrypted) = encrypt_next_lem p laws text (turned r kp' root chain) in
      let h : MessageHeader = record {
        dh_public = kp'.public;
        pn = r.state.send_chain.index;
        n = 0;
        nonce = nonce;
      } in
      let b₁ : SessionState = received b h root chain in
      let absent' : lookup (skipped_key h.dh_public h.n) b.skipped ≡ none =
        ap (λ x. lookup (skipped_key x 0) b.skipped) same ∙ absent in
      (
        ct,
        h,
        record (turned r kp' root chain) { state = advance_send p (turned r kp' root chain).state },
        advance_recv p 0 0 b₁,
        encrypt-turn text r (turned r kp' root chain) silent sent ∙ encrypted.0,
        decrypt-turn p ct h b b₁ absent' (receives h refl (λ e. new (sym same ∙ e)))
            ∙ sym (decrypt-turn p ct h b₁ b₁ absent' (rotate_ratchet_on_recv_same p h b₁ refl))
            ∙ decrypt_ahead p ct h text 0 b₁ refl absent' (omega arith) (omega arith)
                (rw message_key-zero encrypted.1),
        record { ratchet = refl; key = refl; index = refl },
        refl,
      )
