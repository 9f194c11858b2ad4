-- ===== src/CryptoCore/Ratchet/Sending.antt =====
-- What Encrypt of services/crypto-core/ratchet.go sends within one chain: numbered messages under
-- consecutive message keys.
use secu_msg_server.Common.{
  ℕ, zero, suc, ◌+◌, ◌<◌, ◌≡◌, refl, false, some, List, [], ◌∷◌, arith, length, get_elem?, Action,
  ok, pure, ◌>>=◌, ◌∙◌,
}
use secu_msg_server.Bytes.{Bytes, inc32, uint32_mod}
use secu_msg_server.CryptoCore.Types.{SessionState, MessageHeader, CryptoError}
use secu_msg_server.CryptoCore.Primitives.{Primitives, Laws}
use secu_msg_server.CryptoCore.Random.{Run}
use secu_msg_server.CryptoCore.Ratchet.{
  kdf_chain, encrypt, encrypt_next, next_send_key, is_zero_key, associated_data,
}
use secu_msg_server.CryptoCore.Ratchet.Chain.{
  message_key, message_key-zero, message_key-suc, Opens, Opens-seal, NeverZero,
}

-- The session after one message of its sending chain.
abbrev pub advance_send : Primitives → SessionState → SessionState
advance_send p s = record s {
  send_chain = record { key = (kdf_chain p s.send_chain.key).0; index = inc32 s.send_chain.index };
}

-- The texts sent one after the other.
unfoldable pub encrypt_all :
    Primitives → List Bytes → Action (Run SessionState) CryptoError (List (Bytes × MessageHeader))
encrypt_all p [] = pure []
encrypt_all p (text ∷ texts) = do m ← encrypt p text; ms ← encrypt_all p texts; pure (m ∷ ms)

-- The messages carry the texts, number by number, under the message keys of the chain.
abbrev pub Sent :
    Primitives → Bytes → ℕ → Bytes → List Bytes → List (Bytes × MessageHeader) → Type 0
Sent p dh index ck [] [] = Unit
Sent p dh index ck [] (m ∷ ms) = ⊥
Sent p dh index ck (text ∷ texts) [] = ⊥
Sent p dh index ck (text ∷ texts) ((ct, h) ∷ ms) =
    (h.dh_public ≡ dh)
    × (h.n ≡ index)
    × Opens p (kdf_chain p ck).1 ct h text
    × Sent p dh (index + 1) (kdf_chain p ck).0 texts ms

module _ (p : Primitives) (laws : Laws p) where
  -- A message of the sending chain. The header names the ratchet key and the number of the message,
  -- and the chain advances by one.
  pub encrypt_next_lem :
      (text : Bytes) (r : Run SessionState)
      → (ct : Bytes) × (nonce : Bytes) × (let h : MessageHeader = record {
        dh_public = r.state.ratchet_public;
        pn = r.state.pn;
        n = r.state.send_chain.index;
        nonce = nonce;
      } in
          (encrypt_next p text r ≡ (ok (ct, h), record r { state = advance_send p r.state }))
          × Opens p (kdf_chain p r.state.send_chain.key).1 ct h text)
  unfolding encrypt_next next_send_key
  encrypt_next_lem text r =
      let s = r.state in
      let (key, nonce, params, fits, opens) =
        Opens-seal p laws (kdf_chain p s.send_chain.key).1 text s.ratchet_public s.pn
          s.send_chain.index in
      let h : MessageHeader = record {
        dh_public = s.ratchet_public;
        pn = s.pn;
        n = s.send_chain.index;
        nonce = nonce;
      } in
      (
        p.seal key nonce text (associated_data h),
        nonce,
        (ground (arith, params (record r { state = advance_send p s })), opens),
      )

  -- With a live chain key there is no turn of the ratchet before the message.
  pub encrypt-live :
      (text : Bytes) (r : Run SessionState)
      → is_zero_key r.state.send_chain.key ≡ false
      → encrypt p text r ≡ encrypt_next p text r
  unfolding encrypt
  encrypt-live text r live = rw live

  encrypt_all-cons :
      (text : Bytes) (texts : List Bytes) (r r' r'' : Run SessionState) (m : Bytes × MessageHeader)
      (ms : List (Bytes × MessageHeader))
      → encrypt p text r ≡ (ok m, r')
      → encrypt_all p texts r' ≡ (ok ms, r'')
      → encrypt_all p (text ∷ texts) r ≡ (ok (m ∷ ms), r'')
  unfolding encrypt_all
  encrypt_all-cons text texts r r' r'' m ms h k = ground arith

  -- Texts sent in one chain come out as consecutive messages.
  pub encrypt_all-Sent :
      (texts : List Bytes) (r : Run SessionState) (n : ℕ)
      → r.state.send_chain.index ≡ n
      → NeverZero p (length texts) r.state.send_chain.key
      → n + length texts < uint32_mod
      → (ms : List (Bytes × MessageHeader)) × (r' : Run SessionState) × (encrypt_all p texts r
          ≡ (ok ms, r'))
        × Sent p r.state.ratchet_public n r.state.send_chain.key texts ms
  unfolding encrypt_all
  encrypt_all-Sent [] r n here live fits = ([], r, refl, tt)
  encrypt_all-Sent (text ∷ texts) r n here live fits =
      let (ct, nonce, sent) = encrypt_next_lem text r in
      let next : Run SessionState = record r { state = advance_send p r.state } in
      let (ms, r', rest, all) =
        encrypt_all-Sent texts next (n + 1) (omega arith) live.1 (omega arith) in
      let h : MessageHeader = record {
        dh_public = r.state.ratchet_public;
        pn = r.state.pn;
        n = r.state.send_chain.index;
        nonce = nonce;
      } in
      (
        (ct, h) ∷ ms,
        r',
        encrypt_all-cons text texts r next r' (ct, h) ms (encrypt-live text r live.0 ∙ sent.0) rest,
        (refl, here, sent.1, all),
      )

-- The message at a position carries the text at that position under the position's message key.
pub Sent-get_elem? :
    (p : Primitives) (dh : Bytes) (n : ℕ) (ck : Bytes) (texts : List Bytes)
    (ms : List (Bytes × MessageHeader)) (i : ℕ)
    → Sent p dh n ck texts ms
    → i < length texts
    → (ct : Bytes) × (h : MessageHeader) × (text : Bytes) × (get_elem? ms i ≡ some (ct, h))
      × (get_elem? texts i ≡ some text)
      × (h.dh_public ≡ dh)
      × (h.n ≡ n + i)
      × Opens p (message_key p i ck) ct h text
Sent-get_elem? p dh n ck [] ms i sent lt = absurd (omega arith)
Sent-get_elem? p dh n ck (text ∷ texts) [] i sent lt = absurd sent
Sent-get_elem? p dh n ck (text ∷ texts) ((ct, h) ∷ ms) zero sent lt =
    (ct, h, text, refl, refl, sent.0, omega arith, rw message_key-zero sent.2)
Sent-get_elem? p dh n ck (text ∷ texts) ((ct, h) ∷ ms) (suc i) sent lt =
    let (ct', h', text', em, et, same, number, opens) =
      Sent-get_elem? p dh (n + 1) (kdf_chain p ck).0 texts ms i sent.3 (omega arith) in
    (ct', h', text', em, et, same, omega arith, rw (message_key-suc p i ck) at opens)
