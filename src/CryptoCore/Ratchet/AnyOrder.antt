-- ===== src/CryptoCore/Ratchet/AnyOrder.antt =====
-- A whole conversation in one direction of services/crypto-core/ratchet.go: texts that are sent in
-- one chain are received in any order of delivery.
use secu_msg_server.Common.{
  ℕ, ◌+◌, ◌≤◌, ◌<◌, ◌≡◌, refl, none, some, List, [], ◌∷◌, map, get_elem?, lookup, list_eq, length,
  arith, ap, sym, ◌∙◌, ok, pure, ◌>>=◌, Action, or_raise,
}
use secu_msg_server.Bytes.{Bytes, uint32_mod}
use secu_msg_server.CryptoCore.Types.{SessionState, MessageHeader, CryptoError, decryption_failed}
use secu_msg_server.CryptoCore.Primitives.{Primitives, Laws}
use secu_msg_server.CryptoCore.Random.{Run}
use secu_msg_server.CryptoCore.Ratchet.{skipped_key, decrypt, max_skipped_message_keys}
use secu_msg_server.CryptoCore.Ratchet.Chain.{chain_after, NeverZero}
use secu_msg_server.CryptoCore.Ratchet.Sending.{Sent, Sent-get_elem?, encrypt_all, encrypt_all-Sent}
use secu_msg_server.CryptoCore.Ratchet.Delivery.{
  Receives, AllAwait, NotIn, AllAwait-mono, Delivers-all,
}

-- The messages at the given positions, received in that order.
unfoldable pub deliver :
    Primitives
    → List (Bytes × MessageHeader)
    → List ℕ
    → Action SessionState CryptoError (List Bytes)
deliver p ms [] = pure []
deliver p ms (i ∷ order) = do
  (ct, h) ← or_raise (get_elem? ms i) decryption_failed
  text ← decrypt p ct h
  texts ← deliver p ms order
  pure (text ∷ texts)

abbrev pub Distinct : List ℕ → Type 0
Distinct [] = Unit
Distinct (i ∷ js) = NotIn i js × Distinct js

abbrev pub Below : ℕ → List ℕ → Type 0
Below n [] = Unit
Below n (i ∷ is) = (i < n) × Below n is

-- The receiving chain of one session is the sending chain of the other.
pub record InSync (a b : SessionState) : Type 0 where
  pub ratchet : b.remote_ratchet ≡ a.ratchet_public
  pub key : b.recv_chain.key ≡ a.send_chain.key
  pub index : b.recv_chain.index ≡ a.send_chain.index

-- No key is stored for a number that the receiving chain has not reached.
abbrev pub IsFresh : SessionState → Type 0
IsFresh s =
    (j : ℕ)
    → s.recv_chain.index ≤ j
    → j < uint32_mod
    → lookup (skipped_key s.remote_ratchet j) s.skipped ≡ none

module _ (p : Primitives) where
  deliver-cons :
      (ms : List (Bytes × MessageHeader)) (i : ℕ) (order : List ℕ) (ct : Bytes) (h : MessageHeader)
      (text : Bytes) (texts : List Bytes) (s s' s'' : SessionState)
      → get_elem? ms i ≡ some (ct, h)
      → decrypt p ct h s ≡ (ok text, s')
      → deliver p ms order s' ≡ (ok texts, s'')
      → deliver p ms (i ∷ order) s ≡ (ok (text ∷ texts), s'')
  unfolding deliver
  deliver-cons ms i order ct h text texts s s' s'' e d rest = ground arith

  deliver_all :
      (dh : Bytes) (n : ℕ) (ck : Bytes) (texts : List Bytes) (ms : List (Bytes × MessageHeader))
      (order : List ℕ) (m : ℕ) (s : SessionState)
      → Sent p dh n ck texts ms
      → Receives p dh n ck (length texts) m s
      → AllAwait p dh n ck (length texts) m s.skipped order
      → Distinct order
      → (out : List Bytes) × (s' : SessionState) × (deliver p ms order s ≡ (ok out, s'))
        × (map some out ≡ map (get_elem? texts) order)
  unfolding deliver
  deliver_all dh n ck texts ms [] m s sent r all distinct = ([], s, refl, refl)
  deliver_all dh n ck texts ms (i ∷ order) m s sent r all distinct =
      let (ct, h, text, em, et, same, number, opens) =
        Sent-get_elem? p dh n ck texts ms i sent all.0 in
      let (m', s', done, r', later) =
        Delivers-all p dh n ck (length texts) m i ct h text s all.0 r all.1 same number opens in
      let (out, s'', rest, content) =
        deliver_all dh n ck texts ms order m' s' sent r'
          (AllAwait-mono p dh n ck (length texts) m m' s.skipped s'.skipped i order later distinct.0
            all.2)
          distinct.1 in
      (
        text ∷ out,
        s'',
        deliver-cons ms i order ct h text out s s' s'' em done rest,
        rw (et, content),
      )

  -- At the start nothing of the chain is stored.
  AllAwait-start :
      (a b : SessionState) (total : ℕ) (order : List ℕ)
      → InSync a b
      → IsFresh b
      → a.send_chain.index + total < uint32_mod
      → Below total order
      → AllAwait p a.ratchet_public a.send_chain.index a.send_chain.key total 0 b.skipped order
  AllAwait-start a b total [] sync fresh small below = tt
  AllAwait-start a b total (i ∷ order) sync fresh small below = (
    below.0,
    record {
      stored = λ h. absurd (omega arith);
      absent = λ _.
          ap (λ d. lookup (skipped_key d (a.send_chain.index + i)) b.skipped) (sym sync.ratchet)
          ∙ fresh (a.send_chain.index + i) (omega (arith, sync.index)) (omega (arith, below.0));
    },
    AllAwait-start a b total order sync fresh small below.1,
  )

module _ (p : Primitives) (laws : Laws p) where
  -- Take two sessions in sync, where the receiver has stored no key for a number to come. Texts
  -- that are sent one after the other in one chain (no chain key on the way is zero, and the
  -- numbers stay below 2^32) are all encrypted, and whichever of the messages arrive, in whatever
  -- order, each once, every one is decrypted to its text, as long as the store has room for
  -- one key for each text.
  pub delivered_in_any_order :
      (texts : List Bytes) (order : List ℕ) (r : Run SessionState) (b : SessionState)
      → InSync r.state b
      → IsFresh b
      → NeverZero p (length texts) r.state.send_chain.key
      → r.state.send_chain.index + length texts < uint32_mod
      → length b.skipped + length texts ≤ max_skipped_message_keys
      → Below (length texts) order
      → Distinct order
      → (ms : List (Bytes × MessageHeader)) × (r' : Run SessionState) × (out : List Bytes)
        × (b' : SessionState) × (encrypt_all p texts r ≡ (ok ms, r'))
        × (deliver p ms order b ≡ (ok out, b'))
        × (map some out ≡ map (get_elem? texts) order)
  unfolding chain_after
  delivered_in_any_order texts order r b sync fresh live small room below distinct =
      let a = r.state in
      let (ms, r', encrypted, sent) =
        encrypt_all-Sent p laws texts r a.send_chain.index refl live small in
      let start : Receives p a.ratchet_public a.send_chain.index a.send_chain.key (length texts) 0
          b =
        record {
          ratchet = sync.ratchet;
          index = omega (arith, sync.index);
          key = sync.key;
          within = omega arith;
          fits = small;
          room = omega arith;
        } in
      let (out, b', delivered, content) =
        deliver_all p a.ratchet_public a.send_chain.index a.send_chain.key texts ms order 0 b sent
          start (AllAwait-start p a b (length texts) order sync fresh small below) distinct in
      (ms, r', out, b', encrypted, delivered, content)
