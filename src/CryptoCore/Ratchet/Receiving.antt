-- ===== src/CryptoCore/Ratchet/Receiving.antt =====
-- Decrypt of services/crypto-core/ratchet.go, branch by branch, for headers of the current ratchet
-- key; and the bound that it keeps on the store in every case.
use secu_msg_server.Common.{
  ℕ, ◌+◌, ◌-◌, ◌≤◌, ◌<◌, ◌≡◌, none, some, Option, lookup, delete, list_eq, length, arith, ap, ◌∙◌,
  ==_refl, ok, err, length-delete-le, Keeps, Keeps->>=, >>=-ok,
}
use secu_msg_server.Bytes.{Bytes, uint32_mod, inc32}
use secu_msg_server.CryptoCore.Types.{SessionState, MessageHeader, duplicate_message}
use secu_msg_server.CryptoCore.Primitives.{Primitives}
use secu_msg_server.CryptoCore.Ratchet.{
  kdf_chain, skipped_key, skip_to, consume_skipped, rotate_ratchet_on_recv, next_recv_key,
  open_message, derive_cipher_params, kdf_root, decrypt_current, decrypt_found, decrypt,
  max_skipped_message_keys,
}
use secu_msg_server.CryptoCore.Ratchet.Chain.{chain_after, message_key, Opens}
use secu_msg_server.CryptoCore.Ratchet.Skipping.{skip_to_lem, skip_to_bound}

-- The session after the message that lies k numbers ahead of the receiving chain.
abbrev pub advance_recv : Primitives → ℕ → ℕ → SessionState → SessionState
advance_recv p k n s = record s {
  recv_chain = record { key = (kdf_chain p (chain_after p k s.recv_chain.key)).0; index = inc32 n };
  skipped = (skip_to p k n s).skipped;
}

-- At most 64 keys are stored.
abbrev pub IsBounded : SessionState → Type 0
IsBounded s = length s.skipped ≤ max_skipped_message_keys

module _ (p : Primitives) where
  -- A header of the current ratchet key turns nothing.
  pub rotate_ratchet_on_recv_same :
      (h : MessageHeader) (s : SessionState)
      → h.dh_public ≡ s.remote_ratchet
      → rotate_ratchet_on_recv p h s ≡ (ok tt, s)
  unfolding rotate_ratchet_on_recv
  rotate_ratchet_on_recv_same h s e = rw (e, ==_refl s.remote_ratchet)

  -- The number of the next message, or a later one: the message opens under its own message key,
  -- the chain moves past it, and the keys that were skipped are stored.
  pub decrypt_ahead :
      (ct : Bytes) (h : MessageHeader) (text : Bytes) (k : ℕ) (s : SessionState)
      → h.dh_public ≡ s.remote_ratchet
      → lookup (skipped_key h.dh_public h.n) s.skipped ≡ none
      → s.recv_chain.index + k ≡ h.n
      → h.n < uint32_mod
      → Opens p (message_key p k s.recv_chain.key) ct h text
      → decrypt p ct h s ≡ (ok text, advance_recv p k h.n s)
  unfolding decrypt decrypt_found consume_skipped decrypt_current next_recv_key message_key
  decrypt_ahead ct h text k s same absent ahead small opens =
      let e : h.n - s.recv_chain.index ≡ k = omega arith in
      let reached = skip_to_lem p k h.n s ahead small in
      ground (
        arith,
        rotate_ratchet_on_recv_same h s same,
        reached,
        ap (λ j. skip_to p j h.n s) e,
        opens (advance_recv p k h.n s),
      )

  -- A number whose key was skipped: the message opens under the stored key, which is used up.
  pub decrypt_skipped :
      (ct : Bytes) (h : MessageHeader) (text mk : Bytes) (s : SessionState)
      → lookup (skipped_key h.dh_public h.n) s.skipped ≡ some mk
      → Opens p mk ct h text
      → decrypt p ct h s
        ≡ (ok text, record s { skipped = delete (skipped_key h.dh_public h.n) s.skipped })
  unfolding decrypt decrypt_found consume_skipped
  decrypt_skipped ct h text mk s found opens =
      ground (arith, opens (record s { skipped = delete (skipped_key h.dh_public h.n) s.skipped }))

  -- A number of the current chain that is past, with no stored key: refused, and nothing changes.
  pub decrypt_duplicate :
      (ct : Bytes) (h : MessageHeader) (s : SessionState)
      → h.dh_public ≡ s.remote_ratchet
      → lookup (skipped_key h.dh_public h.n) s.skipped ≡ none
      → h.n < s.recv_chain.index
      → decrypt p ct h s ≡ (err duplicate_message, s)
  unfolding decrypt decrypt_found consume_skipped decrypt_current
  decrypt_duplicate ct h s same absent past = ground (arith, rotate_ratchet_on_recv_same h s same)

  -- With no skipped key, the ratchet is brought to the header's key first, and then the message is
  -- read as one of the current chain.
  pub decrypt-turn :
      (ct : Bytes) (h : MessageHeader) (s t : SessionState)
      → lookup (skipped_key h.dh_public h.n) s.skipped ≡ none
      → rotate_ratchet_on_recv p h s ≡ (ok tt, t)
      → decrypt p ct h s ≡ decrypt_current p ct h t
  unfolding decrypt decrypt_found consume_skipped
  decrypt-turn ct h s t absent turned =
      >>=-ok (consume_skipped h) (decrypt_found p ct h) s s none (rw (absent, consume_skipped))
      ∙ >>=-ok (rotate_ratchet_on_recv p h) (λ _. decrypt_current p ct h) s t tt turned

  rotate_ratchet_on_recv-Keeps : (h : MessageHeader) → Keeps IsBounded (rotate_ratchet_on_recv p h)
  unfolding rotate_ratchet_on_recv kdf_root
  rotate_ratchet_on_recv-Keeps h s small = ground arith

  open_message-Keeps :
      (mk ct : Bytes) (h : MessageHeader) → Keeps IsBounded (open_message p mk ct h)
  unfolding open_message derive_cipher_params
  open_message-Keeps mk ct h s small = ground arith

  decrypt_current-Keeps :
      (ct : Bytes) (h : MessageHeader) → Keeps IsBounded (decrypt_current p ct h)
  unfolding decrypt_current next_recv_key
  decrypt_current-Keeps ct h s small = ground (
    arith,
    skip_to_bound p (h.n - s.recv_chain.index) h.n s,
    open_message-Keeps (kdf_chain p (skip_to p (h.n - s.recv_chain.index) h.n s).recv_chain.key).1
        ct h
        (record (skip_to p (h.n - s.recv_chain.index) h.n s) {
          recv_chain = record {
            key = (kdf_chain p (skip_to p (h.n - s.recv_chain.index) h.n s).recv_chain.key).0;
            index = inc32 (skip_to p (h.n - s.recv_chain.index) h.n s).recv_chain.index;
          };
        }),
  )

  decrypt_found-Keeps :
      (ct : Bytes) (h : MessageHeader) (found : Option Bytes)
      → Keeps IsBounded (decrypt_found p ct h found)
  unfolding decrypt_found
  decrypt_found-Keeps ct h (some mk) = open_message-Keeps mk ct h
  decrypt_found-Keeps ct h none =
      Keeps->>= IsBounded (rotate_ratchet_on_recv p h) (λ _. decrypt_current p ct h)
        (rotate_ratchet_on_recv-Keeps h) (λ _. decrypt_current-Keeps ct h)

  consume_skipped-Keeps : (h : MessageHeader) → Keeps IsBounded (consume_skipped h)
  unfolding consume_skipped
  consume_skipped-Keeps h s small =
      ground (arith, length-delete-le (skipped_key h.dh_public h.n) s.skipped)

  -- Whatever arrives, and however the call ends, the store holds at most 64 keys afterwards if it
  -- did before.
  pub decrypt_bound :
      (ct : Bytes) (h : MessageHeader) (s : SessionState)
      → length s.skipped ≤ max_skipped_message_keys
      → length (decrypt p ct h s).1.skipped ≤ max_skipped_message_keys
  unfolding decrypt
  decrypt_bound ct h =
      Keeps->>= IsBounded (consume_skipped h) (decrypt_found p ct h) (consume_skipped-Keeps h)
        (decrypt_found-Keeps ct h)
