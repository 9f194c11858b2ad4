-- ===== src/CryptoCore/Ratchet/Skipping.antt =====
-- The loop of Decrypt in services/crypto-core/ratchet.go that skips message keys: it ends at the
-- number in the header, and what it leaves in the store.
use secu_msg_server.Common.{
  ℕ, zero, suc, ◌+◌, ◌≤◌, ◌<◌, ◌≡◌, refl, none, some, lookup, insert, list_eq, length, arith,
  lt→ltb, ap, ◌∙◌, lookup-insert_self, lookup-insert_ne, length-insert-le,
}
use secu_msg_server.Bytes.{uint32_mod, inc32}
use secu_msg_server.CryptoCore.Types.{SessionState}
use secu_msg_server.CryptoCore.Primitives.{Primitives}
use secu_msg_server.CryptoCore.Ratchet.{
  kdf_chain, skipped_key, store_skipped_key, skip_key, skip_to, max_skipped_message_keys,
}
use secu_msg_server.CryptoCore.Ratchet.Chain.{chain_after, message_key}
use secu_msg_server.CryptoCore.Ratchet.Skipped.{
  skipped_key-ne, length-store_skipped_key, store_skipped_key_room, lookup-store_skipped_key-none,
}

module _ (p : Primitives) where
  -- One round moves the receiving chain and the store, and nothing else.
  skip_key_lem :
      (s : SessionState)
      → skip_key p s ≡ record s {
        recv_chain = record {
          key = (kdf_chain p s.recv_chain.key).0;
          index = inc32 s.recv_chain.index;
        };
        skipped =
            (store_skipped_key p s.remote_ratchet s.recv_chain.index
              (kdf_chain p s.recv_chain.key).1
              s).skipped;
      }
  unfolding skip_key store_skipped_key
  skip_key_lem s = refl

  skip_to-suc :
      (k n : ℕ) (s : SessionState)
      → s.recv_chain.index < n
      → skip_to p (suc k) n s ≡ skip_to p k n (skip_key p s)
  unfolding skip_to
  skip_to-suc k n s h = rw (lt→ltb _ _ h, skip_to)

  skip_to-zero : (n : ℕ) (s : SessionState) → skip_to p zero n s ≡ s
  unfolding skip_to
  skip_to-zero n s = refl

  -- With as many rounds as there are numbers to skip, up to a number below 2^32, the loop ends with
  -- the receiving chain at the number. Only that chain and the store have moved.
  pub skip_to_lem :
      (k n : ℕ) (s : SessionState)
      → s.recv_chain.index + k ≡ n
      → n < uint32_mod
      → skip_to p k n s ≡ record s {
        recv_chain = record { key = chain_after p k s.recv_chain.key; index = n };
        skipped = (skip_to p k n s).skipped;
      }
  unfolding chain_after skip_key store_skipped_key
  skip_to_lem zero n s here small =
      let e : s.recv_chain.index ≡ n = omega arith in
      rw skip_to-zero
        (λ i. record s { recv_chain = record { key = s.recv_chain.key; index = e i } })
  skip_to_lem (suc k) n s here small =
      rw (skip_to-suc k n s (omega arith)) (skip_to_lem k n (skip_key p s) (omega arith) small)

  -- The bound on the store is kept.
  pub skip_to_bound :
      (k n : ℕ) (s : SessionState)
      → length s.skipped ≤ max_skipped_message_keys
      → length (skip_to p k n s).skipped ≤ max_skipped_message_keys
  unfolding skip_to skip_key
  skip_to_bound zero n s h = h
  skip_to_bound (suc k) n s h = ground (
    arith,
    skip_to_bound k n (skip_key p s),
    length-store_skipped_key p s.remote_ratchet s.recv_chain.index (kdf_chain p s.recv_chain.key).1
        s,
  )

  -- A number past those that are skipped gets no key.
  pub skip_to_absent :
      (k n j : ℕ) (s : SessionState)
      → s.recv_chain.index + k ≡ n
      → n ≤ j
      → j < uint32_mod
      → lookup (skipped_key s.remote_ratchet j) s.skipped ≡ none
      → lookup (skipped_key s.remote_ratchet j) (skip_to p k n s).skipped ≡ none
  unfolding skip_key store_skipped_key
  skip_to_absent zero n j s here le small h = rw skip_to-zero h
  skip_to_absent (suc k) n j s here le small h = rw (skip_to-suc k n s (omega arith)) (
      skip_to_absent k n j (skip_key p s) (omega arith) le small (
        lookup-store_skipped_key-none p (skipped_key s.remote_ratchet j) s.remote_ratchet
          s.recv_chain.index (kdf_chain p s.recv_chain.key).1 s
          (skipped_key-ne s.remote_ratchet s.recv_chain.index j (omega arith) small (omega arith))
          h))

  -- The store after one round with room.
  skip_key_room :
      (s : SessionState)
      → length s.skipped < max_skipped_message_keys
      → (skip_key p s).skipped
        ≡ insert
            (skipped_key s.remote_ratchet s.recv_chain.index)
            (kdf_chain p s.recv_chain.key).1
            s.skipped
  unfolding skip_key
  skip_key_room s room =
      ap (λ t. t.skipped)
        (store_skipped_key_room p s.remote_ratchet s.recv_chain.index
          (kdf_chain p s.recv_chain.key).1 s room)

  -- Each round with room adds one key at most.
  pub length-skip_to :
      (k n : ℕ) (s : SessionState)
      → s.recv_chain.index + k ≡ n
      → n < uint32_mod
      → length s.skipped + k ≤ max_skipped_message_keys
      → length (skip_to p k n s).skipped ≤ length s.skipped + k
  unfolding skip_key store_skipped_key
  length-skip_to zero n s here small room = rw skip_to-zero (omega arith)
  length-skip_to (suc k) n s here small room =
      let dh = s.remote_ratchet in
      let mk = (kdf_chain p s.recv_chain.key).1 in
      let grown : length (skip_key p s).skipped ≤ length s.skipped + 1 =
        rw (skip_key_room s (omega arith))
          (length-insert-le (skipped_key dh s.recv_chain.index) mk s.skipped) in
      rw (skip_to-suc k n s (omega arith))
        (omega (arith, length-skip_to k n (skip_key p s) (omega arith) small (omega arith)))

  -- A key that is in the store stays there while there is room.
  pub skip_to_keeps :
      (k n j : ℕ) (s : SessionState)
      → s.recv_chain.index + k ≡ n
      → n < uint32_mod
      → j < s.recv_chain.index
      → length s.skipped + k ≤ max_skipped_message_keys
      → lookup (skipped_key s.remote_ratchet j) (skip_to p k n s).skipped
        ≡ lookup (skipped_key s.remote_ratchet j) s.skipped
  unfolding skip_key store_skipped_key skipped_key
  skip_to_keeps zero n j s here small old room = rw skip_to-zero
  skip_to_keeps (suc k) n j s here small old room =
      let dh = s.remote_ratchet in
      let i = s.recv_chain.index in
      let mk = (kdf_chain p s.recv_chain.key).1 in
      let stored = skip_key_room s (omega arith) in
      rw (skip_to-suc k n s (omega arith)) (
        skip_to_keeps k n j (skip_key p s) (omega arith) small (omega arith)
          (rw stored (omega (arith, length-insert-le (skipped_key dh i) mk s.skipped)))
        ∙ ap (lookup (skipped_key dh j)) stored
        ∙ lookup-insert_ne (skipped_key dh i) (skipped_key dh j) mk s.skipped
            (skipped_key-ne dh i j (omega arith) (omega arith) (omega arith)))

  -- With room in the store for all of them, every number that the loop skips on the way to a number
  -- below 2^32 has its message key in the store afterwards.
  pub skip_to_stores :
      (k n i : ℕ) (s : SessionState)
      → s.recv_chain.index + k ≡ n
      → n < uint32_mod
      → i < k
      → length s.skipped + k ≤ max_skipped_message_keys
      → lookup (skipped_key s.remote_ratchet (s.recv_chain.index + i)) (skip_to p k n s).skipped
        ≡ some (message_key p i s.recv_chain.key)
  unfolding skip_key store_skipped_key skipped_key message_key chain_after
  skip_to_stores zero n i s here small lt room = absurd (omega arith)
  skip_to_stores (suc k) n zero s here small lt room =
      let dh = s.remote_ratchet in
      let j = s.recv_chain.index in
      let mk = (kdf_chain p s.recv_chain.key).1 in
      let stored = skip_key_room s (omega arith) in
      let e : j + 0 ≡ j = omega arith in
      rw (e, skip_to-suc k n s (omega arith))
        (skip_to_keeps k n j (skip_key p s) (omega arith) small (omega arith)
            (rw stored (omega (arith, length-insert-le (skipped_key dh j) mk s.skipped)))
          ∙ ap (lookup (skipped_key dh j)) stored
          ∙ lookup-insert_self (skipped_key dh j) mk s.skipped)
  skip_to_stores (suc k) n (suc i) s here small lt room =
      let dh = s.remote_ratchet in
      let j = s.recv_chain.index in
      let mk = (kdf_chain p s.recv_chain.key).1 in
      let stored = skip_key_room s (omega arith) in
      let e : j + suc i ≡ inc32 j + i = omega arith in
      rw (e, skip_to-suc k n s (omega arith))
        (skip_to_stores k n i (skip_key p s) (omega arith) small (omega arith)
          (rw stored (omega (arith, length-insert-le (skipped_key dh j) mk s.skipped))))
