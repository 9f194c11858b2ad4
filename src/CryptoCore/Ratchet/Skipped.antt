-- ===== src/CryptoCore/Ratchet/Skipped.antt =====
-- The store of skipped message keys of services/crypto-core/ratchet.go (storeSkippedKey,
-- consumeSkipped, skippedKey): its names and its bound.
use mathlib.Core.List.{append_cancel_left}
use secu_msg_server.Common.{
  ℕ, [], ◌∷◌, ◌+◌, ◌≤◌, ◌<◌, ◌%◌, ◌≡◌, ◌≢◌, refl, Bool-cases, none, some, inl, inr, Map, lookup,
  insert, delete, list_eq, get_elem?_of_lt, length, arith, leb, lookup-insert_ne, lookup-delete,
  length-delete-lt, length-insert-le, lookup_of_get_elem?,
}
use secu_msg_server.Bytes.{Bytes, array, put_uint32, put_uint32-injective, uint32_mod}
use secu_msg_server.CryptoCore.Types.{SessionState}
use secu_msg_server.CryptoCore.Primitives.{Primitives}
use secu_msg_server.CryptoCore.Ratchet.{
  skipped_key, evict, store_skipped_key, max_skipped_message_keys,
}

-- Two numbers under one ratchet key have different names.
pub skipped_key-ne :
    (dh : Bytes) (i j : ℕ)
    → i < uint32_mod
    → j < uint32_mod
    → i ≢ j
    → skipped_key dh i ≢ skipped_key dh j
unfolding skipped_key
skipped_key-ne dh i j hi hj ne e = ne (
    put_uint32-injective i j hi hj
      (append_cancel_left (array 32 dh) (put_uint32 i) (put_uint32 j) e))

module _ (p : Primitives) where
  evict-delete :
      (m : Map Bytes Bytes)
      → 0 < length m
      → (k : Bytes) × (v : Bytes) × (lookup k m ≡ some v) × (evict p m ≡ delete k m)
  unfolding evict
  evict-delete m full =
      let ((k, v), found) = get_elem?_of_lt m (p.range_start m % length m) (omega arith) in
      let (w, key) = lookup_of_get_elem? k v m (p.range_start m % length m) found in
      (k, w, key, rw (found, evict))

  -- Eviction takes an entry of a full store away.
  length-evict : (m : Map Bytes Bytes) → 0 < length m → length (evict p m) + 1 ≤ length m
  length-evict m full =
      let (k, v, key, e) = evict-delete m full in rw e (length-delete-lt k v m key)

  lookup-evict-none :
      (name : Bytes) (m : Map Bytes Bytes) → lookup name m ≡ none → lookup name (evict p m) ≡ none
  unfolding evict
  lookup-evict-none name [] h = refl
  lookup-evict-none name (x ∷ m) h =
      let (k, v, key, e) = evict-delete (x ∷ m) (omega arith) in
      rw e (ground (arith, lookup-delete k name (x ∷ m)))

  -- The store never holds more than 64 keys.
  pub length-store_skipped_key :
      (dh : Bytes) (index : ℕ) (key : Bytes) (s : SessionState)
      → length s.skipped ≤ max_skipped_message_keys
      → length (store_skipped_key p dh index key s).skipped ≤ max_skipped_message_keys
  unfolding store_skipped_key
  length-store_skipped_key dh index key s h =
      elim (Bool-cases (leb max_skipped_message_keys (length s.skipped))) [
        | inl full ↦ rw full (
            omega (
              arith,
              length-insert-le (skipped_key dh index) key (evict p s.skipped),
              length-evict s.skipped (ground arith),
            ))
        | inr room ↦ rw room (ground (arith, length-insert-le (skipped_key dh index) key s.skipped))
      ]

  -- With room the key is stored and nothing goes.
  pub store_skipped_key_room :
      (dh : Bytes) (index : ℕ) (key : Bytes) (s : SessionState)
      → length s.skipped < max_skipped_message_keys
      → store_skipped_key p dh index key s
        ≡ record s { skipped = insert (skipped_key dh index) key s.skipped }
  unfolding store_skipped_key
  store_skipped_key_room dh index key s h = ground arith

  -- A name that is not in the store is not there after another key has been stored.
  pub lookup-store_skipped_key-none :
      (name dh : Bytes) (index : ℕ) (key : Bytes) (s : SessionState)
      → skipped_key dh index ≢ name
      → lookup name s.skipped ≡ none
      → lookup name (store_skipped_key p dh index key s).skipped ≡ none
  unfolding store_skipped_key
  lookup-store_skipped_key-none name dh index key s ne h =
      elim (Bool-cases (leb max_skipped_message_keys (length s.skipped))) [
        | inl full ↦
            rw (full, lookup-insert_ne (skipped_key dh index) name key (evict p s.skipped) ne)
              (lookup-evict-none name s.skipped h)
        | inr room ↦ rw (room, lookup-insert_ne (skipped_key dh index) name key s.skipped ne) h
      ]
