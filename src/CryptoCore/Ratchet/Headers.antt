-- ===== src/CryptoCore/Ratchet/Headers.antt =====
-- The bytes that stand for a header in services/crypto-core/ratchet.go: the associated data of a
-- message, and the name of a skipped key.
use secu_msg_server.Common.{
  ℕ, ◌<◌, ◌≡◌, refl, length, arith, sym, ◌∙◌, append_split, ◌++◌, length-append,
}
use secu_msg_server.Bytes.{
  Bytes, array, array_self, length-array, put_uint32, put_uint32-injective, uint32_mod,
}
use secu_msg_server.CryptoCore.Types.{MessageHeader}
use secu_msg_server.CryptoCore.Ratchet.{associated_data, skipped_key}

-- Arrays of 32 bytes before equal rests.
array_split :
    (a b c d : Bytes)
    → length a ≡ 32
    → length b ≡ 32
    → array 32 a ++ c ≡ array 32 b ++ d
    → (a ≡ b) × (c ≡ d)
array_split a b c d la lb e =
    let (first, rest) =
      append_split (array 32 a) (array 32 b) c d (length-array 32 a ∙ sym (length-array 32 b)) e in
    (sym (array_self 32 a la) ∙ first ∙ array_self 32 b lb, rest)

-- For headers with 32-byte ratchet keys and numbers below 2^32: the associated data is 40 bytes, and
-- determines the ratchet key, the length of the previous chain and the number of the message.
pub associated_data-injective :
    (h h' : MessageHeader)
    → length h.dh_public ≡ 32
    → length h'.dh_public ≡ 32
    → h.pn < uint32_mod
    → h'.pn < uint32_mod
    → h.n < uint32_mod
    → h'.n < uint32_mod
    → associated_data h ≡ associated_data h'
    → (length (associated_data h) ≡ 40)
      × (h.dh_public ≡ h'.dh_public)
      × (h.pn ≡ h'.pn)
      × (h.n ≡ h'.n)
unfolding associated_data
associated_data-injective h h' la lb p p' n n' e =
    let (dh, rest) =
      array_split h.dh_public h'.dh_public (put_uint32 h.pn ++ put_uint32 h.n)
        (put_uint32 h'.pn ++ put_uint32 h'.n) la lb e in
    let (pn, num) =
      append_split (put_uint32 h.pn) (put_uint32 h'.pn) (put_uint32 h.n) (put_uint32 h'.n) refl
        rest in
    (
      omega (
        arith,
        length-append (array 32 h.dh_public) (put_uint32 h.pn ++ put_uint32 h.n),
        length-array 32 h.dh_public,
      ),
      dh,
      put_uint32-injective h.pn h'.pn p p' pn,
      put_uint32-injective h.n h'.n n n' num,
    )

-- The name of a skipped key determines the 32-byte ratchet key and the number below 2^32.
pub skipped_key-injective :
    (a b : Bytes) (i j : ℕ)
    → length a ≡ 32
    → length b ≡ 32
    → i < uint32_mod
    → j < uint32_mod
    → skipped_key a i ≡ skipped_key b j
    → (a ≡ b) × (i ≡ j)
unfolding skipped_key
skipped_key-injective a b i j la lb hi hj e =
    let (dh, rest) = array_split a b (put_uint32 i) (put_uint32 j) la lb e in
    (dh, put_uint32-injective i j hi hj rest)
