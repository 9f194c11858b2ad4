-- ===== src/CryptoCore/Random/Keys.antt =====
-- The key pairs that generateX25519KeyPair of services/crypto-core/core.go makes.
use secu_msg_server.Common.{
  le→leb, leb→le, false, [], ℕ, ◌≤◌, ◌≡◌, some, length, take, drop, arith, leb, Bool-cases, inl,
  inr, ok, err, length-take,
}
use secu_msg_server.Bytes.{Bytes, array_self, clamp, length-clamp}
use secu_msg_server.CryptoCore.Types.{KeyPair, random_failed}
use secu_msg_server.CryptoCore.Primitives.{Primitives, Laws}
use secu_msg_server.CryptoCore.Random.{read_random, generate_x25519_key_pair}

-- A scalar of 32 bytes with its public value.
pub record IsKeyPair (p : Primitives) (private public : Bytes) : Type 0 where
  pub size : length private ≡ 32
  pub value : p.x25519 private p.basepoint ≡ some public
  pub public_size : length public ≡ 32

-- A source that holds enough bytes gives them.
pub read_random_total :
    (n : ℕ) (src : Bytes) → n ≤ length src → read_random n src ≡ (ok (take n src), drop n src)
unfolding read_random
read_random_total n src h = rw (le→leb n (length src) h)

-- A source that holds too few does not.
pub read_random_short :
    (n : ℕ) (src : Bytes) → leb n (length src) ≡ false → read_random n src ≡ (err random_failed, [])
unfolding read_random
read_random_short n src h = rw h

module _ (p : Primitives) (laws : Laws p) where
  -- With 32 bytes of randomness the call succeeds, uses exactly those, and the pair is one.
  pub generate_total :
      (src : Bytes)
      → 32 ≤ length src
      → (kp : KeyPair) × (generate_x25519_key_pair p src ≡ (ok kp, drop 32 src))
        × IsKeyPair p kp.private kp.public
  unfolding generate_x25519_key_pair
  generate_total src enough =
      let size : length (clamp (take 32 src)) ≡ 32 =
        omega (arith, length-clamp (take 32 src), length-take 32 src) in
      let (public, value, public_size) = laws.x25519_base (clamp (take 32 src)) size in
      (
        record { private = clamp (take 32 src); public = public },
        ground (arith, read_random_total 32 src enough, array_self 32 public public_size),
        record { size = size; value = value; public_size = public_size },
      )

  -- What the call returns is a key pair.
  pub generate-IsKeyPair :
      (src rest : Bytes) (kp : KeyPair)
      → generate_x25519_key_pair p src ≡ (ok kp, rest)
      → IsKeyPair p kp.private kp.public
  unfolding generate_x25519_key_pair
  generate-IsKeyPair src rest kp h = elim (Bool-cases (leb 32 (length src))) [
    | inl enough ↦
        let (kp', made, pair) = generate_total src (leb→le 32 (length src) enough) in
        let same : kp' ≡ kp = cc in rw same at pair
    | inr short ↦ absurd (ground (arith, read_random_short 32 src short))
  ]
