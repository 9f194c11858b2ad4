-- ===== src/CryptoCore/Primitives.antt =====
-- The cryptography that services/crypto-core calls and does not implement (crypto/ed25519,
-- crypto/sha512, crypto/hmac, and of golang.org/x/crypto curve25519, hkdf and chacha20poly1305),
-- with the order in which the Go runtime ranges over a map. `Laws` states what the documentation
-- of those packages promises and the theorems use.
use secu_msg_server.Common.{ℕ, ◌+◌, ◌≤◌, Bool, true, Option, some, ◌≡◌, Map, length}
use secu_msg_server.Bytes.{Bytes}

pub record Primitives : Type 0 where
  -- curve25519.X25519(scalar, point); none is its error (a point of low order).
  pub x25519 : Bytes → Bytes → Option Bytes
  pub basepoint : Bytes
  -- ed25519.NewKeyFromSeed, PrivateKey.Public, PrivateKey.Seed, Sign and Verify.
  pub key_from_seed : Bytes → Bytes
  pub public_of : Bytes → Bytes
  pub seed_of : Bytes → Bytes
  pub sign : Bytes → Bytes → Bytes
  pub verify : Bytes → Bytes → Bytes → Bool
  pub sha512 : Bytes → Bytes
  -- HMAC-SHA256 of a key and a message.
  pub hmac_sha256 : Bytes → Bytes → Bytes
  -- hkdf.New(sha256.New, secret, salt, info), read at an offset for a number of bytes.
  pub hkdf_read : Bytes → Bytes → Bytes → ℕ → ℕ → Option Bytes
  -- chacha20poly1305.New succeeds at the key; Seal and Open take key, nonce, text and data.
  pub aead_new : Bytes → Bool
  pub seal : Bytes → Bytes → Bytes → Bytes → Bytes
  pub unseal : Bytes → Bytes → Bytes → Bytes → Option Bytes
  -- The position of the entry at which `range` over the map starts.
  pub range_start : Map Bytes Bytes → ℕ

-- What the packages document.
pub record Laws (p : Primitives) : Type 0 where
  -- Diffie-Hellman: two scalars and each other's public values give one secret.
  pub x25519_comm :
      (a b : Bytes) {a' b' : Bytes}
      → p.x25519 a p.basepoint ≡ some a'
      → p.x25519 b p.basepoint ≡ some b'
      → p.x25519 a b' ≡ p.x25519 b a'
  -- A scalar of 32 bytes has a public value of 32 bytes.
  pub x25519_base :
      (a : Bytes)
      → length a ≡ 32
      → (a' : Bytes) × (p.x25519 a p.basepoint ≡ some a') × (length a' ≡ 32)
  -- The public value of a scalar is no point of low order: with a scalar of 32 bytes it gives a secret
  -- of 32 bytes.
  pub x25519_public :
      (a b : Bytes) {b' : Bytes}
      → length a ≡ 32
      → p.x25519 b p.basepoint ≡ some b'
      → (s : Bytes) × (p.x25519 a b' ≡ some s) × (length s ≡ 32)
  pub length-public_of : (seed : Bytes) → length (p.public_of (p.key_from_seed seed)) ≡ 32
  pub verify-sign :
      (seed msg : Bytes)
      → p.verify (p.public_of (p.key_from_seed seed)) msg (p.sign (p.key_from_seed seed) msg) ≡ true
  -- HKDF yields 255 blocks of 32 bytes.
  pub hkdf_total :
      (secret salt info : Bytes) (off n : ℕ)
      → off + n ≤ 8160
      → (out : Bytes) × (p.hkdf_read secret salt info off n ≡ some out) × (length out ≡ n)
  pub length-hmac : (key msg : Bytes) → length (p.hmac_sha256 key msg) ≡ 32
  pub aead_new-key : (key : Bytes) → length key ≡ 32 → p.aead_new key ≡ true
  pub unseal-seal :
      (key nonce text ad : Bytes) → p.unseal key nonce (p.seal key nonce text ad) ad ≡ some text
