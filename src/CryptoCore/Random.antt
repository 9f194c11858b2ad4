-- ===== src/CryptoCore/Random.antt =====
-- The random source and the key generation of services/crypto-core/core.go. The source is the
-- bytes that it still holds, as after UseDeterministicRandom; `io.ReadFull` on a source that runs
-- dry fails, and has read what was there.
pub mod Keys
use secu_msg_server.Common.{
  ℕ, if◌then◌else◌, leb, length, take, drop, [], Action, ok, err, pure, or_raise, ◌>>=◌,
}
use secu_msg_server.Bytes.{Bytes, array, clamp}
use secu_msg_server.CryptoCore.Types.{KeyPair, CryptoError, random_failed, x25519_failed}
use secu_msg_server.CryptoCore.Primitives.{Primitives}

-- `readRandom` into a buffer of n bytes.
unfoldable pub read_random : ℕ → Action Bytes CryptoError Bytes
read_random n src =
    if leb n (length src) then (ok (take n src), drop n src) else (err random_failed, [])

-- `generateX25519KeyPair`
unfoldable pub generate_x25519_key_pair : Primitives → Action Bytes CryptoError KeyPair
generate_x25519_key_pair p = do
  raw ← read_random 32
  let private = clamp raw
  public ← or_raise (p.x25519 private p.basepoint) x25519_failed
  pure (record { private = private; public = array 32 public })

-- A state next to the random source.
pub record Run (S : Type 0) : Type 0 where
  pub state : S
  pub random : Bytes

abbrev pub at_random : {S A : Type 0} → Action Bytes CryptoError A → Action (Run S) CryptoError A
at_random m r = let (a, rest) = m r.random in (a, record r { random = rest })

abbrev pub at_state : {S A : Type 0} → Action S CryptoError A → Action (Run S) CryptoError A
at_state m r = let (a, s) = m r.state in (a, record r { state = s })
