-- ===== src/Bytes.antt =====
-- Go's []byte and fixed byte arrays as lists of numbers below 256, with the parts of the standard
-- library that services/crypto-core uses on them: `copy`, `binary.BigEndian.PutUint32`, the bytes
-- of a string literal, and the wrap-around of a uint32.
use Prim.Native.Char.{code}
use Prim.Native.Nat.{bit_and, bit_or}
use secu_msg_server.Common.{
  ℕ, zero, suc, ◌+◌, ◌/◌, ◌%◌, ◌^◌, String, List, [], ◌∷◌, ◌++◌, take, replicate, length, ◌≡◌, refl,
  arith, length-append, length-take, length-replicate, ap, ◌<◌, take_all,
}

abbrev pub Bytes : Type 0
Bytes = List ℕ

-- `copy(out[:], b)` for a fresh array of n bytes.
abbrev pub array : ℕ → Bytes → Bytes
array n b = take n (b ++ replicate n 0)

abbrev pub zero_array : ℕ → Bytes
zero_array n = replicate n 0

abbrev pub utf8 : String → Bytes
utf8 String.[] = []
utf8 (String.◌∷◌ c s) = code c ∷ utf8 s

abbrev pub uint32_mod : ℕ
uint32_mod = 2 ^ 32

-- `x++` on a uint32.
abbrev pub inc32 : ℕ → ℕ
inc32 x = (x + 1) % uint32_mod

-- The four bytes that `binary.BigEndian.PutUint32` writes.
abbrev pub put_uint32 : ℕ → Bytes
put_uint32 x = (x / 2 ^ 24) % 256 ∷ (x / 2 ^ 16) % 256 ∷ (x / 2 ^ 8) % 256 ∷ x % 256 ∷ []

-- `b[i] = f(b[i])`; the callers index within the array.
abbrev pub update_at : ℕ → (ℕ → ℕ) → Bytes → Bytes
update_at i f [] = []
update_at zero f (x ∷ b) = f x ∷ b
update_at (suc i) f (x ∷ b) = x ∷ update_at i f b

-- The clamping of an X25519 scalar: `k[0] &= 248; k[31] &= 127; k[31] |= 64`.
unfoldable pub clamp : Bytes → Bytes
clamp b = update_at 31 (λ x. bit_or (bit_and x 127) 64) (update_at 0 (λ x. bit_and x 248) b)

length-update_at : (i : ℕ) (f : ℕ → ℕ) (b : Bytes) → length (update_at i f b) ≡ length b
length-update_at i f [] = refl
length-update_at zero f (x ∷ b) = refl
length-update_at (suc i) f (x ∷ b) = ap suc (length-update_at i f b)

pub length-clamp : (b : Bytes) → length (clamp b) ≡ length b
unfolding clamp
length-clamp b = omega (
  arith,
  length-update_at 31 (λ x. bit_or (bit_and x 127) 64) (update_at 0 (λ x. bit_and x 248) b),
  length-update_at 0 (λ x. bit_and x 248) b,
)

-- A copy into a fresh array has the array's length.
pub length-array : (n : ℕ) (b : Bytes) → length (array n b) ≡ n
length-array n b = omega (
  arith,
  length-take n (b ++ replicate n 0),
  length-append b (replicate n 0),
  length-replicate n (let z : ℕ = 0 in z),
)

-- The four bytes determine a uint32.
pub put_uint32-injective :
    (x y : ℕ) → x < uint32_mod → y < uint32_mod → put_uint32 x ≡ put_uint32 y → x ≡ y
put_uint32-injective x y hx hy e = ground arith

pub array_self : (n : ℕ) (b : Bytes) → length b ≡ n → array n b ≡ b
array_self n b h = rw (← h) (take_all b (replicate (length b) 0))
