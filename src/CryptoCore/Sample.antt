-- ===== src/CryptoCore/Sample.antt =====
-- A toy cryptography that meets the laws of `Primitives`: secrets are sums of bytes, a ciphertext
-- is the text behind a one-byte tag. The witnesses and tests of services/crypto-core run on it.
use secu_msg_server.Common.{
  ℕ, ◌+◌, ◌≤◌, ◌%◌, if◌then◌else◌, leb, ◌==◌, nat_eq, list_eq, ==_refl, ◌&&◌, length, map, [], ◌∷◌,
  ◌++◌, Option, none, some, ◌≡◌, refl, arith,
}
use secu_msg_server.Bytes.{Bytes, array, zero_array, length-array}
use secu_msg_server.CryptoCore.Primitives.{Primitives, Laws}

abbrev pub add_bytes : Bytes → Bytes → Bytes
add_bytes [] ys = []
add_bytes (x ∷ xs) [] = []
add_bytes (x ∷ xs) (y ∷ ys) = ((x + y) % 256) ∷ add_bytes xs ys

abbrev pub sum : Bytes → ℕ
sum [] = 0
sum (x ∷ xs) = x + sum xs

abbrev pub tag : Bytes → Bytes → Bytes → Bytes → ℕ
tag key nonce text ad = (sum key + sum nonce + sum text + sum ad) % 256

abbrev pub toy_x25519 : Bytes → Bytes → Option Bytes
toy_x25519 a b = if length a == 32 && length b == 32 then some (add_bytes a b) else none

abbrev pub toy_unseal : Bytes → Bytes → Bytes → Bytes → Option Bytes
toy_unseal key nonce [] ad = none
toy_unseal key nonce (t ∷ text) ad = if t == tag key nonce text ad then some text else none

abbrev pub toy_hkdf : Bytes → Bytes → Bytes → ℕ → ℕ → Option Bytes
toy_hkdf secret salt info off n =
    if leb (off + n) 8160
    then some (array n (map (λ x. (x + off + sum info) % 256) (secret ++ salt)))
    else none

abbrev pub toy : Primitives
toy = record {
  x25519 = toy_x25519;
  basepoint = zero_array 32;
  key_from_seed = array 32;
  public_of = λ k. k;
  seed_of = λ k. k;
  sign = λ k msg. k ++ msg;
  verify = λ k msg sig. sig == k ++ msg;
  sha512 = array 64;
  hmac_sha256 = λ key msg. array 32 (map (λ x. (x + sum msg) % 256) key);
  hkdf_read = toy_hkdf;
  aead_new = λ key. length key == 32;
  seal = λ key nonce text ad. tag key nonce text ad ∷ text;
  unseal = toy_unseal;
  range_start = λ m. 0;
}

length-add_bytes : (xs ys : Bytes) → length xs ≡ length ys → length (add_bytes xs ys) ≡ length xs
length-add_bytes [] ys h = refl
length-add_bytes (x ∷ xs) [] h = absurd (omega arith)
length-add_bytes (x ∷ xs) (y ∷ ys) h = omega (arith, length-add_bytes xs ys (omega arith))

add_bytes_swap :
    (xs ys zs : Bytes) → add_bytes xs (add_bytes ys zs) ≡ add_bytes ys (add_bytes xs zs)
add_bytes_swap [] [] zs = refl
add_bytes_swap [] (y ∷ ys) [] = refl
add_bytes_swap [] (y ∷ ys) (z ∷ zs) = refl
add_bytes_swap (x ∷ xs) [] [] = refl
add_bytes_swap (x ∷ xs) [] (z ∷ zs) = refl
add_bytes_swap (x ∷ xs) (y ∷ ys) [] = refl
add_bytes_swap (x ∷ xs) (y ∷ ys) (z ∷ zs) =
    let e : (x + (y + z) % 256) % 256 ≡ (y + (x + z) % 256) % 256 = omega arith in
    rw (e, add_bytes_swap xs ys zs)

x25519_value :
    (a b : Bytes) {c : Bytes}
    → toy_x25519 a b ≡ some c
    → (length a ≡ 32) × (length b ≡ 32) × (c ≡ add_bytes a b)
x25519_value a b h = ground arith

x25519_defined :
    (a b : Bytes) → length a ≡ 32 → length b ≡ 32 → toy_x25519 a b ≡ some (add_bytes a b)
x25519_defined a b h k = ground arith

length-sum : (a b : Bytes) → length a ≡ 32 → length b ≡ 32 → length (add_bytes a b) ≡ 32
length-sum a b h k = omega (arith, length-add_bytes a b)

toy_comm :
    (a b : Bytes) {a' b' : Bytes}
    → toy_x25519 a (zero_array 32) ≡ some a'
    → toy_x25519 b (zero_array 32) ≡ some b'
    → toy_x25519 a b' ≡ toy_x25519 b a'
toy_comm a b {a'} {b'} h k =
    let z = zero_array 32 in
    let (la, lz, ea) = x25519_value a z h in
    let (lb, lz', eb) = x25519_value b z k in
    rw (
      x25519_defined a b' la (rw eb (length-sum b z lb lz)),
      x25519_defined b a' lb (rw ea (length-sum a z la lz)),
      ea,
      eb,
      add_bytes_swap a b z,
    )

toy_public :
    (a b : Bytes) {b' : Bytes}
    → length a ≡ 32
    → toy_x25519 b (zero_array 32) ≡ some b'
    → (s : Bytes) × (toy_x25519 a b' ≡ some s) × (length s ≡ 32)
toy_public a b {b'} la k =
    let (lb, lz, eb) = x25519_value b (zero_array 32) k in
    let lb' : length b' ≡ 32 = rw eb (length-sum b (zero_array 32) lb lz) in
    (add_bytes a b', x25519_defined a b' la lb', length-sum a b' la lb')

toy_hkdf_total :
    (secret salt info : Bytes) (off n : ℕ)
    → off + n ≤ 8160
    → (out : Bytes) × (toy_hkdf secret salt info off n ≡ some out) × (length out ≡ n)
toy_hkdf_total secret salt info off n h = (
  array n (map (λ x. (x + off + sum info) % 256) (secret ++ salt)),
  ground arith,
  length-array n (map (λ x. (x + off + sum info) % 256) (secret ++ salt)),
)

pub toy-Laws : Laws toy
toy-Laws = record {
  x25519_comm = toy_comm;
  x25519_base = λ a h. (
    add_bytes a (zero_array 32),
    x25519_defined a (zero_array 32) h refl,
    length-sum a (zero_array 32) h refl,
  );
  x25519_public = toy_public;
  length-public_of = length-array 32;
  verify-sign = λ seed msg. ==_refl (array 32 seed ++ msg);
  hkdf_total = toy_hkdf_total;
  length-hmac = λ key msg. length-array 32 (map (λ x. (x + sum msg) % 256) key);
  aead_new-key = λ key h. ground arith;
  unseal-seal = λ key nonce text ad. ground arith;
}
