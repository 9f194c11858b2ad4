-- ===== src/Text.antt =====
-- The parts of Go's package strings that the services use, on texts as lists of bytes. White space is
-- that of ASCII.
use secu_msg_server.Common.{
  ℕ, suc, Bool, false, if◌then◌else◌, ◌==◌, nat_eq, list_eq, ◌||◌, ◌&&◌, leb, [], ◌∷◌, take, length,
  Option, none, some,
}
use secu_msg_server.Bytes.{Bytes}

-- `strings.TrimSpace`
abbrev is_space : ℕ → Bool
is_space c = c == 32 || (leb 9 c && leb c 13)

abbrev trim_left : Bytes → Bytes
trim_left [] = []
trim_left (c ∷ s) = let rest = trim_left s in if is_space c then rest else c ∷ s

abbrev reverse_onto : Bytes → Bytes → Bytes
reverse_onto [] acc = acc
reverse_onto (c ∷ s) acc = reverse_onto s (c ∷ acc)

abbrev pub trim_space : Bytes → Bytes
trim_space s = reverse_onto (trim_left (reverse_onto (trim_left s) [])) []

-- `strings.HasPrefix`
abbrev pub has_prefix : Bytes → Bytes → Bool
has_prefix s p = take (length p) s == p

-- `strings.LastIndex` of one byte; none is -1.
abbrev pub last_index : ℕ → Bytes → Option ℕ
last_index c [] = none
last_index c (x ∷ s) = elim (last_index c s) [
  | some i ↦ some (suc i)
  | none ↦ if x == c then some 0 else none
]

-- `strings.ContainsRune`, for an ASCII character.
abbrev pub contains_rune : ℕ → Bytes → Bool
contains_rune c [] = false
contains_rune c (x ∷ s) = x == c || contains_rune c s
