-- ===== src/Auth/Ip.antt =====
-- services/auth/internal/netutil/netutil.go: the canonical text of the address that a client's
-- address text holds. net/netip is a record of parameters; a netip.Addr is a number.
use mathlib.Core.Path.{subst}
use secu_msg_server.Common.{
  ℕ, ◌-◌, Bool, true, false, if◌then◌else◌, ◌==◌, nat_eq, list_eq, ltb, Option, none, some, [], ◌∷◌,
  take, drop, ◌≡◌, ap, ◌∙◌, arith, Bool-cases, Option-cases, inl, inr, ◌⊎◌,
}
use secu_msg_server.Bytes.{Bytes}
use secu_msg_server.Text.{trim_space, has_prefix, last_index}

pub record Netip : Type 0 where
  -- The address of what netip.ParseAddrPort reads.
  pub parse_addr_port : Bytes → Option ℕ
  pub parse_addr : Bytes → Option ℕ
  -- WithZone("")
  pub without_zone : ℕ → ℕ
  pub is_valid : ℕ → Bool
  pub to_string : ℕ → Bytes

-- An address is read, its zone dropped, and it is printed.
abbrev host_of : Netip → Option ℕ → Option Bytes
host_of n none = none
host_of n (some a) = let b = n.without_zone a in if n.is_valid b then some (n.to_string b) else none

abbrev first_of : Option Bytes → Option Bytes → Option Bytes
first_of (some s) later = some s
first_of none later = later

-- `raw[1:strings.LastIndex(raw, "]")]`
abbrev in_brackets : Netip → Bytes → Option Bytes
in_brackets n raw = elim (last_index b']' raw) [
  | some i ↦
      if has_prefix raw (b'[' ∷ [])
      then host_of n (n.parse_addr (take (i - 1) (drop 1 raw)))
      else none
  | none ↦ none
]

-- `raw[:strings.LastIndex(raw, ":")]`
abbrev before_colon : Netip → Bytes → Option Bytes
before_colon n raw = elim (last_index b':' raw) [
  | some i ↦ if ltb 0 i then host_of n (n.parse_addr (take i raw)) else none
  | none ↦ none
]

-- The four ways in which `NormalizeIP` reads a text, in its order.
unfoldable pub read_host : Netip → Bytes → Option Bytes
read_host n raw =
    first_of (host_of n (n.parse_addr_port raw))
      (first_of (host_of n (n.parse_addr raw)) (first_of (in_brackets n raw) (before_colon n raw)))

unfoldable pub normalize_ip : Netip → Bytes → Bytes × Bool
normalize_ip n raw =
    let s = trim_space raw in
    if s == []
    then ([], false)
    else elim (read_host n s) [ some host ↦ (host, true) | none ↦ (s, false) ]

-- The token service's `normalizeIP`.
abbrev pub session_ip : Netip → Bytes → Bytes
session_ip n ip = let (s, found) = normalize_ip n ip in if found then s else trim_space ip

-- What net/netip documents: a valid address with no zone is read back from its text, which is no
-- address with a port and has no white space around it.
pub record IpLaws (n : Netip) : Type 0 where
  pub addr_read : (a : ℕ) → n.is_valid a ≡ true → n.parse_addr (n.to_string a) ≡ some a
  pub no_port : (a : ℕ) → n.is_valid a ≡ true → n.parse_addr_port (n.to_string a) ≡ none
  pub no_zone : (a : ℕ) → n.without_zone (n.without_zone a) ≡ n.without_zone a
  pub trimmed : (a : ℕ) → n.is_valid a ≡ true → trim_space (n.to_string a) ≡ n.to_string a
  pub not_empty : (a : ℕ) → n.is_valid a ≡ true → (n.to_string a == []) ≡ false

-- A text that `read_host` gives is that of a valid address with no zone.
IsHost : Netip → Bytes → Type 0
IsHost n s = (a : ℕ) × (n.is_valid (n.without_zone a) ≡ true) × (n.to_string (n.without_zone a) ≡ s)

module _ (n : Netip) where
  host_of-IsHost : (o : Option ℕ) (s : Bytes) → host_of n o ≡ some s → IsHost n s
  unfolding IsHost
  host_of-IsHost none s e = absurd (ground (arith, e))
  host_of-IsHost (some a) s e = elim (Bool-cases (n.is_valid (n.without_zone a))) [
    | inl valid ↦ (a, valid, ground (arith, valid, e))
    | inr invalid ↦ absurd (ground (arith, invalid, e))
  ]

  first_of-cases :
      (o p : Option Bytes) (s : Bytes) → first_of o p ≡ some s → (o ≡ some s) ⊎ (p ≡ some s)
  first_of-cases (some x) p s e = inl e
  first_of-cases none p s e = inr e

  in_brackets-IsHost : (raw s : Bytes) → in_brackets n raw ≡ some s → IsHost n s
  in_brackets-IsHost raw s e = elim (Option-cases (last_index b']' raw)) [
    | inl absent ↦ absurd (ground (arith, absent, e))
    | inr (i, at) ↦ elim (Bool-cases (has_prefix raw (b'[' ∷ []))) [
      | inl starts ↦
          host_of-IsHost (n.parse_addr (take (i - 1) (drop 1 raw))) s
            (ground (arith, at, starts, e))
      | inr bare ↦ absurd (ground (arith, at, bare, e))
    ]
  ]

  before_colon-IsHost : (raw s : Bytes) → before_colon n raw ≡ some s → IsHost n s
  before_colon-IsHost raw s e = elim (Option-cases (last_index b':' raw)) [
    | inl absent ↦ absurd (ground (arith, absent, e))
    | inr (i, at) ↦ elim (Bool-cases (ltb 0 i)) [
      | inl later ↦ host_of-IsHost (n.parse_addr (take i raw)) s (ground (arith, at, later, e))
      | inr first ↦ absurd (ground (arith, at, first, e))
    ]
  ]

  read_host-IsHost : (raw s : Bytes) → read_host n raw ≡ some s → IsHost n s
  unfolding read_host
  read_host-IsHost raw s e = elim (first_of-cases (host_of n (n.parse_addr_port raw)) _ s e) [
    | inl here ↦ host_of-IsHost (n.parse_addr_port raw) s here
    | inr later ↦ elim (first_of-cases (host_of n (n.parse_addr raw)) _ s later) [
      | inl here ↦ host_of-IsHost (n.parse_addr raw) s here
      | inr last ↦ elim (first_of-cases (in_brackets n raw) (before_colon n raw) s last) [
        | inl here ↦ in_brackets-IsHost raw s here
        | inr there ↦ before_colon-IsHost raw s there
      ]
    ]
  ]

  -- The text of a host stands for itself.
  IsHost-normalize_ip : (s : Bytes) → IpLaws n → IsHost n s → normalize_ip n s ≡ (s, true)
  unfolding normalize_ip read_host IsHost
  IsHost-normalize_ip s laws (a, valid, same) =
      let b : ℕ = n.without_zone a in
      subst (λ x. normalize_ip n x ≡ (x, true)) same
        (ground (
          arith,
          valid,
          laws.trimmed b valid,
          laws.not_empty b valid,
          laws.no_port b valid,
          laws.addr_read b valid,
          laws.no_zone a,
        ))

  -- An address that is normalized is normal: what NormalizeIP gives with success, it gives back
  -- with success.
  pub normalize_ip_idempotent :
      (raw s : Bytes) → IpLaws n → normalize_ip n raw ≡ (s, true) → normalize_ip n s ≡ (s, true)
  unfolding normalize_ip
  normalize_ip_idempotent raw s laws e = elim (Bool-cases (trim_space raw == [])) [
    | inl empty ↦ absurd (ground (arith, empty, e))
    | inr full ↦ elim (Option-cases (read_host n (trim_space raw))) [
      | inl failed ↦ absurd (ground (arith, full, failed, e))
      | inr (host, found) ↦
          let same : host ≡ s = ground (arith, full, found, e) in
          IsHost-normalize_ip s laws (read_host-IsHost (trim_space raw) s (found ∙ ap some same))
    ]
  ]
