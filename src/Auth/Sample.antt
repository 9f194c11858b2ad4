-- ===== src/Auth/Sample.antt =====
-- A token service of services/auth on which the witnesses run: tokens, identifiers and addresses of one
-- byte, and a signer that knows one access and one refresh claim.
use secu_msg_server.Common.{
  ℕ, ◌+◌, ◌-◌, ◌*◌, ◌^◌, Bool, true, false, if◌then◌else◌, ◌==◌, nat_eq, list_eq, ltb, ◌&&◌, Option,
  none, some, List, [], ◌∷◌, ◌≡◌, refl, sym, ap, ◌∙◌, arith, Bool-cases, inl, inr, eq_of_==,
}
use secu_msg_server.Bytes.{Bytes, utf8}
use secu_msg_server.Text.{trim_space}
use secu_msg_server.Uuid.{Uuids}
use secu_msg_server.Database.Sample.{db, db-Laws, db-IsUp}
use secu_msg_server.Auth.Types.{database}
use secu_msg_server.Auth.Ip.{Netip, IpLaws}
use secu_msg_server.Auth.Claims.{
  RegisteredClaims, AccessClaims, RefreshClaims, Jwt, JwtLaws, as_access,
}
use secu_msg_server.Auth.Tokens.{TokenService}
use secu_msg_server.Auth.Tokens.Issued.{IsSound}

abbrev read_byte : Bytes → Option ℕ
read_byte (x ∷ []) = some x
read_byte s = none

abbrev pub uuids : Uuids Bytes
uuids = record { parse = read_byte; to_string = λ id. id ∷ []; drawn = λ n. n }

abbrev read_address : Bytes → Option ℕ
read_address (x ∷ []) = if ltb x 100 then none else some (x - 100)
read_address s = none

abbrev pub netip : Netip
netip = record {
  parse_addr_port = λ s. none;
  parse_addr = read_address;
  without_zone = λ a. a;
  is_valid = λ a. true;
  to_string = λ a. (a + 100) ∷ [];
}

pub netip-IpLaws : IpLaws netip
netip-IpLaws = record {
  addr_read = λ a h. ground arith;
  no_port = λ a h. refl;
  no_zone = λ a. refl;
  trimmed = λ a h. ground arith;
  not_empty = λ a h. refl;
}

abbrev flag : Option Bytes → Bytes
flag none = []
flag (some s) = 1 ∷ s

abbrev flat : RegisteredClaims → List Bytes
flat c = c.issuer ∷ c.subject ∷ (c.expires_at ∷ c.issued_at ∷ []) ∷ c.id ∷ c.audience

abbrev flat_access : AccessClaims → List Bytes
flat_access c = c.sid ∷ flag c.did ∷ c.scope ∷ flat c.registered

abbrev flat_refresh : RefreshClaims → List Bytes
flat_refresh c = c.sid ∷ flat c.registered

flag_injective : (o p : Option Bytes) → flag o ≡ flag p → o ≡ p
flag_injective none none e = refl
flag_injective none (some y) e = absurd (ground (arith, e))
flag_injective (some x) none e = absurd (ground (arith, e))
flag_injective (some x) (some y) e = ground (arith, e)

flat_access_injective : (c d : AccessClaims) → flat_access c ≡ flat_access d → c ≡ d
flat_access_injective c d e = ground (arith, e, flag_injective c.did d.did)

flat_refresh_injective : (c d : RefreshClaims) → flat_refresh c ≡ flat_refresh d → c ≡ d
flat_refresh_injective c d e = ground (arith, e)

abbrev pub access_text : Bytes
access_text = 101 ∷ []

abbrev pub refresh_text : Bytes
refresh_text = 102 ∷ []

abbrev pub old_text : Bytes
old_text = 103 ∷ []

abbrev same_all : List Bytes → List Bytes → Bool
same_all [] [] = true
same_all [] (y ∷ k) = false
same_all (x ∷ l) [] = false
same_all (x ∷ l) (y ∷ k) = let rest = same_all l k in x == y && rest

eq_of_same_all : (l k : List Bytes) → same_all l k ≡ true → l ≡ k
eq_of_same_all [] [] h = refl
eq_of_same_all [] (y ∷ k) h = absurd (ground (arith, h))
eq_of_same_all (x ∷ l) [] h = absurd (ground (arith, h))
eq_of_same_all (x ∷ l) (y ∷ k) h = elim (Bool-cases (x == y)) [
  | inl same ↦
      let head = eq_of_== x y same in
      let rest = eq_of_same_all l k (ground (arith, same, h)) in ground (arith, head, rest)
  | inr other ↦ absurd (ground (arith, other, h))
]

module _ (a : AccessClaims) (r old : RefreshClaims) where
  abbrev pub jwt : Jwt
  jwt = record {
    numeric_date = λ t. t;
    sign_access =
        λ key c. if same_all (flat_access c) (flat_access a) then some access_text else none;
    sign_refresh =
        λ key c. if same_all (flat_refresh c) (flat_refresh r) then some refresh_text else none;
    parse_access = λ key now s.
        if s == access_text
        then some a
        else (if s == refresh_text then some (as_access r) else none);
    parse_refresh = λ key now s.
        if s == refresh_text then some r else (if s == old_text then some old else none);
    is_utf8 = λ s. true;
  }

  signed_access :
      (key token : Bytes) (c : AccessClaims)
      → jwt.sign_access key c ≡ some token
      → (a ≡ c) × (access_text ≡ token)
  signed_access key token c h = elim (Bool-cases (same_all (flat_access c) (flat_access a))) [
    | inl same ↦ (
      sym (flat_access_injective c a (eq_of_same_all (flat_access c) (flat_access a) same)),
      ground (arith, same, h),
    )
    | inr other ↦ absurd (ground (arith, other, h))
  ]

  signed_refresh :
      (key token : Bytes) (c : RefreshClaims)
      → jwt.sign_refresh key c ≡ some token
      → (r ≡ c) × (refresh_text ≡ token)
  signed_refresh key token c h = elim (Bool-cases (same_all (flat_refresh c) (flat_refresh r))) [
    | inl same ↦ (
      sym (flat_refresh_injective c r (eq_of_same_all (flat_refresh c) (flat_refresh r) same)),
      ground (arith, same, h),
    )
    | inr other ↦ absurd (ground (arith, other, h))
  ]

  pub jwt-JwtLaws : JwtLaws jwt
  jwt-JwtLaws = record {
    date_cut = λ t. omega arith;
    access_text = λ key c token h.
        let (same, text) = signed_access key token c h in
        (ap trim_space (sym text) ∙ text, ap (λ (x : Bytes). x == []) (sym text));
    refresh_text = λ key c token h.
        let (same, text) = signed_refresh key token c h in
        (ap trim_space (sym text) ∙ text, ap (λ (x : Bytes). x == []) (sym text));
    access_read = λ key c token now h texts soon.
        let (same, text) = signed_access key token c h in
        ap (jwt.parse_access key now) (sym text) ∙ ap some same;
    refresh_read = λ key c token now h texts soon.
        let (same, text) = signed_refresh key token c h in
        ap (jwt.parse_refresh key now) (sym text) ∙ ap some same;
    refresh_read_as_access = λ key c token now h texts soon.
        let (same, text) = signed_refresh key token c h in
        ap (jwt.parse_access key now) (sym text) ∙ ap (λ x. some (as_access x)) same;
    refresh_same = λ key token now later c c' h h'.
        let e : some c ≡ some c' = sym h ∙ h' in sym (ground (arith, e));
  }

  abbrev pub service : TokenService
  service = record {
    cfg = record {
      issuer = utf8 "auth";
      audience = utf8 "clients";
      access_ttl = 900 * 10 ^ 9;
      refresh_ttl = 2592000 * 10 ^ 9;
      signing_key = utf8 "key";
    };
    db = db (database "duplicate key");
    uuids = uuids;
    jwt = jwt;
    netip = netip;
  }

  pub service-IsSound : IsSound service
  service-IsSound = record {
    printed = λ id. refl;
    laws = db-Laws (database "duplicate key");
    up = db-IsUp (database "duplicate key");
    jwt = jwt-JwtLaws;
    utf8_texts = (refl, refl, refl, refl, λ id. refl);
  }
