-- ===== src/Gateway/Hmac.antt =====
-- The HMAC middleware of services/gateway/internal/authz/hmac.go, from the Authorization header to
-- the answer. Header values are ASCII bytes; golang-jwt is a record of parameters.
use secu_msg_server.Common.{
  ℕ, ◌+◌, Bool, true, false, if◌then◌else◌, ◌==◌, nat_eq, string_eq, ◌&&◌, not, leb, drop, take,
  map, Option, none, some, String, ◌≡◌, arith, Bool-cases, Option-cases, inl, inr, list_eq, sym, ap,
  ◌∙◌,
}
use secu_msg_server.Bytes.{Bytes, utf8}
use secu_msg_server.Text.{trim_space}

pub record HmacValidator : Type 0 where
  pub secret : Bytes
  pub issuer : String

-- The claims that are read; one that is missing or no string is none.
pub record Claims : Type 0 where
  pub iss : Option String
  pub sub : Option String

-- A parsed token; `claims` is none if they are no jwt.MapClaims.
pub record Token : Type 0 where
  pub is_hmac : Bool
  pub valid : Bool
  pub claims : Option Claims

pub record Jwt : Type 0 where
  -- jwt.Parse with the key function; none is an error.
  pub parse : Bytes → (Token → Option Bytes) → Option Token
  -- The signature of the token is right under the key.
  pub signed : Bytes → Bytes → Bool

-- jwt.Parse gives a token only if the key function gave a key for it, under which it is signed.
abbrev pub IsVerifying : Jwt → Type 0
IsVerifying j =
    (text : Bytes) (key_of : Token → Option Bytes) (t : Token)
    → j.parse text key_of ≡ some t
    → (key : Bytes) × (key_of t ≡ some key) × (j.signed key text ≡ true)

-- next.ServeHTTP with the subject in the context, or http.Error with StatusUnauthorized.
pub data Answer : Type 0 where
  passed unauthorized : String → Answer

abbrev lower : ℕ → ℕ
lower c = if leb 65 c && leb c 90 then c + 32 else c

abbrev pub has_bearer : Bytes → Bool
has_bearer raw = take 7 (map lower raw) == utf8 "bearer "

-- A claim that is missing is the empty string.
abbrev pub text_of : Option String → String
text_of none = ""
text_of (some s) = s

abbrev key_func : HmacValidator → Token → Option Bytes
key_func h t = if t.is_hmac then some h.secret else none

abbrev pub issuer_differs : HmacValidator → Claims → Bool
issuer_differs h c = not (text_of c.iss == "") && not (text_of c.iss == h.issuer)

-- The tests of the claims.
unfoldable pub check_claims : HmacValidator → Claims → Answer
check_claims h c =
    if issuer_differs h c
    then unauthorized "issuer mismatch"
    else if text_of c.sub == ""
    then unauthorized "no subject"
    else passed (text_of c.sub)

abbrev check_token : HmacValidator → Token → Answer
check_token h t =
    if not t.valid
    then unauthorized "invalid token"
    else elim t.claims [ none ↦ unauthorized "invalid token claims" | some c ↦ check_claims h c ]

unfoldable pub middleware : Jwt → HmacValidator → Bytes → Answer
middleware j h raw =
    if not (has_bearer raw)
    then unauthorized "missing bearer token"
    else elim (j.parse (trim_space (drop 7 raw)) (key_func h)) [
      | none ↦ unauthorized "invalid token"
      | some t ↦ check_token h t
    ]

check_claims_passed :
    (h : HmacValidator) (c : Claims) (sub : String)
    → check_claims h c ≡ passed sub
    → (issuer_differs h c ≡ false) × (text_of c.sub ≡ sub) × ((text_of c.sub == "") ≡ false)
unfolding check_claims
check_claims_passed h c sub e = elim (Bool-cases (issuer_differs h c)) [
  | inl differs ↦ absurd (ground (arith, differs, e))
  | inr agrees ↦ elim (Bool-cases (text_of c.sub == "")) [
    | inl empty ↦ absurd (ground (arith, agrees, empty, e))
    | inr named ↦ (agrees, ground (arith, agrees, named, e), named)
  ]
]

-- With a token parser that verifies: a request passes as a subject only with a bearer token that is
-- signed under the secret of the gateway with an HMAC method and is valid, whose issuer is that of
-- the gateway or is missing or empty, and whose subject is that one, which is not empty.
pub middleware_passed :
    (j : Jwt) (h : HmacValidator) (raw : Bytes) (sub : String)
    → IsVerifying j
    → middleware j h raw ≡ passed sub
    → (t : Token) × (c : Claims) × (has_bearer raw ≡ true)
      × (j.signed h.secret (trim_space (drop 7 raw)) ≡ true)
      × (t.is_hmac ≡ true)
      × (t.valid ≡ true)
      × (t.claims ≡ some c)
      × (issuer_differs h c ≡ false)
      × (text_of c.sub ≡ sub)
      × ((sub == "") ≡ false)
unfolding middleware
middleware_passed j h raw sub verifying e = elim (Bool-cases (has_bearer raw)) [
  | inr bare ↦ absurd (ground (arith, bare, e))
  | inl bearer ↦ elim (Option-cases (j.parse (trim_space (drop 7 raw)) (key_func h))) [
    | inl refused ↦ absurd (ground (arith, bearer, refused, e))
    | inr (t, parsed) ↦
        let (key, chosen, good) = verifying (trim_space (drop 7 raw)) (key_func h) t parsed in
        elim (Bool-cases t.is_hmac) [
          | inr other ↦ absurd (ground (arith, other, chosen))
          | inl hmac ↦
              let same : h.secret ≡ key = ground (arith, hmac, chosen) in
              elim (Bool-cases t.valid) [
                | inr invalid ↦ absurd (ground (arith, bearer, parsed, invalid, e))
                | inl valid ↦ elim (Option-cases t.claims) [
                  | inl no_claims ↦ absurd (ground (arith, bearer, parsed, valid, no_claims, e))
                  | inr (c, claims) ↦
                      let (issuer, subject, named) =
                        check_claims_passed h c sub
                          (ground (arith, bearer, parsed, valid, claims, e)) in
                      (
                        t,
                        c,
                        bearer,
                        ap (λ k. j.signed k (trim_space (drop 7 raw))) same ∙ good,
                        hmac,
                        valid,
                        claims,
                        issuer,
                        subject,
                        ap (λ s. s == "") (sym subject) ∙ named,
                      )
                ]
              ]
        ]
  ]
]
