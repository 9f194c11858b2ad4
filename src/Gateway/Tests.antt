-- ===== src/Gateway/Tests.antt =====
-- A witness for the HMAC middleware of services/gateway.
use mathlib.Core.Path.{subst}
use secu_msg_server.Common.{
  true, false, none, some, Option, [], ◌∷◌, String, ◌≡◌, refl, arith, drop, list_eq, string_eq,
  ◌==◌,
}
use secu_msg_server.Bytes.{Bytes, utf8}
use secu_msg_server.Text.{trim_space}
use secu_msg_server.Gateway.Hmac.{
  HmacValidator, Claims, Token, Jwt, IsVerifying, passed, has_bearer, text_of, issuer_differs,
  check_claims, middleware, middleware_passed,
}

abbrev claims : Claims
claims = record { iss = some "secu"; sub = some "alice" }

abbrev token : Token
token = record { is_hmac = true; valid = true; claims = some claims }

-- One token only, signed under every key.
abbrev accept : Option Bytes → Option Token
accept none = none
accept (some key) = some token

abbrev jwt : Jwt
jwt = record { parse = λ text key_of. accept (key_of token); signed = λ key text. true }

accept_lem :
    (o : Option Bytes) (t : Token)
    → accept o ≡ some t
    → (key : Bytes) × (o ≡ some key) × (token ≡ t)
accept_lem none t e = absurd (ground arith)
accept_lem (some key) t e = (key, refl, ground (arith, e))

jwt-IsVerifying : IsVerifying jwt
jwt-IsVerifying text key_of t e =
    let (key, chosen, same) = accept_lem (key_of token) t e in
    (key, subst (λ x. key_of x ≡ some key) same chosen, refl)

abbrev gateway : HmacValidator
gateway = record { secret = 1 ∷ 2 ∷ []; issuer = "secu" }

abbrev alice : String
alice = "alice"

alice_passes : middleware jwt gateway (utf8 "Bearer  tok ") ≡ passed alice
unfolding middleware check_claims
alice_passes = refl

middleware_passed_example :
    (t : Token) × (c : Claims) × (has_bearer (utf8 "Bearer  tok ") ≡ true)
    × (jwt.signed gateway.secret (trim_space (drop 7 (utf8 "Bearer  tok "))) ≡ true)
    × (t.is_hmac ≡ true)
    × (t.valid ≡ true)
    × (t.claims ≡ some c)
    × (issuer_differs gateway c ≡ false)
    × (text_of c.sub ≡ alice)
    × ((alice == "") ≡ false)
middleware_passed_example =
    middleware_passed jwt gateway (utf8 "Bearer  tok ") alice jwt-IsVerifying alice_passes
