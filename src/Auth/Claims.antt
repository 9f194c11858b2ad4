-- ===== src/Auth/Claims.antt =====
-- The claims of services/auth's tokens, services/auth/internal/service/impl/token_service_impl.go.
-- github.com/golang-jwt/jwt is a record of parameters; a text is a list of bytes, a time a number of
-- nanoseconds.
use secu_msg_server.Common.{
  ℕ, ◌+◌, ◌^◌, ◌<◌, Bool, true, false, ◌&&◌, ◌==◌, list_eq, nat_eq, Option, none, some, List, [],
  ◌∷◌, ◌≡◌,
}
use secu_msg_server.Bytes.{Bytes}
use secu_msg_server.Text.{trim_space}

-- The fields of jwt.RegisteredClaims that the code sets; `expires_at` and `issued_at` are the times of
-- a NumericDate.
pub record RegisteredClaims : Type 0 where
  pub issuer : Bytes
  pub subject : Bytes
  pub audience : List Bytes
  pub expires_at : ℕ
  pub issued_at : ℕ
  pub id : Bytes

pub record AccessClaims : Type 0 where
  pub sid : Bytes
  pub did : Option Bytes
  pub scope : Bytes
  pub registered : RegisteredClaims

pub record RefreshClaims : Type 0 where
  pub sid : Bytes
  pub registered : RegisteredClaims

pub record Jwt : Type 0 where
  -- The time of jwt.NewNumericDate.
  pub numeric_date : ℕ → ℕ
  -- NewWithClaims(SigningMethodHS256, claims).SignedString(key); none is its error.
  pub sign_access : Bytes → AccessClaims → Option Bytes
  pub sign_refresh : Bytes → RefreshClaims → Option Bytes
  -- ParseWithClaims with HS256 only, at the time given; none is an error or a token that is not valid.
  pub parse_access : Bytes → ℕ → Bytes → Option AccessClaims
  pub parse_refresh : Bytes → ℕ → Bytes → Option RefreshClaims
  -- The texts that encoding/json writes as they are.
  pub is_utf8 : Bytes → Bool

abbrev pub all_utf8 : Jwt → List Bytes → Bool
all_utf8 j [] = true
all_utf8 j (s ∷ l) = j.is_utf8 s && all_utf8 j l

abbrev pub texts_of : RegisteredClaims → List Bytes
texts_of c = c.issuer ∷ c.subject ∷ c.id ∷ c.audience

abbrev pub or_empty : Option Bytes → Bytes
or_empty none = []
or_empty (some s) = s

-- The claims that encoding/json reads as access claims from the text of refresh claims.
abbrev pub as_access : RefreshClaims → AccessClaims
as_access c = record { sid = c.sid; did = none; scope = []; registered = c.registered }

-- What golang-jwt documents: a NumericDate is cut to the second; a token signed under a key is read
-- back under it until it expires, by its JSON names, always as the same claims, and is a text with no white space around it.
pub record JwtLaws (j : Jwt) : Type 0 where
  pub date_cut : (t : ℕ) → t < j.numeric_date t + 10 ^ 9
  pub access_text :
      (key : Bytes) (c : AccessClaims) (token : Bytes)
      → j.sign_access key c ≡ some token
      → (trim_space token ≡ token) × ((token == []) ≡ false)
  pub refresh_text :
      (key : Bytes) (c : RefreshClaims) (token : Bytes)
      → j.sign_refresh key c ≡ some token
      → (trim_space token ≡ token) × ((token == []) ≡ false)
  pub access_read :
      (key : Bytes) (c : AccessClaims) (token : Bytes) (now : ℕ)
      → j.sign_access key c ≡ some token
      → all_utf8 j (c.sid ∷ or_empty c.did ∷ c.scope ∷ texts_of c.registered) ≡ true
      → now < c.registered.expires_at
      → j.parse_access key now token ≡ some c
  pub refresh_read :
      (key : Bytes) (c : RefreshClaims) (token : Bytes) (now : ℕ)
      → j.sign_refresh key c ≡ some token
      → all_utf8 j (c.sid ∷ texts_of c.registered) ≡ true
      → now < c.registered.expires_at
      → j.parse_refresh key now token ≡ some c
  pub refresh_read_as_access :
      (key : Bytes) (c : RefreshClaims) (token : Bytes) (now : ℕ)
      → j.sign_refresh key c ≡ some token
      → all_utf8 j (c.sid ∷ texts_of c.registered) ≡ true
      → now < c.registered.expires_at
      → j.parse_access key now token ≡ some (as_access c)
  pub refresh_same :
      (key : Bytes) (token : Bytes) (now later : ℕ) (c c' : RefreshClaims)
      → j.parse_refresh key now token ≡ some c
      → j.parse_refresh key later token ≡ some c'
      → c' ≡ c

-- Signing with HS256 under a key of bytes gives a token.
pub record Signs (j : Jwt) : Type 0 where
  pub access_signed :
      (key : Bytes) (c : AccessClaims) → (token : Bytes) × (j.sign_access key c ≡ some token)
  pub refresh_signed :
      (key : Bytes) (c : RefreshClaims) → (token : Bytes) × (j.sign_refresh key c ≡ some token)
