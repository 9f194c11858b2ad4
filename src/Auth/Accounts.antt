-- ===== src/Auth/Accounts.antt =====
-- services/auth/internal/service/impl/auth_service_impl.go: registration and login, for a service
-- that has its token service. What time.Now and uuid.New give stands in `AccountDraws`.
pub mod Admission
pub mod Login
pub mod Registered
pub mod Registration
pub mod FirstLogin
use secu_msg_server.Common.{
  ℕ, Bool, true, false, if◌then◌else◌, ◌==◌, nat_eq, list_eq, ◌&&◌, ◌||◌, not, ltb, Option, none,
  some, List, [], ◌∷◌, length, Action, Result, ok, err, pure, raise, raise_if, lift, ◌>>=◌, ◌>>◌,
}
use secu_msg_server.Bytes.{Bytes}
use secu_msg_server.Text.{contains_rune}
use secu_msg_server.Auth.Password.{
  Credential, PasswordError, Hashing, PasswordService, hash, verify,
}
use secu_msg_server.Auth.Types.{
  User, PasswordCredential, Tables, TokenResponse, RegisterRequest, RegisterResponse, LoginRequest,
  AuthError, invalid_credentials, user_disabled, empty_credential, password_length, hashing,
}
use secu_msg_server.Auth.Store.Users.{
  create_user, get_by_email, get_by_username, upsert_password, get_password,
}
use secu_msg_server.Auth.Tokens.{TokenService, Draws, masked, issue}

-- What the service uses besides its token service: the passwords, how citext compares, and the text
-- that Postgres gives out for a jsonb column into which a document was written.
pub record AuthService : Type 1 where
  pub tokens : TokenService
  pub passwords : PasswordService
  pub hashing : Hashing
  pub citext : Bytes → Bytes → Bool
  pub jsonb : Bytes → Bytes

pub record AccountDraws : Type 0 where
  pub now : ℕ
  pub stored_at : ℕ
  pub user_id : ℕ
  pub credential_id : ℕ
  pub issued : Draws

abbrev pub hashed : Result PasswordError Credential → Result AuthError Credential
hashed (ok c) = ok c
hashed (err e) = err (hashing e)

unfoldable pub looks_like_email : Bytes → Bool
looks_like_email s = contains_rune b'@' s

module _ (a : AuthService) where
  -- The user that Register creates.
  abbrev pub new_user : AccountDraws → RegisterRequest → User
  new_user e r = record {
    id = e.user_id;
    email = r.email;
    email_verified = false;
    username = r.username;
    is_disabled = false;
    created_at = e.now;
    updated_at = e.now;
  }

  abbrev pub new_credential : AccountDraws → ℕ → Credential → PasswordCredential
  new_credential e user c = record {
    id = e.credential_id;
    user_id = user;
    credential = c;
    created_at = e.now;
    updated_at = e.now;
  }

  -- The password of a registration, hashed and stored.
  unfoldable pub store_password : AccountDraws → ℕ → Bytes → Action Tables AuthError (Unit {0})
  store_password e user password = do
    c ← lift (hashed (hash a.hashing a.passwords password))
    upsert_password a.tokens.db a.jsonb e.stored_at e.credential_id (new_credential e user c)

  -- What Register does in its transaction.
  unfoldable pub store_account : AccountDraws → RegisterRequest → Action Tables AuthError User
  store_account e r = do
    let u : User = new_user e r
    create_user a.tokens.db a.citext u
    if r.password == [] then pure tt else store_password e u.id r.password
    pure u

  abbrev pub reply_of : User → TokenResponse → RegisterResponse
  reply_of u tokens = record {
    user_id = a.tokens.uuids.to_string u.id;
    requires_email_verification = true;
    access_token = tokens.access_token;
    refresh_token = tokens.refresh_token;
    expires_in = tokens.expires_in;
  }

  -- AuthServiceImpl.Register
  unfoldable pub register_account :
      AccountDraws → RegisterRequest → Bytes → List ℕ → Action Tables AuthError RegisterResponse
  register_account e r ip ua = do
    raise_if (r.email == [] || r.username == []) empty_credential
    raise_if (not (r.password == []) && ltb (length r.password) 8) password_length
    u ← a.tokens.db.transaction (store_account e r)
    tokens ← issue a.tokens e.issued u none ip ua
    pure (reply_of u tokens)

  -- Step 1 of Login: the user by email or by username.
  unfoldable pub find_user : Bytes → Action Tables AuthError User
  find_user name =
      if looks_like_email name
      then masked invalid_credentials (get_by_email a.tokens.db a.citext name)
      else masked invalid_credentials (get_by_username a.tokens.db a.citext name)

  -- Step 4: a new hash under the current policy.
  unfoldable pub rehash :
      AccountDraws → PasswordCredential → Bytes → Action Tables AuthError (Unit {0})
  rehash e cred password = do
    c ← lift (hashed (hash a.hashing a.passwords password))
    upsert_password a.tokens.db a.jsonb e.stored_at e.credential_id
        (record cred { credential = c; updated_at = e.now })

  -- Steps 3 to 5, for a user and a credential that were found.
  unfoldable pub admit :
      AccountDraws
      → User
      → PasswordCredential
      → Bytes
      → Bytes
      → List ℕ
      → Action Tables AuthError TokenResponse
  admit e u cred password ip ua = do
    let checked : Bool × Bool = verify a.hashing a.passwords password cred.credential
    raise_if (not checked.1) invalid_credentials
    if checked.0 then rehash e cred password else pure tt
    issue a.tokens e.issued u none ip ua

  -- What Login runs in its transaction.
  unfoldable pub log_in :
      AccountDraws → LoginRequest → Bytes → List ℕ → Action Tables AuthError TokenResponse
  log_in e r ip ua = do
    u ← find_user r.email_or_username
    raise_if u.is_disabled user_disabled
    cred ← masked invalid_credentials (get_password a.tokens.db u.id)
    admit e u cred r.password ip ua

  -- A transaction in which the token service writes sessions through its own connection: they stay
  -- written when the transaction is rolled back.
  abbrev pub beside_sessions : {A : Type 0} → Action Tables AuthError A → Action Tables AuthError A
  beside_sessions m t =
      let (r, t') = a.tokens.db.transaction m t in
      let left : Tables = (m t).1 in (r, record t' { sessions = left.sessions })

  -- AuthServiceImpl.Login
  unfoldable pub login :
      AccountDraws → LoginRequest → Bytes → List ℕ → Action Tables AuthError TokenResponse
  login e r ip ua = do
    raise_if (r.email_or_username == [] || r.password == []) empty_credential
    beside_sessions (log_in e r ip ua)
