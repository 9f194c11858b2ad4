-- ===== src/Auth/Verify.antt =====
-- VerifyAccess of services/auth/internal/service/impl/token_service_impl.go.
use secu_msg_server.Common.{
  ℕ, Bool, true, false, if◌then◌else◌, ◌==◌, nat_eq, list_eq, not, Option, none, some, [], Action,
  ok, err, pure, raise, ◌>>=◌,
}
use secu_msg_server.Bytes.{Bytes}
use secu_msg_server.Text.{trim_space}
use secu_msg_server.Auth.Types.{
  Session, Tables, VerifyRequest, VerifyResponse, AuthError, gorm_record_not_found,
}
use secu_msg_server.Auth.Claims.{AccessClaims, or_empty}
use secu_msg_server.Auth.Store.Sessions.{get_session}
use secu_msg_server.Auth.Store.Devices.{get_active}
use secu_msg_server.Auth.Tokens.{TokenService, Draws, attempt, is_over, is_missing, is_ours}

abbrev pub refused : VerifyResponse
refused = record {
  valid = false;
  user_id = [];
  session_id = [];
  token_device_id = [];
  device_authorized = false;
}

-- `claims.DID != nil && *claims.DID != devID.String()`
abbrev pub is_other : Option Bytes → Bytes → Bool
is_other none device = false
is_other (some d) device = not (d == device)

-- `errors.Is(err, gorm.ErrRecordNotFound)`
abbrev pub is_gorm_missing : AuthError → Bool
is_gorm_missing gorm_record_not_found = true
is_gorm_missing other = false

abbrev pub with_session : AccessClaims → Option ℕ → Option (AccessClaims × ℕ)
with_session c none = none
with_session c (some id) = some (c, id)

module _ (s : TokenService) where
  abbrev pub answer_of : Session → Option Bytes → Bool → VerifyResponse
  answer_of sess did authorized = record {
    valid = true;
    user_id = s.uuids.to_string sess.user_id;
    session_id = s.uuids.to_string sess.id;
    token_device_id = or_empty did;
    device_authorized = authorized;
  }

  -- Whether the device that the request names is authorized.
  unfoldable pub check_device : Session → Option Bytes → Bytes → Action Tables AuthError Bool
  check_device sess did name = if name == [] then pure true else elim (s.uuids.parse name) [
    | none ↦ pure false
    | some device ↦ if is_other did (s.uuids.to_string device) then pure false else do
      found ← attempt (get_active s.db device)
      elim found [
        | ok dev ↦ pure (dev.user_id == sess.user_id)
        | err e ↦ if is_missing e then pure false else raise e
      ]
  ]

  -- VerifyAccess from the reading of the session on.
  unfoldable pub verify_session :
      Draws → AccessClaims → ℕ → Bytes → Action Tables AuthError VerifyResponse
  verify_session e claims id name = do
    found ← attempt (get_session s.db id)
    elim found [
      | err x ↦ if is_gorm_missing x then pure refused else raise x
      | ok sess ↦ if is_over e.now sess then pure refused else do
        authorized ← check_device sess claims.did name
        pure (answer_of sess claims.did authorized)
    ]

  -- The session that an access token names.
  unfoldable pub read_access : ℕ → Bytes → Option (AccessClaims × ℕ)
  read_access now token =
      if token == [] then none else elim (s.jwt.parse_access s.cfg.signing_key now token) [
        | none ↦ none
        | some c ↦ if is_ours s c.registered then with_session c (s.uuids.parse c.sid) else none
      ]

  abbrev pub verify_read :
      Draws → Bytes → Option (AccessClaims × ℕ) → Action Tables AuthError VerifyResponse
  verify_read e name none = pure refused
  verify_read e name (some (claims, id)) = verify_session e claims id name

  unfoldable pub verify_access : Draws → VerifyRequest → Action Tables AuthError VerifyResponse
  verify_access e req =
      verify_read e (trim_space req.device_id) (read_access e.parsed_at (trim_space req.token))
