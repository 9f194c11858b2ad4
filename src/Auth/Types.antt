-- ===== src/Auth/Types.antt =====
-- The data of services/auth: internal/domain (users, password credentials, devices, sessions), the
-- requests and answers of internal/dto that its services use, and the errors. A uuid.UUID is a
-- number, a time.Time a number of nanoseconds, a text a list of bytes.
use secu_msg_server.Common.{ℕ, Bool, Option, String}
use secu_msg_server.Bytes.{Bytes}
use secu_msg_server.Database.{Table}
use secu_msg_server.Auth.Password.{Credential, PasswordError}

pub record User : Type 0 where
  pub id : ℕ
  pub email : Bytes
  pub email_verified : Bool
  pub username : Bytes
  pub is_disabled : Bool
  pub created_at : ℕ
  pub updated_at : ℕ

-- The columns algo, hash, salt, params_json and password_ver are those of the credential.
pub record PasswordCredential : Type 0 where
  pub id : ℕ
  pub user_id : ℕ
  pub credential : Credential
  pub created_at : ℕ
  pub updated_at : ℕ

pub record Device : Type 0 where
  pub id : ℕ
  pub user_id : ℕ
  pub name : Bytes
  pub platform : Bytes
  pub push_token : Option Bytes
  pub created_at : ℕ
  pub updated_at : ℕ
  pub revoked_at : Option ℕ

pub record Session : Type 0 where
  pub id : ℕ
  pub user_id : ℕ
  pub device_id : Option ℕ
  pub refresh_id : ℕ
  pub expires_at : ℕ
  pub revoked_at : Option ℕ
  pub created_at : ℕ
  pub ip : Bytes
  pub user_agent : Bytes

pub record Tables : Type 0 where
  pub users : Table User
  pub credentials : Table PasswordCredential
  pub devices : Table Device
  pub sessions : Table Session

-- dto.TokenResponse
pub record TokenResponse : Type 0 where
  pub access_token : Bytes
  pub refresh_token : Bytes
  pub expires_in : ℕ

pub record VerifyRequest : Type 0 where
  pub token : Bytes
  pub device_id : Bytes

pub record VerifyResponse : Type 0 where
  pub valid : Bool
  pub user_id : Bytes
  pub session_id : Bytes
  pub token_device_id : Bytes
  pub device_authorized : Bool

pub record RegisterRequest : Type 0 where
  pub email : Bytes
  pub username : Bytes
  pub password : Bytes

pub record RegisterResponse : Type 0 where
  pub user_id : Bytes
  pub requires_email_verification : Bool
  pub access_token : Bytes
  pub refresh_token : Bytes
  pub expires_in : ℕ

pub record LoginRequest : Type 0 where
  pub email_or_username : Bytes
  pub password : Bytes

-- store.ErrRecordNotFound, gorm.ErrRecordNotFound and the errors of internal/domain and of
-- internal/service/impl; `panicked` is a run-time panic, `database` an error of a statement.
pub data AuthError : Type 0 where
  store_record_not_found gorm_record_not_found record_not_found : AuthError
  device_not_found device_revoked invalid_credentials user_disabled : AuthError
  empty_credential password_length empty_username : AuthError
  empty_device_name empty_device_platform invalid_device_user_id invalid_device_id : AuthError
  invalid_token session_expired_or_revoked signing_failed panicked : AuthError
  hashing : PasswordError → AuthError
  database : String → AuthError
