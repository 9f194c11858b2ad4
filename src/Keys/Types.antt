-- ===== src/Keys/Types.antt =====
-- The data of services/keys: the structs of internal/domain/models.go (without the creation times
-- that gorm fills in), of internal/dto, and the errors. A uuid.UUID and a time.Time are numbers;
-- the zero time is 0.
use secu_msg_server.Common.{ℕ, Option, List, String}
use secu_msg_server.Database.{Table}

pub record User : Type 0 where
  pub id : ℕ

pub record Device : Type 0 where
  pub id : ℕ
  pub user_id : ℕ

pub record IdentityKey : Type 0 where
  pub device_id : ℕ
  pub public_key : String
  pub signature_key : String

pub record SignedPreKey : Type 0 where
  pub device_id : ℕ
  pub public_key : String
  pub signature : String
  pub created_at : ℕ

pub record OneTimePrekey : Type 0 where
  pub id : ℕ
  pub device_id : ℕ
  pub public_key : String
  pub consumed_at : Option ℕ

-- The tables of migrations/0001_init.up.sql.
pub record Tables : Type 0 where
  pub users : Table User
  pub devices : Table Device
  pub identity_keys : Table IdentityKey
  pub signed_pre_keys : Table SignedPreKey
  pub one_time_prekeys : Table OneTimePrekey

pub record SignedPreKeyDto : Type 0 where
  pub public_key : String
  pub signature : String
  pub created_at : ℕ

pub record OneTimePreKeyDto : Type 0 where
  pub id : String
  pub public_key : String

pub record RegisterDeviceRequest : Type 0 where
  pub user_id : String
  pub device_id : String
  pub identity_key : String
  pub identity_signature_key : String
  pub signed_pre_key : SignedPreKeyDto
  pub one_time_pre_keys : List OneTimePreKeyDto

pub record RegisterDeviceResponse : Type 0 where
  pub user_id : String
  pub device_id : String
  pub one_time_pre_keys : ℕ

pub record RotateSignedPreKeyRequest : Type 0 where
  pub device_id : String
  pub signed_pre_key : SignedPreKeyDto
  pub one_time_pre_keys : List OneTimePreKeyDto

pub record RotateSignedPreKeyResponse : Type 0 where
  pub device_id : String
  pub signed_pre_key : SignedPreKeyDto
  pub added_one_time_keys : ℕ

pub record PreKeyBundleResponse : Type 0 where
  pub device_id : String
  pub identity_key : String
  pub identity_signature_key : String
  pub signed_pre_key : SignedPreKeyDto
  pub one_time_pre_key : Option OneTimePreKeyDto

-- ErrInvalidRequest with its text, ErrDeviceNotFound, store.ErrRecordNotFound, a database error.
pub data KeysError : Type 0 where
  invalid_request : String → KeysError
  device_not_found record_not_found : KeysError
  database : String → KeysError
