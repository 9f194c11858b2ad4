-- ===== src/Keys/Service.antt =====
-- services/keys/internal/service/service.go: registration of a device, hand-out of its prekeys and
-- rotation of its signed prekey. `now` is what time.Now gives in the call; google/uuid is a record
-- of parameters, and the state counts how many identifiers have been drawn.
use secu_msg_server.Common.{
  ℕ, suc, if◌then◌else◌, ◌==◌, nat_eq, string_eq, ◌||◌, Option, none, some, List, [], ◌∷◌, length,
  String, Action, ok, err, pure, raise_if, or_raise, ◌>>=◌, ◌>>◌,
}
use secu_msg_server.Uuid.{Uuids}
use secu_msg_server.Database.{Gorm}
use secu_msg_server.Keys.Types.{
  IdentityKey, SignedPreKey, OneTimePrekey, Tables, SignedPreKeyDto, OneTimePreKeyDto,
  RegisterDeviceRequest, RegisterDeviceResponse, RotateSignedPreKeyRequest,
  RotateSignedPreKeyResponse, PreKeyBundleResponse, KeysError, invalid_request, device_not_found,
  record_not_found, database,
}
use secu_msg_server.Keys.Store.{
  ensure_user, upsert_device, get_device, upsert_identity_key, get_identity_key,
  upsert_signed_pre_key, get_signed_pre_key, add_batch, consume_next,
}

-- The service: its tables, and the number of identifiers drawn.
pub record World : Type 0 where
  pub tables : Tables
  pub draws : ℕ

abbrev at_draws : {A : Type 0} → Action ℕ KeysError A → Action World KeysError A
at_draws m w = let (r, n) = m w.draws in (r, record w { draws = n })

-- Store.WithTx
abbrev with_tx :
    {A : Type 0} → Gorm KeysError → Action Tables KeysError A → Action World KeysError A
with_tx g m w = let (r, t) = g.transaction m w.tables in (r, record w { tables = t })

unfoldable pub parse_or_generate : Uuids String → String → String → Action ℕ KeysError ℕ
parse_or_generate u label id n =
    if id == "" then (ok (u.drawn n), suc n) else or_raise (u.parse id) (invalid_request label) n

-- The loop over the one-time prekeys of a request.
unfoldable pub parse_one_time_keys :
    Uuids String → ℕ → List OneTimePreKeyDto → Action ℕ KeysError (List OneTimePrekey)
parse_one_time_keys u device [] = pure []
parse_one_time_keys u device (k ∷ keys) = do
  raise_if (k.public_key == "") (invalid_request "one-time prekey missing publicKey")
  id ← parse_or_generate u "invalid one-time prekey id" k.id
  rest ← parse_one_time_keys u device keys
  pure
      (record { id = id; device_id = device; public_key = k.public_key; consumed_at = none } ∷ rest)

-- `createdAt.IsZero()`
abbrev pub or_now : ℕ → ℕ → ℕ
or_now now at = if at == 0 then now else at

-- An error that is store.ErrRecordNotFound becomes ErrDeviceNotFound.
abbrev pub or_device_not_found :
    {A : Type 0} → Action Tables KeysError A → Action Tables KeysError A
or_device_not_found m t =
    let (r, t') = m t in
    (
      elim r [
        | ok a ↦ ok a
        | err e ↦ elim e [
          | invalid_request label ↦ err (invalid_request label)
          | device_not_found ↦ err device_not_found
          | record_not_found ↦ err device_not_found
          | database text ↦ err (database text)
        ]
      ],
      t',
    )

-- The tests and the parsing at the head of `RegisterDevice`.
unfoldable pub read_registration :
    Uuids String → RegisterDeviceRequest → Action ℕ KeysError (ℕ × ℕ × List OneTimePrekey)
read_registration u req = do
  raise_if
      (req.identity_key == ""
        || req.identity_signature_key == ""
        || req.signed_pre_key.public_key == ""
        || req.signed_pre_key.signature == "")
      (invalid_request "missing key material")
  user ← parse_or_generate u "invalid userId" req.user_id
  device ← parse_or_generate u "invalid deviceId" req.device_id
  otks ← parse_one_time_keys u device req.one_time_pre_keys
  pure (user, device, otks)

-- The tests and the parsing at the head of `RotateSignedPreKey`.
unfoldable pub read_rotation :
    Uuids String → RotateSignedPreKeyRequest → Action ℕ KeysError (ℕ × List OneTimePrekey)
read_rotation u req = do
  device ← or_raise (u.parse req.device_id) (invalid_request "invalid deviceId")
  raise_if (req.signed_pre_key.public_key == "" || req.signed_pre_key.signature == "")
      (invalid_request "missing signed prekey")
  otks ← parse_one_time_keys u device req.one_time_pre_keys
  pure (device, otks)

abbrev pub one_time_dto : Uuids String → Option OneTimePrekey → Option OneTimePreKeyDto
one_time_dto u none = none
one_time_dto u (some k) = some (record { id = u.to_string k.id; public_key = k.public_key })

-- The signed prekey that a request brings.
abbrev pub signed_row : ℕ → ℕ → SignedPreKeyDto → SignedPreKey
signed_row now device k = record {
  device_id = device;
  public_key = k.public_key;
  signature = k.signature;
  created_at = or_now now k.created_at;
}

-- The response of `GetPreKeyBundle`.
abbrev pub bundle_of :
    Uuids String → ℕ → IdentityKey → SignedPreKey → Option OneTimePrekey → PreKeyBundleResponse
bundle_of u device identity signed otk = record {
  device_id = u.to_string device;
  identity_key = identity.public_key;
  identity_signature_key = identity.signature_key;
  signed_pre_key = record {
    public_key = signed.public_key;
    signature = signed.signature;
    created_at = signed.created_at;
  };
  one_time_pre_key = one_time_dto u otk;
}

module _ (g : Gorm KeysError) (u : Uuids String) where
  -- The transaction of `RegisterDevice`.
  unfoldable pub store_registration :
      ℕ → RegisterDeviceRequest → ℕ → ℕ → List OneTimePrekey → Action Tables KeysError (Unit {0})
  store_registration now req user device otks = do
    ensure_user g user
    upsert_device g (record { id = device; user_id = user })
    upsert_identity_key g (record {
      device_id = device;
      public_key = req.identity_key;
      signature_key = req.identity_signature_key;
    })
    upsert_signed_pre_key g (signed_row now device req.signed_pre_key)
    add_batch g otks

  unfoldable pub register_device :
      ℕ → RegisterDeviceRequest → Action World KeysError RegisterDeviceResponse
  register_device now req = do
    (user, device, otks) ← at_draws (read_registration u req)
    with_tx g (store_registration now req user device otks)
    pure (record {
      user_id = u.to_string user;
      device_id = u.to_string device;
      one_time_pre_keys = length otks;
    })

  -- The transaction of `GetPreKeyBundle`, with the response made from what it has read.
  unfoldable pub read_bundle : ℕ → ℕ → Action Tables KeysError PreKeyBundleResponse
  read_bundle now device = do
    identity ← or_device_not_found (get_identity_key g device)
    signed ← or_device_not_found (get_signed_pre_key g device)
    otk ← consume_next g now device
    pure (bundle_of u device identity signed otk)

  unfoldable pub get_pre_key_bundle : ℕ → ℕ → Action World KeysError PreKeyBundleResponse
  get_pre_key_bundle now device = with_tx g (read_bundle now device)

  -- The transaction of `RotateSignedPreKey`.
  unfoldable pub store_rotation :
      ℕ → RotateSignedPreKeyRequest → ℕ → List OneTimePrekey → Action Tables KeysError (Unit {0})
  store_rotation now req device otks = do
    _ ← or_device_not_found (get_device g device)
    upsert_signed_pre_key g (signed_row now device req.signed_pre_key)
    add_batch g otks

  unfoldable pub rotate_signed_pre_key :
      ℕ → RotateSignedPreKeyRequest → Action World KeysError RotateSignedPreKeyResponse
  rotate_signed_pre_key now req = do
    (device, otks) ← at_draws (read_rotation u req)
    with_tx g (store_rotation now req device otks)
    pure (record {
      device_id = req.device_id;
      signed_pre_key = record {
        public_key = req.signed_pre_key.public_key;
        signature = req.signed_pre_key.signature;
        created_at = or_now now req.signed_pre_key.created_at;
      };
      added_one_time_keys = length otks;
    })
