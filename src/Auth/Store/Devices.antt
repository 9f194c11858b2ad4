-- ===== src/Auth/Store/Devices.antt =====
-- services/auth/internal/store/device_store.go, as actions on the tables. gorm sets the
-- column updated_at of a row that it updates.
use secu_msg_server.Common.{
  ℕ, Bool, if◌then◌else◌, ◌==◌, nat_eq, ◌&&◌, ltb, some, Action, pure, raise_if, lift, or_raise,
  get, modify, ◌>>=◌, ◌>>◌,
}
use secu_msg_server.Database.{Row, Gorm}
use secu_msg_server.Auth.Types.{Device, Tables, AuthError, store_record_not_found}
use secu_msg_server.Auth.Store.Sessions.{is_null, unordered}

-- `id = ? AND revoked_at IS NULL`
abbrev pub is_active : ℕ → Device → Bool
is_active id d = d.id == id && is_null d.revoked_at

-- `user_id = ? AND revoked_at IS NULL`
abbrev pub is_active_of : ℕ → Device → Bool
is_active_of user d = d.user_id == user && is_null d.revoked_at

-- `created_at ASC`
abbrev pub older_device : Row Device → Row Device → Bool
older_device r s = ltb r.value.created_at s.value.created_at

-- The time that a call asks for, and the later one that gorm asks for.
pub record Stamp : Type 0 where
  pub now : ℕ
  pub saved_at : ℕ

abbrev pub mark_revoked : Stamp → Device → Device
mark_revoked e d = record d { revoked_at = some e.now; updated_at = e.saved_at }

module _ (g : Gorm AuthError) where
  -- DeviceStore.Create; `id` is the identifier drawn for a device that has none.
  unfoldable pub create_device : ℕ → Device → Action Tables AuthError Device
  create_device id device = do
    let d : Device = record device { id = if device.id == 0 then id else device.id }
    t ← get
    devices ← lift (g.insert (λ (new old : Device). old.id == new.id) d t.devices)
    modify (λ t. record t { devices = devices })
    pure d

  -- DeviceStore.Get
  unfoldable pub find_device : ℕ → Action Tables AuthError Device
  find_device id = do
    t ← get
    found ← lift (g.first (λ (r : Row Device). r.value.id == id) unordered t.devices)
    row ← or_raise found store_record_not_found
    pure row.value

  -- DeviceStore.GetFirstActiveByUserID
  unfoldable pub get_first_active : ℕ → Action Tables AuthError Device
  get_first_active user = do
    t ← get
    found ← lift (g.first (λ (r : Row Device). is_active_of user r.value) older_device t.devices)
    row ← or_raise found store_record_not_found
    pure row.value

  -- DeviceStore.GetActiveByID
  unfoldable pub get_active : ℕ → Action Tables AuthError Device
  get_active id = do
    t ← get
    found ← lift (g.first (λ (r : Row Device). is_active id r.value) unordered t.devices)
    row ← or_raise found store_record_not_found
    pure row.value

  -- DeviceStore.Revoke
  unfoldable pub revoke_device_row : Stamp → ℕ → Action Tables AuthError (Unit {0})
  revoke_device_row e id = do
    t ← get
    (n, devices) ← lift (g.update_counted (is_active id) (mark_revoked e) t.devices)
    modify (λ t. record t { devices = devices })
    raise_if (n == 0) store_record_not_found

  -- DeviceStore.RevokeAllForUser
  unfoldable pub revoke_all_devices : Stamp → ℕ → Action Tables AuthError ℕ
  revoke_all_devices e user = do
    t ← get
    (n, devices) ← lift (g.update_counted (is_active_of user) (mark_revoked e) t.devices)
    modify (λ t. record t { devices = devices })
    pure n
