-- ===== src/Auth/Devices.antt =====
-- services/auth/internal/service/impl/device_service_impl.go, for a service that has its store.
pub mod Revocation
use secu_msg_server.Common.{
  ℕ, Bool, true, false, if◌then◌else◌, ◌==◌, nat_eq, list_eq, ◌&&◌, not, Option, none, some, List,
  [], ◌∷◌, Action, Result, ok, err, pure, raise, raise_if, ◌>>=◌, ◌>>◌,
}
use secu_msg_server.Bytes.{Bytes}
use secu_msg_server.Text.{trim_space}
use secu_msg_server.Database.{Gorm}
use secu_msg_server.Auth.Types.{
  User, Device, Tables, AuthError, store_record_not_found, record_not_found, device_not_found,
  device_revoked, empty_device_name, empty_device_platform, invalid_device_user_id,
  invalid_device_id, empty_username,
}
use secu_msg_server.Auth.Store.Sessions.{is_null}
use secu_msg_server.Auth.Store.Devices.{
  Stamp, create_device, find_device, get_first_active, get_active, revoke_device_row,
}
use secu_msg_server.Auth.Store.Users.{get_by_username, get_user}
use secu_msg_server.Auth.Tokens.{is_missing}

-- store.ErrRecordNotFound becomes the error given.
abbrev pub translated :
    {A : Type 0} → AuthError → Action Tables AuthError A → Action Tables AuthError A
translated e m t =
    let (r, t') = m t in (elim r [ ok a ↦ ok a | err x ↦ err (if is_missing x then e else x) ], t')

-- translateDeviceErr of a call.
abbrev pub translate_device_err :
    {A : Type 0} → Action Tables AuthError A → Action Tables AuthError A
translate_device_err m = translated device_not_found m

module _ (g : Gorm AuthError) where
  -- The device that Register makes.
  abbrev new_device : ℕ → ℕ → Bytes → Bytes → Device
  new_device now user name platform = record {
    id = 0;
    user_id = user;
    name = name;
    platform = platform;
    push_token = none;
    created_at = now;
    updated_at = now;
    revoked_at = none;
  }

  -- DeviceServiceImpl.Register; `id` is the identifier that the store draws.
  unfoldable pub register_user_device : ℕ → ℕ → ℕ → Bytes → Bytes → Action Tables AuthError Device
  register_user_device now id user raw_name raw_platform = do
    raise_if (user == 0) invalid_device_user_id
    let name : Bytes = trim_space raw_name
    let platform : Bytes = trim_space raw_platform
    raise_if (name == []) empty_device_name
    raise_if (platform == []) empty_device_platform
    g.transaction (create_device g id (new_device now user name platform))

  -- The function that Revoke runs in its transaction. The store asks for the time in each call.
  unfoldable pub revoke_twice : Stamp → Stamp → ℕ → Action Tables AuthError (Unit {0})
  revoke_twice first second id = do
    dev ← translate_device_err (find_device g id)
    raise_if (not (is_null dev.revoked_at)) device_revoked
    translate_device_err (revoke_device_row g first id)
    translate_device_err (revoke_device_row g second id)

  -- DeviceServiceImpl.Revoke
  unfoldable pub revoke_device : Stamp → Stamp → ℕ → Action Tables AuthError (Unit {0})
  revoke_device first second id = do
    raise_if (id == 0) invalid_device_id
    g.transaction (revoke_twice first second id)

  -- ResolveFirstActiveByUsername, of which the HTTP handler uses user and device only together.
  unfoldable pub resolve_first_active_by_username :
      (Bytes → Bytes → Bool) → Bytes → Action Tables AuthError (User × Device)
  resolve_first_active_by_username citext raw = do
    let username : Bytes = trim_space raw
    raise_if (username == []) empty_username
    user ← translated record_not_found (get_by_username g citext username)
    device ← translated device_not_found (get_first_active g user.id)
    pure (user, device)

  -- ResolveActiveByDeviceID
  unfoldable pub resolve_active_by_device_id : ℕ → Action Tables AuthError (User × Device)
  resolve_active_by_device_id id = do
    raise_if (id == 0) invalid_device_id
    device ← translated device_not_found (get_active g id)
    user ← translated record_not_found (get_user g device.user_id)
    pure (user, device)
