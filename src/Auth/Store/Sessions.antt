-- ===== src/Auth/Store/Sessions.antt =====
-- services/auth/internal/store/session_store.go, as actions on the tables. uuid.New never gives
-- uuid.Nil, so the identifiers of a session that is created are set, and Create fills in none.
use secu_msg_server.Common.{
  ℕ, Bool, true, false, ◌==◌, nat_eq, ◌&&◌, ◌||◌, Option, none, some, Action, pure, lift, or_raise,
  get, modify, ◌>>=◌, ◌>>◌,
}
use secu_msg_server.Bytes.{Bytes}
use secu_msg_server.Database.{Row, Gorm}
use secu_msg_server.Auth.Types.{Session, Tables, AuthError, gorm_record_not_found}

-- `revoked_at IS NULL`
abbrev pub is_null : Option ℕ → Bool
is_null none = true
is_null (some at) = false

-- No order is asked for.
abbrev pub unordered : {R : Type 0} → Row R → Row R → Bool
unordered r s = false

-- The primary key and the unique index ux_sessions_refreshid.
abbrev pub session_clash : Session → Session → Bool
session_clash new old = old.id == new.id || old.refresh_id == new.refresh_id

abbrev pub is_session : ℕ → Session → Bool
is_session id s = s.id == id

abbrev pub revoked_at_time : ℕ → Session → Session
revoked_at_time at s = record s { revoked_at = some at }

-- `user_id = ? AND revoked_at IS NULL`
abbrev pub is_live_of : ℕ → Session → Bool
is_live_of user s = s.user_id == user && is_null s.revoked_at

-- The columns that Rotate writes.
abbrev pub rotated : ℕ → ℕ → Bytes → Bytes → Session → Session
rotated refresh_id expires_at ip user_agent s = record s {
  refresh_id = refresh_id;
  expires_at = expires_at;
  ip = ip;
  user_agent = user_agent;
}

module _ (g : Gorm AuthError) where
  -- SessionStore.Create
  unfoldable pub create_session : Session → Action Tables AuthError (Unit {0})
  create_session s = do
    t ← get
    sessions ← lift (g.insert session_clash s t.sessions)
    modify (λ t. record t { sessions = sessions })

  -- SessionStore.GetByRefreshID
  unfoldable pub get_by_refresh_id : ℕ → Action Tables AuthError Session
  get_by_refresh_id rid = do
    t ← get
    found ← lift (g.first (λ (r : Row Session). r.value.refresh_id == rid) unordered t.sessions)
    row ← or_raise found gorm_record_not_found
    pure row.value

  -- SessionStore.GetByID
  unfoldable pub get_session : ℕ → Action Tables AuthError Session
  get_session id = do
    t ← get
    found ← lift (g.first (λ (r : Row Session). r.value.id == id) unordered t.sessions)
    row ← or_raise found gorm_record_not_found
    pure row.value

  -- SessionStore.Revoke
  unfoldable pub revoke_session_row : ℕ → ℕ → Action Tables AuthError (Unit {0})
  revoke_session_row id at = do
    t ← get
    sessions ← lift (g.update (is_session id) (revoked_at_time at) t.sessions)
    modify (λ t. record t { sessions = sessions })

  -- SessionStore.RevokeAllForUser
  unfoldable pub revoke_all_sessions : ℕ → ℕ → Action Tables AuthError ℕ
  revoke_all_sessions user at = do
    t ← get
    (n, sessions) ← lift (g.update_counted (is_live_of user) (revoked_at_time at) t.sessions)
    modify (λ t. record t { sessions = sessions })
    pure n

  -- SessionStore.Rotate: whether a row was changed is not looked at.
  unfoldable pub rotate_session : ℕ → ℕ → ℕ → Bytes → Bytes → Action Tables AuthError (Unit {0})
  rotate_session id refresh_id expires_at ip user_agent = do
    t ← get
    sessions ← lift (
        g.update (λ s. s.id == id && is_null s.revoked_at)
          (rotated refresh_id expires_at ip user_agent) t.sessions)
    modify (λ t. record t { sessions = sessions })
