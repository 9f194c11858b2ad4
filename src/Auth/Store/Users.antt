-- ===== src/Auth/Store/Users.antt =====
-- services/auth/internal/store/user_store.go and credential_store.go, as actions on the tables. The
-- columns email and username are citext: how the database compares them is a parameter, as is the text
-- that it gives out for a jsonb column. gorm sets the column updated_at of a row that it updates.
use secu_msg_server.Common.{
  ℕ, Bool, true, if◌then◌else◌, ◌==◌, nat_eq, ◌||◌, [], ◌∷◌, Action, pure, lift, or_raise, get,
  modify, ◌>>=◌,
}
use secu_msg_server.Bytes.{Bytes}
use secu_msg_server.Database.{Row, Gorm}
use secu_msg_server.Auth.Password.{Credential}
use secu_msg_server.Auth.Types.{
  User, PasswordCredential, Tables, AuthError, store_record_not_found, gorm_record_not_found,
}
use secu_msg_server.Auth.Store.Sessions.{unordered}

-- The primary key and the unique indexes ux_users_email and ux_users_username.
abbrev pub user_clash : (Bytes → Bytes → Bool) → User → User → Bool
user_clash citext new old =
    old.id == new.id || (citext old.email new.email || citext old.username new.username)

-- What the row of a credential keeps of it.
abbrev pub as_kept : (Bytes → Bytes) → Credential → Credential
as_kept jsonb c = record c { params_json = jsonb c.params_json }

-- The columns that an upsert writes over.
abbrev pub assign_password : PasswordCredential → PasswordCredential → PasswordCredential
assign_password new old = record old { credential = new.credential; updated_at = new.updated_at }

module _ (g : Gorm AuthError) (citext : Bytes → Bytes → Bool) where
  -- UserStore.Create
  unfoldable pub create_user : User → Action Tables AuthError (Unit {0})
  create_user u = do
    t ← get
    users ← lift (g.insert (user_clash citext) u t.users)
    modify (λ t. record t { users = users })

  -- UserStore.GetByEmail
  unfoldable pub get_by_email : Bytes → Action Tables AuthError User
  get_by_email email = do
    t ← get
    found ← lift (g.first (λ (r : Row User). citext r.value.email email) unordered t.users)
    row ← or_raise found store_record_not_found
    pure row.value

  -- UserStore.GetByUsername
  unfoldable pub get_by_username : Bytes → Action Tables AuthError User
  get_by_username username = do
    t ← get
    found ← lift (g.first (λ (r : Row User). citext r.value.username username) unordered t.users)
    row ← or_raise found store_record_not_found
    pure row.value

module _ (g : Gorm AuthError) where
  -- UserStore.GetByID
  unfoldable pub get_user : ℕ → Action Tables AuthError User
  get_user id = do
    t ← get
    found ← lift (g.first (λ (r : Row User). r.value.id == id) unordered t.users)
    row ← or_raise found store_record_not_found
    pure row.value

  -- UserStore.SetEmailVerified; `now` is the time that gorm asks for.
  unfoldable pub set_email_verified : ℕ → ℕ → Action Tables AuthError (Unit {0})
  set_email_verified now id = do
    t ← get
    users ← lift (
        g.update (λ (u : User). u.id == id)
          (λ u. record u { email_verified = true; updated_at = now }) t.users)
    modify (λ t. record t { users = users })

  -- UserStore.SetDisabled
  unfoldable pub set_disabled : ℕ → ℕ → Bool → Action Tables AuthError (Unit {0})
  set_disabled now id disabled = do
    t ← get
    users ← lift (
        g.update (λ (u : User). u.id == id)
          (λ u. record u { is_disabled = disabled; updated_at = now }) t.users)
    modify (λ t. record t { users = users })

  -- CredentialStore.UpsertPassword; `id` is the identifier drawn for a credential that has none.
  unfoldable pub upsert_password :
      (Bytes → Bytes) → ℕ → ℕ → PasswordCredential → Action Tables AuthError (Unit {0})
  upsert_password jsonb now id cred = do
    let c : PasswordCredential = record cred {
      id = if cred.id == 0 then id else cred.id;
      credential = as_kept jsonb cred.credential;
      created_at = if cred.created_at == 0 then now else cred.created_at;
      updated_at = now;
    }
    t ← get
    credentials ← lift (
        g.create (λ (new old : PasswordCredential). old.user_id == new.user_id) assign_password
          (c ∷ []) t.credentials)
    modify (λ t. record t { credentials = credentials })

  -- CredentialStore.GetPasswordByUserID
  unfoldable pub get_password : ℕ → Action Tables AuthError PasswordCredential
  get_password user = do
    t ← get
    found ←
        lift (
          g.first (λ (r : Row PasswordCredential). r.value.user_id == user) unordered t.credentials)
    row ← or_raise found gorm_record_not_found
    pure row.value
