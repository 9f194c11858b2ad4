-- ===== src/Keys/Store.antt =====
-- The stores of services/keys/internal/store, as actions on the tables. `created_at` of the rows
-- decides the order in which one-time prekeys are handed out.
use secu_msg_server.Common.{
  ℕ, Bool, true, false, ◌==◌, nat_eq, ◌&&◌, ◌||◌, ltb, Option, none, some, List, [], ◌∷◌, Action,
  pure, lift, or_raise, get, modify, ◌>>=◌, ◌>>◌,
}
use secu_msg_server.Database.{Row, Gorm}
use secu_msg_server.Keys.Types.{
  User, Device, IdentityKey, SignedPreKey, OneTimePrekey, Tables, KeysError, record_not_found,
}

-- No order is asked for.
abbrev unordered : {R : Type 0} → Row R → Row R → Bool
unordered r s = false

abbrev pub is_open : Option ℕ → Bool
is_open none = true
is_open (some at) = false

-- `created_at ASC, id ASC`
abbrev pub older : Row OneTimePrekey → Row OneTimePrekey → Bool
older r s =
    ltb r.created_at s.created_at || (r.created_at == s.created_at && ltb r.value.id s.value.id)

module _ (g : Gorm KeysError) where
  -- UserStore.Ensure
  unfoldable pub ensure_user : ℕ → Action Tables KeysError (Unit {0})
  ensure_user id = do
    t ← get
    users ←
        lift (g.create (λ (u v : User). v.id == u.id) (λ u v. v) (record { id = id } ∷ []) t.users)
    modify (λ s. record s { users = users })

  -- DeviceStore.Upsert
  unfoldable pub upsert_device : Device → Action Tables KeysError (Unit {0})
  upsert_device d = do
    t ← get
    devices ← lift (
        g.create (λ (d e : Device). e.id == d.id) (λ d e. record e { user_id = d.user_id }) (d ∷ [])
          t.devices)
    modify (λ s. record s { devices = devices })

  -- DeviceStore.Get
  unfoldable pub get_device : ℕ → Action Tables KeysError Device
  get_device id = do
    t ← get
    found ← lift (g.first (λ (r : Row Device). r.value.id == id) unordered t.devices)
    row ← or_raise found record_not_found
    pure row.value

  -- IdentityKeyStore.Upsert
  unfoldable pub upsert_identity_key : IdentityKey → Action Tables KeysError (Unit {0})
  upsert_identity_key k = do
    t ← get
    keys ← lift (
        g.create (λ (k l : IdentityKey). l.device_id == k.device_id)
          (λ k l. record l { public_key = k.public_key; signature_key = k.signature_key }) (k ∷ [])
          t.identity_keys)
    modify (λ s. record s { identity_keys = keys })

  -- IdentityKeyStore.GetByDevice
  unfoldable pub get_identity_key : ℕ → Action Tables KeysError IdentityKey
  get_identity_key device = do
    t ← get
    found ←
        lift
          (g.first (λ (r : Row IdentityKey). r.value.device_id == device) unordered t.identity_keys)
    row ← or_raise found record_not_found
    pure row.value

  -- SignedPreKeyStore.Upsert
  unfoldable pub upsert_signed_pre_key : SignedPreKey → Action Tables KeysError (Unit {0})
  upsert_signed_pre_key k = do
    t ← get
    keys ← lift (
        g.create (λ (k l : SignedPreKey). l.device_id == k.device_id)
          (λ k l. record l {
            public_key = k.public_key;
            signature = k.signature;
            created_at = k.created_at;
          })
          (k ∷ []) t.signed_pre_keys)
    modify (λ s. record s { signed_pre_keys = keys })

  -- SignedPreKeyStore.GetByDevice
  unfoldable pub get_signed_pre_key : ℕ → Action Tables KeysError SignedPreKey
  get_signed_pre_key device = do
    t ← get
    found ← lift (
        g.first (λ (r : Row SignedPreKey). r.value.device_id == device) unordered t.signed_pre_keys)
    row ← or_raise found record_not_found
    pure row.value

  -- OneTimePreKeyStore.AddBatch: a key whose number is there already is left as it is.
  unfoldable pub add_batch : List OneTimePrekey → Action Tables KeysError (Unit {0})
  add_batch [] = pure tt
  add_batch (k ∷ keys) = do
    t ← get
    rows ←
        lift (
          g.create (λ (k l : OneTimePrekey). l.id == k.id) (λ k l. l) (k ∷ keys) t.one_time_prekeys)
    modify (λ s. record s { one_time_prekeys = rows })

  -- The update of OneTimePreKeyStore.ConsumeNext at the row found.
  unfoldable pub consume_row :
      ℕ → Option (Row OneTimePrekey) → Action Tables KeysError (Option OneTimePrekey)
  consume_row now none = pure none
  consume_row now (some row) = do
    t ← get
    rows ← lift (
        g.update (λ (k : OneTimePrekey). k.id == row.value.id)
          (λ k. record k { consumed_at = some now }) t.one_time_prekeys)
    modify (λ s. record s { one_time_prekeys = rows })
    pure (some (record row.value { consumed_at = some now }))

  -- OneTimePreKeyStore.ConsumeNext
  unfoldable pub consume_next : ℕ → ℕ → Action Tables KeysError (Option OneTimePrekey)
  consume_next now device = do
    t ← get
    found ← lift (
        g.first
          (λ (r : Row OneTimePrekey). r.value.device_id == device && is_open r.value.consumed_at)
          older t.one_time_prekeys)
    consume_row now found
