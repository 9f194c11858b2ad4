-- ===== src/Keys/Keeping.antt =====
-- Every transaction of services/keys/internal/service/service.go keeps a one-time prekey that has been
-- handed out spent.
use secu_msg_server.Common.{
  ℕ, ◌==◌, nat_eq, ◌&&◌, Option, none, some, List, [], ◌∷◌, ◌≡◌, sym, ap, arith, Action, ok, pure,
  ◌>>=◌, ◌>>◌, Keeps, Keeps->>=, Keeps->>, Result-cases, inl, inr, String,
}
use mathlib.Core.Path.{subst}
use secu_msg_server.Database.{Row, Gorm, Laws}
use secu_msg_server.Uuid.{Uuids}
use secu_msg_server.Keys.Types.{
  Tables, OneTimePrekey, RegisterDeviceRequest, RotateSignedPreKeyRequest, PreKeyBundleResponse,
  KeysError, Device, IdentityKey, SignedPreKey,
}
use secu_msg_server.Keys.Store.{
  ensure_user, upsert_device, get_device, upsert_identity_key, get_identity_key,
  upsert_signed_pre_key, get_signed_pre_key, add_batch, consume_next, consume_row, is_open, older,
}
use secu_msg_server.Keys.Service.{
  or_device_not_found, store_registration, store_rotation, read_bundle, signed_row, bundle_of,
}
use secu_msg_server.Keys.Spent.{IsSpent, IsSpent-consume_at, IsSpent-Puts}

-- The key is spent in the tables.
abbrev pub Spent : ℕ → Tables → Type 0
Spent k t = IsSpent k t.one_time_prekeys

module _ (g : Gorm KeysError) (laws : Laws g) (k : ℕ) where
  Keeps-ensure_user : (id : ℕ) → Keeps (Spent k) (ensure_user g id)
  unfolding ensure_user
  Keeps-ensure_user id t h = ground arith

  Keeps-upsert_device : (d : Device) → Keeps (Spent k) (upsert_device g d)
  unfolding upsert_device
  Keeps-upsert_device d t h = ground arith

  Keeps-upsert_identity_key : (i : IdentityKey) → Keeps (Spent k) (upsert_identity_key g i)
  unfolding upsert_identity_key
  Keeps-upsert_identity_key i t h = ground arith

  Keeps-upsert_signed_pre_key : (i : SignedPreKey) → Keeps (Spent k) (upsert_signed_pre_key g i)
  unfolding upsert_signed_pre_key
  Keeps-upsert_signed_pre_key i t h = ground arith

  Keeps-get_device : (d : ℕ) → Keeps (Spent k) (or_device_not_found (get_device g d))
  unfolding get_device
  Keeps-get_device d t h = ground arith

  Keeps-get_identity_key : (d : ℕ) → Keeps (Spent k) (or_device_not_found (get_identity_key g d))
  unfolding get_identity_key
  Keeps-get_identity_key d t h = ground arith

  Keeps-get_signed_pre_key :
      (d : ℕ) → Keeps (Spent k) (or_device_not_found (get_signed_pre_key g d))
  unfolding get_signed_pre_key
  Keeps-get_signed_pre_key d t h = ground arith

  Keeps-add_batch : (keys : List OneTimePrekey) → Keeps (Spent k) (add_batch g keys)
  unfolding add_batch
  Keeps-add_batch [] t h = h
  Keeps-add_batch (key ∷ keys) t h =
      elim (Result-cases (
        g.create (λ (k l : OneTimePrekey). l.id == k.id) (λ k l. l) (key ∷ keys)
          t.one_time_prekeys)) [
            | inl (rows, done) ↦
                let spent = IsSpent-Puts k (key ∷ keys) t.one_time_prekeys rows h (
                  laws.created (λ (k l : OneTimePrekey). l.id == k.id) (λ k l. l) (key ∷ keys)
                    t.one_time_prekeys rows done) in
                rw done spent
            | inr (e, failed) ↦ rw failed h
          ]

  Keeps-consume_row :
      (now : ℕ) (found : Option (Row OneTimePrekey)) → Keeps (Spent k) (consume_row g now found)
  unfolding consume_row
  Keeps-consume_row now none t h = h
  Keeps-consume_row now (some row) t h =
      let test = λ (l : OneTimePrekey). l.id == row.value.id in
      let mark = λ (l : OneTimePrekey). record l { consumed_at = some now } in
      elim (Result-cases (g.update test mark t.one_time_prekeys)) [
        | inl (rows, done) ↦
            let same = laws.updated test mark t.one_time_prekeys rows done in
            let spent = IsSpent-consume_at k row.value.id now t.one_time_prekeys h in
            rw (done, same) spent
        | inr (e, failed) ↦ rw failed h
      ]

  Keeps-consume_next : (now device : ℕ) → Keeps (Spent k) (consume_next g now device)
  unfolding consume_next
  Keeps-consume_next now device t h =
      let test =
        λ (r : Row OneTimePrekey). r.value.device_id == device && is_open r.value.consumed_at in
      elim (Result-cases (g.first test older t.one_time_prekeys)) [
        | inl (found, done) ↦ rw done (Keeps-consume_row now found t h)
        | inr (e, failed) ↦ rw failed h
      ]

  pub Keeps-store_registration :
      (u : Uuids String) (now : ℕ) (req : RegisterDeviceRequest) (user device : ℕ)
      (otks : List OneTimePrekey)
      → Keeps (Spent k) (store_registration g u now req user device otks)
  unfolding store_registration
  Keeps-store_registration u now req user device otks =
      let device_row : Device = record { id = device; user_id = user } in
      let identity : IdentityKey = record {
        device_id = device;
        public_key = req.identity_key;
        signature_key = req.identity_signature_key;
      } in
      let signed = signed_row now device req.signed_pre_key in
      let signed_on = upsert_signed_pre_key g signed >> add_batch g otks in
      let identity_on = upsert_identity_key g identity >> signed_on in
      let device_on = upsert_device g device_row >> identity_on in
      Keeps->> (Spent k) (ensure_user g user) device_on (Keeps-ensure_user user) (
        Keeps->> (Spent k) (upsert_device g device_row) identity_on (Keeps-upsert_device device_row)
          (Keeps->> (Spent k) (upsert_identity_key g identity) signed_on
            (Keeps-upsert_identity_key identity)
            (Keeps->> (Spent k) (upsert_signed_pre_key g signed) (add_batch g otks)
              (Keeps-upsert_signed_pre_key signed) (Keeps-add_batch otks))))

  pub Keeps-store_rotation :
      (u : Uuids String) (now : ℕ) (req : RotateSignedPreKeyRequest) (device : ℕ)
      (otks : List OneTimePrekey)
      → Keeps (Spent k) (store_rotation g u now req device otks)
  unfolding store_rotation
  Keeps-store_rotation u now req device otks =
      let signed = signed_row now device req.signed_pre_key in
      let signed_on = upsert_signed_pre_key g signed >> add_batch g otks in
      Keeps->> (Spent k) (or_device_not_found (get_device g device)) signed_on
        (Keeps-get_device device)
        (Keeps->> (Spent k) (upsert_signed_pre_key g signed) (add_batch g otks)
          (Keeps-upsert_signed_pre_key signed) (Keeps-add_batch otks))

  pub Keeps-read_bundle :
      (u : Uuids String) (now device : ℕ) → Keeps (Spent k) (read_bundle g u now device)
  unfolding read_bundle
  Keeps-read_bundle u now device =
      let answer : IdentityKey
          → SignedPreKey
          → Option OneTimePrekey
          → Action Tables KeysError PreKeyBundleResponse =
        λ i s otk. pure (bundle_of u device i s otk) in
      let consume : IdentityKey → SignedPreKey → Action Tables KeysError PreKeyBundleResponse =
        λ i s. consume_next g now device >>= answer i s in
      let signed : IdentityKey → Action Tables KeysError PreKeyBundleResponse =
        λ i. or_device_not_found (get_signed_pre_key g device) >>= consume i in
      Keeps->>= (Spent k) (or_device_not_found (get_identity_key g device)) signed
        (Keeps-get_identity_key device)
        λ i.
          Keeps->>= (Spent k) (or_device_not_found (get_signed_pre_key g device)) (consume i)
            (Keeps-get_signed_pre_key device)
            λ s.
              Keeps->>= (Spent k) (consume_next g now device) (answer i s)
                (Keeps-consume_next now device) λ otk t h. h

  -- A transaction keeps what its statements keep: a failed one is rolled back.
  pub Keeps-transaction :
      {A : Type 0} (m : Action Tables KeysError A)
      → Keeps (Spent k) m
      → Keeps (Spent k) (g.transaction m)
  Keeps-transaction m keep t h = elim (Result-cases (g.transaction m t).0) [
    | inl (a, done) ↦
        let t' = (g.transaction m t).1 in
        let ran : m t ≡ (ok a, t') = laws.committed m t t' a (ap (λ r. (r, t')) done) in
        subst (λ x. Spent k x.1) ran (keep t h)
    | inr (e, failed) ↦
        let t' = (g.transaction m t).1 in
        subst (Spent k) (sym (laws.rolled_back m t t' e (ap (λ r. (r, t')) failed))) h
  ]
