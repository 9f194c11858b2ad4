-- ===== src/Keys/HandOut.antt =====
-- GetPreKeyBundle of services/keys/internal/service/service.go hands out a one-time prekey once,
-- whatever calls of the service come in between. Transactions run one after the other here, and
-- the account deletion of DeleteUserData is not among the calls.
use mathlib.Core.Path.{subst}
use secu_msg_server.Common.{
  ℕ, true, ◌==◌, nat_eq, ◌&&◌, Option, none, some, List, [], ◌∷◌, ◌≡◌, ◌≢◌, refl, sym, ap, ◌∙◌,
  arith, Action, ok, pure, ◌>>=◌, of_>>=, Result-cases, inl, inr, String,
}
use secu_msg_server.Database.{Row, Gorm, Laws}
use secu_msg_server.Uuid.{Uuids, IsPrinted, to_string_injective}
use secu_msg_server.Keys.Types.{
  Tables, OneTimePrekey, RegisterDeviceRequest, RotateSignedPreKeyRequest, PreKeyBundleResponse,
  OneTimePreKeyDto, KeysError, IdentityKey, SignedPreKey,
}
use secu_msg_server.Keys.Store.{
  get_identity_key, get_signed_pre_key, consume_next, consume_row, is_open, older,
}
use secu_msg_server.Keys.Service.{
  World, register_device, get_pre_key_bundle, rotate_signed_pre_key, or_device_not_found,
  store_registration, store_rotation, read_bundle, read_registration, read_rotation, bundle_of,
  one_time_dto,
}
use secu_msg_server.Keys.Spent.{
  IsSpent, has, has_open, IsSpent-consume_at_self, has_open_of_get_elem?,
}
use secu_msg_server.Keys.Keeping.{
  Spent, Keeps-transaction, Keeps-store_registration, Keeps-store_rotation, Keeps-read_bundle,
}

-- A call of the service, with the time at which it runs.
pub data Call : Type 0 where
  register : ℕ → RegisterDeviceRequest → Call
  hand_out : ℕ → ℕ → Call
  rotate : ℕ → RotateSignedPreKeyRequest → Call

abbrev pub run_call : Gorm KeysError → Uuids String → Call → World → World
run_call g u (register now req) w = (register_device g u now req w).1
run_call g u (hand_out now device) w = (get_pre_key_bundle g u now device w).1
run_call g u (rotate now req) w = (rotate_signed_pre_key g u now req w).1

abbrev pub run_calls : Gorm KeysError → Uuids String → List Call → World → World
run_calls g u [] w = w
run_calls g u (c ∷ cs) w = run_calls g u cs (run_call g u c w)

module _ (g : Gorm KeysError) (laws : Laws g) (u : Uuids String) where
  register-Spent :
      (k now : ℕ) (req : RegisterDeviceRequest) (w : World)
      → Spent k w.tables
      → Spent k (register_device g u now req w).1.tables
  unfolding register_device
  register-Spent k now req w h = elim (Result-cases (read_registration u req w.draws).0) [
    | inl ((user, device, otks), read) ↦
        let kept =
          Keeps-transaction g laws k (store_registration g u now req user device otks)
            (Keeps-store_registration g laws k u now req user device otks) w.tables h in
        (ground (arith, read, kept.0), ground (arith, read, kept.1))
    | inr (e, failed) ↦ (ground (arith, failed, h.0), ground (arith, failed, h.1))
  ]

  rotate-Spent :
      (k now : ℕ) (req : RotateSignedPreKeyRequest) (w : World)
      → Spent k w.tables
      → Spent k (rotate_signed_pre_key g u now req w).1.tables
  unfolding rotate_signed_pre_key
  rotate-Spent k now req w h = elim (Result-cases (read_rotation u req w.draws).0) [
    | inl ((device, otks), read) ↦
        let kept =
          Keeps-transaction g laws k (store_rotation g u now req device otks)
            (Keeps-store_rotation g laws k u now req device otks) w.tables h in
        (ground (arith, read, kept.0), ground (arith, read, kept.1))
    | inr (e, failed) ↦ (ground (arith, failed, h.0), ground (arith, failed, h.1))
  ]

  run_calls-Spent :
      (k : ℕ) (cs : List Call) (w : World) → Spent k w.tables → Spent k (run_calls g u cs w).tables
  unfolding get_pre_key_bundle
  run_calls-Spent k [] w h = h
  run_calls-Spent k (register now req ∷ cs) w h =
      run_calls-Spent k cs (run_call g u (register now req) w) (register-Spent k now req w h)
  run_calls-Spent k (rotate now req ∷ cs) w h =
      run_calls-Spent k cs (run_call g u (rotate now req) w) (rotate-Spent k now req w h)
  run_calls-Spent k (hand_out now device ∷ cs) w h =
      run_calls-Spent k cs (run_call g u (hand_out now device) w) (
        Keeps-transaction g laws k (read_bundle g u now device)
          (Keeps-read_bundle g laws k u now device) w.tables h)

  -- The key that ConsumeNext returns was open, and is spent.
  consume_row_takes :
      (now : ℕ) (row : Row OneTimePrekey) (key : OneTimePrekey) (t t' : Tables)
      → has row.value.id t.one_time_prekeys ≡ true
      → consume_row g now (some row) t ≡ (ok (some key), t')
      → (key.id ≡ row.value.id) × Spent row.value.id t'
  unfolding consume_row
  consume_row_takes now row key t t' there e =
      let test = λ (l : OneTimePrekey). l.id == row.value.id in
      let mark = λ (l : OneTimePrekey). record l { consumed_at = some now } in
      elim (Result-cases (g.update test mark t.one_time_prekeys)) [
        | inl (rows, done) ↦
            let same = laws.updated test mark t.one_time_prekeys rows done in
            let after : rows ≡ t'.one_time_prekeys = ground (arith, done, e) in
            (
              ground (arith, done, e),
              subst (IsSpent row.value.id) (sym same ∙ after)
                  (IsSpent-consume_at_self row.value.id now t.one_time_prekeys there),
            )
        | inr (x, failed) ↦ absurd (ground (arith, failed, e))
      ]

  consume_next_takes :
      (now device : ℕ) (key : OneTimePrekey) (t t' : Tables)
      → consume_next g now device t ≡ (ok (some key), t')
      → (has_open key.id t.one_time_prekeys ≡ true) × Spent key.id t'
  unfolding consume_next consume_row
  consume_next_takes now device key t t' e =
      let test =
        λ (r : Row OneTimePrekey). r.value.device_id == device && is_open r.value.consumed_at in
      elim (Result-cases (g.first test older t.one_time_prekeys)) [
        | inl (none, done) ↦ absurd (ground (arith, done, e))
        | inl (some row, done) ↦
            let (i, at, passes) = laws.first_found test older t.one_time_prekeys row done in
            let (there, unused) =
              has_open_of_get_elem? t.one_time_prekeys i row at (ground (arith, passes)) in
            let (same, spent) =
              consume_row_takes now row key t t' there (ground (arith, done, e)) in
            (
              ap (λ j. has_open j t.one_time_prekeys) same ∙ unused,
              subst (λ j. Spent j t') (sym same) spent,
            )
        | inr (x, failed) ↦ absurd (ground (arith, failed, e))
      ]

  identity_state : (d : ℕ) (t : Tables) → (or_device_not_found (get_identity_key g d) t).1 ≡ t
  unfolding get_identity_key
  identity_state d t = ground arith

  signed_state : (d : ℕ) (t : Tables) → (or_device_not_found (get_signed_pre_key g d) t).1 ≡ t
  unfolding get_signed_pre_key
  signed_state d t = ground arith

  -- The number of a key in a response.
  one_time_dto_number :
      (otk : Option OneTimePrekey) (k : OneTimePreKeyDto)
      → one_time_dto u otk ≡ some k
      → (key : OneTimePrekey) × (otk ≡ some key) × (k.id ≡ u.to_string key.id)
  one_time_dto_number none k e = absurd (ground arith)
  one_time_dto_number (some key) k e = (key, refl, ground (arith, e))

  read_bundle_takes :
      (now device : ℕ) (resp : PreKeyBundleResponse) (k : OneTimePreKeyDto) (t t' : Tables)
      → read_bundle g u now device t ≡ (ok resp, t')
      → resp.one_time_pre_key ≡ some k
      → (id : ℕ) × (k.id ≡ u.to_string id) × (has_open id t.one_time_prekeys ≡ true) × Spent id t'
  unfolding read_bundle
  read_bundle_takes now device resp k t t' e named =
      let answer : IdentityKey
          → SignedPreKey
          → Option OneTimePrekey
          → Action Tables KeysError PreKeyBundleResponse =
        λ i s otk. pure (bundle_of u device i s otk) in
      let consume : IdentityKey → SignedPreKey → Action Tables KeysError PreKeyBundleResponse =
        λ i s. consume_next g now device >>= answer i s in
      let signed : IdentityKey → Action Tables KeysError PreKeyBundleResponse =
        λ i. or_device_not_found (get_signed_pre_key g device) >>= consume i in
      let (i, t₁, e₁, rest₁) =
        of_>>= (or_device_not_found (get_identity_key g device)) signed t t' resp e in
      let (s, t₂, e₂, rest₂) =
        of_>>= (or_device_not_found (get_signed_pre_key g device)) (consume i) t₁ t' resp rest₁ in
      let (otk, t₃, e₃, rest₃) = of_>>= (consume_next g now device) (answer i s) t₂ t' resp rest₂ in
      let shown : one_time_dto u otk ≡ some k = ground (arith, rest₃, named) in
      let (key, is_key, number) = one_time_dto_number otk k shown in
      let start : t₂ ≡ t =
        sym (ap (λ x. x.1) e₂)
        ∙ signed_state device t₁
        ∙ sym (ap (λ x. x.1) e₁)
        ∙ identity_state device t in
      let taken = consume_next_takes now device key t₂ t₃ (e₃ ∙ ap (λ o. (ok o, t₃)) is_key) in
      (
        key.id,
        number,
        ap (λ x. has_open key.id x.one_time_prekeys) (sym start) ∙ taken.0,
        subst (Spent key.id) (ap (λ x. x.1) rest₃) taken.1,
      )

  bundle_takes :
      (now device : ℕ) (resp : PreKeyBundleResponse) (k : OneTimePreKeyDto) (w w' : World)
      → get_pre_key_bundle g u now device w ≡ (ok resp, w')
      → resp.one_time_pre_key ≡ some k
      → (id : ℕ) × (k.id ≡ u.to_string id)
        × (has_open id w.tables.one_time_prekeys ≡ true)
        × Spent id w'.tables
  unfolding get_pre_key_bundle
  bundle_takes now device resp k w w' e named =
      let ran : g.transaction (read_bundle g u now device) w.tables ≡ (ok resp, w'.tables) =
        ap (λ x. (x.0, x.1.tables)) e in
      read_bundle_takes now device resp k w.tables w'.tables
        (laws.committed (read_bundle g u now device) w.tables w'.tables resp ran) named

  -- Where identifiers are printed so that they can be read back: a one-time prekey that a bundle has
  -- handed out is in no later bundle, of whatever device, after any further registrations,
  -- hand-outs and rotations, failed ones included.
  pub handed_out_once :
      (now now' device device' : ℕ) (w w₁ w₂ : World) (resp resp' : PreKeyBundleResponse)
      (k k' : OneTimePreKeyDto) (cs : List Call)
      → IsPrinted u
      → get_pre_key_bundle g u now device w ≡ (ok resp, w₁)
      → resp.one_time_pre_key ≡ some k
      → get_pre_key_bundle g u now' device' (run_calls g u cs w₁) ≡ (ok resp', w₂)
      → resp'.one_time_pre_key ≡ some k'
      → k.id ≢ k'.id
  handed_out_once now now' device device' w w₁ w₂ resp resp' k k' cs printed first named second
        named' same =
      let (id, number, _, spent) = bundle_takes now device resp k w w₁ first named in
      let later = run_calls-Spent id cs w₁ spent in
      let (id', number', unused, _) =
        bundle_takes now' device' resp' k' (run_calls g u cs w₁) w₂ second named' in
      let e : id ≡ id' = to_string_injective u printed id id' (sym number ∙ same ∙ number') in
      let clash : has_open id (run_calls g u cs w₁).tables.one_time_prekeys ≡ true =
        ap (λ j. has_open j (run_calls g u cs w₁).tables.one_time_prekeys) e ∙ unused in
      absurd (ground (arith, clash, later.1))
