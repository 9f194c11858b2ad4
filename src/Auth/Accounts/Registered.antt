-- ===== src/Auth/Accounts/Registered.antt =====
-- A user that services/auth/internal/service/impl/auth_service_impl.go has registered can log in.
use mathlib.Core.Path.{subst}
use secu_msg_server.Common.{
  some, ℕ, Bool, true, false, if◌then◌else◌, ◌==◌, nat_eq, list_eq, string_eq, [], ◌∷◌, ◌++◌,
  length, ok, Result-cases, Bool-cases, Option-cases, ==_refl, ◌≡◌, refl, ap, ◌∙◌, arith, inl, inr,
}
use secu_msg_server.Bytes.{Bytes}
use secu_msg_server.Database.{Row, Table, Laws, any, put, update_rows}
use secu_msg_server.Database.Rows.{
  Found, Found-append, any-append_last, any-update_rows, Found-update_rows,
}
use secu_msg_server.Auth.Password.{
  Credential, Argon2Params, PasswordService, Hashing, hash, verify, is_outdated, verify-hash,
}
use secu_msg_server.Auth.Types.{User, PasswordCredential, Tables, RegisterRequest}
use secu_msg_server.Auth.Store.Users.{
  as_kept, user_clash, assign_password, create_user, upsert_password,
}
use secu_msg_server.Auth.Accounts.{
  AuthService, AccountDraws, new_user, new_credential, store_password,
}

-- A hash under the current policy is not outdated.
pub is_outdated-hash :
    (h : Hashing) (p : PasswordService) (password : Bytes) (c : Credential)
    → hash h p password ≡ ok c
    → is_outdated p c p.cur ≡ false
unfolding hash
is_outdated-hash h p password c made = elim (Bool-cases (length password == 0)) [
  | inl empty ↦ absurd (ground (arith, empty, made))
  | inr full ↦ elim (Option-cases (h.random p.cur.salt_len)) [
    | inl dry ↦ absurd (ground (arith, full, dry, made))
    | inr (salt, drawn) ↦ elim (Option-cases (h.marshal p.cur)) [
      | inl failed ↦ absurd (ground (arith, full, drawn, failed, made))
      | inr (b, written) ↦
          let version : p.current_ver ≡ c.password_ver =
            ground (arith, full, drawn, written, made) in
          ground (arith, version)
    ]
  ]
]

-- Unmarshal of encoding/json reads the parameters from the text of a jsonb column into which Marshal's
-- text of them was written.
abbrev pub IsKept : Hashing → (Bytes → Bytes) → Type 0
IsKept h jsonb =
    (q : Argon2Params) (b : Bytes) → h.marshal q ≡ some b → h.unmarshal (jsonb b) ≡ some q

-- A password is right against the row of the credential that was made for it.
pub verify-as_kept :
    (h : Hashing) (jsonb : Bytes → Bytes) (p : PasswordService) (password : Bytes) (c : Credential)
    → IsKept h jsonb
    → hash h p password ≡ ok c
    → verify h p password (as_kept jsonb c) ≡ (is_outdated p c p.cur, true)
unfolding hash verify
verify-as_kept h jsonb p password c kept made =
    verify-hash (record h { unmarshal = λ b. h.unmarshal (jsonb b) }) p p password c kept refl made

abbrev pub of_user : ℕ → Row PasswordCredential → Bool
of_user user r = r.value.user_id == user

abbrev pub conflicts : PasswordCredential → PasswordCredential → Bool
conflicts new old = old.user_id == new.user_id

-- The credential that an upsert leaves for a user is the one that was put in.
pub Found-put :
    (new : PasswordCredential) (now : ℕ) (t t' : Table PasswordCredential)
    (r : Row PasswordCredential)
    → t' ≡ put conflicts assign_password new now t
    → Found (of_user new.user_id) t' r
    → r.value.credential ≡ new.credential
Found-put new now t t' r shape found = elim (Bool-cases (any (of_user new.user_id) t)) [
  | inl old ↦
      let e : t' ≡ update_rows (conflicts new) (assign_password new) t =
        shape ∙ ground (arith, old) in
      let there = subst (λ x. Found (of_user new.user_id) x r) e found in
      let (i, prior, at, same) =
        Found-update_rows (of_user new.user_id) (conflicts new) (assign_password new) t r there in
      elim (Bool-cases (conflicts new prior.value)) [
        | inl hit ↦
            ap (λ (x : Row PasswordCredential). x.value.credential) same ∙ ground (arith, hit)
        | inr miss ↦ absurd (
            ground (
              arith,
              miss,
              there.2,
              ap (λ (x : Row PasswordCredential). of_user new.user_id x) same,
            ))
      ]
  | inr fresh ↦
      let row : Row PasswordCredential = record { value = new; created_at = now } in
      let e : t' ≡ t ++ row ∷ [] = shape ∙ ground (arith, fresh) in
      ap (λ (x : Row PasswordCredential). x.value.credential)
        (Found-append (of_user new.user_id) t row r fresh
          (subst (λ x. Found (of_user new.user_id) x r) e found))
]

-- After an upsert the user has a credential.
pub any-put :
    (new : PasswordCredential) (now : ℕ) (t : Table PasswordCredential)
    → any (of_user new.user_id) (put conflicts assign_password new now t) ≡ true
any-put new now t = elim (Bool-cases (any (of_user new.user_id) t)) [
  | inl old ↦
      let kept =
        any-update_rows (of_user new.user_id) (conflicts new) (assign_password new) t (λ r. refl) in
      ground (arith, old, kept)
  | inr fresh ↦
      let row : Row PasswordCredential = record { value = new; created_at = now } in
      ground (arith, fresh, any-append_last (of_user new.user_id) t row (==_refl new.user_id))
]

module _ (a : AuthService) (laws : Laws a.tokens.db) where
  -- The tables of a registration with a password.
  pub record IsRegistered (e : AccountDraws) (r : RegisterRequest) (c : Credential) (t t' : Tables)
      : Type 0 where
    pub user_free : any (λ x. user_clash a.citext (new_user a e r) x.value) t.users ≡ false
    pub user_at : ℕ
    pub users : t'.users ≡ t.users ++ record { value = new_user a e r; created_at = user_at } ∷ []
    pub stored : PasswordCredential
    pub stored_at : ℕ
    pub stored_user : stored.user_id ≡ e.user_id
    pub stored_credential : stored.credential ≡ as_kept a.jsonb c
    pub credentials : t'.credentials ≡ put conflicts assign_password stored stored_at t.credentials

  pub of_create_user :
      (u : User) (t t' : Tables) (x : Unit {0})
      → create_user a.tokens.db a.citext u t ≡ (ok x, t')
      → (any (λ y. user_clash a.citext u y.value) t.users ≡ false)
        × (now : ℕ) × (t'
            ≡ record t { users = t.users ++ record { value = u; created_at = now } ∷ [] })
  unfolding create_user
  of_create_user u t t' x h =
      elim (Result-cases (a.tokens.db.insert (user_clash a.citext) u t.users)) [
        | inl (rows, done) ↦
            let (free, now, shape) = laws.inserted (user_clash a.citext) u t.users rows done in
            (free, now, ground (arith, done, shape, h))
        | inr (y, failed) ↦ absurd (ground (arith, failed, h))
      ]

  pub of_store_password :
      (e : AccountDraws) (user : ℕ) (password : Bytes) (t t' : Tables) (x : Unit {0})
      → store_password a e user password t ≡ (ok x, t')
      → (c : Credential) × (new : PasswordCredential) × (now : ℕ) × (hash a.hashing a.passwords
            password
          ≡ ok c)
        × (new.user_id ≡ user)
        × (new.credential ≡ as_kept a.jsonb c)
        × (t' ≡ record t { credentials = put conflicts assign_password new now t.credentials })
  unfolding store_password upsert_password
  of_store_password e user password t t' x h =
      elim (Result-cases (hash a.hashing a.passwords password)) [
        | inl (c, made) ↦
            let cred : PasswordCredential = new_credential a e user c in
            let new : PasswordCredential = record cred {
              id = if cred.id == 0 then e.credential_id else cred.id;
              credential = as_kept a.jsonb c;
              created_at = if cred.created_at == 0 then e.stored_at else cred.created_at;
              updated_at = e.stored_at;
            } in
            elim (Result-cases
              (a.tokens.db.create conflicts assign_password (new ∷ []) t.credentials)) [
                | inl (rows, done) ↦
                    let (now, shape) =
                      laws.created conflicts assign_password (new ∷ []) t.credentials rows done in
                    let left : t' ≡ record t { credentials = rows } =
                      ground (arith, made, done, h) in
                    (
                      c,
                      new,
                      now,
                      made,
                      refl,
                      refl,
                      left ∙ ap (λ rows. record t { credentials = rows }) shape,
                    )
                | inr (y, failed) ↦ absurd (ground (arith, made, failed, h))
              ]
        | inr (y, failed) ↦ absurd (ground (arith, failed, h))
      ]
