-- ===== src/Auth/Accounts/FirstLogin.antt =====
-- The login after a registration in services/auth/internal/service/impl/auth_service_impl.go.
use mathlib.Core.Path.{subst}
use secu_msg_server.Common.{
  ℕ, Bool, true, false, if◌then◌else◌, ◌==◌, nat_eq, list_eq, string_eq, ◌||◌, none, List, [], ok,
  >>=-ok, Bool-cases, Option-cases, ◌≡◌, refl, sym, ap, ◌∙◌, arith, inl, inr,
}
use secu_msg_server.Bytes.{Bytes}
use secu_msg_server.Database.{Row, Laws, IsUp, any, put}
use secu_msg_server.Database.Rows.{Found, first-added, any-of_or}
use secu_msg_server.Auth.Password.{Credential, verify}
use secu_msg_server.Auth.Types.{
  User, PasswordCredential, Session, Tables, TokenResponse, RegisterRequest, RegisterResponse,
  LoginRequest,
}
use secu_msg_server.Auth.Store.Sessions.{unordered, session_clash, create_session}
use secu_msg_server.Auth.Store.Users.{
  as_kept, assign_password, get_by_email, get_by_username, get_password,
}
use secu_msg_server.Auth.Claims.{Signs}
use secu_msg_server.Auth.Tokens.{Draws, issue, mint, new_session}
use secu_msg_server.Auth.Tokens.Race.{mint-signed}
use secu_msg_server.Auth.Accounts.{
  AuthService, AccountDraws, looks_like_email, new_user, register_account, find_user, admit, log_in,
  login,
}
use secu_msg_server.Auth.Accounts.Registered.{
  IsKept, verify-as_kept, of_user, conflicts, is_outdated-hash, Found-put, any-put, IsRegistered,
}
use secu_msg_server.Auth.Accounts.Registration.{of_register_account}

module _ (a : AuthService) (laws : Laws a.tokens.db) (up : IsUp a.tokens.db) where
  -- The name under which a registered user logs in: the email, if it has an @, or the username, if it
  -- has none.
  abbrev pub IsNameOf : RegisterRequest → Bytes → Type 0
  IsNameOf r name = (if looks_like_email name then r.email else r.username) ≡ name

  found_user :
      (e : AccountDraws) (r : RegisterRequest) (c : Credential) (name : Bytes) (t t' : Tables)
      → ((s : Bytes) → a.citext s s ≡ true)
      → IsNameOf r name
      → IsRegistered a laws e r c t t'
      → find_user a name t' ≡ (ok (new_user a e r), t')
  unfolding find_user get_by_email get_by_username
  found_user e r c name t t' reflexive is_name reg =
      let u : User = new_user a e r in
      let row : Row User = record { value = u; created_at = reg.user_at } in
      let apart =
        any-of_or (λ (x : Row User). x.value.id == u.id)
          (λ x. a.citext x.value.email u.email || a.citext x.value.username u.username) t.users
          reg.user_free in
      let names =
        any-of_or (λ (x : Row User). a.citext x.value.email u.email)
          (λ x. a.citext x.value.username u.username) t.users apart.1 in
      elim (Bool-cases (looks_like_email name)) [
        | inl email ↦
            let is : r.email ≡ name = ground (arith, email, is_name) in
            let got =
              first-added a.tokens.db (λ (x : Row User). a.citext x.value.email name) unordered
                t.users row laws up
                (subst (λ s. any (λ (x : Row User). a.citext x.value.email s) t.users ≡ false) is
                  names.0)
                (subst (λ s. a.citext r.email s ≡ true) is (reflexive r.email)) in
            let here =
              ap (a.tokens.db.first (λ (x : Row User). a.citext x.value.email name) unordered)
                reg.users
              ∙ got in
            ground (arith, email, here)
        | inr username ↦
            let is : r.username ≡ name = ground (arith, username, is_name) in
            let got =
              first-added a.tokens.db (λ (x : Row User). a.citext x.value.username name) unordered
                t.users row laws up
                (subst (λ s. any (λ (x : Row User). a.citext x.value.username s) t.users ≡ false) is
                  names.1)
                (subst (λ s. a.citext r.username s ≡ true) is (reflexive r.username)) in
            let here =
              ap (a.tokens.db.first (λ (x : Row User). a.citext x.value.username name) unordered)
                reg.users
              ∙ got in
            ground (arith, username, here)
      ]

  found_password :
      (e : AccountDraws) (r : RegisterRequest) (c : Credential) (t t' : Tables)
      → IsRegistered a laws e r c t t'
      → (cred : PasswordCredential) × (get_password a.tokens.db e.user_id t' ≡ (ok cred, t'))
        × (cred.credential ≡ as_kept a.jsonb c)
  unfolding get_password
  found_password e r c t t' reg =
      let test : Row PasswordCredential → Bool = of_user e.user_id in
      let there : any test t'.credentials ≡ true =
        ap (any test) reg.credentials
        ∙ subst
            (λ i.
              any (of_user i) (put conflicts assign_password reg.stored reg.stored_at t.credentials)
              ≡ true)
            reg.stored_user (any-put reg.stored reg.stored_at t.credentials) in
      let (o, got) = up.first_ok test unordered t'.credentials in
      elim (Option-cases o) [
        | inl missed ↦
            let absent = laws.first_missing test unordered t'.credentials (got ∙ ap ok missed) in
            absurd (ground (arith, absent, there))
        | inr (row, hit) ↦
            let here = got ∙ ap ok hit in
            let found = laws.first_found test unordered t'.credentials row here in
            (
              row.value,
              ground (arith, here),
              Found-put reg.stored reg.stored_at t.credentials t'.credentials row reg.credentials
                    (subst (λ i. Found (of_user i) t'.credentials row) (sym reg.stored_user) found)
                  ∙ reg.stored_credential,
            )
      ]

  -- Issue succeeds for identifiers that no session has.
  issue-fresh :
      (d : Draws) (u : User) (ip : Bytes) (ua : List ℕ) (t : Tables)
      → Signs a.tokens.jwt
      → any (λ x. session_clash (new_session a.tokens d u.id none ip ua) x.value) t.sessions ≡ false
      → (tok : TokenResponse) × (t' : Tables) × (issue a.tokens d u none ip ua t ≡ (ok tok, t'))
  unfolding issue create_session
  issue-fresh d u ip ua t signs free =
      let sess : Session = new_session a.tokens d u.id none ip ua in
      let (rows, done) = up.insert_ok session_clash sess t.sessions free in
      let t' : Tables = record t { sessions = rows } in
      let (tok, minted) = mint-signed a.tokens up signs d sess t' in
      let made : create_session a.tokens.db sess t ≡ (ok tt, t') = rw done refl in
      (
        tok,
        t',
        >>=-ok (create_session a.tokens.db sess) (λ _. mint a.tokens d sess) t t' tt made ∙ minted,
      )

  name_full :
      (r : RegisterRequest) (name : Bytes)
      → IsNameOf r name
      → (r.email == [] || r.username == []) ≡ false
      → (name == []) ≡ false
  name_full r name is_name named = elim (Bool-cases (looks_like_email name)) [
    | inl email ↦
        let is : r.email ≡ name = ground (arith, email, is_name) in
        ap (λ (s : Bytes). s == []) (sym is) ∙ ground (arith, named)
    | inr username ↦
        let is : r.username ≡ name = ground (arith, username, is_name) in
        ap (λ (s : Bytes). s == []) (sym is) ∙ ground (arith, named)
  ]

  -- A user who has registered with a password can log in with it at once, by email if the email has
  -- an @ and by username if it has none. The database behaves as documented and no statement fails,
  -- encoding/json reads back from a jsonb column the parameters that it wrote, citext takes equal texts for equal, signing succeeds, and
  -- no session has the identifiers that the login draws.
  pub login-register_account :
      (e e' : AccountDraws) (r : RegisterRequest) (name ip ip' : Bytes) (ua ua' : List ℕ)
      (t t' : Tables) (resp : RegisterResponse)
      → IsKept a.hashing a.jsonb
      → Signs a.tokens.jwt
      → ((s : Bytes) → a.citext s s ≡ true)
      → IsNameOf r name
      → (r.password == []) ≡ false
      → register_account a e r ip ua t ≡ (ok resp, t')
      → any
          (λ x. session_clash (new_session a.tokens e'.issued e.user_id none ip' ua') x.value)
          t'.sessions
        ≡ false
      → (tok : TokenResponse) × (t'' : Tables) × (login a e'
            (record { email_or_username = name; password = r.password })
            ip'
            ua'
            t'
          ≡ (ok tok, t''))
  unfolding login log_in admit
  login-register_account e e' r name ip ip' ua ua' t t' resp kept signs reflexive is_name given
        registered fresh =
      let (c, made, named, reg) = of_register_account a laws e r ip ua t t' resp given registered in
      let u : User = new_user a e r in
      let req : LoginRequest = record { email_or_username = name; password = r.password } in
      let who = found_user e r c name t t' reflexive is_name reg in
      let (cred, got, is_c) = found_password e r c t t' reg in
      let right = verify-as_kept a.hashing a.jsonb a.passwords r.password c kept made in
      let checked = ap (λ x. verify a.hashing a.passwords r.password x) is_c ∙ right in
      let current = is_outdated-hash a.hashing a.passwords r.password c made in
      let (tok, t'', granted) = issue-fresh e'.issued u ip' ua' t' signs fresh in
      let full : (name == []) ≡ false = name_full r name is_name named in
      let body : log_in a e' req ip' ua' t' ≡ (ok tok, t'') =
        ground (arith, who, got, checked, current, granted) in
      let whole = up.transaction_ok (log_in a e' req ip' ua') t' t'' tok body in
      (tok, t'', ground (arith, full, given, whole, body))
