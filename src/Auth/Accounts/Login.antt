-- ===== src/Auth/Accounts/Login.antt =====
-- Whom Login of services/auth/internal/service/impl/auth_service_impl.go lets in.
use mathlib.Core.Path.{subst}
use secu_msg_server.Common.{
  ℕ, Bool, true, false, if◌then◌else◌, ◌==◌, nat_eq, list_eq, ◌||◌, none, some, List, [], get_elem?,
  Action, Result, ok, raise_if, ◌>>=◌, ◌>>◌, of_>>=, Result-cases, Bool-cases, ◌≡◌, sym, ap, ◌∙◌,
  arith, inl, inr,
}
use secu_msg_server.Bytes.{Bytes}
use secu_msg_server.Database.{Row, Table, Laws}
use secu_msg_server.Database.Rows.{Found}
use secu_msg_server.Auth.Password.{verify}
use secu_msg_server.Auth.Types.{
  User, Session, PasswordCredential, Tables, TokenResponse, LoginRequest, AuthError,
  invalid_credentials, user_disabled, empty_credential,
}
use secu_msg_server.Auth.Store.Sessions.{unordered}
use secu_msg_server.Auth.Store.Users.{get_by_email, get_by_username, get_password}
use secu_msg_server.Auth.Tokens.Issued.{IsIssued}
use secu_msg_server.Auth.Tokens.{masked}
use secu_msg_server.Auth.Accounts.Admission.{admit_lem}
use secu_msg_server.Auth.Accounts.{
  AuthService, AccountDraws, looks_like_email, find_user, admit, log_in, beside_sessions, login,
}

module _ (a : AuthService) where
  -- The row of a user that answers to the name: by email if the name has an @, else by username.
  abbrev pub answers : Bytes → Row User → Bool
  answers name r =
      if looks_like_email name then a.citext r.value.email name else a.citext r.value.username name

  of_find_user :
      (name : Bytes) (t t' : Tables) (u : User)
      → Laws a.tokens.db
      → find_user a name t ≡ (ok u, t')
      → (t' ≡ t) × (r : Row User) × (r.value ≡ u) × Found (answers name) t.users r
  unfolding find_user get_by_email get_by_username
  of_find_user name t t' u laws h = elim (Bool-cases (looks_like_email name)) [
    | inl email ↦
        elim (Result-cases
          (a.tokens.db.first (λ (r : Row User). a.citext r.value.email name) unordered t.users)) [
            | inl (none, got) ↦ absurd (ground (arith, email, got, h))
            | inl (some r, got) ↦
                let (i, at, passes) =
                  laws.first_found (λ (r : Row User). a.citext r.value.email name) unordered t.users
                    r got in
                (
                  ground (arith, email, got, h),
                  r,
                  ground (arith, email, got, h),
                  (i, at, ground (arith, email, passes)),
                )
            | inr (x, got) ↦ absurd (ground (arith, email, got, h))
          ]
    | inr username ↦
        elim (Result-cases (
          a.tokens.db.first (λ (r : Row User). a.citext r.value.username name) unordered t.users)) [
            | inl (none, got) ↦ absurd (ground (arith, username, got, h))
            | inl (some r, got) ↦
                let (i, at, passes) =
                  laws.first_found (λ (r : Row User). a.citext r.value.username name) unordered
                    t.users r got in
                (
                  ground (arith, username, got, h),
                  r,
                  ground (arith, username, got, h),
                  (i, at, ground (arith, username, passes)),
                )
            | inr (x, got) ↦ absurd (ground (arith, username, got, h))
          ]
  ]

  of_get_password :
      (user : ℕ) (t t' : Tables) (c : PasswordCredential)
      → Laws a.tokens.db
      → masked invalid_credentials (get_password a.tokens.db user) t ≡ (ok c, t')
      → (t' ≡ t)
        × (r : Row PasswordCredential) × (r.value ≡ c)
        × Found (λ x. x.value.user_id == user) t.credentials r
  unfolding get_password
  of_get_password user t t' c laws h =
      elim (Result-cases (
        a.tokens.db.first (λ (r : Row PasswordCredential). r.value.user_id == user) unordered
          t.credentials)) [
            | inl (none, got) ↦ absurd (ground (arith, got, h))
            | inl (some r, got) ↦ (
              ground (arith, got, h),
              r,
              ground (arith, got, h),
              laws.first_found (λ (r : Row PasswordCredential). r.value.user_id == user) unordered
                  t.credentials r got,
            )
            | inr (x, got) ↦ absurd (ground (arith, got, h))
          ]

  log_in-verified :
      (e : AccountDraws) (r : LoginRequest) (ip : Bytes) (ua : List ℕ) (t t' : Tables)
      (tok : TokenResponse)
      → Laws a.tokens.db
      → log_in a e r ip ua t ≡ (ok tok, t')
      → (u : Row User) × (c : Row PasswordCredential) × Found
          (answers r.email_or_username)
          t.users
          u
        × (u.value.is_disabled ≡ false)
        × Found (λ x. x.value.user_id == u.value.id) t.credentials c
        × ((verify a.hashing a.passwords r.password c.value.credential).1 ≡ true)
        × IsIssued a.tokens e.issued u.value.id none ip ua t.sessions t'.sessions tok
  unfolding log_in
  log_in-verified e r ip ua t t' tok laws h =
      let find = λ (u : User). masked invalid_credentials (get_password a.tokens.db u.id) in
      let enter = λ (u : User) (c : PasswordCredential). admit a e u c r.password ip ua in
      let test : User → Action Tables AuthError (Unit {0}) =
        λ u. raise_if u.is_disabled user_disabled in
      let (u, t1, who, h1) =
        of_>>= (find_user a r.email_or_username) (λ u. test u >> (find u >>= enter u)) t t' tok h in
      let (x, t2, tested, h2) = of_>>= (test u) (λ _. find u >>= enter u) t1 t' tok h1 in
      let (c, t3, got, h3) = of_>>= (find u) (enter u) t2 t' tok h2 in
      let (kept, ru, same_u, in_users) = of_find_user r.email_or_username t t1 u laws who in
      let (unread, rc, same_c, (i, at, passes)) = of_get_password u.id t2 t3 c laws got in
      elim (Bool-cases u.is_disabled) [
        | inl disabled ↦ absurd (ground (arith, disabled, tested))
        | inr enabled ↦
            let still : t2 ≡ t = ground (arith, enabled, tested, kept) in
            let (right, issued) = admit_lem a e u c r.password ip ua t3 t' tok laws h3 in
            let before : t3.sessions ≡ t.sessions =
              ap (λ (x : Tables). x.sessions) (unread ∙ still) in
            (
              ru,
              rc,
              in_users,
              ap (λ (x : User). x.is_disabled) same_u ∙ enabled,
              (
                i,
                ap (λ (x : Tables). get_elem? x.credentials i) (sym still) ∙ at,
                ap (λ (x : User). rc.value.user_id == x.id) same_u ∙ passes,
              ),
              ap
                    (λ (x : PasswordCredential).
                      (verify a.hashing a.passwords r.password x.credential).1)
                    same_c
                  ∙ right,
              subst
                  (λ (x : User × Table Session).
                    IsIssued a.tokens e.issued x.0.id none ip ua x.1 t'.sessions tok)
                  (λ i. (sym same_u i, before i)) issued,
            )
      ]

  -- A login that succeeds is of a user in the table whose email (if the name given has an @)
  -- or else username equals the name as citext compares, who is not disabled, and for whose
  -- identifier the table of credentials has a row against which the password given verifies. A
  -- new session of this user, for no device, is added to the sessions, which are otherwise
  -- unchanged, and the tokens given out are those signed for this user and this session. The
  -- database behaves as documented.
  pub login-verified :
      (e : AccountDraws) (r : LoginRequest) (ip : Bytes) (ua : List ℕ) (t t' : Tables)
      (tok : TokenResponse)
      → Laws a.tokens.db
      → login a e r ip ua t ≡ (ok tok, t')
      → (u : Row User) × (c : Row PasswordCredential) × Found
          (answers r.email_or_username)
          t.users
          u
        × (u.value.is_disabled ≡ false)
        × Found (λ x. x.value.user_id == u.value.id) t.credentials c
        × ((verify a.hashing a.passwords r.password c.value.credential).1 ≡ true)
        × IsIssued a.tokens e.issued u.value.id none ip ua t.sessions t'.sessions tok
  unfolding login
  login-verified e r ip ua t t' tok laws h =
      let missing : Bool = r.email_or_username == [] || r.password == [] in
      let m : Action Tables AuthError TokenResponse = log_in a e r ip ua in
      let (u0, t0, tested, h0) =
        of_>>= (raise_if missing empty_credential) (λ _. beside_sessions a m) t t' tok h in
      elim (Bool-cases missing) [
        | inl empty ↦ absurd (ground (arith, empty, tested))
        | inr full ↦
            let start : t0 ≡ t = ground (arith, full, tested) in
            let left : Tables = (a.tokens.db.transaction m t0).1 in
            let whole : a.tokens.db.transaction m t0 ≡ (ok tok, left) =
              λ i. (ap (λ (x : Result AuthError TokenResponse × Tables). x.0) h0 i, left) in
            let body : m t ≡ (ok tok, left) =
              ap m (sym start) ∙ laws.committed m t0 left tok whole in
            let written : left.sessions ≡ t'.sessions =
              ap (λ (x : Tables). x.sessions)
                (sym (ap (λ (x : Result AuthError TokenResponse × Tables). x.1) body))
              ∙ ap (λ (x : Tables). (m x).1.sessions) (sym start)
              ∙ ap (λ (x : Result AuthError TokenResponse × Tables). x.1.sessions) h0 in
            let (u, c, named, enabled, held, right, issued) =
              log_in-verified e r ip ua t left tok laws body in
            (
              u,
              c,
              named,
              enabled,
              held,
              right,
              subst (λ x. IsIssued a.tokens e.issued u.value.id none ip ua t.sessions x tok) written
                  issued,
            )
      ]
