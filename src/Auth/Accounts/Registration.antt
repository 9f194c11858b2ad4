-- ===== src/Auth/Accounts/Registration.antt =====
-- What a registration that succeeds has written, for Register of services/auth/internal/service/impl/auth_service_impl.go.
use mathlib.Core.Path.{subst}
use secu_msg_server.Common.{
  ℕ, Bool, true, false, if◌then◌else◌, ◌==◌, nat_eq, list_eq, string_eq, ◌&&◌, ◌||◌, not, ltb, none,
  List, [], length, Action, Result, ok, pure, raise_if, ◌>>=◌, ◌>>◌, of_>>=, ◌≡◌, refl, sym, ap,
  ◌∙◌, arith,
}
use secu_msg_server.Bytes.{Bytes}
use secu_msg_server.Database.{Laws, put}
use secu_msg_server.Auth.Password.{Credential, hash}
use secu_msg_server.Auth.Types.{
  User, Tables, TokenResponse, RegisterRequest, RegisterResponse, AuthError, empty_credential,
  password_length,
}
use secu_msg_server.Auth.Store.Users.{assign_password, create_user}
use secu_msg_server.Auth.Tokens.{issue}
use secu_msg_server.Auth.Tokens.Issued.{of_issue}
use secu_msg_server.Auth.Accounts.{
  AuthService, AccountDraws, new_user, store_password, store_account, register_account, reply_of,
}
use secu_msg_server.Auth.Accounts.Registered.{
  conflicts, IsRegistered, of_create_user, of_store_password,
}

-- A test that lets a call go on leaves the tables alone.
goes_on :
    (b : Bool) (t t' : Tables) (x : Unit {0})
    → raise_if b empty_credential t ≡ (ok x, t')
    → b ≡ false
goes_on true t t' x h = absurd (ground (arith, h))
goes_on false t t' x h = refl

kept_by :
    (b c : Bool) (t t0 t1 : Tables) (x y : Unit {0})
    → raise_if b empty_credential t ≡ (ok x, t0)
    → raise_if c password_length t0 ≡ (ok y, t1)
    → t1 ≡ t
kept_by true c t t0 t1 x y h h' = absurd (ground (arith, h))
kept_by false true t t0 t1 x y h h' = absurd (ground (arith, h'))
kept_by false false t t0 t1 x y h h' = ground (arith, h, h')

module _ (a : AuthService) (laws : Laws a.tokens.db) where
  -- What the transaction of a registration with a password writes.
  of_store_account :
      (e : AccountDraws) (r : RegisterRequest) (t t' : Tables) (u : User)
      → (r.password == []) ≡ false
      → store_account a e r t ≡ (ok u, t')
      → (c : Credential) × (hash a.hashing a.passwords r.password ≡ ok c)
        × (u ≡ new_user a e r)
        × IsRegistered a laws e r c t t'
  unfolding store_account
  of_store_account e r t t' u given h =
      let new : User = new_user a e r in
      let last : Action Tables AuthError User = pure new in
      let second : Action Tables AuthError (Unit {0}) =
        if r.password == [] then pure tt else store_password a e new.id r.password in
      let (x, t1, made, h1) =
        of_>>= (create_user a.tokens.db a.citext new) (λ _. second >> last) t t' u h in
      let (y, t2, stored, h2) = of_>>= second (λ _. last) t1 t' u h1 in
      let (free, at, users) = of_create_user a laws new t t1 x made in
      let put_in : store_password a e new.id r.password t1 ≡ (ok y, t2) =
        ground (arith, given, stored) in
      let (c, cred, now, hashed_to, user, is_c, shape) =
        of_store_password a laws e new.id r.password t1 t2 y put_in in
      let same : t2 ≡ t' = ap (λ (z : Result AuthError User × Tables). z.1) h2 in
      (
        c,
        hashed_to,
        ground (arith, h2),
        record {
          user_free = free;
          user_at = at;
          users =
              ap (λ (z : Tables). z.users) (sym same)
              ∙ ap (λ (z : Tables). z.users) shape
              ∙ ap (λ (z : Tables). z.users) users;
          stored = cred;
          stored_at = now;
          stored_user = user;
          stored_credential = is_c;
          credentials =
              ap (λ (z : Tables). z.credentials) (sym same)
              ∙ ap (λ (z : Tables). z.credentials) shape
              ∙ ap (λ (z : Tables). put conflicts assign_password cred now z.credentials) users;
        },
      )

  -- Tables that differ in the sessions alone.
  IsRegistered-sessions :
      (e : AccountDraws) (r : RegisterRequest) (c : Credential) (t t1 t2 : Tables)
      → t2.users ≡ t1.users
      → t2.credentials ≡ t1.credentials
      → IsRegistered a laws e r c t t1
      → IsRegistered a laws e r c t t2
  IsRegistered-sessions e r c t t1 t2 users credentials reg = record {
    user_free = reg.user_free;
    user_at = reg.user_at;
    users = users ∙ reg.users;
    stored = reg.stored;
    stored_at = reg.stored_at;
    stored_user = reg.stored_user;
    stored_credential = reg.stored_credential;
    credentials = credentials ∙ reg.credentials;
  }

  pub of_register_account :
      (e : AccountDraws) (r : RegisterRequest) (ip : Bytes) (ua : List ℕ) (t t' : Tables)
      (resp : RegisterResponse)
      → (r.password == []) ≡ false
      → register_account a e r ip ua t ≡ (ok resp, t')
      → (c : Credential) × (hash a.hashing a.passwords r.password ≡ ok c)
        × ((r.email == [] || r.username == []) ≡ false)
        × IsRegistered a laws e r c t t'
  unfolding register_account
  of_register_account e r ip ua t t' resp given h =
      let bad : Bool = r.email == [] || r.username == [] in
      let short : Bool = not (r.password == []) && ltb (length r.password) 8 in
      let write : Action Tables AuthError User = a.tokens.db.transaction (store_account a e r) in
      let grant : User → Action Tables AuthError TokenResponse =
        λ u. issue a.tokens e.issued u none ip ua in
      let answer =
        λ (u : User) (tok : TokenResponse). pure {S = Tables} {E = AuthError} (reply_of a u tok) in
      let rest : Action Tables AuthError RegisterResponse = write >>= (λ u. grant u >>= answer u) in
      let (x0, t0, good, h0) =
        of_>>= (raise_if bad empty_credential) (λ _. raise_if short password_length >> rest) t t'
          resp h in
      let (x1, t1, long, h1) = of_>>= (raise_if short password_length) (λ _. rest) t0 t' resp h0 in
      let (u, t2, written, h2) = of_>>= write (λ u. grant u >>= answer u) t1 t' resp h1 in
      let (tok, t3, granted, h3) = of_>>= (grant u) (answer u) t2 t' resp h2 in
      let still : t1 ≡ t = kept_by bad short t t0 t1 x0 x1 good long in
      let body =
        subst (λ z. store_account a e r z ≡ (ok u, t2)) still
          (laws.committed (store_account a e r) t1 t2 u written) in
      let (c, made, mine, reg) = of_store_account e r t t2 u given body in
      let (free, at, shape, minted) =
        of_issue a.tokens e.issued u none ip ua t2 t3 tok laws granted in
      let same : t3 ≡ t' = ap (λ (z : Result AuthError RegisterResponse × Tables). z.1) h3 in
      (
        c,
        made,
        goes_on bad t t0 x0 good,
        IsRegistered-sessions e r c t t2 t' (ap (λ (z : Tables). z.users) (sym same ∙ shape))
            (ap (λ (z : Tables). z.credentials) (sym same ∙ shape)) reg,
      )
