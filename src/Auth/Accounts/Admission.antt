-- ===== src/Auth/Accounts/Admission.antt =====
-- The last steps of Login of services/auth/internal/service/impl/auth_service_impl.go, for a user and a
-- credential that were found.
use mathlib.Core.Path.{subst}
use secu_msg_server.Common.{
  ℕ, Bool, true, if◌then◌else◌, ◌==◌, nat_eq, list_eq, not, none, List, [], ◌∷◌, Action, ok, pure,
  refl, raise_if, ◌>>◌, of_>>=, Result-cases, Bool-cases, ◌≡◌, sym, ap, ◌∙◌, arith, inl, inr,
}
use secu_msg_server.Bytes.{Bytes}
use secu_msg_server.Database.{Gorm, Laws}
use secu_msg_server.Auth.Password.{hash, verify}
use secu_msg_server.Auth.Types.{
  User, PasswordCredential, Tables, TokenResponse, AuthError, invalid_credentials,
}
use secu_msg_server.Auth.Store.Users.{upsert_password, assign_password, as_kept}
use secu_msg_server.Auth.Tokens.Issued.{IsIssued, issue-IsIssued}
use secu_msg_server.Auth.Tokens.{issue}
use secu_msg_server.Auth.Accounts.{AuthService, AccountDraws, hashed, rehash, admit}

upsert_password-sessions :
    (g : Gorm AuthError) (jsonb : Bytes → Bytes) (now id : ℕ) (c : PasswordCredential) (t : Tables)
    → (upsert_password g jsonb now id c t).1.sessions ≡ t.sessions
unfolding upsert_password
upsert_password-sessions g jsonb now id c t =
    let row : PasswordCredential = record c {
      id = if c.id == 0 then id else c.id;
      credential = as_kept jsonb c.credential;
      created_at = if c.created_at == 0 then now else c.created_at;
      updated_at = now;
    } in
    elim (Result-cases (
      g.create (λ (new old : PasswordCredential). old.user_id == new.user_id) assign_password
        (row ∷ []) t.credentials)) [
          | inl (rows, done) ↦ rw done refl
          | inr (x, failed) ↦ rw failed refl
        ]

module _ (a : AuthService) where
  -- A new hash is written beside the sessions.
  rehash-sessions :
      (e : AccountDraws) (c : PasswordCredential) (password : Bytes) (t : Tables)
      → (rehash a e c password t).1.sessions ≡ t.sessions
  unfolding rehash
  rehash-sessions e c password t =
      elim (Result-cases (hashed (hash a.hashing a.passwords password))) [
        | inr (x, failed) ↦ rw failed refl
        | inl (made, done) ↦ rw done (
            upsert_password-sessions a.tokens.db a.jsonb e.stored_at e.credential_id
              (record c { credential = made; updated_at = e.now }) t)
      ]

  -- Whom admit lets in has the right password, and is issued tokens.
  pub admit_lem :
      (e : AccountDraws) (u : User) (c : PasswordCredential) (password ip : Bytes) (ua : List ℕ)
      (t t' : Tables) (tok : TokenResponse)
      → Laws a.tokens.db
      → admit a e u c password ip ua t ≡ (ok tok, t')
      → ((verify a.hashing a.passwords password c.credential).1 ≡ true)
        × IsIssued a.tokens e.issued u.id none ip ua t.sessions t'.sessions tok
  unfolding admit
  admit_lem e u c password ip ua t t' tok laws h =
      let right : Bool = (verify a.hashing a.passwords password c.credential).1 in
      let old : Bool = (verify a.hashing a.passwords password c.credential).0 in
      let fresh : Action Tables AuthError (Unit {0}) =
        if old then rehash a e c password else pure tt in
      let enter : Action Tables AuthError TokenResponse = issue a.tokens e.issued u none ip ua in
      let (u1, t1, tested, h1) =
        of_>>= (raise_if (not right) invalid_credentials) (λ _. fresh >> enter) t t' tok h in
      let (u2, t2, hashed_again, h2) = of_>>= fresh (λ _. enter) t1 t' tok h1 in
      let issued = issue-IsIssued a.tokens e.issued u none ip ua t2 t' tok laws h2 in
      elim (Bool-cases right) [
        | inr wrong ↦ absurd (ground (arith, wrong, tested))
        | inl match ↦
            let start : t1 ≡ t = ground (arith, match, tested) in
            let left : (fresh t1).1 ≡ t2 = ap (λ x. x.1) hashed_again in
            let same : t2.sessions ≡ t.sessions = elim (Bool-cases old) [
              | inl outdated ↦
                  ap (λ (x : Tables). x.sessions) (sym left)
                  ∙ rw outdated (rehash-sessions e c password t1)
                  ∙ ap (λ (x : Tables). x.sessions) start
              | inr current ↦
                  ap (λ (x : Tables). x.sessions) (sym left)
                  ∙ rw current (ap (λ (x : Tables). x.sessions) start)
            ] in
            (
              match,
              subst (λ x. IsIssued a.tokens e.issued u.id none ip ua x t'.sessions tok) same issued,
            )
      ]
