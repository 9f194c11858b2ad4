-- ===== src/Auth/Tokens/Issued.antt =====
-- What Issue of services/auth/internal/service/impl/token_service_impl.go writes and signs.
use mathlib.Core.Path.{subst}
use secu_msg_server.Auth.Verify.{answer_of, check_device, read_access, verify_session}
use secu_msg_server.Common.{
  ℕ, true, false, ◌==◌, nat_eq, list_eq, Option, some, List, [], ◌∷◌, ◌++◌, ok, of_>>=,
  Result-cases, Option-cases, ==_refl, ◌≡◌, refl, sym, ap, ◌∙◌, arith, inl, inr,
}
use secu_msg_server.Bytes.{Bytes, utf8}
use secu_msg_server.Uuid.{IsPrinted}
use secu_msg_server.Database.{Row, Table, Gorm, Laws, IsUp, any}
use secu_msg_server.Database.Rows.{any-of_or, first-added}
use secu_msg_server.Auth.Types.{User, Session, Tables, TokenResponse, AuthError}
use secu_msg_server.Auth.Store.Sessions.{session_clash, create_session, get_session, unordered}
use secu_msg_server.Auth.Claims.{AccessClaims, JwtLaws}
use secu_msg_server.Auth.Tokens.{
  TokenService, Draws, issue, mint, new_session, access_claims, refresh_claims, is_over,
  contains_audience,
}

-- A session that has been created: it is the last row, and no other has its identifiers.
pub of_create_session :
    (g : Gorm AuthError) (sess : Session) (t t' : Tables) (u : Unit {0})
    → Laws g
    → create_session g sess t ≡ (ok u, t')
    → (any (λ r. session_clash sess r.value) t.sessions ≡ false)
      × (now : ℕ) × (t'
          ≡ record t { sessions = t.sessions ++ record { value = sess; created_at = now } ∷ [] })
unfolding create_session
of_create_session g sess t t' u laws e =
    elim (Result-cases (g.insert session_clash sess t.sessions)) [
      | inl (rows, done) ↦
          let (free, now, added) = laws.inserted session_clash sess t.sessions rows done in
          (free, now, ground (arith, done, added, e))
      | inr (x, failed) ↦ absurd (ground (arith, failed, e))
    ]

module _ (s : TokenService) where
  -- The configured texts and the printed identifiers are written to JSON as they are.
  abbrev pub IsUtf8 : Type 0
  IsUtf8 =
      (s.jwt.is_utf8 s.cfg.issuer ≡ true)
      × (s.jwt.is_utf8 s.cfg.audience ≡ true)
      × (s.jwt.is_utf8 (utf8 "user") ≡ true)
      × (s.jwt.is_utf8 [] ≡ true)
      × ((id : ℕ) → s.jwt.is_utf8 (s.uuids.to_string id) ≡ true)

  -- What the development assumes of the packages and the database.
  pub record IsSound : Type 1 where
    pub printed : IsPrinted s.uuids
    pub laws : Laws s.db
    pub up : IsUp s.db
    pub jwt : JwtLaws s.jwt
    pub utf8_texts : IsUtf8

  -- Tokens that are minted are those that were signed.
  pub of_mint :
      (e : Draws) (sess : Session) (t t' : Tables) (tok : TokenResponse)
      → mint s e sess t ≡ (ok tok, t')
      → (s.jwt.sign_access s.cfg.signing_key (access_claims s e sess.user_id sess)
          ≡ some tok.access_token)
        × (s.jwt.sign_refresh s.cfg.signing_key (refresh_claims s e sess.user_id sess)
            ≡ some tok.refresh_token)
        × (t' ≡ t)
  unfolding mint
  of_mint e sess t t' tok h =
      elim (Option-cases
        (s.jwt.sign_access s.cfg.signing_key (access_claims s e sess.user_id sess))) [
          | inl none_a ↦ absurd (ground (arith, none_a, h))
          | inr (a, signed_a) ↦
              elim (Option-cases
                (s.jwt.sign_refresh s.cfg.signing_key (refresh_claims s e sess.user_id sess))) [
                  | inl none_r ↦ absurd (ground (arith, signed_a, none_r, h))
                  | inr (r, signed_r) ↦ (
                    signed_a ∙ ap some (ground (arith, signed_a, signed_r, h)),
                    signed_r ∙ ap some (ground (arith, signed_a, signed_r, h)),
                    ground (arith, signed_a, signed_r, h),
                  )
                ]
        ]

  -- The session that has just been created is read under its identifier.
  pub get_session-added :
      (sess : Session) (now : ℕ) (t : Tables)
      → IsSound
      → any (λ r. session_clash sess r.value) t.sessions ≡ false
      → let t' : Tables = record t {
        sessions = t.sessions ++ record { value = sess; created_at = now } ∷ [];
      } in
        get_session s.db sess.id t' ≡ (ok sess, t')
  unfolding get_session
  get_session-added sess now t sound free =
      let apart =
        any-of_or (λ (r : Row Session). r.value.id == sess.id)
          (λ r. r.value.refresh_id == sess.refresh_id) t.sessions free in
      rw
        (first-added s.db (λ (r : Row Session). r.value.id == sess.id) unordered t.sessions
          (record { value = sess; created_at = now }) sound.laws sound.up apart.0 (==_refl sess.id))
        refl

  -- A session that is not over verifies, whatever the token's claims say of a device.
  pub verify_session-added :
      (e : Draws) (c : AccessClaims) (sess : Session) (t : Tables)
      → get_session s.db sess.id t ≡ (ok sess, t)
      → is_over e.now sess ≡ false
      → verify_session s e c sess.id [] t ≡ (ok (answer_of s sess c.did true), t)
  unfolding verify_session check_device get_session
  verify_session-added e c sess t found live = rw (found, live) refl

  -- The session that Issue creates, and the tables after it.
  abbrev pub added : Draws → User → Option ℕ → Bytes → List ℕ → ℕ → Tables → Tables
  added e user device ip ua at t = record t {
    sessions =
        t.sessions ++ record { value = new_session s e user.id device ip ua; created_at = at } ∷ [];
  }

  pub of_issue :
      (e : Draws) (user : User) (device : Option ℕ) (ip : Bytes) (ua : List ℕ) (t t' : Tables)
      (tok : TokenResponse)
      → Laws s.db
      → issue s e user device ip ua t ≡ (ok tok, t')
      → (any (λ r. session_clash (new_session s e user.id device ip ua) r.value) t.sessions ≡ false)
        × (at : ℕ) × (t' ≡ added e user device ip ua at t)
        × (mint s e (new_session s e user.id device ip ua) t' ≡ (ok tok, t'))
  unfolding issue
  of_issue e user device ip ua t t' tok laws h =
      let sess : Session = new_session s e user.id device ip ua in
      let (u, t1, made, rest) = of_>>= (create_session s.db sess) (λ _. mint s e sess) t t' tok h in
      let (free, at, shape) = of_create_session s.db sess t t1 u laws made in
      let (a, r, same) = of_mint e sess t1 t' tok rest in
      (free, at, same ∙ shape, subst (λ x. mint s e sess x ≡ (ok tok, t')) (sym same) rest)

  -- What Issue for a user leaves: a new session of the user as the last row of the sessions, and
  -- tokens that are signed for the user and this session.
  pub record IsIssued (e : Draws) (user : ℕ) (device : Option ℕ) (ip : Bytes) (ua : List ℕ)
      (before after : Table Session) (tok : TokenResponse) : Type 0 where
    pub at : ℕ
    pub added :
        after ≡ before ++ record { value = new_session s e user device ip ua; created_at = at } ∷ []
    pub access :
        s.jwt.sign_access s.cfg.signing_key
          (access_claims s e user (new_session s e user device ip ua))
        ≡ some tok.access_token
    pub refresh :
        s.jwt.sign_refresh s.cfg.signing_key
          (refresh_claims s e user (new_session s e user device ip ua))
        ≡ some tok.refresh_token

  pub issue-IsIssued :
      (e : Draws) (user : User) (device : Option ℕ) (ip : Bytes) (ua : List ℕ) (t t' : Tables)
      (tok : TokenResponse)
      → Laws s.db
      → issue s e user device ip ua t ≡ (ok tok, t')
      → IsIssued e user.id device ip ua t.sessions t'.sessions tok
  issue-IsIssued e user device ip ua t t' tok laws h =
      let (free, at, shape, minted) = of_issue e user device ip ua t t' tok laws h in
      let (access, refresh, same) =
        of_mint e (new_session s e user.id device ip ua) t' t' tok minted in
      record {
        at = at;
        added = ap (λ (x : Tables). x.sessions) shape;
        access = access;
        refresh = refresh;
      }

  -- A token that the parser reads as access claims of this service names its session.
  pub read_access_lem :
      (now id : ℕ) (token : Bytes) (c : AccessClaims)
      → IsPrinted s.uuids
      → (token == []) ≡ false
      → s.jwt.parse_access s.cfg.signing_key now token ≡ some c
      → c.registered.issuer ≡ s.cfg.issuer
      → c.registered.audience ≡ s.cfg.audience ∷ []
      → c.sid ≡ s.uuids.to_string id
      → read_access s now token ≡ some (c, id)
  unfolding read_access contains_audience
  read_access_lem now id token c printed full read issuer audience sid = ground (
    arith,
    full,
    read,
    issuer,
    audience,
    ==_refl s.cfg.issuer,
    ==_refl s.cfg.audience,
    ap s.uuids.parse sid,
    printed id,
  )
