-- ===== src/Auth/Tokens/Revoked.antt =====
-- A session of services/auth that has been revoked.
use mathlib.Core.Path.{subst}
use secu_msg_server.Auth.Verify.{check_device, is_gorm_missing, verify_session}
use secu_msg_server.Common.{
  ℕ, Bool, true, false, ◌==◌, nat_eq, list_eq, ◌&&◌, none, some, List, [], ◌∷◌, ◌++◌, ok, Keeps,
  Keeps->>, ◌+◌, Result-cases, Bool-cases, eq_of_==, ◌≡◌, refl, sym, ap, ◌∙◌, arith, inl, inr,
}
use secu_msg_server.Bytes.{Bytes}
use secu_msg_server.Database.{Row, Table, Gorm, Laws, any, update_rows, any-append}
use secu_msg_server.Database.Rows.{Found, any-of_or, any-update_rows, any-update_rows_none}
use secu_msg_server.Auth.Types.{Session, Tables, VerifyResponse, AuthError}
use secu_msg_server.Auth.Claims.{AccessClaims}
use secu_msg_server.Auth.Store.Sessions.{
  is_null, is_session, revoked_at_time, is_live_of, session_clash, rotated, create_session,
  revoke_session_row, rotate_session, revoke_all_sessions, get_session, unordered,
}
use secu_msg_server.Auth.Ip.{session_ip}
use secu_msg_server.Auth.UserAgent.{truncate_user_agent}
use secu_msg_server.Auth.Tokens.{
  TokenService, Draws, issue, mint, rotate, revoke_session, new_session, rotate_row, moved_session,
  is_over,
}
use secu_msg_server.Auth.Tokens.Steps.{
  Step, issued, found, rotated_to, revoked, revoked_all, verified,
}
use secu_msg_server.Auth.Tokens.Reads.{mint_reads, find_refreshed_reads, verify_access_reads}

-- The table has a row of the session.
abbrev pub has : ℕ → Table Session → Bool
has id = any (λ r. r.value.id == id)

-- The table has a row of the session that is not revoked.
abbrev pub has_live : ℕ → Table Session → Bool
has_live id = any (λ r. r.value.id == id && is_null r.value.revoked_at)

-- The session is there, and revoked.
abbrev pub IsRevoked : ℕ → Tables → Type 0
IsRevoked id t = (has id t.sessions ≡ true) × (has_live id t.sessions ≡ false)

-- An update that leaves identifiers alone and makes no session live again.
IsRevoked-update_rows :
    (id : ℕ) (pick : Session → Bool) (f : Session → Session) (t : Tables) (rows : Table Session)
    → ((x : Session) → (f x).id ≡ x.id)
    → ((x : Session) → is_null x.revoked_at ≡ false → is_null (f x).revoked_at ≡ false)
    → rows ≡ update_rows pick f t.sessions
    → IsRevoked id t
    → IsRevoked id (record t { sessions = rows })
IsRevoked-update_rows id pick f t rows same_id dead e (there, shut) = (
  ap (has id) e
      ∙ any-update_rows (λ (r : Row Session). r.value.id == id) pick f t.sessions
          (λ r. ap (λ i. i == id) (same_id r.value))
      ∙ there,
  ap (has_live id) e
      ∙ any-update_rows_none (λ (r : Row Session). r.value.id == id && is_null r.value.revoked_at)
          pick f t.sessions (λ r h. ground (arith, same_id r.value, dead r.value, h)) shut,
)

-- A new session never has the identifier of one that is there.
IsRevoked-append :
    (id now : ℕ) (sess : Session) (t : Tables)
    → any (λ r. session_clash sess r.value) t.sessions ≡ false
    → IsRevoked id t
    → IsRevoked id
        (record t { sessions = t.sessions ++ record { value = sess; created_at = now } ∷ [] })
IsRevoked-append id now sess t free (there, shut) =
    let other : (sess.id == id) ≡ false = elim (Bool-cases (sess.id == id)) [
      | inl same ↦
          let apart =
            any-of_or (λ (r : Row Session). r.value.id == sess.id)
              (λ r. r.value.refresh_id == sess.refresh_id) t.sessions free in
          absurd
            (ground (arith, apart.0, there, ap (λ j. has j t.sessions) (eq_of_== sess.id id same)))
      | inr differs ↦ differs
    ] in
    let row : Row Session = record { value = sess; created_at = now } in
    (
      ground
          (arith, any-append (λ (r : Row Session). r.value.id == id) t.sessions (row ∷ []), there),
      ground (
        arith,
        any-append (λ (r : Row Session). r.value.id == id && is_null r.value.revoked_at) t.sessions
            (row ∷ []),
        shut,
        other,
      ),
    )

module _ (g : Gorm AuthError) (laws : Laws g) (id : ℕ) where
  Keeps-create_session : (sess : Session) → Keeps (IsRevoked id) (create_session g sess)
  unfolding create_session
  Keeps-create_session sess t h = elim (Result-cases (g.insert session_clash sess t.sessions)) [
    | inl (rows, done) ↦
        let (free, now, added) = laws.inserted session_clash sess t.sessions rows done in
        let shape : (create_session g sess t).1
            ≡ record t { sessions = t.sessions ++ record { value = sess; created_at = now } ∷ [] } =
          ground (arith, done, added) in
        subst (IsRevoked id) (sym shape) (IsRevoked-append id now sess t free h)
    | inr (x, failed) ↦ rw failed h
  ]

  Keeps-rotate_session :
      (i rid at : ℕ) (ip : Bytes) (ua : List ℕ)
      → Keeps (IsRevoked id) (rotate_session g i rid at ip ua)
  unfolding rotate_session
  Keeps-rotate_session i rid at ip ua t h =
      elim (Result-cases
        (g.update (λ s. s.id == i && is_null s.revoked_at) (rotated rid at ip ua) t.sessions)) [
          | inl (rows, done) ↦ rw done (
              IsRevoked-update_rows id (λ s. s.id == i && is_null s.revoked_at)
                (rotated rid at ip ua) t rows (λ x. refl) (λ x dead. dead)
                (laws.updated (λ s. s.id == i && is_null s.revoked_at) (rotated rid at ip ua)
                  t.sessions rows done)
                h)
          | inr (x, failed) ↦ rw failed h
        ]

  Keeps-revoke_session_row : (i at : ℕ) → Keeps (IsRevoked id) (revoke_session_row g i at)
  unfolding revoke_session_row
  Keeps-revoke_session_row i at t h =
      elim (Result-cases (g.update (is_session i) (revoked_at_time at) t.sessions)) [
        | inl (rows, done) ↦ rw done (
            IsRevoked-update_rows id (is_session i) (revoked_at_time at) t rows (λ x. refl)
              (λ x dead. refl)
              (laws.updated (is_session i) (revoked_at_time at) t.sessions rows done) h)
        | inr (x, failed) ↦ rw failed h
      ]

  Keeps-revoke_all_sessions : (user at : ℕ) → Keeps (IsRevoked id) (revoke_all_sessions g user at)
  unfolding revoke_all_sessions
  Keeps-revoke_all_sessions user at t h =
      elim (Result-cases (g.update_counted (is_live_of user) (revoked_at_time at) t.sessions)) [
        | inl ((n, rows), done) ↦ rw done (
            IsRevoked-update_rows id (is_live_of user) (revoked_at_time at) t rows (λ x. refl)
              (λ x dead. refl)
              (laws.updated_counted (is_live_of user) (revoked_at_time at) n t.sessions rows done).1
              h)
        | inr (x, failed) ↦ rw failed h
      ]

module _ (s : TokenService) (allowed : Draws → Type 0) (laws : Laws s.db) (id : ℕ) where
  Keeps-mint : (e : Draws) (sess : Session) → Keeps (IsRevoked id) (mint s e sess)
  Keeps-mint e sess t h = subst (IsRevoked id) (sym (mint_reads s t e sess)) h

  pub Step-IsRevoked : (a b : Tables) → Step s allowed a b → IsRevoked id a → IsRevoked id b
  unfolding issue rotate revoke_session
  Step-IsRevoked _ _ (issued e user device ip ua t fresh) h =
      let sess : Session = new_session s e user.id device ip ua in
      Keeps->> (IsRevoked id) (create_session s.db sess) (mint s e sess)
        (Keeps-create_session s.db laws id sess) (Keeps-mint e sess) t h
  Step-IsRevoked _ _ (found e token t) h =
      subst (IsRevoked id) (sym (find_refreshed_reads s t e token)) h
  Step-IsRevoked _ _ (rotated_to e sess ip ua t fresh) h =
      Keeps->> (IsRevoked id) (rotate_row s e sess ip ua) (mint s e (moved_session s e sess ip ua))
        (Keeps-rotate_session s.db laws id sess.id e.refresh_id (e.now + s.cfg.refresh_ttl)
          (session_ip s.netip ip) (truncate_user_agent ua))
        (Keeps-mint e (moved_session s e sess ip ua)) t h
  Step-IsRevoked _ _ (revoked e i t) h = Keeps-revoke_session_row s.db laws id i e.now t h
  Step-IsRevoked _ _ (revoked_all user at t) h = Keeps-revoke_all_sessions s.db laws id user at t h
  Step-IsRevoked _ _ (verified e req t) h =
      subst (IsRevoked id) (sym (verify_access_reads s t e req)) h

-- A session that a query by identifier finds is a row of the table.
pub of_get_session :
    (g : Gorm AuthError) (id : ℕ) (t t' : Tables) (sess : Session)
    → Laws g
    → get_session g id t ≡ (ok sess, t')
    → (r : Row Session) × (r.value ≡ sess) × Found (λ x. x.value.id == id) t.sessions r
unfolding get_session
of_get_session g id t t' sess laws e =
    elim (Result-cases (g.first (λ (r : Row Session). r.value.id == id) unordered t.sessions)) [
      | inl (none, got) ↦ absurd (ground (arith, got, e))
      | inl (some r, got) ↦ (
        r,
        ground (arith, got, e),
        laws.first_found (λ (x : Row Session). x.value.id == id) unordered t.sessions r got,
      )
      | inr (x, got) ↦ absurd (ground (arith, got, e))
    ]

module _ (s : TokenService) where
  -- An answer that a token is valid is about a session that was read and is not over.
  pub of_verify_session :
      (e : Draws) (c : AccessClaims) (id : ℕ) (name : Bytes) (t t' : Tables) (r : VerifyResponse)
      → verify_session s e c id name t ≡ (ok r, t')
      → r.valid ≡ true
      → (sess : Session) × (get_session s.db id t ≡ (ok sess, (get_session s.db id t).1))
        × (is_over e.now sess ≡ false)
        × (r.session_id ≡ s.uuids.to_string sess.id)
  unfolding verify_session
  of_verify_session e c id name t t' r h valid =
      let t1 : Tables = (get_session s.db id t).1 in
      elim (Result-cases (get_session s.db id t).0) [
        | inl (sess, got) ↦ elim (Bool-cases (is_over e.now sess)) [
          | inl over ↦ absurd (ground (arith, got, over, h, valid))
          | inr live ↦ elim (Result-cases (check_device s sess c.did name t1).0) [
            | inl (b, checked) ↦
                (sess, ground (arith, got), live, ground (arith, got, live, checked, h))
            | inr (x, failed) ↦ absurd (ground (arith, got, live, failed, h))
          ]
        ]
        | inr (x, failed) ↦ elim (Bool-cases (is_gorm_missing x)) [
          | inl missing ↦ absurd (ground (arith, failed, missing, h, valid))
          | inr other ↦ absurd (ground (arith, failed, other, h))
        ]
      ]
