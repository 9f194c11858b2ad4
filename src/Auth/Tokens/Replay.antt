-- ===== src/Auth/Tokens/Replay.antt =====
-- Refresh tokens of services/auth/internal/service/impl/token_service_impl.go that are used again.
use mathlib.Core.Path.{subst}
use secu_msg_server.Common.{
  ℕ, ◌+◌, Bool, false, ◌==◌, nat_eq, list_eq, ◌&&◌, none, some, List, [], ◌∷◌, ◌++◌, ok, Keeps,
  Keeps->>, Result-cases, Bool-cases, Option-cases, eq_of_==, ◌≡◌, ◌≢◌, sym, ap, ◌∙◌, arith, inl,
  inr,
}
use secu_msg_server.Bytes.{Bytes}
use secu_msg_server.Database.{Row, Table, Gorm, Laws, any, update_rows, any-append}
use secu_msg_server.Database.Rows.{Found, any-update_rows_none}
use secu_msg_server.Auth.Types.{Session, Tables, AuthError}
use secu_msg_server.Auth.Store.Sessions.{
  is_null, is_session, is_live_of, revoked_at_time, rotated, unordered, session_clash,
  create_session, get_by_refresh_id, revoke_session_row, revoke_all_sessions, rotate_session,
}
use secu_msg_server.Auth.Ip.{session_ip}
use secu_msg_server.Auth.UserAgent.{truncate_user_agent}
use secu_msg_server.Auth.Claims.{RefreshClaims}
use secu_msg_server.Auth.Tokens.{
  TokenService, Draws, is_over, parse_refresh, find_refreshed, rotate, rotate_row, moved_session,
  issue, mint, new_session, revoke_session,
}
use secu_msg_server.Auth.Tokens.Steps.{
  Step, issued, found, rotated_to, revoked, revoked_all, verified,
}
use secu_msg_server.Auth.Tokens.Reads.{mint_reads, find_refreshed_reads, verify_access_reads}

-- No session has the refresh identifier.
abbrev pub IsUnused : ℕ → Tables → Type 0
IsUnused rid t = any (λ (r : Row Session). r.value.refresh_id == rid) t.sessions ≡ false

module _ (s : TokenService) where
  -- A session that a refresh token finds has its identifier, and is not over.
  pub of_find_refreshed :
      (e : Draws) (token : Bytes) (t t' : Tables) (sess : Session)
      → Laws s.db
      → find_refreshed s e token t ≡ (ok sess, t')
      → (c : RefreshClaims) × (rid : ℕ) × (r : Row Session) × (parse_refresh s e.parsed_at token
          ≡ some c)
        × (s.uuids.parse c.registered.id ≡ some rid)
        × (r.value ≡ sess)
        × Found (λ x. x.value.refresh_id == rid) t.sessions r
        × (is_over e.now sess ≡ false)
  unfolding find_refreshed get_by_refresh_id
  of_find_refreshed e token t t' sess laws h =
      elim (Option-cases (parse_refresh s e.parsed_at token)) [
        | inl unread ↦ absurd (ground (arith, unread, h))
        | inr (c, read) ↦ elim (Option-cases (s.uuids.parse c.registered.id)) [
          | inl bad ↦ absurd (ground (arith, read, bad, h))
          | inr (rid, named) ↦
              elim (Result-cases (
                s.db.first (λ (r : Row Session). r.value.refresh_id == rid) unordered t.sessions)) [
                  | inl (none, got) ↦ absurd (ground (arith, read, named, got, h))
                  | inl (some r, got) ↦ elim (Bool-cases (is_over e.now r.value)) [
                    | inl over ↦ absurd (ground (arith, read, named, got, over, h))
                    | inr live ↦
                        let same : r.value ≡ sess = ground (arith, read, named, got, live, h) in
                        (
                          c,
                          rid,
                          r,
                          read,
                          named,
                          same,
                          laws.first_found (λ (x : Row Session). x.value.refresh_id == rid)
                              unordered t.sessions r got,
                          ap (is_over e.now) (sym same) ∙ live,
                        )
                  ]
                  | inr (x, got) ↦ absurd (ground (arith, read, named, got, h))
                ]
        ]
      ]

pub unequal : (i j : ℕ) → i ≢ j → (i == j) ≡ false
unequal i j differ = elim (Bool-cases (i == j)) [
  | inl same ↦ absurd (differ (eq_of_== i j same))
  | inr other ↦ other
]

module _ (g : Gorm AuthError) (laws : Laws g) (rid : ℕ) where
  -- An update that gives no session the identifier.
  IsUnused-update_rows :
      (pick : Session → Bool) (f : Session → Session) (t : Tables) (rows : Table Session)
      → ((x : Session) → (x.refresh_id == rid) ≡ false → ((f x).refresh_id == rid) ≡ false)
      → rows ≡ update_rows pick f t.sessions
      → IsUnused rid t
      → IsUnused rid (record t { sessions = rows })
  IsUnused-update_rows pick f t rows keep e h =
      ap (any (λ (r : Row Session). r.value.refresh_id == rid)) e
      ∙ any-update_rows_none (λ (r : Row Session). r.value.refresh_id == rid) pick f t.sessions
          (λ r. keep r.value) h

  IsUnused-create_session :
      (sess : Session) → sess.refresh_id ≢ rid → Keeps (IsUnused rid) (create_session g sess)
  unfolding create_session
  IsUnused-create_session sess other t h =
      elim (Result-cases (g.insert session_clash sess t.sessions)) [
        | inl (rows, done) ↦
            let (free, now, added) = laws.inserted session_clash sess t.sessions rows done in
            let row : Row Session = record { value = sess; created_at = now } in
            let shape : (create_session g sess t).1
                ≡ record t { sessions = t.sessions ++ row ∷ [] } =
              ground (arith, done, added) in
            subst (IsUnused rid) (sym shape) (
              ground (
                arith,
                any-append (λ (r : Row Session). r.value.refresh_id == rid) t.sessions (row ∷ []),
                h,
                unequal sess.refresh_id rid other,
              ))
        | inr (x, failed) ↦ rw failed h
      ]

  IsUnused-rotate_session :
      (i new at : ℕ) (ip : Bytes) (ua : List ℕ)
      → new ≢ rid
      → Keeps (IsUnused rid) (rotate_session g i new at ip ua)
  unfolding rotate_session
  IsUnused-rotate_session i new at ip ua other t h =
      elim (Result-cases
        (g.update (λ s. s.id == i && is_null s.revoked_at) (rotated new at ip ua) t.sessions)) [
          | inl (rows, done) ↦ rw done (
              IsUnused-update_rows (λ s. s.id == i && is_null s.revoked_at) (rotated new at ip ua) t
                rows (λ x e. unequal new rid other)
                (laws.updated (λ s. s.id == i && is_null s.revoked_at) (rotated new at ip ua)
                  t.sessions rows done)
                h)
          | inr (x, failed) ↦ rw failed h
        ]

  IsUnused-revoke_session_row : (i at : ℕ) → Keeps (IsUnused rid) (revoke_session_row g i at)
  unfolding revoke_session_row
  IsUnused-revoke_session_row i at t h =
      elim (Result-cases (g.update (is_session i) (revoked_at_time at) t.sessions)) [
        | inl (rows, done) ↦ rw done (
            IsUnused-update_rows (is_session i) (revoked_at_time at) t rows (λ x e. e)
              (laws.updated (is_session i) (revoked_at_time at) t.sessions rows done) h)
        | inr (x, failed) ↦ rw failed h
      ]

  IsUnused-revoke_all_sessions :
      (user at : ℕ) → Keeps (IsUnused rid) (revoke_all_sessions g user at)
  unfolding revoke_all_sessions
  IsUnused-revoke_all_sessions user at t h =
      elim (Result-cases (g.update_counted (is_live_of user) (revoked_at_time at) t.sessions)) [
        | inl ((n, rows), done) ↦ rw done (
            IsUnused-update_rows (is_live_of user) (revoked_at_time at) t rows (λ x e. e)
              (laws.updated_counted (is_live_of user) (revoked_at_time at) n t.sessions rows done).1
              h)
        | inr (x, failed) ↦ rw failed h
      ]

module _ (s : TokenService) (allowed : Draws → Type 0) (laws : Laws s.db) (rid : ℕ) where
  IsUnused-mint : (e : Draws) (sess : Session) → Keeps (IsUnused rid) (mint s e sess)
  IsUnused-mint e sess t h = subst (IsUnused rid) (sym (mint_reads s t e sess)) h

  pub Step-IsUnused :
      ((e : Draws) → allowed e → e.refresh_id ≢ rid)
      → (a b : Tables) → Step s allowed a b
      → IsUnused rid a
      → IsUnused rid b
  unfolding issue rotate revoke_session
  Step-IsUnused new _ _ (issued e user device ip ua t fresh) h =
      let sess : Session = new_session s e user.id device ip ua in
      Keeps->> (IsUnused rid) (create_session s.db sess) (mint s e sess)
        (IsUnused-create_session s.db laws rid sess (new e fresh)) (IsUnused-mint e sess) t h
  Step-IsUnused new _ _ (found e token t) h =
      subst (IsUnused rid) (sym (find_refreshed_reads s t e token)) h
  Step-IsUnused new _ _ (rotated_to e sess ip ua t fresh) h =
      Keeps->> (IsUnused rid) (rotate_row s e sess ip ua) (mint s e (moved_session s e sess ip ua))
        (IsUnused-rotate_session s.db laws rid sess.id e.refresh_id (e.now + s.cfg.refresh_ttl)
          (session_ip s.netip ip) (truncate_user_agent ua) (new e fresh))
        (IsUnused-mint e (moved_session s e sess ip ua)) t h
  Step-IsUnused new _ _ (revoked e i t) h = IsUnused-revoke_session_row s.db laws rid i e.now t h
  Step-IsUnused new _ _ (revoked_all user at t) h =
      IsUnused-revoke_all_sessions s.db laws rid user at t h
  Step-IsUnused new _ _ (verified e req t) h =
      subst (IsUnused rid) (sym (verify_access_reads s t e req)) h
