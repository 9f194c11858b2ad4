-- ===== src/Auth/Tokens/Lasting.antt =====
-- Revocation by services/auth/internal/service/impl/token_service_impl.go lasts.
use secu_msg_server.Common.{
  Bool, ℕ, true, false, ◌==◌, nat_eq, list_eq, ◌&&◌, [], ◌∷◌, ok, Result-cases, Option-cases,
  ==_refl, ◌≡◌, ◌≢◌, refl, sym, ap, ◌∙◌, arith, inl, inr,
}
use secu_msg_server.Auth.Tokens.{is_over, TokenService, Draws, revoke_session}
use secu_msg_server.Auth.Verify.{read_access, verify_access}
use secu_msg_server.Text.{trim_space}
use secu_msg_server.Uuid.{IsPrinted, to_string_injective}
use secu_msg_server.Database.{Row, Table, Laws, update_rows, any_of_get_elem?}
use secu_msg_server.Database.Rows.{any-update_rows}
use secu_msg_server.Auth.Types.{Session, Tables, VerifyRequest, VerifyResponse}
use secu_msg_server.Auth.Store.Sessions.{
  is_null, is_session, revoked_at_time, get_session, revoke_session_row,
}
use secu_msg_server.Auth.Tokens.Steps.{Reach, Reach-Keeps}
use secu_msg_server.Auth.Tokens.Revoked.{
  has, has_live, IsRevoked, Step-IsRevoked, of_get_session, of_verify_session,
}

has_live-update_rows :
    (id at : ℕ) (t : Table Session)
    → has_live id (update_rows (is_session id) (revoked_at_time at) t) ≡ false
has_live-update_rows id at [] = refl
has_live-update_rows id at (r ∷ t) = ground (arith, has_live-update_rows id at t)

abbrev live_test : ℕ → Row Session → Bool
live_test id r = r.value.id == id && is_null r.value.revoked_at

-- The row of a session that is not over passes.
live_row :
    (now id : ℕ) (row : Row Session) (sess : Session)
    → row.value ≡ sess
    → sess.id ≡ id
    → is_over now sess ≡ false
    → live_test id row ≡ true
live_row now id row sess same is_id live =
    let alive : is_null sess.revoked_at ≡ true = ground (arith, live) in
    ground (
      arith,
      ==_refl id,
      alive,
      ap (λ (x : Session). x.id == id) same,
      ap (λ (j : ℕ). j == id) is_id,
      ap (λ (x : Session). is_null x.revoked_at) same,
    )

module _ (s : TokenService) where
  -- RevokeSession revokes a session that is there.
  IsRevoked-revoke_session :
      (e : Draws) (id : ℕ) (t t' : Tables) (u : Unit {0})
      → Laws s.db
      → has id t.sessions ≡ true
      → revoke_session s e id t ≡ (ok u, t')
      → IsRevoked id t'
  unfolding revoke_session revoke_session_row
  IsRevoked-revoke_session e id t t' u laws there h =
      elim (Result-cases (s.db.update (is_session id) (revoked_at_time e.now) t.sessions)) [
        | inl (rows, done) ↦
            let shape = laws.updated (is_session id) (revoked_at_time e.now) t.sessions rows done in
            let left : t' ≡ record t { sessions = rows } = ground (arith, done, h) in
            (
              ap (λ x. has id x.sessions) left
                  ∙ ap (has id) shape
                  ∙ any-update_rows (λ (r : Row Session). r.value.id == id) (is_session id)
                      (revoked_at_time e.now) t.sessions (λ r. refl)
                  ∙ there,
              ap (λ x. has_live id x.sessions) left
                  ∙ ap (has_live id) shape
                  ∙ has_live-update_rows id e.now t.sessions,
            )
        | inr (x, failed) ↦ absurd (ground (arith, failed, h))
      ]

  -- A session that is there and revoked stays there and revoked, after any calls of the token
  -- service's Issue, RevokeSession and VerifyAccess, of the two halves of its Refresh apart,
  -- and of the session store's RevokeAllForUser, in any order, and however they end. The
  -- database behaves as documented.
  pub Reach-IsRevoked :
      (allowed : Draws → Type 0) (id : ℕ) (t t' : Tables)
      → Laws s.db
      → Reach s allowed t t'
      → IsRevoked id t
      → IsRevoked id t'
  Reach-IsRevoked allowed id t t' laws steps h =
      Reach-Keeps s allowed (IsRevoked id) t t' (Step-IsRevoked s allowed laws id) steps h

  -- A token that is valid is not of a session that is revoked.
  valid-IsRevoked :
      (e : Draws) (id : ℕ) (req : VerifyRequest) (t t' : Tables) (r : VerifyResponse)
      → IsPrinted s.uuids
      → Laws s.db
      → IsRevoked id t
      → verify_access s e req t ≡ (ok r, t')
      → r.valid ≡ true
      → r.session_id ≢ s.uuids.to_string id
  unfolding verify_access
  valid-IsRevoked e id req t t' r printed laws dead h valid names =
      elim (Option-cases (read_access s e.parsed_at (trim_space req.token))) [
        | inl unread ↦ absurd (ground (arith, unread, h, valid))
        | inr ((c, sid), read) ↦
            let (sess, got, live, named) =
              of_verify_session s e c sid (trim_space req.device_id) t t' r
                (ground (arith, read, h)) valid in
            let (row, same, (i, at, passes)) =
              of_get_session s.db sid t (get_session s.db sid t).1 sess laws got in
            let is_id : sess.id ≡ id =
              to_string_injective s.uuids printed sess.id id (sym named ∙ names) in
            let shown =
              any_of_get_elem? (live_test id) t.sessions i row at
                (live_row e.now id row sess same is_id live) in
            ground (arith, shown, dead.1)
      ]

  -- Once RevokeSession has succeeded on a session that was there, VerifyAccess never answers
  -- that a token of that session is valid, after any calls of the token service's Issue,
  -- RevokeSession and VerifyAccess, of the two halves of its Refresh apart, and of the session
  -- store's RevokeAllForUser, in any order. The database behaves as documented, and a printed
  -- identifier is read back.
  pub verify_access-revoke_session :
      (allowed : Draws → Type 0) (e e' : Draws) (id : ℕ) (req : VerifyRequest) (t t1 t2 t3 : Tables)
      (u : Unit {0}) (r : VerifyResponse)
      → IsPrinted s.uuids
      → Laws s.db
      → has id t.sessions ≡ true
      → revoke_session s e id t ≡ (ok u, t1)
      → Reach s allowed t1 t2
      → verify_access s e' req t2 ≡ (ok r, t3)
      → r.valid ≡ true
      → r.session_id ≢ s.uuids.to_string id
  verify_access-revoke_session allowed e e' id req t t1 t2 t3 u r printed laws there done steps h
        valid =
      valid-IsRevoked e' id req t2 t3 r printed laws
        (Reach-IsRevoked allowed id t1 t2 laws steps
          (IsRevoked-revoke_session e id t t1 u laws there done))
        h valid
