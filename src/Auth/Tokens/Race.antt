-- ===== src/Auth/Tokens/Race.antt =====
-- Two calls of Refresh of services/auth/internal/service/impl/token_service_impl.go at once.
use secu_msg_server.Common.{
  ℕ, ◌+◌, ◌/◌, ◌^◌, false, ◌==◌, nat_eq, List, [], ◌∷◌, ok, >>=-ok, Bool-cases, ◌≡◌, ◌≢◌, refl, ap,
  ◌∙◌, arith, inl, inr,
}
use secu_msg_server.Bytes.{Bytes}
use secu_msg_server.Database.{Row, Table, Laws, IsUp, any, update_rows}
use secu_msg_server.Auth.Types.{Session, Tables, TokenResponse}
use secu_msg_server.Auth.Store.Sessions.{rotated, rotate_session}
use secu_msg_server.Auth.Ip.{session_ip}
use secu_msg_server.Auth.UserAgent.{truncate_user_agent}
use secu_msg_server.Auth.Claims.{Signs}
use secu_msg_server.Auth.Tokens.{
  TokenService, Draws, find_refreshed, rotate, rotate_row, moved_session, refresh, mint,
  access_claims, refresh_claims,
}
use secu_msg_server.Auth.Tokens.Replay.{IsUnused, unequal}
use secu_msg_server.Auth.Tokens.Once.{picked, of_rotate_row}

-- Of two updates of the same rows, the second one's identifier stays.
any-update_rows_twice :
    (id i : ℕ) (f g : Session → Session) (t : Table Session)
    → ((x : Session) → picked id (f x) ≡ picked id x)
    → ((x : Session) → ((g x).refresh_id == i) ≡ false)
    → any (λ r. r.value.refresh_id == i) t ≡ false
    → any (λ r. r.value.refresh_id == i) (update_rows (picked id) g (update_rows (picked id) f t))
      ≡ false
any-update_rows_twice id i f g [] same gone h = refl
any-update_rows_twice id i f g (r ∷ t) same gone h =
    let rest = any-update_rows_twice id i f g t same gone (ground (arith, h)) in
    elim (Bool-cases (picked id r.value)) [
      | inl hit ↦ ground (arith, hit, same r.value, gone (f r.value), rest)
      | inr miss ↦ ground (arith, miss, h, rest)
    ]

module _ (s : TokenService) (up : IsUp s.db) (signs : Signs s.jwt) where
  pub mint-signed :
      (e : Draws) (sess : Session) (t : Tables)
      → (tok : TokenResponse) × (mint s e sess t ≡ (ok tok, t))
  unfolding mint
  mint-signed e sess t =
      let (a, signed_a) =
        signs.access_signed s.cfg.signing_key (access_claims s e sess.user_id sess) in
      let (r, signed_r) =
        signs.refresh_signed s.cfg.signing_key (refresh_claims s e sess.user_id sess) in
      let tok : TokenResponse = record {
        access_token = a;
        refresh_token = r;
        expires_in = s.cfg.access_ttl / 10 ^ 9;
      } in
      (tok, rw (signed_a, signed_r) refl)

  -- The second half of Refresh gives tokens whatever became of the session.
  rotate-unchecked :
      (e : Draws) (sess : Session) (ip : Bytes) (ua : List ℕ) (t : Tables)
      → (tok : TokenResponse) × (t' : Tables) × (rotate_row s e sess ip ua t ≡ (ok tt, t'))
        × (rotate s e sess ip ua t ≡ (ok tok, t'))
  unfolding rotate rotate_session
  rotate-unchecked e sess ip ua t =
      let f : Session → Session =
        rotated e.refresh_id (e.now + s.cfg.refresh_ttl) (session_ip s.netip ip)
          (truncate_user_agent ua) in
      let (rows, done) = up.update_ok (picked sess.id) f t.sessions in
      let t' : Tables = record t { sessions = rows } in
      let (tok, minted) = mint-signed e (moved_session s e sess ip ua) t' in
      let moved : rotate_row s e sess ip ua t ≡ (ok tt, t') = rw done refl in
      (
        tok,
        t',
        moved,
        >>=-ok (rotate_row s e sess ip ua) (λ _. mint s e (moved_session s e sess ip ua)) t t' tt
              moved
            ∙ minted,
      )

  -- Two calls of Refresh with one token both succeed if both read the session before one of them
  -- rotates it: the first one ends with tokens, and the second one then ends with tokens as well; and
  -- then no session has the refresh identifier of the first one's tokens, if none had it before and
  -- the two draw different ones. The database behaves as documented, no statement fails, and signing
  -- succeeds.
  pub refresh_race :
      (e e' : Draws) (token ip ip' : Bytes) (ua ua' : List ℕ) (sess : Session) (t : Tables)
      → Laws s.db
      → find_refreshed s e token t ≡ (ok sess, t)
      → e'.refresh_id ≢ e.refresh_id
      → IsUnused e.refresh_id t
      → (tok : TokenResponse) × (t1 : Tables) × (tok' : TokenResponse) × (t2 : Tables) × (refresh s
            e token ip ua t
          ≡ (ok tok, t1))
        × (rotate s e' sess ip' ua' t1 ≡ (ok tok', t2))
        × IsUnused e.refresh_id t2
  unfolding refresh
  refresh_race e e' token ip ip' ua ua' sess t laws found apart free =
      let (tok, t1, moved, first) = rotate-unchecked e sess ip ua t in
      let (tok', t2, moved', second) = rotate-unchecked e' sess ip' ua' t1 in
      let f : Session → Session =
        rotated e.refresh_id (e.now + s.cfg.refresh_ttl) (session_ip s.netip ip)
          (truncate_user_agent ua) in
      let g : Session → Session =
        rotated e'.refresh_id (e'.now + s.cfg.refresh_ttl) (session_ip s.netip ip')
          (truncate_user_agent ua') in
      let shape = of_rotate_row s e sess ip ua t t1 tt laws moved in
      let shape' = of_rotate_row s e' sess ip' ua' t1 t2 tt laws moved' in
      (
        tok,
        t1,
        tok',
        t2,
        >>=-ok (find_refreshed s e token) (λ x. rotate s e x ip ua) t t sess found ∙ first,
        second,
        ap
              (λ (x : Tables).
                any (λ (r : Row Session). r.value.refresh_id == e.refresh_id) x.sessions)
              shape'
            ∙ ap
                (λ (x : Tables).
                  any (λ (r : Row Session). r.value.refresh_id == e.refresh_id)
                    (update_rows (picked sess.id) g x.sessions))
                shape
            ∙ any-update_rows_twice sess.id e.refresh_id f g t.sessions (λ x. refl)
                (λ x. unequal e'.refresh_id e.refresh_id apart) free,
      )
