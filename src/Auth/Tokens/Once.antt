-- ===== src/Auth/Tokens/Once.antt =====
-- How often a refresh token of services/auth/internal/service/impl/token_service_impl.go can be used.
use mathlib.Core.Path.{subst}
use secu_msg_server.Common.{
  ℕ, ◌+◌, ◌≤◌, Bool, true, ◌==◌, nat_eq, list_eq, ◌&&◌, some, List, Result, ok, of_>>=,
  Result-cases, Bool-cases, Option-cases, ==_refl, ◌≡◌, ◌≢◌, sym, ap, ◌∙◌, arith, inl, inr,
}
use secu_msg_server.Bytes.{Bytes}
use secu_msg_server.Database.{Row, Laws, any, update_rows, count_rows, any_of_get_elem?}
use secu_msg_server.Database.Rows.{any-update_rows_only}
use secu_msg_server.Auth.Types.{Session, Tables, TokenResponse, AuthError}
use secu_msg_server.Auth.Store.Sessions.{is_null, rotated, rotate_session}
use secu_msg_server.Auth.Ip.{session_ip}
use secu_msg_server.Auth.UserAgent.{truncate_user_agent}
use secu_msg_server.Auth.Claims.{RefreshClaims, JwtLaws}
use secu_msg_server.Auth.Tokens.{
  TokenService, Draws, parse_refresh, is_ours, find_refreshed, rotate, rotate_row, moved_session,
  refresh, mint,
}
use secu_msg_server.Auth.Tokens.Steps.{Reach, Reach-Keeps}
use secu_msg_server.Auth.Tokens.Reads.{find_refreshed_reads}
use secu_msg_server.Auth.Tokens.Issued.{of_mint}
use secu_msg_server.Auth.Tokens.Replay.{IsUnused, unequal, of_find_refreshed, Step-IsUnused}

abbrev pub picked : ℕ → Session → Bool
picked id x = x.id == id && is_null x.revoked_at

pub of_rotate_row :
    (s : TokenService) (e : Draws) (sess : Session) (ip : Bytes) (ua : List ℕ) (t t' : Tables)
    (u : Unit {0})
    → Laws s.db
    → rotate_row s e sess ip ua t ≡ (ok u, t')
    → t' ≡ record t {
      sessions =
          update_rows
            (picked sess.id)
            (rotated e.refresh_id
              (e.now + s.cfg.refresh_ttl)
              (session_ip s.netip ip)
              (truncate_user_agent ua))
            t.sessions;
    }
unfolding rotate_session
of_rotate_row s e sess ip ua t t' u laws h =
    let f : Session → Session =
      rotated e.refresh_id (e.now + s.cfg.refresh_ttl) (session_ip s.netip ip)
        (truncate_user_agent ua) in
    elim (Result-cases (s.db.update (picked sess.id) f t.sessions)) [
      | inl (rows, done) ↦
          ground (arith, done, h, laws.updated (picked sess.id) f t.sessions rows done)
      | inr (x, failed) ↦ absurd (ground (arith, failed, h))
    ]

the : (i j : ℕ) → some i ≡ some j → i ≡ j
the i j e = ground (arith, e)

-- The identifiers drawn by the call and by the calls allowed after it are not that of the token.
pub record IsFresh (s : TokenService) (allowed : Draws → Type 0) (token : Bytes) (e : Draws)
    : Type 0 where
  pub own :
      (c : RefreshClaims) (rid : ℕ)
      → parse_refresh s e.parsed_at token ≡ some c
      → s.uuids.parse c.registered.id ≡ some rid
      → e.refresh_id ≢ rid
  pub drawn :
      (d : Draws) (c : RefreshClaims) (rid : ℕ)
      → parse_refresh s e.parsed_at token ≡ some c
      → s.uuids.parse c.registered.id ≡ some rid
      → allowed d
      → d.refresh_id ≢ rid

module _ (s : TokenService) where
  of_parse_refresh :
      (token : Bytes) (now : ℕ) (c : RefreshClaims)
      → parse_refresh s now token ≡ some c
      → s.jwt.parse_refresh s.cfg.signing_key now token ≡ some c
  unfolding parse_refresh
  of_parse_refresh token now c h =
      elim (Option-cases (s.jwt.parse_refresh s.cfg.signing_key now token)) [
        | inl unread ↦ absurd (ground (arith, unread, h))
        | inr (x, read) ↦ elim (Bool-cases (is_ours s x.registered)) [
          | inl ours ↦ read ∙ ground (arith, read, ours, h)
          | inr other ↦ absurd (ground (arith, read, other, h))
        ]
      ]

  -- What a refresh token reads as does not depend on the time.
  parse_refresh_same :
      (token : Bytes) (now later : ℕ) (c c' : RefreshClaims)
      → JwtLaws s.jwt
      → parse_refresh s now token ≡ some c
      → parse_refresh s later token ≡ some c'
      → c' ≡ c
  parse_refresh_same token now later c c' laws h h' =
      laws.refresh_same s.cfg.signing_key token now later c c' (of_parse_refresh token now c h)
        (of_parse_refresh token later c' h')

  -- A refresh leaves no session with the identifier of the token that it was given.
  refresh-IsUnused :
      (e : Draws) (token ip : Bytes) (ua : List ℕ) (t t' : Tables) (tok : TokenResponse)
      → Laws s.db
      → ((rid : ℕ) → count_rows (λ (x : Session). x.refresh_id == rid) t.sessions ≤ 1)
      → refresh s e token ip ua t ≡ (ok tok, t')
      → (c : RefreshClaims) × (rid : ℕ) × (parse_refresh s e.parsed_at token ≡ some c)
        × (s.uuids.parse c.registered.id ≡ some rid)
        × (e.refresh_id ≢ rid → IsUnused rid t')
  unfolding refresh rotate
  refresh-IsUnused e token ip ua t t' tok laws one h =
      let (sess, t1, got, rest) =
        of_>>= (find_refreshed s e token) (λ sess. rotate s e sess ip ua) t t' tok h in
      let (c, rid, row, read, named, same, (i, at, passes), live) =
        of_find_refreshed s e token t t1 sess laws got in
      let kept : t1 ≡ t =
        sym (ap (λ (x : Result AuthError Session × Tables). x.1) got)
        ∙ find_refreshed_reads s t e token in
      let (u, t2, moved, minted) =
        of_>>= (rotate_row s e sess ip ua) (λ _. mint s e (moved_session s e sess ip ua)) t1 t' tok
          rest in
      let (a, b, left) = of_mint s e (moved_session s e sess ip ua) t2 t' tok minted in
      let f : Session → Session =
        rotated e.refresh_id (e.now + s.cfg.refresh_ttl) (session_ip s.netip ip)
          (truncate_user_agent ua) in
      let shape : t'.sessions ≡ update_rows (picked sess.id) f t.sessions =
        ap (λ (x : Tables). x.sessions) left
        ∙ ap (λ (x : Tables). x.sessions) (of_rotate_row s e sess ip ua t1 t2 u laws moved)
        ∙ ap (λ (x : Tables). update_rows (picked sess.id) f x.sessions) kept in
      let hit : picked sess.id row.value ≡ true =
        subst (λ x. picked sess.id x ≡ true) (sym same) (ground (arith, live, ==_refl sess.id)) in
      (
        c,
        rid,
        read,
        named,
        λ new.
            ap (any (λ (r : Row Session). r.value.refresh_id == rid)) shape
            ∙ any-update_rows_only (λ (x : Session). x.refresh_id == rid) (picked sess.id) f
                t.sessions i row (one rid) at passes hit (λ x. unequal e.refresh_id rid new),
      )

  -- A refresh token that Refresh has taken once is not taken again, after any calls of the
  -- token service's Issue, RevokeSession and VerifyAccess, of the two halves of its Refresh
  -- apart, and of the session store's RevokeAllForUser, in any order, if the identifiers that
  -- are drawn meanwhile are not that of the token. Packages and database behave as documented,
  -- and no two sessions have one refresh identifier when the token is first used.
  pub refresh_once :
      (allowed : Draws → Type 0) (e e' : Draws) (token ip ip' : Bytes) (ua ua' : List ℕ)
      (t t1 t2 t3 : Tables) (tok tok' : TokenResponse)
      → JwtLaws s.jwt
      → Laws s.db
      → ((rid : ℕ) → count_rows (λ (x : Session). x.refresh_id == rid) t.sessions ≤ 1)
      → IsFresh s allowed token e
      → refresh s e token ip ua t ≡ (ok tok, t1)
      → Reach s allowed t1 t2
      → refresh s e' token ip' ua' t2 ≢ (ok tok', t3)
  unfolding refresh
  refresh_once allowed e e' token ip ip' ua ua' t t1 t2 t3 tok tok' jwt laws one fresh h steps
        again =
      let (c, rid, read, named, gone) = refresh-IsUnused e token ip ua t t1 tok laws one h in
      let (sess, t4, got, rest) =
        of_>>= (find_refreshed s e' token) (λ sess. rotate s e' sess ip' ua') t2 t3 tok' again in
      let (c', rid', row, read', named', same, (i, at, passes), live) =
        of_find_refreshed s e' token t2 t4 sess laws got in
      let alike = parse_refresh_same token e.parsed_at e'.parsed_at c c' jwt read read' in
      let equal : some rid' ≡ some rid =
        sym named' ∙ ap (λ (x : RefreshClaims). s.uuids.parse x.registered.id) alike ∙ named in
      let unused =
        Reach-Keeps s allowed (IsUnused rid) t1 t2
          (Step-IsUnused s allowed laws rid (λ d. fresh.drawn d c rid read named)) steps
          (gone (fresh.own c rid read named)) in
      let shown =
        any_of_get_elem? (λ (x : Row Session). x.value.refresh_id == rid) t2.sessions i row at
          (ap (λ j. row.value.refresh_id == j) (sym (the rid' rid equal)) ∙ passes) in
      ground (arith, shown, unused)
